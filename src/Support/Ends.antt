-- ===== src/Support/Ends.antt =====
-- `readn`, `writen` and `readline` on every lawful socket, one whose calls fail included: they end, and
-- add nothing to the stream.
use esif_client_server.Common.{
  ℕ, zero, suc, ◌+◌, ◌-◌, ◌≤◌, ◌<◌, ◌≡◌, refl, ap, inl, inr, Bool, true, false, [], ◌∷◌, ◌++◌,
  length, length-append, length-drop, drop, Bytes, arith, Bool-cases,
}
use esif_client_server.Socket.{Socket, Errno, is_eintr, IsLawful, Answer-cases, failed, unsent}
use esif_client_server.Support.{
  Conn, Io, done, error, out_of_fuel, readn_loop, readn, writen_loop, writen,
}
use esif_client_server.Support.Reading.{readn_loop-got_nil, readn_loop-got, readn_loop-eintr}
use esif_client_server.Support.Writing.{Sent-cases, writen_loop-wrote, writen_loop-eintr}

abbrev pub is_out {ℓ} : {A : Type ℓ} → Io A → Bool
is_out (done a) = false
is_out error = false
is_out out_of_fuel = true

-- How many bytes a connection can still give.
abbrev pub left : {S : Socket} → Conn S → ℕ
left {S} c = length c.rl + length (S.incoming c.sock)

-- The fuel was enough, and the stream has not grown.
pub record Ends {S : Socket} {A : Type 0} (c : Conn S) (r : Io A × Conn S) : Type 0 where
  pub not_out : is_out r.0 ≡ false
  pub less : left r.1 ≤ left c

module _ {S : Socket} where
  readn_loop-failed :
      (fuel k : ℕ) (bytes : Bytes) (c : Conn S) (x : Errno)
      → (S.read (suc k) c.sock).0 ≡ failed x
      → is_eintr x ≡ false
      → readn_loop (suc fuel) (suc k) bytes c
        ≡ (error, record c { sock = (S.read (suc k) c.sock).1; errno = x })
  unfolding readn_loop
  readn_loop-failed fuel k bytes c x e i = rw (e, readn_loop) (rw i refl)

  writen_loop-failed :
      (fuel b : ℕ) (bs : Bytes) (c : Conn S) (x : Errno)
      → (S.write (b ∷ bs) c.sock).0 ≡ unsent x
      → is_eintr x ≡ false
      → writen_loop (suc fuel) (b ∷ bs) c
        ≡ (error, record c { sock = (S.write (b ∷ bs) c.sock).1; errno = x })
  unfolding writen_loop
  writen_loop-failed fuel b bs c x e i = rw (e, writen_loop) (rw i refl)

module _ {S : Socket} (L : IsLawful S) where
  readn_loop-Ends :
      (fuel nleft : ℕ) (bytes : Bytes) (c : Conn S)
      → nleft + S.patience c.sock < fuel
      → Ends c (readn_loop fuel nleft bytes c)
  readn_loop-Ends zero nleft bytes c h = absurd (omega arith)
  readn_loop-Ends (suc fuel) zero bytes c h =
      unfold readn_loop in record { not_out = refl; less = omega arith }
  readn_loop-Ends (suc fuel) (suc k) bytes c h = elim (Answer-cases (S.read (suc k) c.sock).0) [
    | inl e ↦
        let (split, _, _, _) = rw e at (L.read_law (suc k) c.sock) in
        rw (readn_loop-got_nil fuel k bytes c e)
          (record { not_out = refl; less = omega (arith, ap length split) })
    | inr (inl (b, bs, e)) ↦
        let (split, fits, calm, _) = rw e at (L.read_law (suc k) c.sock) in
        let r =
          readn_loop-Ends fuel (suc k - length (b ∷ bs)) (bytes ++ b ∷ bs)
            (record c { sock = (S.read (suc k) c.sock).1 }) (omega arith) in
        rw (readn_loop-got fuel k bytes c b bs e) (record {
          not_out = r.not_out;
          less = omega (
            arith,
            r.less,
            ap length split,
            length-append (b ∷ bs) (S.incoming (S.read (suc k) c.sock).1),
          );
        })
    | inr (inr (x, e)) ↦ elim (Bool-cases (is_eintr x)) [
      | inl i ↦
          let (same, calm) = rw (e, i) at (L.read_law (suc k) c.sock) in
          let r =
            readn_loop-Ends fuel (suc k) bytes
              (record c { sock = (S.read (suc k) c.sock).1; errno = x }) (omega arith) in
          rw (readn_loop-eintr fuel k bytes c x e i)
            (record { not_out = r.not_out; less = omega (arith, r.less, ap length same) })
      | inr i ↦
          let (same, calm) = rw (e, i) at (L.read_law (suc k) c.sock) in
          rw (readn_loop-failed fuel k bytes c x e i)
            (record { not_out = refl; less = omega (arith, ap length same) })
    ]
  ]

  pub readn-Ends : (n : ℕ) (c : Conn S) → Ends c (readn n c)
  unfolding readn
  readn-Ends n c = readn_loop-Ends (n + S.patience c.sock + 1) n [] c (omega arith)

  writen_loop-Ends :
      (fuel : ℕ) (bytes : Bytes) (c : Conn S)
      → length bytes + S.patience c.sock < fuel
      → Ends c (writen_loop fuel bytes c)
  writen_loop-Ends zero bytes c h = absurd (omega arith)
  writen_loop-Ends (suc fuel) [] c h =
      unfold writen_loop in record { not_out = refl; less = omega arith }
  writen_loop-Ends (suc fuel) (b ∷ bs) c h = elim (Sent-cases (S.write (b ∷ bs) c.sock).0) [
    | inl e ↦ absurd (omega (arith, (rw e at (L.write_law (b ∷ bs) c.sock)).1))
    | inr (inl (k, e)) ↦
        let (sends, _, fits, same, calm) = rw e at (L.write_law (b ∷ bs) c.sock) in
        let r =
          writen_loop-Ends fuel (drop k bs) (record c { sock = (S.write (b ∷ bs) c.sock).1 })
            (omega (arith, length-drop k bs)) in
        rw (writen_loop-wrote fuel b bs c k e)
          (record { not_out = r.not_out; less = omega (arith, r.less, ap length same) })
    | inr (inr (x, e)) ↦ elim (Bool-cases (is_eintr x)) [
      | inl i ↦
          let (_, same, calm) = rw (e, i) at (L.write_law (b ∷ bs) c.sock) in
          let r =
            writen_loop-Ends fuel (b ∷ bs)
              (record c { sock = (S.write (b ∷ bs) c.sock).1; errno = x }) (omega arith) in
          rw (writen_loop-eintr fuel b bs c x e i)
            (record { not_out = r.not_out; less = omega (arith, r.less, ap length same) })
      | inr i ↦
          let (_, same, calm) = rw (e, i) at (L.write_law (b ∷ bs) c.sock) in
          rw (writen_loop-failed fuel b bs c x e i)
            (record { not_out = refl; less = omega (arith, ap length same) })
    ]
  ]

  pub writen-Ends : (bytes : Bytes) (c : Conn S) → Ends c (writen bytes c)
  unfolding writen
  writen-Ends bytes c =
      writen_loop-Ends (length bytes + S.patience c.sock + 1) bytes c (omega arith)
