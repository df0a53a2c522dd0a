-- ===== src/Support/Writing.antt =====
-- `writen` over a lawful socket.
use esif_client_server.Common.{
  ℕ, zero, suc, ◌+◌, ◌<◌, ◌≡◌, refl, ap, ◌∙◌, ◌⊎◌, inl, inr, true, [], ◌∷◌, ◌++◌, append-nil,
  append_assoc, length, length-drop, drop, take-append-drop, Bytes, arith,
}
use esif_client_server.Socket.{Socket, Errno, is_eintr, IsLawful, IsReliable, Sent, wrote, unsent}
use esif_client_server.Support.{Conn, done, writen_loop, writen}

pub Sent-cases :
    (a : Sent) → (a ≡ wrote 0) ⊎ ((k : ℕ) × (a ≡ wrote (suc k))) ⊎ ((e : Errno) × (a ≡ unsent e))
Sent-cases (wrote zero) = inl refl
Sent-cases (wrote (suc k)) = inr (inl (k, refl))
Sent-cases (unsent e) = inr (inr (e, refl))

module _ {S : Socket} (fuel b : ℕ) (bs : Bytes) (c : Conn S) where
  pub writen_loop-wrote :
      (k : ℕ)
      → (S.write (b ∷ bs) c.sock).0 ≡ wrote (suc k)
      → writen_loop (suc fuel) (b ∷ bs) c
        ≡ writen_loop fuel (drop k bs) (record c { sock = (S.write (b ∷ bs) c.sock).1 })
  unfolding writen_loop
  writen_loop-wrote k e = rw (e, writen_loop) refl

  pub writen_loop-eintr :
      (x : Errno)
      → (S.write (b ∷ bs) c.sock).0 ≡ unsent x
      → is_eintr x ≡ true
      → writen_loop (suc fuel) (b ∷ bs) c
        ≡ writen_loop fuel (b ∷ bs) (record c { sock = (S.write (b ∷ bs) c.sock).1; errno = x })
  unfolding writen_loop
  writen_loop-eintr x e i = rw (e, writen_loop) (rw i refl)

module _ (S : Socket) (L : IsLawful S) (R : IsReliable S) where
  writen_loop_lem :
      (fuel : ℕ) (bytes : Bytes) (c : Conn S)
      → length bytes + S.patience c.sock < fuel
      → ((writen_loop fuel bytes c).0 ≡ done tt)
        × (S.outgoing (writen_loop fuel bytes c).1.sock ≡ S.outgoing c.sock ++ bytes)
        × (S.incoming (writen_loop fuel bytes c).1.sock ≡ S.incoming c.sock)
        × ((writen_loop fuel bytes c).1.rl ≡ c.rl)
  writen_loop_lem zero bytes c h = absurd (omega arith)
  writen_loop_lem (suc fuel) [] c h = unfold writen_loop in (refl, rw append-nil, refl, refl)
  writen_loop_lem (suc fuel) (b ∷ bs) c h = elim (Sent-cases (S.write (b ∷ bs) c.sock).0) [
    | inl e ↦ absurd (omega (arith, (rw e at (L.write_law (b ∷ bs) c.sock)).1))
    | inr (inl (k, e)) ↦
        let (sends, _, fits, same, calm) = rw e at (L.write_law (b ∷ bs) c.sock) in
        let (p, q, r, s) =
          writen_loop_lem fuel (drop k bs) (record c { sock = (S.write (b ∷ bs) c.sock).1 })
            (omega (arith, length-drop k bs)) in
        rw (writen_loop-wrote fuel b bs c k e) (
          p,
          q
              ∙ rw (sends, append_assoc)
                  (ap (λ t. S.outgoing c.sock ++ b ∷ t) (take-append-drop k bs)),
          r ∙ same,
          s,
        )
    | inr (inr (x, e)) ↦
        let (kept, same, calm) =
          rw (e, R.write_reliable _ _ x e) at (L.write_law (b ∷ bs) c.sock) in
        let (p, q, r, s) =
          writen_loop_lem fuel (b ∷ bs) (record c { sock = (S.write (b ∷ bs) c.sock).1; errno = x })
            (omega arith) in
        rw (writen_loop-eintr fuel b bs c x e (R.write_reliable _ _ x e))
          (p, q ∙ rw kept refl, r ∙ same, s)
  ]

  -- Over a lawful socket on which no call fails but for interruptions, `writen` sends all of the
  -- bytes, in order and once, whatever parts the socket takes, reports success, and neither reads
  -- from the stream nor touches the buffer of `readline`.
  pub writen_lem :
      (bytes : Bytes) (c : Conn S)
      → ((writen bytes c).0 ≡ done tt)
        × (S.outgoing (writen bytes c).1.sock ≡ S.outgoing c.sock ++ bytes)
        × (S.incoming (writen bytes c).1.sock ≡ S.incoming c.sock)
        × ((writen bytes c).1.rl ≡ c.rl)
  unfolding writen
  writen_lem bytes c = writen_loop_lem (length bytes + S.patience c.sock + 1) bytes c (omega arith)
