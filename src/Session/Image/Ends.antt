-- ===== src/Session/Image/Ends.antt =====
-- `accept_binary` on every lawful socket: it comes to an end.
use esif_client_server.Common.{
  ℕ, zero, suc, ◌+◌, ◌-◌, ◌^◌, ◌%◌, ◌≤◌, ◌<◌, ◌≡◌, refl, ap, ◌++◌, Bool, Bool-cases, inl, inr, true,
  false, not, ◌||◌, [], ◌∷◌, Bytes, codes, c_string, length, length-append, some, drop, ltb, leb, ℤ,
  pos, negsuc, eq_int, arith, if◌then◌else◌,
}
use esif_client_server.Socket.{Socket, Errno, is_eintr, IsLawful, Answer-cases, got, failed}
use esif_client_server.Support.{Conn}
use esif_client_server.Support.Ends.{left}
use esif_client_server.Database.{Database}
use esif_client_server.Password.{Password}
use esif_client_server.Session.{Env, Session}
use esif_client_server.Session.Scan.{is_int, to_size}
use esif_client_server.Session.Image.{
  max_info_size, max_file_name, Received, to_int, binary_loop, binary_done, accept_binary,
  scan_image, image_command,
}
use esif_client_server.Session.Ends.{
  Halts, Halts-from, Halts-resume, Halts-if, Halts-next, fault_if-Halts, report-Halts,
}

-- The loop has a return code, and the stream has not grown.
pub record EndsWith {S : Socket} (c : Conn S) (r : Received S) : Type 0 where
  pub ends : (code : ℤ) × (r.ret ≡ some code)
  pub less : left r.conn ≤ left c

-- One round of the loop, for each answer of the socket.
module _ {S : Socket} (writes : Bytes → Bool) (fuel n i : ℕ) (text : Bytes) (c : Conn S) where
  abbrev wanted : ℕ
  wanted = if ltb max_info_size (suc n) then max_info_size else i

  binary_loop-nil :
      (S.read wanted c.sock).0 ≡ got []
      → binary_loop writes (suc fuel) (suc n) i text c ≡ record {
        ret = some (to_int (suc n));
        text = text;
        conn = record c { sock = (S.read wanted c.sock).1 };
      }
  unfolding binary_loop
  binary_loop-nil e = rw (e, binary_loop) refl

  binary_loop-unwritten :
      (b : ℕ) (bs : Bytes)
      → (S.read wanted c.sock).0 ≡ got (b ∷ bs)
      → writes (b ∷ bs) ≡ false
      → binary_loop writes (suc fuel) (suc n) i text c ≡ record {
        ret = some (to_int (suc n));
        text = text;
        conn = record c { sock = (S.read wanted c.sock).1 };
      }
  unfolding binary_loop
  binary_loop-unwritten b bs e w = rw (e, binary_loop) (rw w refl)

  binary_loop-got :
      (b : ℕ) (bs : Bytes)
      → (S.read wanted c.sock).0 ≡ got (b ∷ bs)
      → writes (b ∷ bs) ≡ true
      → binary_loop writes (suc fuel) (suc n) i text c
        ≡ binary_loop writes fuel
            ((suc n + 2 ^ 64 - length (b ∷ bs)) % 2 ^ 64)
            wanted
            (text ++ b ∷ bs)
            (record c { sock = (S.read wanted c.sock).1 })
  unfolding binary_loop
  binary_loop-got b bs e w = rw (e, binary_loop) (rw w refl)

  binary_loop-eintr :
      (x : Errno)
      → (S.read wanted c.sock).0 ≡ failed x
      → is_eintr x ≡ true
      → binary_loop writes (suc fuel) (suc n) i text c
        ≡ binary_loop writes fuel
            (suc n)
            wanted
            text
            (record c { sock = (S.read wanted c.sock).1; errno = x })
  unfolding binary_loop
  binary_loop-eintr x e w = rw (e, binary_loop) (rw w refl)

  binary_loop-failed :
      (x : Errno)
      → (S.read wanted c.sock).0 ≡ failed x
      → is_eintr x ≡ false
      → binary_loop writes (suc fuel) (suc n) i text c ≡ record {
        ret = some (negsuc 0);
        text = text;
        conn = record c { sock = (S.read wanted c.sock).1; errno = x };
      }
  unfolding binary_loop
  binary_loop-failed x e w = rw (e, binary_loop) (rw w refl)

module _ {S : Socket} (L : IsLawful S) (writes : Bytes → Bool) where
  binary_loop-EndsWith :
      (fuel nleft i : ℕ) (text : Bytes) (c : Conn S)
      → length (S.incoming c.sock) + S.patience c.sock < fuel
      → EndsWith c (binary_loop writes fuel nleft i text c)
  binary_loop-EndsWith zero nleft i text c h = absurd (omega arith)
  binary_loop-EndsWith (suc fuel) zero i text c h =
      unfold binary_loop in record { ends = (pos 0, refl); less = omega arith }
  binary_loop-EndsWith (suc fuel) (suc n) i text c h =
      let j = wanted writes fuel n i text c in
      elim (Answer-cases (S.read j c.sock).0) [
        | inl e ↦
            let (split, _, _, _) = rw e at (L.read_law j c.sock) in
            rw (binary_loop-nil writes fuel n i text c e)
              (record { ends = (_, refl); less = omega (arith, ap length split) })
        | inr (inl (b, bs, e)) ↦
            let (split, _, calm, _) = rw e at (L.read_law j c.sock) in
            let size = length-append (b ∷ bs) (S.incoming (S.read j c.sock).1) in
            elim (Bool-cases (writes (b ∷ bs))) [
              | inl w ↦
                  let r =
                    binary_loop-EndsWith fuel ((suc n + 2 ^ 64 - length (b ∷ bs)) % 2 ^ 64) j
                      (text ++ b ∷ bs) (record c { sock = (S.read j c.sock).1 })
                      (omega (arith, size, ap length split)) in
                  rw (binary_loop-got writes fuel n i text c b bs e w)
                    (record { ends = r.ends; less = omega (arith, r.less, size, ap length split) })
              | inr w ↦
                  rw (binary_loop-unwritten writes fuel n i text c b bs e w)
                    (record { ends = (_, refl); less = omega (arith, size, ap length split) })
            ]
        | inr (inr (x, e)) ↦ elim (Bool-cases (is_eintr x)) [
          | inl w ↦
              let (same, calm) = rw (e, w) at (L.read_law j c.sock) in
              let r =
                binary_loop-EndsWith fuel (suc n) j text
                  (record c { sock = (S.read j c.sock).1; errno = x })
                  (omega (arith, ap length same)) in
              rw (binary_loop-eintr writes fuel n i text c x e w)
                (record { ends = r.ends; less = omega (arith, r.less, ap length same) })
          | inr w ↦
              let (same, calm) = rw (e, w) at (L.read_law j c.sock) in
              rw (binary_loop-failed writes fuel n i text c x e w)
                (record { ends = (_, refl); less = omega (arith, ap length same) })
        ]
      ]

module _ {S : Socket} {P : Database Password} {D : Database Bytes} (env : Env P D)
    (L : IsLawful S) where
  binary_done-Halts :
      (name : Bytes) (r : Received S) (s : Session S D)
      → EndsWith s.conn r
      → Halts s (binary_done env name r s)
  unfolding binary_done
  binary_done-Halts name r s h = rw h.ends.1 (record { not_spent = refl; less = h.less })

  accept_binary-Halts :
      (size : ℕ) (name : Bytes) (s : Session S D) → Halts s (accept_binary env size name s)
  unfolding accept_binary
  accept_binary-Halts size name s =
      Halts-if (not (env.opens name)) (λ _. Halts-next (negsuc 0) s)
        (λ _. binary_done-Halts name _ s (
          binary_loop-EndsWith L (env.accepts name)
            (length (S.incoming s.conn.sock) + S.patience s.conn.sock + 1) size 0 [] s.conn
            (omega arith)))

  pub image_command-Halts :
      (txtdir : Bytes) (s : Session S D) → Halts s (image_command env txtdir s)
  unfolding image_command
  image_command-Halts txtdir s =
      let size = (scan_image (drop 7 (c_string s.buffer))).0 in
      let name = (scan_image (drop 7 (c_string s.buffer))).1 in
      let named : Session S D = record s { tmpname = some name } in
      Halts-if (not env.accept_image) (λ _. report-Halts L (codes "310\n") s)
        (λ _.
          Halts-if (not (is_int size) || leb max_file_name (length name))
            (λ _.
              Halts-resume s _ (report-Halts L (codes "500\n") s) (λ _ t. fault_if-Halts true t))
            (λ _.
              Halts-if (ltb (length name) 1)
                (λ _. Halts-from {t = named} (omega arith) (
                  Halts-resume named _ (report-Halts L (codes "500\n") named)
                    (λ _ t. report-Halts L (codes "300\n") t)))
                (λ _. Halts-from {t = named} (omega arith) (
                  Halts-resume named _ (report-Halts L (codes "500\n") named) (λ _ t.
                    Halts-resume t _ (accept_binary-Halts (to_size size) (txtdir ++ name) t)
                      (λ ret u.
                        report-Halts L (if eq_int ret (pos 0) then codes "500\n" else codes "300\n")
                          u))))))
