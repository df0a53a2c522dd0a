-- ===== src/Support/Reading.antt =====
-- `readn` over a lawful socket: how the stream is cut into segments and interrupted does not matter.
use esif_client_server.Common.{
  ℕ, zero, suc, ◌+◌, ◌-◌, ◌<◌, ◌≡◌, refl, ◌∙◌, inl, inr, true, [], ◌∷◌, ◌++◌, append-nil,
  append_assoc, length, take, drop, take-append, drop-append, Bytes, arith,
}
use esif_client_server.Socket.{
  Socket, Errno, is_eintr, IsLawful, IsReliable, Answer-cases, got, failed,
}
use esif_client_server.Support.{Conn, done, readn_loop, readn}

-- One round of the loop, for each answer of the socket.
module _ {S : Socket} (fuel k : ℕ) (bytes : Bytes) (c : Conn S) where
  pub readn_loop-got_nil :
      (S.read (suc k) c.sock).0 ≡ got []
      → readn_loop (suc fuel) (suc k) bytes c
        ≡ (done bytes, record c { sock = (S.read (suc k) c.sock).1 })
  unfolding readn_loop
  readn_loop-got_nil e = rw (e, readn_loop) refl

  pub readn_loop-got :
      (b : ℕ) (bs : Bytes)
      → (S.read (suc k) c.sock).0 ≡ got (b ∷ bs)
      → readn_loop (suc fuel) (suc k) bytes c
        ≡ readn_loop fuel
            (suc k - length (b ∷ bs))
            (bytes ++ b ∷ bs)
            (record c { sock = (S.read (suc k) c.sock).1 })
  unfolding readn_loop
  readn_loop-got b bs e = rw (e, readn_loop) refl

  pub readn_loop-eintr :
      (x : Errno)
      → (S.read (suc k) c.sock).0 ≡ failed x
      → is_eintr x ≡ true
      → readn_loop (suc fuel) (suc k) bytes c
        ≡ readn_loop fuel (suc k) bytes (record c { sock = (S.read (suc k) c.sock).1; errno = x })
  unfolding readn_loop
  readn_loop-eintr x e i = rw (e, readn_loop) (rw i refl)

module _ (S : Socket) (L : IsLawful S) (R : IsReliable S) where
  readn_loop_lem :
      (fuel nleft : ℕ) (bytes : Bytes) (c : Conn S)
      → nleft + S.patience c.sock < fuel
      → ((readn_loop fuel nleft bytes c).0 ≡ done (bytes ++ take nleft (S.incoming c.sock)))
        × (S.incoming (readn_loop fuel nleft bytes c).1.sock ≡ drop nleft (S.incoming c.sock))
        × ((readn_loop fuel nleft bytes c).1.rl ≡ c.rl)
  readn_loop_lem zero nleft bytes c h = absurd (omega arith)
  readn_loop_lem (suc fuel) zero bytes c h = unfold readn_loop in (rw append-nil, refl, refl)
  readn_loop_lem (suc fuel) (suc k) bytes c h = elim (Answer-cases (S.read (suc k) c.sock).0) [
    | inl e ↦
        let (split, _, _, end) = rw e at (L.read_law (suc k) c.sock) in
        rw (readn_loop-got_nil fuel k bytes c e) (
          rw (end refl (omega arith)) (rw append-nil),
          rw (← split) (rw (end refl (omega arith))),
          refl,
        )
    | inr (inl (b, bs, e)) ↦
        let (split, fits, calm, _) = rw e at (L.read_law (suc k) c.sock) in
        let (p, q, r) =
          readn_loop_lem fuel (suc k - length (b ∷ bs)) (bytes ++ b ∷ bs)
            (record c { sock = (S.read (suc k) c.sock).1 }) (omega arith) in
        rw (readn_loop-got fuel k bytes c b bs e) (
          p ∙ rw (split, take-append (b ∷ bs) _ (suc k) fits, append_assoc) refl,
          q ∙ rw (split, drop-append (b ∷ bs) _ (suc k) fits) refl,
          r,
        )
    | inr (inr (x, e)) ↦
        let (same, calm) = rw (e, R.read_reliable _ _ x e) at (L.read_law (suc k) c.sock) in
        rw (readn_loop-eintr fuel k bytes c x e (R.read_reliable _ _ x e))
          (rw (← same) (readn_loop_lem fuel (suc k) bytes _ (omega arith)))
  ]

  -- Over a lawful socket on which no call fails but for interruptions, `readn` returns exactly the
  -- first `n` bytes of the stream, or all of it if it is shorter, leaves the rest of the stream
  -- unread, and does not touch the buffer of `readline`. The segments in which the bytes arrive and
  -- the interruptions between them make no difference, and the model's fuel suffices.
  pub readn_lem :
      (n : ℕ) (c : Conn S)
      → ((readn n c).0 ≡ done (take n (S.incoming c.sock)))
        × (S.incoming (readn n c).1.sock ≡ drop n (S.incoming c.sock))
        × ((readn n c).1.rl ≡ c.rl)
  unfolding readn
  readn_lem n c = readn_loop_lem (n + S.patience c.sock + 1) n [] c (omega arith)

  readn_loop-quiet :
      (fuel nleft : ℕ) (bytes : Bytes) (c : Conn S)
      → S.outgoing (readn_loop fuel nleft bytes c).1.sock ≡ S.outgoing c.sock
  unfolding readn_loop
  readn_loop-quiet zero nleft bytes c = refl
  readn_loop-quiet (suc fuel) zero bytes c = refl
  readn_loop-quiet (suc fuel) (suc k) bytes c = elim (Answer-cases (S.read (suc k) c.sock).0) [
    | inl e ↦ rw (readn_loop-got_nil fuel k bytes c e) (L.read_outgoing (suc k) c.sock)
    | inr (inl (b, bs, e)) ↦ rw (readn_loop-got fuel k bytes c b bs e) (
        readn_loop-quiet fuel (suc k - length (b ∷ bs)) (bytes ++ b ∷ bs)
          (record c { sock = (S.read (suc k) c.sock).1 })
        ∙ L.read_outgoing (suc k) c.sock)
    | inr (inr (x, e)) ↦
        rw (readn_loop-eintr fuel k bytes c x e (R.read_reliable _ _ x e))
          (readn_loop-quiet fuel (suc k) bytes _ ∙ L.read_outgoing (suc k) c.sock)
  ]

  pub readn-quiet : (n : ℕ) (c : Conn S) → S.outgoing (readn n c).1.sock ≡ S.outgoing c.sock
  unfolding readn
  readn-quiet n c = readn_loop-quiet (n + S.patience c.sock + 1) n [] c
