-- ===== src/Support/Progress.antt =====
-- What holds of `my_read` and `readline` on every lawful socket, one whose calls fail included: they
-- end, send nothing, and a line that was read has used up some of the stream.
use esif_client_server.Common.{
  ℕ, zero, suc, ◌+◌, ◌-◌, ◌≤◌, ◌<◌, ◌≡◌, refl, sym, ap, ◌∙◌, inl, inr, true, false, [], ◌∷◌, ◌++◌,
  length, Bytes, arith, Option, none, some, ◌==◌, Bool-cases, pos, negsuc, ltb_int,
}
use esif_client_server.Socket.{Socket, Errno, is_eintr, IsLawful, Answer-cases, failed}
use esif_client_server.Support.{
  Conn, Io, done, error, out_of_fuel, fill_loop, my_read_from, my_read, max_line, Line, newline,
  readline_loop, readline,
}
use esif_client_server.Support.Lines.{stream, fill_loop-got_nil, fill_loop-got, fill_loop-eintr}

module _ {S : Socket} where
  -- What a call of `my_read` that began at `c` leaves.
  abbrev ReadsFrom : Conn S → Io (Option ℕ) → Conn S → Type 0
  ReadsFrom c (done none) d = stream c ≡ stream d
  ReadsFrom c (done (some b)) d = stream c ≡ b ∷ stream d
  ReadsFrom c error d = stream c ≡ stream d
  ReadsFrom c out_of_fuel d = ⊥

  fill_loop-failed :
      (fuel : ℕ) (c : Conn S) (x : Errno)
      → (S.read max_line c.sock).0 ≡ failed x
      → is_eintr x ≡ false
      → fill_loop (suc fuel) c ≡ (error, record c { sock = (S.read max_line c.sock).1; errno = x })
  unfolding fill_loop
  fill_loop-failed fuel c x e i = rw (e, fill_loop) (rw i refl)

module _ (S : Socket) (L : IsLawful S) where
  fill_loop-ReadsFrom :
      (fuel : ℕ) (c : Conn S)
      → c.rl ≡ []
      → S.patience c.sock < fuel
      → ReadsFrom c (fill_loop fuel c).0 (fill_loop fuel c).1
        × (S.outgoing (fill_loop fuel c).1.sock ≡ S.outgoing c.sock)
  fill_loop-ReadsFrom zero c r h = absurd (omega arith)
  fill_loop-ReadsFrom (suc fuel) c r h = elim (Answer-cases (S.read max_line c.sock).0) [
    | inl e ↦
        let (split, _, _, end) = rw e at (L.read_law max_line c.sock) in
        rw (fill_loop-got_nil fuel c e) (ap (λ t. c.rl ++ t) split, L.read_outgoing max_line c.sock)
    | inr (inl (b, bs, e)) ↦
        let (split, _, _, _) = rw e at (L.read_law max_line c.sock) in
        rw (fill_loop-got fuel c b bs e)
          (ap (λ t. t ++ S.incoming c.sock) r ∙ split, L.read_outgoing max_line c.sock)
    | inr (inr (x, e)) ↦ elim (Bool-cases (is_eintr x)) [
      | inl i ↦
          let (same, calm) = rw (e, i) at (L.read_law max_line c.sock) in
          let d : Conn S = record c { sock = (S.read max_line c.sock).1; errno = x } in
          let (p, q) = fill_loop-ReadsFrom fuel d r (omega arith) in
          rw (fill_loop-eintr fuel c x e i) (
            retried c d (fill_loop fuel d).0 (fill_loop fuel d).1 (ap (λ t. c.rl ++ t) (sym same))
                p,
            q ∙ L.read_outgoing max_line c.sock,
          )
      | inr i ↦
          let (same, calm) = rw (e, i) at (L.read_law max_line c.sock) in
          rw (fill_loop-failed fuel c x e i)
            (ap (λ t. c.rl ++ t) (sym same), L.read_outgoing max_line c.sock)
    ]
  ]
    where
      retried :
          (c d : Conn S) (o : Io (Option ℕ)) (d' : Conn S)
          → stream c ≡ stream d
          → ReadsFrom d o d'
          → ReadsFrom c o d'
      retried c d (done none) d' e h = e ∙ h
      retried c d (done (some b)) d' e h = e ∙ h
      retried c d error d' e h = e ∙ h
      retried c d out_of_fuel d' e h = h

  my_read_from-ReadsFrom :
      (buffered : Bytes) (c : Conn S)
      → c.rl ≡ buffered
      → ReadsFrom c (my_read_from buffered c).0 (my_read_from buffered c).1
        × (S.outgoing (my_read_from buffered c).1.sock ≡ S.outgoing c.sock)
  unfolding my_read_from
  my_read_from-ReadsFrom [] c r = fill_loop-ReadsFrom (S.patience c.sock + 1) c r (omega arith)
  my_read_from-ReadsFrom (b ∷ bs) c r = (ap (λ t. t ++ S.incoming c.sock) r, refl)

  my_read-ReadsFrom :
      (c : Conn S)
      → ReadsFrom c (my_read c).0 (my_read c).1
        × (S.outgoing (my_read c).1.sock ≡ S.outgoing c.sock)
  unfolding my_read
  my_read-ReadsFrom c = my_read_from-ReadsFrom c.rl c refl

  -- What a call of `readline` leaves: a line, `used` bytes of the stream gone, nothing sent.
  pub record ReadsLine (c : Conn S) (r : Io Line × Conn S) : Type 0 where
    pub line : Line
    pub ends : r.0 ≡ done line
    pub uses : length (stream r.1) ≤ length (stream c)
    pub progress : ltb_int (pos 0) line.ret ≡ true → length (stream r.1) < length (stream c)
    pub quiet : S.outgoing r.1.sock ≡ S.outgoing c.sock

  -- The same for the loop, where a line of no byte is possible once its counter is above 1.
  record ReadsLater (rounds n : ℕ) (stored : Bytes) (c : Conn S) : Type 0 where
    line : Line
    ends : (readline_loop rounds n stored c).0 ≡ done line
    uses : length (stream (readline_loop rounds n stored c).1) ≤ length (stream c)
    progress :
        n ≡ 1
        → 0 < rounds
        → ltb_int (pos 0) line.ret ≡ true
        → length (stream (readline_loop rounds n stored c).1) < length (stream c)
    quiet : S.outgoing (readline_loop rounds n stored c).1.sock ≡ S.outgoing c.sock

  after_step :
      (rounds n : ℕ) (stored : Bytes) (c : Conn S)
      → 0 < n
      → ((n' : ℕ) (stored' : Bytes) (d : Conn S) → 0 < n' → ReadsLater rounds n' stored' d)
      → (o : Io (Option ℕ)) → (my_read c).0 ≡ o
      → ReadsFrom c o (my_read c).1
      → S.outgoing (my_read c).1.sock ≡ S.outgoing c.sock
      → ReadsLater (suc rounds) n stored c
  unfolding readline_loop
  after_step rounds n stored c h later (done none) e from quiet = elim (Bool-cases (n == 1)) [
    | inl t ↦ record {
      line = record { ret = pos 0; written = stored };
      ends = rw (e, readline_loop) (rw t refl);
      uses = rw (e, readline_loop) (rw t (omega (arith, ap length from)));
      progress = λ _ _ p. cc;
      quiet = rw (e, readline_loop) (rw t quiet);
    }
    | inr t ↦ record {
      line = record { ret = pos n; written = stored ++ 0 ∷ [] };
      ends = rw (e, readline_loop) (rw t refl);
      uses = rw (e, readline_loop) (rw t (omega (arith, ap length from)));
      progress = λ one _ p. absurd (ground arith);
      quiet = rw (e, readline_loop) (rw t quiet);
    }
  ]
  after_step rounds n stored c h later (done (some b)) e from quiet =
      elim (Bool-cases (b == newline)) [
        | inl t ↦ record {
          line = record { ret = pos n; written = (stored ++ b ∷ []) ++ 0 ∷ [] };
          ends = rw (e, readline_loop) (rw t refl);
          uses = rw (e, readline_loop) (rw t (omega (arith, ap length from)));
          progress = λ _ _ _. rw (e, readline_loop) (rw t (omega (arith, ap length from)));
          quiet = rw (e, readline_loop) (rw t quiet);
        }
        | inr t ↦
            let r = later (n + 1) (stored ++ b ∷ []) (my_read c).1 (omega arith) in
            record {
              line = r.line;
              ends = rw (e, readline_loop) (rw t r.ends);
              uses = rw (e, readline_loop) (rw t (omega (arith, ap length from, r.uses)));
              progress =
                  λ _ _ _. rw (e, readline_loop) (rw t (omega (arith, ap length from, r.uses)));
              quiet = rw (e, readline_loop) (rw t (r.quiet ∙ quiet));
            }
      ]
  after_step rounds n stored c h later error e from quiet = record {
    line = record { ret = negsuc 0; written = stored };
    ends = rw (e, readline_loop) refl;
    uses = rw (e, readline_loop) (omega (arith, ap length from));
    progress = λ _ _ p. cc;
    quiet = rw (e, readline_loop) quiet;
  }
  after_step rounds n stored c h later out_of_fuel e from quiet = absurd from

  readline_loop-ReadsLater :
      (rounds n : ℕ) (stored : Bytes) (c : Conn S) → 0 < n → ReadsLater rounds n stored c
  readline_loop-ReadsLater zero n stored c h =
      unfold readline_loop in
      record {
        line = record { ret = pos n; written = stored ++ 0 ∷ [] };
        ends = refl;
        uses = omega arith;
        progress = λ _ p _. absurd (omega arith);
        quiet = refl;
      }
  readline_loop-ReadsLater (suc rounds) n stored c h =
      after_step rounds n stored c h (readline_loop-ReadsLater rounds) (my_read c).0 refl
        (my_read-ReadsFrom c).0 (my_read-ReadsFrom c).1

  -- On every lawful socket, one on which calls fail included, `readline` with room for more than the
  -- NUL comes to an end, never takes more than there is, takes at least one byte of the stream
  -- whenever what it returns is above 0, and sends nothing.
  pub readline-ReadsLine : (maxlen : ℕ) (c : Conn S) → 1 < maxlen → ReadsLine c (readline maxlen c)
  unfolding readline
  readline-ReadsLine maxlen c h =
      let r = readline_loop-ReadsLater (maxlen - 1) 1 [] c (omega arith) in
      record {
        line = r.line;
        ends = r.ends;
        uses = r.uses;
        progress = r.progress refl (omega arith);
        quiet = r.quiet;
      }
