-- ===== src/Support/Lines.antt =====
-- `my_read` and `readline` over a lawful socket: one line of the stream, and what is returned for it.
use esif_client_server.Common.{
  ℕ, zero, suc, ◌+◌, ◌-◌, ◌<◌, ◌≡◌, refl, sym, ap, ◌∙◌, inl, inr, Bool, true, false, [], ◌∷◌, ◌++◌,
  append-nil, append_assoc, List-cases, length, drop, Bytes, arith, Option, none, some,
  if◌then◌else◌, ◌==◌, Bool-cases, pos, ltb, ◌&&◌, ◌||◌,
}
use esif_client_server.Socket.{
  Socket, Errno, is_eintr, IsLawful, IsReliable, Answer-cases, got, failed,
}
use esif_client_server.Support.{
  Conn, done, fill_loop, my_read_from, my_read, max_line, Line, newline, readline_loop, readline,
}

-- The bytes that a connection will still give to `readline`.
abbrev pub stream : {S : Socket} → Conn S → Bytes
stream {S} c = c.rl ++ S.incoming c.sock

abbrev first : Bytes → Option ℕ
first [] = none
first (b ∷ bs) = some b

abbrev rest : Bytes → Bytes
rest [] = []
rest (b ∷ bs) = bs

module _ {S : Socket} (fuel : ℕ) (c : Conn S) where
  pub fill_loop-got_nil :
      (S.read max_line c.sock).0 ≡ got []
      → fill_loop (suc fuel) c ≡ (done none, record c { sock = (S.read max_line c.sock).1 })
  unfolding fill_loop
  fill_loop-got_nil e = rw (e, fill_loop) refl

  pub fill_loop-got :
      (b : ℕ) (bs : Bytes)
      → (S.read max_line c.sock).0 ≡ got (b ∷ bs)
      → fill_loop (suc fuel) c
        ≡ (done (some b), record c { sock = (S.read max_line c.sock).1; rl = bs })
  unfolding fill_loop
  fill_loop-got b bs e = rw (e, fill_loop) refl

  pub fill_loop-eintr :
      (x : Errno)
      → (S.read max_line c.sock).0 ≡ failed x
      → is_eintr x ≡ true
      → fill_loop (suc fuel) c
        ≡ fill_loop fuel (record c { sock = (S.read max_line c.sock).1; errno = x })
  unfolding fill_loop
  fill_loop-eintr x e i = rw (e, fill_loop) (rw i refl)

module _ (S : Socket) (L : IsLawful S) (R : IsReliable S) where
  fill_loop_lem :
      (fuel : ℕ) (c : Conn S)
      → c.rl ≡ []
      → S.patience c.sock < fuel
      → ((fill_loop fuel c).0 ≡ done (first (S.incoming c.sock)))
        × (stream (fill_loop fuel c).1 ≡ rest (S.incoming c.sock))
  fill_loop_lem zero c r h = absurd (omega arith)
  fill_loop_lem (suc fuel) c r h = elim (Answer-cases (S.read max_line c.sock).0) [
    | inl e ↦
        let (split, _, _, end) = rw e at (L.read_law max_line c.sock) in
        let over = end refl (omega arith) in
        rw (fill_loop-got_nil fuel c e) (rw over refl, rw (over, r) (sym split ∙ over))
    | inr (inl (b, bs, e)) ↦
        let (split, _, _, _) = rw e at (L.read_law max_line c.sock) in
        rw (fill_loop-got fuel c b bs e) (rw split refl, rw split refl)
    | inr (inr (x, e)) ↦
        let (same, calm) = rw (e, R.read_reliable _ _ x e) at (L.read_law max_line c.sock) in
        rw (fill_loop-eintr fuel c x e (R.read_reliable _ _ x e))
          (rw (← same) (fill_loop_lem fuel _ r (omega arith)))
  ]

  my_read_from_lem :
      (buffered : Bytes) (c : Conn S)
      → c.rl ≡ buffered
      → ((my_read_from buffered c).0 ≡ done (first (stream c)))
        × (stream (my_read_from buffered c).1 ≡ rest (stream c))
  my_read_from_lem [] c r =
      unfold my_read_from in simp r (fill_loop_lem (S.patience c.sock + 1) c r (omega arith))
  my_read_from_lem (b ∷ bs) c r = unfold my_read_from in simp r (refl, refl)

  my_read_lem :
      (c : Conn S)
      → ((my_read c).0 ≡ done (first (stream c))) × (stream (my_read c).1 ≡ rest (stream c))
  unfolding my_read
  my_read_lem c = my_read_from_lem c.rl c refl

-- The line that the stream begins with, cut at `rounds` bytes: up to its newline, or to the end.
abbrev pub take_line : ℕ → Bytes → Bytes
take_line zero bs = []
take_line (suc rounds) [] = []
take_line (suc rounds) (b ∷ bs) = b ∷ (if b == newline then [] else take_line rounds bs)

abbrev pub is_terminated : Bytes → Bool
is_terminated [] = false
is_terminated (b ∷ bs) = b == newline || is_terminated bs

-- What a call reports that stored `line` behind `stored`, its counter at `n` before it.
pub line_result : ℕ → ℕ → Bytes → Bytes → Line
line_result n rounds stored line =
    if is_terminated line
    then record { ret = pos (n + length line - 1); written = (stored ++ line) ++ 0 ∷ [] }
    else if ltb 0 rounds && n + length line == 1
    then record { ret = pos 0; written = stored ++ line }
    else record { ret = pos (n + length line); written = (stored ++ line) ++ 0 ∷ [] }

line_result-cons :
    (n rounds : ℕ) (stored : Bytes) (b : ℕ) (line : Bytes)
    → 0 < n
    → (b == newline) ≡ false
    → line_result (n + 1) rounds (stored ++ b ∷ []) line
      ≡ line_result n (suc rounds) stored (b ∷ line)
unfolding line_result
line_result-cons n rounds stored b line h ne = ground (arith, append_assoc stored (b ∷ []) line)

module _ {S : Socket} (rounds n : ℕ) (stored : Bytes) (c : Conn S) where
  readline_loop-none :
      (my_read c).0 ≡ done none
      → readline_loop (suc rounds) n stored c
        ≡ (done (line_result n (suc rounds) stored []), (my_read c).1)
  unfolding readline_loop line_result
  readline_loop-none e = rw (e, readline_loop) (ground (arith, append-nil stored))

  readline_loop-newline :
      (b : ℕ)
      → (my_read c).0 ≡ done (some b)
      → (b == newline) ≡ true
      → readline_loop (suc rounds) n stored c
        ≡ (done (line_result n (suc rounds) stored (b ∷ [])), (my_read c).1)
  unfolding readline_loop line_result
  readline_loop-newline b e t = rw (e, readline_loop) (rw t (ground arith))

  readline_loop-some :
      (b : ℕ)
      → (my_read c).0 ≡ done (some b)
      → (b == newline) ≡ false
      → readline_loop (suc rounds) n stored c
        ≡ readline_loop rounds (n + 1) (stored ++ b ∷ []) (my_read c).1
  unfolding readline_loop
  readline_loop-some b e t = rw (e, readline_loop) (rw t refl)

module _ (S : Socket) (L : IsLawful S) (R : IsReliable S) where
  readline_loop_lem :
      (rounds n : ℕ) (stored : Bytes) (c : Conn S)
      → 0 < n
      → let line = take_line rounds (stream c) in
        ((readline_loop rounds n stored c).0 ≡ done (line_result n rounds stored line))
        × (stream (readline_loop rounds n stored c).1 ≡ drop (length line) (stream c))
  readline_loop_lem zero n stored c h =
      unfold readline_loop line_result in (ground (arith, append-nil stored), refl)
  readline_loop_lem (suc rounds) n stored c h = elim (List-cases (stream c)) [
    | inl over ↦
        let (e, f) = rw over at (my_read_lem S L R c) in
        rw (readline_loop-none rounds n stored c e) (rw over refl, rw over f)
    | inr (b, bs, more) ↦
        let (e, f) = rw more at (my_read_lem S L R c) in
        elim (Bool-cases (b == newline)) [
          | inl t ↦
              rw (readline_loop-newline rounds n stored c b e t) (rw (more, t) refl, rw (more, t) f)
          | inr t ↦
              let (p, q) =
                rw f at (
                  readline_loop_lem rounds (n + 1) (stored ++ b ∷ []) (my_read c).1
                    (omega arith)) in
              rw (readline_loop-some rounds n stored c b e t) (
                p
                    ∙ rw (more, t)
                        (ap done (line_result-cons n rounds stored b (take_line rounds bs) h t)),
                q ∙ rw (more, t) refl,
              )
        ]
  ]

-- What `readline` reports for a line: its length if it ends in a newline, 0 at the end of the
-- stream, and one more than its length if it was cut before its newline.
abbrev pub line_report : Bytes → Line
line_report [] = record { ret = pos 0; written = [] }
line_report (b ∷ bs) =
    if is_terminated (b ∷ bs)
    then record { ret = pos (length (b ∷ bs)); written = b ∷ (bs ++ 0 ∷ []) }
    else record { ret = pos (length (b ∷ bs) + 1); written = b ∷ (bs ++ 0 ∷ []) }

line_result-line_report :
    (rounds : ℕ) (line : Bytes) → 0 < rounds → line_result 1 rounds [] line ≡ line_report line
unfolding line_result
line_result-line_report rounds [] h = ground arith
line_result-line_report rounds (b ∷ bs) h = ground arith

module _ (S : Socket) (L : IsLawful S) (R : IsReliable S) where
  -- Over a lawful socket on which no call fails but for interruptions, a call of `readline` with
  -- room for more than the NUL takes the next line of the stream, cut to `maxlen - 1` bytes, however
  -- it is split into segments, leaves what follows it, writes it with a NUL behind it, and returns
  -- its length if it ends in a newline. For a line that is cut, by the limit or by the end of the
  -- stream, it returns one more than the number of bytes stored; at the end of the stream, 0.
  pub readline_lem :
      (maxlen : ℕ) (c : Conn S)
      → 1 < maxlen
      → let line = take_line (maxlen - 1) (stream c) in
        ((readline maxlen c).0 ≡ done (line_report line))
        × (stream (readline maxlen c).1 ≡ drop (length line) (stream c))
  unfolding readline
  readline_lem maxlen c h =
      rw (← line_result-line_report (maxlen - 1) (take_line (maxlen - 1) (stream c)) (omega arith))
        (readline_loop_lem S L R (maxlen - 1) 1 [] c (omega arith))

-- A line of the stream with its newline is taken whole if there is room for it.
pub take_line-append :
    (line more : Bytes) (rounds : ℕ)
    → is_terminated line ≡ false
    → length line < rounds
    → take_line rounds (line ++ newline ∷ more) ≡ line ++ newline ∷ []
take_line-append [] more zero t h = absurd (omega arith)
take_line-append [] more (suc rounds) t h = refl
take_line-append (b ∷ bs) more zero t h = absurd (omega arith)
take_line-append (b ∷ bs) more (suc rounds) t h = ground (arith, take_line-append bs more rounds)

pub is_terminated-append : (line : Bytes) → is_terminated (line ++ newline ∷ []) ≡ true
is_terminated-append [] = refl
is_terminated-append (b ∷ bs) = ground (arith, is_terminated-append bs)
