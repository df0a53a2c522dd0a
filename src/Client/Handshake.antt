-- ===== src/Client/Handshake.antt =====
-- `authenticate` with a server that takes the magic and the college's code.
use esif_client_server.Common.{
  ℕ, Bool-cases, inl, inr, ◌==◌, ◌+◌, ◌<◌, ◌≤◌, ◌≡◌, refl, sym, ap, ◌∙◌, ◌++◌, append_assoc,
  append_cancel_left, append-nil, false, [], ◌∷◌, Bytes, codes, c_string, starts_with, strtol,
  length, length-append, line_of, if◌then◌else◌, ℤ, pos, eq_int, arith,
}
use esif_client_server.Socket.{Socket, IsLawful, IsReliable}
use esif_client_server.Support.{Line, newline, max_line}
use esif_client_server.Support.Lines.{stream, is_terminated}
use esif_client_server.Client.{
  Client, Step, Done, going, returns, ◌>>=◌, proceed, proceed-going, write_all, read_line, exit,
}
use esif_client_server.Client.Authenticate.{
  refuses, magic_answer, send_magic, user_answer, send_user, pass_answer, send_pass, authenticate,
}
use esif_client_server.Client.Steps.{
  Spoke, Spoke-none, Spoke-then, Speaks, Speaks-bind, write_all-Speaks, read_line-Speaks,
}

-- A line as `readline` gives it.
abbrev whole : Bytes → Line
whole l = record { ret = pos (length (line_of l)); written = line_of l ++ 0 ∷ [] }

-- The number that a line begins with.
abbrev pub reply_code : Bytes → ℤ
reply_code l = strtol (c_string (line_of l ++ 0 ∷ []))

-- A line of the server that fits into the client's `buffer`, its newline and NUL included.
pub record IsAnswer (l : Bytes) : Type 0 where
  pub one_line : is_terminated l ≡ false
  pub long : 3 ≤ length l
  pub fits : length l ≤ 78

-- What `authenticate` returns for the last answer: 1 for a line that has not three bytes, and for 303.
abbrev pub pass_code : Bytes → ℤ
pass_code l =
    if length l == 3 then (if eq_int (reply_code l) (pos 303) then pos 1 else pos 0) else (pos 1)

module _ {S : Socket} (L : IsLawful S) (R : IsReliable S) where
  Speaks-cast :
      {A : Type 0} {b b' t t' : Bytes} {a : A} {s : Client S} {r : Done A × Client S}
      → b ≡ b'
      → t ≡ t'
      → Speaks L R b t a s r
      → Speaks L R b' t' a s r
  Speaks-cast {s = s} e f q = record {
    after = q.after;
    runs = q.runs;
    spoke = record {
      sent = q.spoke.sent ∙ ap (λ x. S.outgoing s.conn.sock ++ x) e;
      took = q.spoke.took ∙ ap (λ x. x ++ stream q.after.conn) f;
      files_are = q.spoke.files_are;
      name_is = q.spoke.name_is;
      writes = q.spoke.writes;
    };
  }

  -- A request, the reading of its answer, and a look at the answer.
  ask-Speaks :
      {B : Type 0} {b : B} (n : ℕ) (bytes l more : Bytes) (f : Line → Step (Client S) B)
      (s : Client S)
      → stream s.conn ≡ line_of l ++ more
      → is_terminated l ≡ false
      → length l + 1 < n
      → ((t : Client S) → f (whole l) t ≡ (going b, t))
      → Speaks L R bytes (line_of l) b s ((write_all bytes (pos 1) >>= λ _. read_line n >>= f) s)
  ask-Speaks {b = b} n bytes l more f s e t h k =
      let w = write_all-Speaks L R bytes (pos 1) s in
      let e' = sym w.spoke.took ∙ e ∙ append_assoc l (newline ∷ []) more in
      let (r, _) = read_line-Speaks L R n l more w.after e' t h in
      let look : Speaks L R [] [] b r.after (f (whole l) r.after) = record {
        after = r.after;
        runs = k r.after;
        spoke = Spoke-none L R r.after;
      } in
      let read = Speaks-bind L R (read_line n) f w.after r look in
      Speaks-cast (append-nil bytes) (append-nil (line_of l))
        (Speaks-bind L R (write_all bytes (pos 1)) (λ _. read_line n >>= f) s w read)

  -- A request and the reading of its answer, whatever is made of the answer.
  ask-Spoke :
      {B : Type 0} (n : ℕ) (bytes l more : Bytes) (f : Line → Step (Client S) B) (s : Client S)
      → stream s.conn ≡ line_of l ++ more
      → is_terminated l ≡ false
      → length l + 1 < n
      → (t : Client S) × ((write_all bytes (pos 1) >>= λ _. read_line n >>= f) s ≡ f (whole l) t)
        × Spoke L R bytes (line_of l) s t
  ask-Spoke n bytes l more f s e t h =
      let w = write_all-Speaks L R bytes (pos 1) s in
      let (r, _) =
        read_line-Speaks L R n l more w.after
          (sym w.spoke.took ∙ e ∙ append_assoc l (newline ∷ []) more) t h in
      let both = Spoke-then L R bytes [] [] (line_of l) s w.after r.after w.spoke r.spoke in
      (
        r.after,
        proceed-going (write_all bytes (pos 1)) (λ _. read_line n >>= f) s w.after tt w.runs
            ∙ proceed-going (read_line n) f w.after r.after (whole l) r.runs,
        record {
          sent = both.sent ∙ ap (λ x. S.outgoing s.conn.sock ++ x) (append-nil bytes);
          took = both.took;
          files_are = both.files_are;
          name_is = both.name_is;
          writes = both.writes;
        },
      )

  module _ (magic : Bytes) (sha1 : Bytes → Bytes) where
    magic_answer-going :
        (t : Client S) → magic_answer magic sha1 (whole (codes "500")) t ≡ (going tt, t)
    unfolding magic_answer starts_with
    magic_answer-going t = refl

    user_answer-going :
        (dates : Bytes) (t : Client S)
        → IsAnswer dates
        → reply_code dates ≡ pos 500
        → user_answer magic sha1 (whole dates) t ≡ (going tt, t)
    unfolding user_answer refuses
    user_answer-going dates t good code =
        let size = length-append (line_of dates) (0 ∷ []) in
        let size' = length-append dates (newline ∷ []) in
        rw code (ground (arith, good.long, good.fits))

    pass_answer_lem :
        (last : Bytes) (t : Client S)
        → length last ≤ 78
        → proceed (λ code. exit {A = Unit {0}} code) (pass_answer magic sha1 (whole last) t)
          ≡ (returns (pass_code last), t)
    unfolding pass_answer
    pass_answer_lem last t n =
        let size = length-append (line_of last) (0 ∷ []) in
        let size' = length-append last (newline ∷ []) in
        elim (Bool-cases (length last == 3)) [ inl three ↦ ground arith | inr other ↦ ground arith ]

    -- What a handshake leaves: what was sent and read, and what `authenticate` returns.
    pub record Shakes (username pass last more : Bytes) (s : Client S)
        (r : Done (Unit {0}) × Client S) : Type 0 where
      pub returned : r.0 ≡ returns (pass_code last)
      pub sent :
          S.outgoing r.1.conn.sock
          ≡ S.outgoing s.conn.sock
            ++ (magic
                ++ ((codes "USER " ++ (username ++ newline ∷ [])) ++ (codes "PASS " ++ sha1 pass)))
      pub stream_is : stream r.1.conn ≡ more
      pub files_are : r.1.files ≡ s.files

    -- Over a lawful socket on which no call fails but for interruptions, with a code of 4 bytes, when
    -- the server answers the magic with "500" and the code with a line that begins with 500 and fits
    -- into 80 bytes, and the last answer is any line that fits into them: `authenticate` sends just the
    -- magic, the code and the digest of the password, takes just the three answers, and returns 1 if
    -- the last has not three bytes or is 303, and 0 for every other line of three bytes.
    pub authenticate-Shakes :
        (username pass dates last more : Bytes) (s : Client S)
        → length username ≡ 4
        → IsAnswer dates
        → reply_code dates ≡ pos 500
        → is_terminated last ≡ false
        → length last ≤ 78
        → stream s.conn ≡ codes "500\n" ++ (line_of dates ++ (line_of last ++ more))
        → Shakes username pass last more s (authenticate magic sha1 username pass s)
    unfolding authenticate send_magic send_user send_pass
    authenticate-Shakes username pass dates last more s four good code one short e =
        let a =
          ask-Speaks 80 magic (codes "500") _ (magic_answer magic sha1) s e refl (omega arith)
            magic_answer-going in
        let e₁ = append_cancel_left (codes "500\n") _ _ (sym a.spoke.took ∙ e) in
        let b =
          ask-Speaks max_line (codes "USER " ++ (username ++ newline ∷ [])) dates
            (line_of last ++ more) (user_answer magic sha1) a.after e₁ good.one_line
            (omega (arith, good.fits)) (λ t. user_answer-going dates t good code) in
        let e₂ = append_cancel_left (line_of dates) _ _ (sym b.spoke.took ∙ e₁) in
        let (after, hears, spoke) =
          ask-Spoke max_line (codes "PASS " ++ sha1 pass) last more (pass_answer magic sha1) b.after
            e₂ one (omega arith) in
        let e₃ = append_cancel_left (line_of last) _ _ (sym spoke.took ∙ e₂) in
        let tail = λ (_ : Unit {0}). send_pass magic sha1 pass >>= λ code. exit code in
        let all : authenticate magic sha1 username pass s ≡ (returns (pass_code last), after) =
          rw four (
            proceed-going (send_magic magic sha1) (λ _. send_user magic sha1 username >>= tail) s
              a.after tt a.runs
            ∙ proceed-going (send_user magic sha1 username) tail a.after b.after tt b.runs
            ∙ ap (proceed (λ code. exit code)) hears
            ∙ pass_answer_lem last after short) in
        let talk =
          Spoke-then L R _ _ _ _ s b.after after
            (Spoke-then L R _ _ _ _ s a.after b.after a.spoke b.spoke) spoke in
        rw all (record {
          returned = refl;
          sent = talk.sent ∙ ap (λ x. S.outgoing s.conn.sock ++ x) (append_assoc magic _ _);
          stream_is = e₃;
          files_are = talk.files_are;
        })
