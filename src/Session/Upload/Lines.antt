-- ===== src/Session/Upload/Lines.antt =====
-- One line of a form: what get_line() leaves in `buffer`, and what a round of the loop does with it.
use esif_client_server.Common.{
  line_of, ◌+◌, ◌≤◌, ◌<◌, ◌≡◌, refl, sym, ap, ◌∙◌, ◌++◌, append_assoc, true, false, [], ◌∷◌, Bytes,
  codes, c_string, starts_with, overwrite, length, length-append, take, take-length, drop,
  drop-length, pos, arith,
}
use esif_client_server.Socket.{Socket, IsLawful, IsReliable}
use esif_client_server.Support.{done, readline, max_line, newline}
use esif_client_server.Support.Lines.{
  stream, take_line, line_report, is_terminated, readline_lem, take_line-append,
  is_terminated-append,
}
use esif_client_server.Support.Progress.{readline-ReadsLine}
use esif_client_server.Database.{Database}
use esif_client_server.Password.{Password}
use esif_client_server.Regdb.Records.{has_nul}
use esif_client_server.Session.{Env, Session, next}
use esif_client_server.Session.Image.{max_info_size}
use esif_client_server.Session.Upload.{after_readline, get_line, Form, again, form_line, form_round}

pub line_report-terminated :
    (t : Bytes)
    → is_terminated t ≡ true
    → line_report t ≡ record { ret = pos (length t); written = t ++ 0 ∷ [] }
line_report-terminated [] h = cc
line_report-terminated (b ∷ bs) h = rw h refl

pub c_string-append : (s stale : Bytes) → has_nul s ≡ false → c_string (s ++ 0 ∷ stale) ≡ s
unfolding c_string
c_string-append [] stale h = refl
c_string-append (c ∷ cs) stale h = ground (arith, c_string-append cs stale)

-- A literal is not found across the NUL of a text.
pub starts_with-append :
    (lit s stale : Bytes)
    → has_nul lit ≡ false
    → starts_with lit (s ++ 0 ∷ stale) ≡ starts_with lit s
unfolding starts_with
starts_with-append [] s stale h = refl
starts_with-append (c ∷ cs) [] stale h = ground arith
starts_with-append (c ∷ cs) (b ∷ bs) stale h = ground (arith, starts_with-append cs bs stale)

-- What `buffer` holds behind a text and its NUL.
abbrev pub stale : Bytes → Bytes → Bytes
stale text buffer = drop (length (text ++ 0 ∷ [])) buffer

module _ (S : Socket) (D : Database Bytes) (L : IsLawful S) (R : IsReliable S) where
  -- A line that fits, with its newline, is read whole.
  pub record TakesLine (l more : Bytes) (s : Session S D) : Type 0 where
    pub after : Session S D
    pub runs : get_line s ≡ (next (pos (length (line_of l))), after)
    pub buffer_is : after.buffer ≡ line_of l ++ 0 ∷ stale (line_of l) s.buffer
    pub stream_is : stream after.conn ≡ more
    pub quiet : S.outgoing after.conn.sock ≡ S.outgoing s.conn.sock
    pub tmpname_is : after.tmpname ≡ s.tmpname
    pub dirs_are : after.dirs ≡ s.dirs
    pub files_are : after.files ≡ s.files
    pub regdb_is : after.regdb ≡ s.regdb

  pub get_line-TakesLine :
      (l more : Bytes) (s : Session S D)
      → stream s.conn ≡ l ++ newline ∷ more
      → is_terminated l ≡ false
      → length l < 119
      → TakesLine l more s
  unfolding get_line after_readline
  get_line-TakesLine l more s e t h =
      let taken : take_line 119 (stream s.conn) ≡ line_of l =
        rw e (take_line-append l more 119 t h) in
      let (p, q) = rw taken at (readline_lem S L R max_line s.conn (omega arith)) in
      let report = p ∙ ap done (line_report-terminated (line_of l) (is_terminated-append l)) in
      record {
        after = record s {
          conn = (readline max_line s.conn).1;
          buffer = overwrite (line_of l ++ 0 ∷ []) s.buffer;
        };
        runs = rw report refl;
        buffer_is = append_assoc (line_of l) (0 ∷ []) _;
        stream_is =
            q
            ∙ ap (drop (length (line_of l))) (e ∙ sym (append_assoc l (newline ∷ []) more))
            ∙ drop-length (line_of l) more;
        quiet = (readline-ReadsLine S L max_line s.conn (omega arith)).quiet;
        tmpname_is = refl;
        dirs_are = refl;
        files_are = refl;
        regdb_is = refl;
      }

-- A line that the loop takes as a line of the form.
pub record IsFormLine (l : Bytes) : Type 0 where
  pub one_line : is_terminated l ≡ false
  pub no_nul : has_nul l ≡ false
  pub fits : length l < 119
  pub no_end : starts_with (codes ".\n") (line_of l) ≡ false
  pub no_quit : starts_with (codes "QUIT\n") (line_of l) ≡ false

pub has_nul-line_of : (l : Bytes) → has_nul l ≡ false → has_nul (line_of l) ≡ false
has_nul-line_of [] h = refl
has_nul-line_of (c ∷ cs) h = ground (arith, has_nul-line_of cs)

take-line_of : (t rest : Bytes) → take (length t + 1) (t ++ 0 ∷ rest) ≡ t ++ 0 ∷ []
take-line_of t rest =
    ap (λ n. take n (t ++ 0 ∷ rest)) (length-nul t)
    ∙ ap (take (length (t ++ 0 ∷ []))) (sym (append_assoc t (0 ∷ []) rest))
    ∙ take-length (t ++ 0 ∷ []) rest
  where
    length-nul : (t : Bytes) → length t + 1 ≡ length (t ++ 0 ∷ [])
    length-nul t = omega (arith, length-append t (0 ∷ []))

module _ {S : Socket} {P : Database Password} {D : Database Bytes} (env : Env P D) where
  -- A round with such a line and room for it adds it to the file and, with its NUL, to `regbuf`.
  pub form_round-again :
      (l rest : Bytes) (f : Form) (s : Session S D)
      → IsFormLine l
      → s.buffer ≡ line_of l ++ 0 ∷ rest
      → env.accepts f.path (line_of l) ≡ true
      → length f.regbuf + (length (line_of l) + 1) ≤ max_info_size
      → form_round env f (pos (length (line_of l))) s ≡ (
        next (
            again (record f {
              text = f.text ++ line_of l;
              regbuf = f.regbuf ++ (line_of l ++ 0 ∷ []);
            })),
        s,
      )
  unfolding form_round form_line
  form_round-again l rest f s good buffer taken room =
      let text : c_string s.buffer ≡ line_of l =
        ap c_string buffer ∙ c_string-append (line_of l) rest (has_nul-line_of l good.no_nul) in
      let not_end : starts_with (codes ".\n") s.buffer ≡ false =
        ap (starts_with (codes ".\n")) buffer
        ∙ starts_with-append (codes ".\n") (line_of l) rest refl
        ∙ good.no_end in
      let not_quit : starts_with (codes "QUIT\n") s.buffer ≡ false =
        ap (starts_with (codes "QUIT\n")) buffer
        ∙ starts_with-append (codes "QUIT\n") (line_of l) rest refl
        ∙ good.no_quit in
      let copied : take (length (line_of l) + 1) s.buffer ≡ line_of l ++ 0 ∷ [] =
        ap (take (length (line_of l) + 1)) buffer ∙ take-line_of (line_of l) rest in
      let size = length-append l (newline ∷ []) in
      rw (text, not_end, not_quit, taken, copied) (ground arith)
