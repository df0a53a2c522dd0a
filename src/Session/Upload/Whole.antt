-- ===== src/Session/Upload/Whole.antt =====
-- A whole form: the lines behind "FILENAME ", the line "." that ends them, and what is stored.
use esif_client_server.Common.{
  line_of, wire, ℕ, zero, suc, ◌+◌, ◌≤◌, ◌<◌, ◌≡◌, refl, ap, ◌∙◌, ◌++◌, append_assoc, append-nil,
  true, List, [], ◌∷◌, some, Bytes, codes, overwrite, starts_with, length, length-append, pos,
  arith,
}
use esif_client_server.Socket.{Socket, IsLawful, IsReliable}
use esif_client_server.Support.{newline, writen}
use esif_client_server.Support.Lines.{stream}
use esif_client_server.Support.Writing.{writen_lem}
use esif_client_server.Database.{Database}
use esif_client_server.Password.{Password}
use esif_client_server.Regdb.{reg_insertdb}
use esif_client_server.Session.{
  M, ◌>>=◌, return, ◌>>◌, bind-next, send-writen, Env, Session, Outcome, next, send, set_text,
  set_file,
}
use esif_client_server.Session.Image.{max_info_size}
use esif_client_server.Session.Upload.{
  get_line, Form, Round, again, leave, form_round, form_loop, close_form, store_form,
}
use esif_client_server.Session.Upload.Lines.{
  starts_with-append, get_line-TakesLine, IsFormLine, form_round-again,
}

-- The lines of a form, each with a NUL behind it, as `regbuf` holds them.
unfoldable pub block_of_lines : List Bytes → Bytes
block_of_lines [] = []
block_of_lines (l ∷ ls) = (line_of l ++ 0 ∷ []) ++ block_of_lines ls

abbrev pub AllFormLines : List Bytes → Type 0
AllFormLines [] = Unit
AllFormLines (l ∷ ls) = IsFormLine l × AllFormLines ls

module _ {S : Socket} {P : Database Password} {D : Database Bytes} (env : Env P D) where
  form_loop-again :
      (fuel : ℕ) (f g : Form) (s t : Session S D)
      → (get_line >>= form_round env f) s ≡ (next (again g), t)
      → form_loop env (suc fuel) f s ≡ form_loop env fuel g t
  unfolding form_loop
  form_loop-again fuel f g s t e =
      rw (ap (λ p. p.0) e, form_loop) (ap (form_loop env fuel g) (ap (λ p. p.1) e))

  form_loop-leave :
      (fuel : ℕ) (f : Form) (s t : Session S D)
      → (get_line >>= form_round env f) s ≡ (next leave, t)
      → form_loop env (suc fuel) f s ≡ (next tt, t)
  unfolding form_loop
  form_loop-leave fuel f s t e =
      rw (ap (λ p. p.0) e, form_loop) (ap (λ t. (next tt, t)) (ap (λ p. p.1) e))

  store_form-some :
      (f : Form) (d : D.Db) (s : Session S D)
      → s.regdb ≡ some d
      → store_form env f s
        ≡ (next tt, record s { regdb = some (reg_insertdb D f.key f.regbuf true d).1 })
  unfolding store_form
  store_form-some f d s e = rw e refl

  form_round-leave :
      (L : IsLawful S) (R : IsReliable S) (f : Form) (rest : Bytes) (d : D.Db) (s : Session S D)
      → s.buffer ≡ codes ".\n" ++ 0 ∷ rest
      → s.regdb ≡ some d
      → form_round env f (pos 2) s ≡ (
        next leave,
        record s {
          conn = (writen (codes "500\n") s.conn).1;
          buffer = overwrite (codes "500\n" ++ 0 ∷ []) s.buffer;
          files = set_file f.path f.text s.files;
          regdb = some (reg_insertdb D f.key f.regbuf true d).1;
        },
      )
  unfolding form_round close_form store_form starts_with
  form_round-leave L R f rest d s buffer db =
      let dot : starts_with (codes ".\n") s.buffer ≡ true =
        ap (starts_with (codes ".\n")) buffer
        ∙ starts_with-append (codes ".\n") (codes ".\n") rest refl in
      rw dot (
        bind-next (store_form env f) (λ _. answer) _ _ tt (store_form-some f d _ db)
        ∙ bind-next (send (codes "500\n")) (λ _. return leave) _ _ tt
            (send-writen L R (codes "500\n") _))
    where
      answer : M (Session S D) Round
      answer = set_text (codes "500\n") >> (send (codes "500\n") >> return leave)

split : {whole : Bytes} (l left : Bytes) → whole ≡ line_of l ++ left → whole ≡ l ++ newline ∷ left
split l left e = e ∙ append_assoc l (newline ∷ []) left

module _ {S : Socket} {P : Database Password} {D : Database Bytes} (env : Env P D) where
  -- What a session is after a form: it goes on, the bytes behind the form are still to be read,
  -- "500" is sent, and the form is in its file and, as one block under its key, in the database.
  pub record Stores (f : Form) (ls : List Bytes) (d : D.Db) (more : Bytes) (s : Session S D)
      (r : Outcome (Unit {0}) × Session S D) : Type 0 where
    pub goes_on : r.0 ≡ next tt
    pub stream_is : stream r.1.conn ≡ more
    pub replied : S.outgoing r.1.conn.sock ≡ S.outgoing s.conn.sock ++ codes "500\n"
    pub files_are : r.1.files ≡ set_file f.path (f.text ++ wire ls) s.files
    pub regdb_is : r.1.regdb ≡ some (reg_insertdb D f.key (f.regbuf ++ block_of_lines ls) true d).1
    pub dirs_are : r.1.dirs ≡ s.dirs

  pub form_loop-Stores :
      (L : IsLawful S) (R : IsReliable S)
      (accepts_all : (path line : Bytes) → env.accepts path line ≡ true) (d : D.Db) (more : Bytes)
      (ls : List Bytes) (fuel : ℕ) (f : Form) (s : Session S D)
      → AllFormLines ls
      → length ls < fuel
      → stream s.conn ≡ wire ls ++ (codes ".\n" ++ more)
      → length f.regbuf + length (block_of_lines ls) ≤ max_info_size
      → s.regdb ≡ some d
      → Stores f ls d more s (form_loop env fuel f s)
  unfolding wire block_of_lines
  form_loop-Stores L R acc d more ls zero f s good enough e room db = absurd (omega arith)
  form_loop-Stores L R acc d more [] (suc fuel) f s good enough e room db =
      let g = get_line-TakesLine S D L R (codes ".") more s e refl (omega arith) in
      let dot = form_round-leave env L R f _ d g.after g.buffer_is (g.regdb_is ∙ db) in
      let all =
        form_loop-leave env fuel f s _
          (bind-next get_line (form_round env f) s g.after _ g.runs ∙ dot) in
      let (_, sent, kept, rl) = writen_lem S L R (codes "500\n") g.after.conn in
      rw all (record {
        goes_on = refl;
        stream_is = rw (kept, rl) g.stream_is;
        replied = sent ∙ rw g.quiet refl;
        files_are = rw (append-nil, g.files_are) refl;
        regdb_is = rw append-nil refl;
        dirs_are = g.dirs_are;
      })
  form_loop-Stores L R acc d more (l ∷ ls) (suc fuel) f s (good, goods) enough e room db =
      let left = wire ls ++ (codes ".\n" ++ more) in
      let line : stream s.conn ≡ l ++ newline ∷ left =
        e ∙ split l left (append_assoc (line_of l) (wire ls) (codes ".\n" ++ more)) in
      let g = get_line-TakesLine S D L R l left s line good.one_line good.fits in
      let size = length-append (line_of l ++ 0 ∷ []) (block_of_lines ls) in
      let size_l = length-append (line_of l) (0 ∷ []) in
      let taken =
        form_round-again env l _ f g.after good g.buffer_is (acc f.path (line_of l))
          (omega arith) in
      let step =
        form_loop-again env fuel f _ s g.after
          (bind-next get_line (form_round env f) s g.after _ g.runs ∙ taken) in
      let f' : Form = record f {
        text = f.text ++ line_of l;
        regbuf = f.regbuf ++ (line_of l ++ 0 ∷ []);
      } in
      let grown = length-append f.regbuf (line_of l ++ 0 ∷ []) in
      let r =
        form_loop-Stores L R acc d more ls fuel f' g.after goods (omega arith) g.stream_is
          (omega arith) (g.regdb_is ∙ db) in
      rw step (record {
        goes_on = r.goes_on;
        stream_is = r.stream_is;
        replied = r.replied ∙ rw g.quiet refl;
        files_are = r.files_are ∙ rw (g.files_are, append_assoc) refl;
        regdb_is = r.regdb_is ∙ rw append_assoc refl;
        dirs_are = r.dirs_are ∙ g.dirs_are;
      })
