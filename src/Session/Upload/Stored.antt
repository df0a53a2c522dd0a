-- ===== src/Session/Upload/Stored.antt =====
-- The branch for "FILENAME " as a whole, from the line with the name on, and what the database then
-- gives back.
use esif_client_server.Common.{
  line_of, wire, length-wire, ◌+◌, ◌-◌, ◌≤◌, ◌<◌, ◌≡◌, refl, ap, ◌∙◌, ◌++◌, append_assoc, Bool,
  Bool-cases, inl, inr, true, false, ◌&&◌, List, [], ◌∷◌, some, Bytes, bytes_eq, bytes_eq_refl,
  codes, c_string, length, length-append, take, drop, pos, arith,
}
use esif_client_server.Socket.{Socket, IsLawful, IsReliable}
use esif_client_server.Support.Lines.{stream}
use esif_client_server.Database.{Database, IsHealthy}
use esif_client_server.Password.{Password}
use esif_client_server.Regdb.{reg_insertdb, reg_getdb, txt_lines}
use esif_client_server.Regdb.Records.{block_of, has_nul, NoNul, reg_getdb-reg_insertdb}
use esif_client_server.Session.{bind-next, Env, Session, next, set_file}
use esif_client_server.Session.Scan.{span, not_line_end, scan_line}
use esif_client_server.Session.Image.{max_info_size, max_file_name}
use esif_client_server.Session.Upload.{Form, begin_form, name_of, form_loop, file_command, supply}
use esif_client_server.Session.Upload.Lines.{c_string-append, has_nul-line_of}
use esif_client_server.Session.Upload.Whole.{block_of_lines, AllFormLines, Stores, form_loop-Stores}

-- No '\r' and no '\n' is in it.
abbrev pub is_one_line : Bytes → Bool
is_one_line [] = true
is_one_line (c ∷ cs) = not_line_end c && is_one_line cs

-- A name that "FILENAME " takes: what `tmpname` can hold and the key can be cut from.
pub record IsFormName (name : Bytes) : Type 0 where
  pub no_nul : has_nul name ≡ false
  pub one_line : is_one_line name ≡ true
  pub fits : length name < max_file_name
  pub has_key : 4 ≤ length name

span-line_of : (l : Bytes) → is_one_line l ≡ true → (span not_line_end (line_of l)).0 ≡ l
span-line_of [] h = refl
span-line_of (c ∷ cs) h = ground (arith, span-line_of cs)

pub scan_line-line_of :
    (l : Bytes) → is_one_line l ≡ true → 0 < length l → scan_line (line_of l) ≡ some l
unfolding scan_line
scan_line-line_of [] h n = absurd (omega arith)
scan_line-line_of (c ∷ cs) h n = rw (span-line_of (c ∷ cs) h) refl

set_file-set_file :
    (path text old : Bytes) (files : List (Bytes × Bytes))
    → set_file path text (set_file path old files) ≡ set_file path text files
unfolding set_file
set_file-set_file path text old [] = rw (bytes_eq_refl path) refl
set_file-set_file path text old ((p, t) ∷ files) = elim (Bool-cases (bytes_eq p path)) [
  | inl e ↦ rw e (rw (bytes_eq_refl path, set_file) refl)
  | inr e ↦ rw e (rw (e, set_file) (ap (λ fs. (p, t) ∷ fs) (set_file-set_file path text old files)))
]

abbrev pub form_of : Bytes → Bytes → Form
form_of txtdir name = record {
  path = txtdir ++ name;
  key = take (length name - 4) name;
  text = [];
  regbuf = [];
}

module _ {S : Socket} {P : Database Password} {D : Database Bytes} (env : Env P D) where
  abbrev begun_at : Bytes → Bytes → Session S D → Session S D
  begun_at txtdir name s = record s {
    tmpname = some name;
    files = set_file (txtdir ++ name) [] s.files;
  }

  begin_form-open :
      (txtdir name : Bytes) (s : Session S D)
      → IsFormName name
      → env.opens (txtdir ++ name) ≡ true
      → begin_form env txtdir (some name) s ≡ (next (form_of txtdir name), begun_at txtdir name s)
  unfolding begin_form
  begin_form-open txtdir name s good opens = rw opens (ground arith)

  -- Over a lawful socket on which no call fails but for interruptions, when the line in `buffer` is
  -- "FILENAME " and a name of 4 to 19 bytes, the file opens and takes every line, and the database
  -- is open: if the peer sends lines of a form, each of at most 118 bytes, with no NUL, none of them
  -- the end or "QUIT", that fit with their NULs into `regbuf`, and then ".", the branch goes on, has
  -- taken from the stream just those bytes, has answered "500", the file has just the lines, and
  -- the block of them has been given to the database under the name less its last four bytes.
  pub file_command-Stores :
      (L : IsLawful S) (R : IsReliable S)
      (accepts_all : (path line : Bytes) → env.accepts path line ≡ true) (d : D.Db)
      (txtdir name rest more : Bytes) (ls : List Bytes) (s : Session S D)
      → s.buffer ≡ codes "FILENAME " ++ (line_of name ++ 0 ∷ rest)
      → IsFormName name
      → env.opens (txtdir ++ name) ≡ true
      → AllFormLines ls
      → stream s.conn ≡ wire ls ++ (codes ".\n" ++ more)
      → length (block_of_lines ls) ≤ max_info_size
      → s.regdb ≡ some d
      → Stores env (form_of txtdir name) ls d more s (file_command env txtdir s)
  unfolding file_command name_of
  file_command-Stores L R acc d txtdir name rest more ls s buffer good opens goods e room db =
      let scanned : scan_line (c_string (drop 9 s.buffer)) ≡ some name =
        ap (λ b. scan_line (c_string (drop 9 b))) buffer
        ∙ ap scan_line (c_string-append (line_of name) rest (has_nul-line_of name good.no_nul))
        ∙ scan_line-line_of name good.one_line (omega (arith, good.has_key)) in
      let begun : begin_form env txtdir (name_of (scan_line (c_string (drop 9 s.buffer))) s.tmpname)
            s
          ≡ (next (form_of txtdir name), begun_at txtdir name s) =
        rw scanned (begin_form-open txtdir name s good opens) in
      let chain =
        bind-next
          (λ s.
            begin_form env txtdir (name_of (scan_line (c_string (drop 9 s.buffer))) s.tmpname) s)
          (λ f s. form_loop env (supply s + 1) f s) s (begun_at txtdir name s) _ begun in
      let size = ap length e in
      let parts = length-append (wire ls) (codes ".\n" ++ more) in
      let all = length-append s.conn.rl (S.incoming s.conn.sock) in
      let r =
        form_loop-Stores env L R acc d more ls _ (form_of txtdir name) (begun_at txtdir name s)
          goods (omega (arith, length-wire ls)) e (omega arith) db in
      rw chain (record {
        goes_on = r.goes_on;
        stream_is = r.stream_is;
        replied = r.replied;
        files_are = r.files_are ∙ set_file-set_file (txtdir ++ name) (wire ls) [] s.files;
        regdb_is = r.regdb_is;
        dirs_are = r.dirs_are;
      })

abbrev pub lines_of : List Bytes → List Bytes
lines_of [] = []
lines_of (l ∷ ls) = line_of l ∷ lines_of ls

block_of_lines-block_of : (ls : List Bytes) → block_of_lines ls ≡ block_of (lines_of ls)
unfolding block_of_lines
block_of_lines-block_of [] = refl
block_of_lines-block_of (l ∷ ls) =
    append_assoc (line_of l) (0 ∷ []) (block_of_lines ls)
    ∙ ap (λ b. line_of l ++ 0 ∷ b) (block_of_lines-block_of ls)

length-lines_of : (ls : List Bytes) → length (lines_of ls) ≡ length ls
length-lines_of [] = refl
length-lines_of (l ∷ ls) = rw (length-lines_of ls) refl

lines_of-NoNul : (ls : List Bytes) → AllFormLines ls → NoNul (lines_of ls)
lines_of-NoNul [] h = tt
lines_of-NoNul (l ∷ ls) (good, goods) = (has_nul-line_of l good.no_nul, lines_of-NoNul ls goods)

module _ {S : Socket} {P : Database Password} {D : Database Bytes} (env : Env P D) where
  -- Under the same conditions, with a database that works and a form of 39 lines, the database that
  -- the session then has gives those lines back, each with its newline, under the form's key.
  pub file_command-reg_getdb :
      (L : IsLawful S) (R : IsReliable S) (H : IsHealthy D)
      (accepts_all : (path line : Bytes) → env.accepts path line ≡ true) (d : D.Db)
      (txtdir name rest more : Bytes) (ls : List Bytes) (s : Session S D)
      → s.buffer ≡ codes "FILENAME " ++ (line_of name ++ 0 ∷ rest)
      → IsFormName name
      → env.opens (txtdir ++ name) ≡ true
      → AllFormLines ls
      → length ls ≡ txt_lines
      → stream s.conn ≡ wire ls ++ (codes ".\n" ++ more)
      → length (block_of_lines ls) ≤ max_info_size
      → s.regdb ≡ some d
      → (d' : D.Db) × ((file_command env txtdir s).1.regdb ≡ some d')
        × (reg_getdb D (take (length name - 4) name) d' ≡ some (pos 0, lines_of ls))
  file_command-reg_getdb L R H acc d txtdir name rest more ls s buffer good opens goods n e room
        db =
      let r =
        file_command-Stores env L R acc d txtdir name rest more ls s buffer good opens goods e room
          db in
      let key = take (length name - 4) name in
      let (back, _) =
        reg_getdb-reg_insertdb D H key (lines_of ls) d (length-lines_of ls ∙ n)
          (lines_of-NoNul ls goods) in
      (
        (reg_insertdb D key (block_of_lines ls) true d).1,
        r.regdb_is,
        rw (block_of_lines-block_of ls) back,
      )
