-- ===== src/Session/Upload.antt =====
-- `manage_client`: the branch for a line that starts with "FILENAME ", and the loop over the lines
-- of the form behind it.
pub mod Lines
pub mod Whole
pub mod Stored
pub mod Ends
pub mod Confined
use esif_client_server.Common.{
  ℕ, zero, suc, ◌+◌, ◌-◌, ◌++◌, Bool, true, false, not, ◌||◌, List, [], ◌∷◌, Option, none, some,
  Bytes, codes, c_string, starts_with, overwrite, length, take, drop, ltb, leb, if◌then◌else◌, ℤ,
  pos, negsuc, ltb_int,
}
use esif_client_server.Socket.{Socket}
use esif_client_server.Support.{Conn, Io, Line, done, error, out_of_fuel, readline, max_line}
use esif_client_server.Database.{Database}
use esif_client_server.Password.{Password}
use esif_client_server.Regdb.{reg_insertdb}
use esif_client_server.Session.{
  M, ◌>>=◌, ◌>>◌, return, stop_if, fault_if, Env, Session, Outcome, next, stop, fault, spent,
  set_text, send, set_file,
}
use esif_client_server.Session.Scan.{scan_line}
use esif_client_server.Session.Image.{max_info_size, max_file_name}

module _ {S : Socket} {D : Database Bytes} where
  unfoldable pub after_readline : Io Line → Session S D → Outcome ℤ × Session S D
  after_readline (done line) s =
      (next line.ret, record s { buffer = overwrite line.written s.buffer })
  after_readline error s = (fault, s)
  after_readline out_of_fuel s = (spent, s)

  -- `ret = readline(conn_id, buffer, MAXLINE);`
  unfoldable pub get_line : M (Session S D) ℤ
  unfolding after_readline
  get_line s = let (r, c) = readline max_line s.conn in after_readline r (record s { conn = c })

  -- How many bytes the session's readline() can still give.
  abbrev pub supply : Session S D → ℕ
  supply s = length s.conn.rl + length (S.incoming s.conn.sock)

-- The form that is being received: its path, its key, the text written to `stfile` so far, and the
-- bytes of `regbuf` in use.
pub record Form : Type 0 where
  pub path : Bytes
  pub key : Bytes
  pub text : Bytes
  pub regbuf : Bytes

-- What a round of the loop does next: read another line, or leave the loop for the next command.
pub data Round : Type 0 where
  again : Form → Round
  leave : Round

abbrev pub is_positive : ℤ → Bool
is_positive z = ltb_int (pos 0) z

abbrev pub to_nat : ℤ → ℕ
to_nat (pos n) = n
to_nat (negsuc n) = 0

-- A scan that matches nothing leaves the variable as it is.
unfoldable pub name_of : Option Bytes → Option Bytes → Option Bytes
name_of none old = old
name_of (some name) old = some name

module _ {S : Socket} {P : Database Password} {D : Database Bytes} (env : Env P D) where
  -- `fclose(stfile)`: what was written to the stream is in the file.
  unfoldable pub close_form : Form → M (Session S D) (Unit {0})
  close_form f s = (next tt, record s { files = set_file f.path f.text s.files })

  -- `reg_insertdb(regdbp, regkey, regbuf, regbufsize, confirm)` with `confirm` 1; nothing looks at
  -- what it returns.
  unfoldable pub store_form : Form → M (Session S D) (Unit {0})
  store_form f s = elim s.regdb [
    | none ↦ (fault, s)
    | some d ↦ (next tt, record s { regdb = some (reg_insertdb D f.key f.regbuf true d).1 })
  ]

  -- A line of the form: to the file, and with its NUL to `regbuf`. The copy takes `ret + 1` bytes
  -- of `buffer`, which has 120; `regbuf` has 1024.
  unfoldable pub form_line : Form → ℕ → M (Session S D) Round
  unfolding close_form
  form_line f ret s =
      let text = f.text ++ c_string s.buffer in
      if not (env.accepts f.path (c_string s.buffer))
      then (close_form f >> return leave) s
      else if leb max_info_size (length f.regbuf)
      then (next leave, s)
      else if ltb max_line (ret + 1) || ltb max_info_size (length f.regbuf + (ret + 1))
      then (fault, s)
      else (
        next (again (record f { text = text; regbuf = f.regbuf ++ take (ret + 1) s.buffer })),
        s,
      )

  -- One round of the loop, after a readline() that returned `ret`.
  unfoldable pub form_round : Form → ℤ → M (Session S D) Round
  unfolding close_form store_form form_line
  form_round f ret s =
      if not (is_positive ret)
      then (close_form f >> λ t. (stop, t)) s
      else if starts_with (codes ".\n") s.buffer
      then (do
        close_form f
        store_form f
        set_text (codes "500\n")
        send (codes "500\n")
        return leave)
          s
      else if starts_with (codes "QUIT\n") s.buffer
      then (close_form f >> λ t. (stop, t)) s
      else form_line f (to_nat ret) s

  unfoldable pub form_loop : ℕ → Form → M (Session S D) (Unit {0})
  unfolding form_round get_line
  form_loop zero f s = (spent, s)
  form_loop (suc fuel) f s =
      let (o, t) = (get_line >>= form_round f) s in
      elim o [
        | next leave ↦ (next tt, t)
        | next (again g) ↦ form_loop fuel g t
        | stop ↦ (stop, t)
        | fault ↦ (fault, t)
        | spent ↦ (spent, t)
      ]

  -- `tmpname` has 20 bytes, and the key is the name without its last four.
  unfoldable pub begin_form : Bytes → Option Bytes → M (Session S D) Form
  begin_form txtdir none s = (fault, s)
  begin_form txtdir (some name) s =
      let path = txtdir ++ name in
      if leb max_file_name (length name) || ltb (length name) 4
      then (fault, s)
      else if not (env.opens path)
      then (stop, record s { tmpname = some name })
      else (
        next (record { path = path; key = take (length name - 4) name; text = []; regbuf = [] }),
        record s { tmpname = some name; files = set_file path [] s.files },
      )

  -- The branch for a line that starts with "FILENAME ".
  unfoldable pub file_command : Bytes → M (Session S D) (Unit {0})
  unfolding begin_form name_of form_loop
  file_command txtdir = do
    f ← λ s. begin_form txtdir (name_of (scan_line (c_string (drop 9 s.buffer))) s.tmpname) s
    λ s. form_loop (supply s + 1) f s
