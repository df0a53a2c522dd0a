-- ===== src/Session/Tests.antt =====
-- Runs of `manage_client` over a scripted socket and databases in memory, and the theorems on it at
-- concrete inputs.
use esif_client_server.Common.{
  wire, ℕ, zero, suc, ◌++◌, ◌≡◌, refl, true, List, [], ◌∷◌, Option, none, some, Bytes, codes,
  replicate, take, ℤ, pos,
}
use esif_client_server.Socket.{no_error}
use esif_client_server.Socket.Script.{
  Script, Event, segment, interrupt, script_socket, script_socket-IsLawful,
  script_socket-IsReliable,
}
use esif_client_server.Database.Memory.{memory, memory-IsHealthy}
use esif_client_server.Password.{Password, db_key}
use esif_client_server.Session.{Env, Session, Outcome, set_file, receive, send}
use esif_client_server.Session.Handler.{manage_client, fresh}
use esif_client_server.Support.{readn, writen, my_read, readline}
use esif_client_server.Password.{pass_getdb}
use esif_client_server.Regdb.{reg_insertdb, reg_getdb}
use esif_client_server.Session.Login.{lookup_user}
use esif_client_server.Session.Upload.{get_line, file_command}
use esif_client_server.Common.{bytes_eq, starts_with, c_string, strtol, decimal_4}
use esif_client_server.Session.Scan.{scan_word, scan_line, scan_int}
use esif_client_server.Session.Image.{to_int, max_info_size}
use esif_client_server.Common.{◌-◌, ◌≤◌, length, arith}
use esif_client_server.Support.Lines.{stream}
use esif_client_server.Session.Upload.Lines.{IsFormLine}
use esif_client_server.Session.Upload.Whole.{block_of_lines, AllFormLines, Stores}
use esif_client_server.Session.Upload.Stored.{
  IsFormName, form_of, lines_of, file_command-Stores, file_command-reg_getdb,
}
use esif_client_server.Session.{next}
use esif_client_server.Session.Image.{accept_binary}
use esif_client_server.Session.Image.Small.{accept_binary-small}
use esif_client_server.Session.Runs.{Ended, Runs}
use esif_client_server.Session.Login.{login}
use esif_client_server.Session.Login.Safe.{Admits, login-Admits}
use esif_client_server.Common.{◌⊎◌, ◌+◌}
use esif_client_server.Session.Institute.{txt_dir, reg_path, open_institute}
use esif_client_server.Session.Institute.Bounds.{ending_of, open_institute-fits}
use esif_client_server.Session.Places.{Served, manage_client-Served}
use esif_client_server.Session.Ends.{Halts}
use esif_client_server.Session.Termination.{manage_client-Halts}

abbrev pub digest : Bytes
digest = replicate 20 88

abbrev pub college : Password
college = record { pass = digest; len = 20; disabled = pos 0; start = pos 100; end = pos 900 }

abbrev pub passwords : List (Bytes × Password)
passwords = (db_key (codes "0110"), college) ∷ []

abbrev pub time_text : ℤ → Bytes
time_text t = codes "Sat Mar 12 18:31:01 2005\n"

abbrev pub env : Env (memory Password) (memory Bytes)
env = record {
  magic = replicate 20 77;
  accept_image = true;
  passdb = some passwords;
  now_at_start = pos 500;
  now_at_end = pos 500;
  ctime = time_text;
  year = pos 2005;
  opens = λ path. true;
  accepts = λ path line. true;
  reg_open = λ path. some [];
  malloc_ok = true;
}

abbrev pub segment_of : Bytes → List Event
segment_of [] = []
segment_of (b ∷ bs) = segment b bs ∷ []

abbrev pub script : List Event → Script
script events = record { events = events; sent = [] }

abbrev pub login_events : List Event
login_events =
    segment_of (replicate 12 77)
    ++ (interrupt ∷ [])
    ++ segment_of (replicate 8 77 ++ codes "USER 01")
    ++ segment_of (codes "10\nPASS ")
    ++ segment_of digest

run : List Event → Outcome (Unit {0}) × Session script_socket (memory Bytes)
unfolding manage_client lookup_user pass_getdb reg_insertdb readn writen my_read readline get_line
    bytes_eq starts_with c_string strtol decimal_4 scan_word scan_line scan_int to_int set_file
run events = manage_client env (fresh (script events))

abbrev uploaded :
    Outcome (Unit {0}) × Session script_socket (memory Bytes) → Option (List (Bytes × Bytes))
uploaded (o, s) = s.regdb

-- A session with one form.
upload_run :
    uploaded
      (run (login_events ++ segment_of (codes "FILENAME M_0002_A_0001_0.txt\nfirst\n.\nQUIT\n")))
    ≡ some ((codes "M_0002_A_0001_0" ++ 0 ∷ [], codes "first\n" ++ 0 ∷ []) ∷ [])
unfolding run receive send
upload_run = refl

-- A connection on which `events` are still to come, and `buffer` holds a line.
abbrev pub at_line : Bytes → List Event → Session script_socket (memory Bytes)
at_line line events = record {
  conn = record { sock = script events; errno = no_error; rl = [] };
  buffer = line ++ 0 ∷ [];
  tmpname = none;
  dirs = [];
  files = [];
  regdb = some [];
}

abbrev x_lines : ℕ → List Bytes
x_lines n = replicate n (codes "x")

good_line : IsFormLine (codes "x")
unfolding starts_with
good_line = record {
  one_line = refl;
  no_nul = refl;
  fits = omega arith;
  no_end = refl;
  no_quit = refl;
}

x_lines-AllFormLines : (n : ℕ) → AllFormLines (x_lines n)
x_lines-AllFormLines zero = tt
x_lines-AllFormLines (suc n) = (good_line, x_lines-AllFormLines n)

abbrev name : Bytes
name = codes "M_1.txt"

good_name : IsFormName name
good_name = record { no_nul = refl; one_line = refl; fits = omega arith; has_key = omega arith }

abbrev at_form : ℕ → Session script_socket (memory Bytes)
at_form n =
    at_line (codes "FILENAME M_1.txt\n")
      (segment_of (wire (x_lines n) ++ (codes ".\n" ++ codes "QUIT\n")))

stream-at_form : stream (at_form 39).conn ≡ wire (x_lines 39) ++ (codes ".\n" ++ codes "QUIT\n")
unfolding wire
stream-at_form = refl

size_at_form : length (block_of_lines (x_lines 39)) ≤ max_info_size
unfolding block_of_lines
size_at_form = omega arith

file_command_example :
    Stores env
      (form_of (codes "d/") name)
      (x_lines 39)
      []
      (codes "QUIT\n")
      (at_form 39)
      (file_command env (codes "d/") (at_form 39))
file_command_example =
    file_command-Stores env script_socket-IsLawful script_socket-IsReliable (λ path line. refl) []
      (codes "d/") name [] (codes "QUIT\n") (x_lines 39) (at_form 39) refl good_name refl
      (x_lines-AllFormLines 39) stream-at_form size_at_form refl

reg_getdb_back_example :
    (d' : List (Bytes × Bytes)) × ((file_command env (codes "d/") (at_form 39)).1.regdb ≡ some d')
    × (reg_getdb (memory Bytes) (take (length name - 4) name) d'
        ≡ some (pos 0, lines_of (x_lines 39)))
reg_getdb_back_example =
    file_command-reg_getdb env script_socket-IsLawful script_socket-IsReliable
      (memory-IsHealthy Bytes) (λ path line. refl) [] (codes "d/") name [] (codes "QUIT\n")
      (x_lines 39) (at_form 39) refl good_name refl (x_lines-AllFormLines 39) refl stream-at_form
      size_at_form refl

abbrev start : Session script_socket (memory Bytes)
start = at_line [] login_events

login_example :
    Runs
      (Admits script_socket-IsLawful script_socket-IsReliable start env)
      (Ended start)
      (login env start)
login_example = login-Admits script_socket-IsLawful script_socket-IsReliable start env

small_example :
    accept_binary env 5 (codes "p") (at_line [] [])
    ≡ (next (to_int 5), record (at_line [] []) { files = set_file (codes "p") [] [] })
small_example =
    accept_binary-small env 5 (codes "p") (at_line [] []) (λ s. refl) refl (omega arith)
      (omega arith)

-- A peer that breaks off in the middle of a line, and the handler's end.
abbrev begun : Session script_socket (memory Bytes)
begun = fresh (script (login_events ++ segment_of (codes "FILENAME M_0002_A_0001_0.txt\nfirst")))

termination_example : Halts begun (manage_client env begun)
termination_example = manage_client-Halts env script_socket-IsLawful begun

served_example :
    ((manage_client env begun).1.files ≡ [])
    ⊎ Served env script_socket-IsLawful script_socket-IsReliable begun (manage_client env begun).1
served_example = manage_client-Served env script_socket-IsLawful script_socket-IsReliable begun refl

open_institute_example :
    ((open_institute env (codes "0110") begun).0
      ≡ ending_of env (txt_dir (pos 2005) (pos 110)) (env.reg_open (reg_path (pos 2005) (pos 110))))
    × (length (txt_dir (pos 2005) (pos 110)) + 19 + 1 ≤ 220)
unfolding strtol
open_institute_example =
    open_institute-fits env 2005 110 (codes "0110") begun refl refl (omega arith) (omega arith)
