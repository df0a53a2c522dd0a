-- ===== src/Client/Tests.antt =====
-- Runs of the client's routines over a scripted socket, and the theorems on them at concrete inputs.
use esif_client_server.Common.{
  none, ◌≡◌, refl, sym, ap, ◌∙◌, ◌++◌, append-nil, true, List, [], ◌∷◌, some, Bytes, codes,
  replicate, wire, line_of, bytes_eq, starts_with, c_string, strtol, decimal_4, pos, arith,
}
use esif_client_server.Socket.{no_error}
use esif_client_server.Support.{readn, writen}
use esif_client_server.Socket.Script.{
  bytes_of, script_socket, script_socket-IsLawful, script_socket-IsReliable,
}
use esif_client_server.Support.Lines.{stream}
use esif_client_server.Database.Memory.{memory, memory-IsHealthy}
use esif_client_server.Session.{Session, next, receive, send}
use esif_client_server.Session.Tests.{env, digest, college, segment_of, script, at_line}
use esif_client_server.Session.Scan.{scan_word}
use esif_client_server.Session.Login.{lookup_user, login}
use esif_client_server.Session.Login.Accepts.{Takes, IsKnown, dates_of}
use esif_client_server.Password.{pass_getdb}
use esif_client_server.Client.Admission.{IsTime, requests, answered_since, authenticate-Takes}
use esif_client_server.Session.Upload.{file_command}
use esif_client_server.Session.Upload.Whole.{AllFormLines}
use esif_client_server.Form.File.{form_lines}
use esif_client_server.Form.File.Lines.{form_lines-AllFormLines}
use esif_client_server.Form.Text.{construct_filename}
use esif_client_server.Form.Verify.{form_name}
use esif_client_server.Form.Example.{student, student-IsSendable, A-IsWord}
use esif_client_server.Client.{Client, returns, file_at}
use esif_client_server.Client.Header.{found, marked}
use esif_client_server.Client.Apply.{apply_form}
use esif_client_server.Client.Authenticate.{authenticate}
use esif_client_server.Client.Marking.{marked-form_lines}
use esif_client_server.Client.Example.{student-HasHeader}
use esif_client_server.Client.Sent.{Applied, apply_form-Applied}
use esif_client_server.Client.Delivery.{sent_since, Delivered, apply_form-Delivered}
use esif_client_server.Client.Handshake.{IsAnswer, Shakes, reply_code, authenticate-Shakes}

abbrev path : Bytes
path = codes "forms/M_0012_A_0003_0.txt"

abbrev unsent : Bytes
unsent = wire (form_lines (codes "0") [] student)

abbrev now_sent : Bytes
now_sent = wire (form_lines (codes "1") [] student)

abbrev client_at : Bytes → Client script_socket
client_at answers = record {
  conn = record { sock = script (segment_of answers); errno = no_error; rl = [] };
  files = (path, unsent) ∷ [];
  can_write = λ p. true;
  st_name = [];
}

abbrev client : Client script_socket
client = client_at (codes "500\n")

marked_example : marked [] unsent ≡ found (now_sent, codes "Rahim Uddin")
marked_example = marked-form_lines [] [] student student-IsSendable student-HasHeader

there : file_at path client.files ≡ some unsent
unfolding file_at bytes_eq
there = refl

good_lines : AllFormLines (form_lines (codes "0") [] student)
good_lines =
    form_lines-AllFormLines (codes "0") [] student student-IsSendable (refl, omega arith)
      (refl, omega arith)

apply_form_example :
    Applied script_socket-IsLawful script_socket-IsReliable path
      (form_lines (codes "0") [] student)
      now_sent
      []
      client
      (apply_form true path client)
apply_form_example =
    apply_form-Applied script_socket-IsLawful script_socket-IsReliable path now_sent
      (codes "Rahim Uddin") [] (form_lines (codes "0") [] student) client there good_lines
      marked_example refl

abbrev session : Session script_socket (memory Bytes)
session = at_line (codes "FILENAME M_0012_A_0003_0.txt\n") (segment_of (unsent ++ codes ".\n"))

named : session.buffer ≡ codes "FILENAME " ++ (line_of (form_name student) ++ 0 ∷ [])
unfolding form_name construct_filename decimal_4 strtol bytes_eq
named = refl

segment-bytes : (bs : Bytes) → bytes_of (segment_of bs) ≡ bs
segment-bytes [] = refl
segment-bytes (b ∷ bs) = ap (λ t. b ∷ t) (append-nil bs)

linked : stream session.conn ≡ sent_since client (apply_form true path client).1 ++ []
linked =
    segment-bytes (unsent ++ codes ".\n")
    ∙ sym (append-nil (sent_since client (apply_form true path client).1) ∙ apply_form_example.sent)

delivery_example :
    ((apply_form true path client).0 ≡ returns (pos 0))
    × ((file_command env (codes "d/") session).0 ≡ next tt)
    × ((file_command env (codes "d/") session).1.conn.sock.sent ≡ codes "500\n")
    × ((d : List (Bytes × Bytes)) × ((file_command env (codes "d/") session).1.regdb ≡ some d)
        × Delivered
            (memory Bytes)
            path
            (form_name student)
            []
            student
            client
            (apply_form true path client).1
            d)
delivery_example =
    apply_form-Delivered env script_socket-IsLawful script_socket-IsReliable script_socket-IsLawful
      script_socket-IsReliable (memory-IsHealthy Bytes) (λ path line. refl) [] student path []
      (codes "d/") [] [] [] client session student-IsSendable student-HasHeader A-IsWord
      (refl, omega arith) there refl refl named refl linked refl

-- The handshake with a server that answers a wrong last line: `authenticate` takes it for success.
abbrev dates : Bytes
dates = codes "500 Sat Mar 12 18:31:01 2005 - Sat Mar 12 18:31:01 2005"

dates-IsAnswer : IsAnswer dates
dates-IsAnswer = record { one_line = refl; long = omega arith; fits = omega arith }

reply_code-dates : reply_code dates ≡ pos 500
unfolding strtol c_string
reply_code-dates = refl

abbrev caller : Client script_socket
caller = client_at (codes "500\n" ++ (line_of dates ++ codes "500\n"))

authenticate_example :
    Shakes script_socket-IsLawful script_socket-IsReliable
      (replicate 20 77)
      (λ pass. replicate 20 88)
      (codes "0110")
      (codes "secret")
      (codes "500")
      []
      caller
      (authenticate
        (replicate 20 77)
        (λ pass. replicate 20 88)
        (codes "0110")
        (codes "secret")
        caller)
authenticate_example =
    authenticate-Shakes script_socket-IsLawful script_socket-IsReliable (replicate 20 77)
      (λ pass. replicate 20 88) (codes "0110") (codes "secret") dates (codes "500") [] caller refl
      dates-IsAnswer reply_code-dates refl (omega arith) refl

-- The same client and the server of the tests.
abbrev sent_at_login : Bytes
sent_at_login = replicate 20 77 ++ (codes "USER 0110\n" ++ (codes "PASS " ++ digest))

abbrev arriving : Session script_socket (memory Bytes)
arriving = record {
  conn = record { sock = script (segment_of sent_at_login); errno = no_error; rl = [] };
  buffer = [];
  tmpname = none;
  dirs = [];
  files = [];
  regdb = none;
}

college-IsKnown : IsKnown script_socket-IsLawful script_socket-IsReliable env (codes "0110") digest
unfolding scan_word c_string lookup_user pass_getdb bytes_eq
college-IsKnown = record {
  four = refl;
  named = refl;
  pwd = college;
  found = refl;
  is_open = record { enabled = refl; begun = refl; not_over = refl };
  len = refl;
  digest_is = refl;
  full = refl;
}

date-IsTime : IsTime (codes "Sat Mar 12 18:31:01 2005\n")
date-IsTime = record {
  body = codes "Sat Mar 12 18:31:01 2005";
  text_is = refl;
  size = refl;
  one_line = refl;
}

heard :
    script_socket.incoming arriving.conn.sock
    ≡ requests (replicate 20 77) (codes "0110") digest ++ []
heard = segment-bytes sent_at_login

-- The client hears what the server says to it.
answers_run : stream caller.conn ≡ answered_since arriving (login env arriving).1 ++ []
unfolding login receive readn bytes_eq send writen starts_with scan_word c_string pass_getdb
answers_run = refl

admission_example :
    ((authenticate (replicate 20 77) (λ pass. digest) (codes "0110") (codes "secret") caller).0
      ≡ returns (pos 0))
    × (sent_since caller
          (authenticate (replicate 20 77) (λ pass. digest) (codes "0110") (codes "secret") caller).1
        ≡ requests (replicate 20 77) (codes "0110") digest)
    × Takes
        (codes "0110")
        (codes "500\n" ++ (dates_of env college ++ codes "500\n"))
        []
        arriving
        (login env arriving)
admission_example =
    authenticate-Takes env (λ pass. digest) script_socket-IsLawful script_socket-IsReliable
      script_socket-IsLawful script_socket-IsReliable (codes "0110") (codes "secret") [] [] caller
      arriving refl college-IsKnown date-IsTime date-IsTime heard answers_run
