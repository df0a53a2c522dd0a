-- ===== src/Support/Tests.antt =====
-- The theorems on the socket routines at a scripted connection.
use esif_client_server.Common.{◌≡◌, [], ◌∷◌, codes, arith}
use esif_client_server.Socket.{no_error}
use esif_client_server.Socket.Script.{
  segment, interrupt, script_socket, script_socket-IsLawful, script_socket-IsReliable,
}
use esif_client_server.Support.{Conn, done, readn, writen, readline}
use esif_client_server.Support.Reading.{readn_lem}
use esif_client_server.Support.Writing.{writen_lem}
use esif_client_server.Support.Lines.{stream, line_report, readline_lem}
use esif_client_server.Support.Progress.{ReadsLine, readline-ReadsLine}

-- "ab", an interruption, and "c\nd".
abbrev two_parts : Conn script_socket
two_parts = record {
  sock = record {
    events = segment 97 (98 ∷ []) ∷ interrupt ∷ segment 99 (10 ∷ 100 ∷ []) ∷ [];
    sent = [];
  };
  errno = no_error;
  rl = [];
}

readn_example :
    ((readn 4 two_parts).0 ≡ done (codes "abc\n"))
    × (script_socket.incoming (readn 4 two_parts).1.sock ≡ codes "d")
    × ((readn 4 two_parts).1.rl ≡ [])
readn_example = readn_lem script_socket script_socket-IsLawful script_socket-IsReliable 4 two_parts

writen_example :
    ((writen (codes "500\n") two_parts).0 ≡ done tt)
    × (script_socket.outgoing (writen (codes "500\n") two_parts).1.sock ≡ codes "500\n")
    × (script_socket.incoming (writen (codes "500\n") two_parts).1.sock ≡ codes "abc\nd")
    × ((writen (codes "500\n") two_parts).1.rl ≡ [])
writen_example =
    writen_lem script_socket script_socket-IsLawful script_socket-IsReliable (codes "500\n")
      two_parts

readline_example :
    ((readline 120 two_parts).0 ≡ done (line_report (codes "abc\n")))
    × (stream (readline 120 two_parts).1 ≡ codes "d")
readline_example =
    readline_lem script_socket script_socket-IsLawful script_socket-IsReliable 120 two_parts
      (omega arith)

progress_example : ReadsLine script_socket script_socket-IsLawful two_parts (readline 120 two_parts)
progress_example =
    readline-ReadsLine script_socket script_socket-IsLawful 120 two_parts (omega arith)
