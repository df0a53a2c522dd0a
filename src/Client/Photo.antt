-- ===== src/Client/Photo.antt =====
-- project2/src/myfuncs.c: `send_photo`, as it is built for other systems than Windows.
use esif_client_server.Common.{
  ℕ, zero, suc, ◌+◌, ◌++◌, Bool, true, false, not, [], ◌∷◌, Option, none, some, Bytes, codes,
  c_string, length, take, drop, if◌then◌else◌, pos, ltb_int, eq_int, strtol, decimal,
}
use esif_client_server.Socket.{Socket, Sent, wrote, unsent}
use esif_client_server.Client.{
  Client, Step, going, faults, runs_out, ◌>>=◌, ◌>>◌, return_if, exit, write_all, read_line,
  file_at,
}
use esif_client_server.Form.Verify.{behind_last}

-- sizeof(error_msg)
abbrev pub error_msg_size : ℕ
error_msg_size = 600

abbrev is_sent : Sent → Bool
is_sent (wrote zero) = false
is_sent (wrote (suc k)) = true
is_sent (unsent e) = false

module _ {S : Socket} where
  -- The loop over the picture's bytes: one write() for each part, which may take less than all of it.
  unfoldable pub copy_loop : ℕ → Bytes → Step (Client S) (Unit {0})
  copy_loop zero bytes s = (runs_out, s)
  copy_loop (suc fuel) [] s = (going tt, s)
  copy_loop (suc fuel) (b ∷ bs) s =
      let (answer, sock) = S.write (take error_msg_size (b ∷ bs)) s.conn.sock in
      let t = record s { conn = record s.conn { sock = sock } } in
      let rest = copy_loop fuel (drop error_msg_size (b ∷ bs)) t in
      if is_sent answer then rest else (going tt, t)

  -- An answer of the server: 500, or an error.
  unfoldable pub photo_answer : Step (Client S) (Unit {0})
  photo_answer = do
    line ← read_line 20
    return_if (ltb_int line.ret (pos 4)) (pos 1)
    return_if (not (eq_int (strtol (c_string line.written)) (pos 500))) (pos 1)

  unfoldable pub send_named : Bytes → Option Bytes → Step (Client S) (Unit {0})
  unfolding copy_loop photo_answer
  send_named picture none = λ s. (faults, s)
  send_named picture (some basename) = do
    write_all
        (codes "BINARY " ++ (decimal (length picture) ++ (codes " " ++ (basename ++ codes "\n"))))
        (pos 1)
    photo_answer
    copy_loop (length picture + 1) picture
    photo_answer
    exit (pos 0)

  photo_from : Bytes → Option Bytes → Step (Client S) (Unit {0})
  unfolding send_named behind_last
  photo_from filename none = exit (pos 1)
  photo_from filename (some picture) = send_named picture (behind_last b'/' filename)

  -- `send_photo`; a name without a '/' gives strrchr() nothing to find.
  unfoldable pub send_photo : Bytes → Step (Client S) (Unit {0})
  unfolding photo_from
  send_photo filename s = photo_from filename (file_at filename s.files) s
