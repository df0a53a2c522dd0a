-- ===== src/Session/Commands.antt =====
-- `manage_client`: the loop over the client's commands.
use esif_client_server.Common.{
  ℕ, zero, suc, ◌||◌, Bytes, codes, starts_with, ltb_int, if◌then◌else◌, ℤ, pos,
}
use esif_client_server.Socket.{Socket, is_ewouldblock}
use esif_client_server.Database.{Database}
use esif_client_server.Password.{Password}
use esif_client_server.Session.{M, ◌>>=◌, Env, Session, next, stop, fault, spent}
use esif_client_server.Session.Image.{image_command}
use esif_client_server.Session.Upload.{get_line, file_command}

module _ {S : Socket} {P : Database Password} {D : Database Bytes} (env : Env P D)
    (txtdir : Bytes) where
  -- What follows the readline() that returned `ret`. The test of `errno` is on its last value.
  unfoldable pub command : ℤ → M (Session S D) (Unit {0})
  unfolding image_command file_command
  command ret s =
      if is_ewouldblock s.conn.errno
        || (starts_with (codes "QUIT\n") s.buffer || ltb_int ret (pos 9))
      then (stop, s)
      else if starts_with (codes "BINARY ") s.buffer
      then image_command env txtdir s
      else if starts_with (codes "FILENAME ") s.buffer
      then file_command env txtdir s
      else (stop, s)

  -- `while (1) { ret = readline(conn_id, buffer, MAXLINE); ... }`
  unfoldable pub command_loop : ℕ → M (Session S D) (Unit {0})
  unfolding command get_line
  command_loop zero s = (spent, s)
  command_loop (suc fuel) s =
      let (o, t) = (get_line >>= command) s in
      elim o [
        | next _ ↦ command_loop fuel t
        | stop ↦ (stop, t)
        | fault ↦ (fault, t)
        | spent ↦ (spent, t)
      ]
