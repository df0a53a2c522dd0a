-- ===== src/Client/Authenticate.antt =====
-- project2/src/myfuncs.c: `authenticate`.
use esif_client_server.Common.{
  ◌++◌, Bool, true, not, ◌||◌, [], ◌∷◌, Bytes, codes, c_string, starts_with, length, ltb, ◌==◌,
  if◌then◌else◌, ℤ, pos, ltb_int, eq_int, strtol,
}
use esif_client_server.Socket.{Socket}
use esif_client_server.Support.{Line, max_line}
use esif_client_server.Client.{
  Client, Step, going, ◌>>=◌, ◌>>◌, return_if, faults_if, exit, write_all, read_line,
}

-- The answers to "USER " that end the routine: those of the four errors, and any but 500.
unfoldable pub refuses : ℤ → Bool
refuses errval =
    if eq_int errval (pos 301)
      || (eq_int errval (pos 302) || (eq_int errval (pos 304) || eq_int errval (pos 305)))
    then true
    else not (eq_int errval (pos 500))

module _ {S : Socket} (magic : Bytes) (sha1 : Bytes → Bytes) where
  -- The magic, and the answer to it; `buffer` has 80 bytes.
  unfoldable pub magic_answer : Line → Step (Client S) (Unit {0})
  magic_answer line = do
    return_if (not (eq_int line.ret (pos 4))) (pos 1)
    return_if (not (starts_with (codes "500\n") line.written)) (pos 1)

  unfoldable pub send_magic : Step (Client S) (Unit {0})
  unfolding magic_answer
  send_magic = do write_all magic (pos 1); line ← read_line 80; magic_answer line

  -- The college's code, and the answer to it, for which there is room for MAXLINE bytes in the call
  -- but not in `buffer`.
  unfoldable pub user_answer : Line → Step (Client S) (Unit {0})
  unfolding refuses
  user_answer line = do
    faults_if (ltb 80 (length line.written))
    return_if (ltb_int line.ret (pos 4)) (pos 1)
    return_if (refuses (strtol (c_string line.written))) (pos 1)

  unfoldable pub send_user : Bytes → Step (Client S) (Unit {0})
  unfolding user_answer
  send_user username = do
    write_all (codes "USER " ++ (username ++ b'\n' ∷ [])) (pos 1)
    line ← read_line max_line
    user_answer line

  -- The digest of the password, and the answer to it: only that of a wrong password is an error.
  unfoldable pub pass_answer : Line → Step (Client S) ℤ
  pass_answer line = do
    faults_if (ltb 80 (length line.written))
    return_if (not (eq_int line.ret (pos 4))) (pos 1)
    λ s. (going (if eq_int (strtol (c_string line.written)) (pos 303) then pos 1 else pos 0), s)

  unfoldable pub send_pass : Bytes → Step (Client S) ℤ
  unfolding pass_answer
  send_pass pass = do
    write_all (codes "PASS " ++ sha1 pass) (pos 1)
    line ← read_line max_line
    pass_answer line

  -- `authenticate`
  unfoldable pub authenticate : Bytes → Bytes → Step (Client S) (Unit {0})
  unfolding send_magic send_user send_pass
  authenticate username pass = do
    return_if (not (length username == 4)) (pos 1)
    send_magic
    send_user username
    code ← send_pass pass
    exit code
