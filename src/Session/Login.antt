-- ===== src/Session/Login.antt =====
-- The first stages of `manage_client`: the magic, the user, and the password; and `lookup_user`.
pub mod Safe
pub mod Accepts
pub mod Ends
use esif_client_server.Common.{
  ℕ, zero, suc, ◌+◌, ◌-◌, ◌++◌, Bool, true, false, not, List, [], ◌∷◌, Option, none, some, Bytes,
  codes, c_string, starts_with, bytes_eq, overwrite, length, take, drop, ltb, if◌then◌else◌, ◌==◌,
  ℤ, pos, negsuc, ltb_int, eq_int,
}
use esif_client_server.Socket.{Socket}
use esif_client_server.Database.{Database}
use esif_client_server.Password.{Password, pass_getdb, sha_digest_length}
use esif_client_server.Session.{
  M, ◌>>=◌, ◌>>◌, return, stop_if, fault_if, Env, Session, next, fault, set_text, receive, send,
  refuse,
}
use esif_client_server.Session.Scan.{scan_word}

-- `passbuf` after memset().
abbrev pub no_password : Password
no_password = record { pass = []; len = 0; disabled = pos 0; start = pos 0; end = pos 0 }

module _ (P : Database Password) where
  lookup_in : Bytes → Option P.Db → ℤ × Option Password
  lookup_in user none = (pos 2, some no_password)
  lookup_in user (some d) =
      let (ret, buf) = pass_getdb P user (some no_password) d in
      (if ltb_int ret (pos 0) then pos 3 else pos 0, buf)

  -- `lookup_user`: its return code, and `passbuf`.
  unfoldable pub lookup_user : Bytes → Option P.Db → ℤ × Option Password
  unfolding lookup_in
  lookup_user user passdb =
      if ltb (length user) 1 then (pos 1, some no_password) else lookup_in user passdb

-- The last byte of a text replaced, `buffer[strlen(buffer)-1] = ' '`.
abbrev pub blank_last : Bytes → Bytes
blank_last [] = []
blank_last (c ∷ []) = b' ' ∷ []
blank_last (c ∷ d ∷ cs) = c ∷ blank_last (d ∷ cs)

module _ {S : Socket} {P : Database Password} {D : Database Bytes} (env : Env P D) where
  -- The client sends the magic.
  unfoldable pub magic_stage : M (Session S D) (Unit {0})
  magic_stage = do
    bytes ← receive sha_digest_length
    stop_if (not (bytes_eq env.magic bytes))
    send (codes "500\n")

  -- The client sends "USER " and its code: the text that `user` holds.
  unfoldable pub user_stage : M (Session S D) Bytes
  user_stage = do
    bytes ← receive 10
    stop_if (not (starts_with (codes "USER ") bytes))
    λ s. elim (scan_word (c_string (drop 5 bytes))) [
      | none ↦ (fault, s)
      | some user ↦ (next user, s)
    ]

  -- The checks on the college's record, and the reply with its dates.
  unfoldable pub account_stage : Password → M (Session S D) (Unit {0})
  account_stage pwd =
      if eq_int pwd.disabled (pos 1)
      then refuse (codes "302\n")
      else if ltb_int env.now_at_start pwd.start
      then refuse (codes "304 " ++ env.ctime pwd.start)
      else if ltb_int pwd.end env.now_at_end
      then refuse (codes "305 " ++ env.ctime pwd.end)
      else let text =
          blank_last (codes "500 " ++ env.ctime pwd.start) ++ codes "- " ++ env.ctime pwd.end in
        (set_text text >> send text)

  -- The client sends "PASS " and the digest. `buffer` has 120 bytes, `passbuf.pass` 20.
  unfoldable pub password_stage : Password → M (Session S D) (Unit {0})
  password_stage pwd = do
    fault_if (ltb 120 (5 + pwd.len))
    bytes ← receive (5 + pwd.len)
    stop_if (not (starts_with (codes "PASS ") bytes))
    fault_if (ltb sha_digest_length pwd.len)
    if bytes_eq (drop 5 bytes) (take pwd.len pwd.pass)
        then send (codes "500\n")
        else refuse (codes "303\n")

  -- `if (lookup_user(user) != 0)`, and the global `passbuf` that it fills.
  unfoldable pub known_user : Bytes → M (Session S D) Password
  unfolding lookup_user
  known_user user s =
      let (ret, buf) = lookup_user P user env.passdb in
      if not (eq_int ret (pos 0))
      then refuse (codes "301\n") s
      else (elim buf [ none ↦ (fault, s) | some pwd ↦ (next pwd, s) ])

  -- From the magic to the accepted password: the user.
  unfoldable pub login : M (Session S D) Bytes
  unfolding magic_stage user_stage known_user account_stage password_stage
  login = do
    magic_stage
    user ← user_stage
    pwd ← known_user user
    account_stage pwd
    password_stage pwd
    return user
