-- ===== src/Password.antt =====
-- server/password.h and server/password.c: the password records of the colleges and their database.
-- What the routines print is left out.
pub mod Store
pub mod Tools
pub mod Accounts
pub mod Showing
pub mod Tests
use esif_client_server.Common.{
  ℕ, ◌+◌, ◌++◌, Bool, true, false, not, [], ◌∷◌, Option, none, some, Bytes, c_string, if◌then◌else◌,
  ℤ, pos, negsuc,
}
use esif_client_server.Database.{Database, Got, found, fails}

-- SHA_DIGEST_LENGTH
abbrev pub sha_digest_length : ℕ
sha_digest_length = 20

-- `password`
pub record Password : Type 0 where
  pub pass : Bytes
  pub len : ℕ
  pub disabled : ℤ
  pub start : ℤ
  pub end : ℤ

-- `k.data = key; k.size = strlen(key)+1`
abbrev pub db_key : Bytes → Bytes
db_key key = c_string key ++ 0 ∷ []

module _ {V : Type 0} (D : Database V) where
  -- `pass_insertdb`: its return code, and the database.
  unfoldable pub pass_insertdb : Bytes → V → Bool → D.Db → ℤ × D.Db
  pass_insertdb key v confirm d = D.put (if confirm then false else true) (db_key key) v d

  -- `pass_deletedb`
  unfoldable pub pass_deletedb : Bytes → D.Db → ℤ × D.Db
  pass_deletedb key d = D.del (db_key key) d

  -- `pass_getdb`: its return code, and the caller's record, which is `none` while nothing has been
  -- written to it.
  unfoldable pub pass_getdb : Bytes → Option V → D.Db → ℤ × Option V
  pass_getdb key buf d = elim (D.get (db_key key) d) [
    | found v ↦ (pos 0, some v)
    | fails ret ↦ (ret, buf)
  ]

-- `encrypt_password`, over the digest of the library: the record is cleared first.
unfoldable pub encrypt_password : (Bytes → Bytes) → Bytes → Password
encrypt_password sha1 pass = record {
  pass = sha1 (c_string pass);
  len = sha_digest_length;
  disabled = pos 0;
  start = pos 0;
  end = pos 0;
}
