-- ===== src/Database.antt =====
-- Berkeley DB, which the server only calls: an interface with the documented behaviour of
-- DB->put, DB->get and DB->del as laws. A key is the bytes of `k.data`, its NUL included.
pub mod Memory
use esif_client_server.Common.{
  ℕ, ◌≡◌, ◌≢◌, Bool, true, false, Option, none, some, Bytes, bytes_eq, if◌then◌else◌, ℤ, pos,
  negsuc,
}

-- What a get gives: the record, or a return code that is not 0.
pub data Got (V : Type 0) : Type 0 where
  found : V → Got V
  fails : ℤ → Got V

pub record Database (V : Type 0) : Type 1 where
  pub Db : Type 0
  -- The flag is DB_NOOVERWRITE.
  pub put : Bool → Bytes → V → Db → ℤ × Db
  pub get : Bytes → Db → Got V
  pub del : Bytes → Db → ℤ × Db
  -- DB_KEYEXIST and DB_NOTFOUND
  pub key_exist : ℤ
  pub not_found : ℤ
  -- What is stored; the code sees it by `get` alone.
  pub find : Bytes → Db → Option V

abbrev pub is_negative : ℤ → Bool
is_negative (pos n) = false
is_negative (negsuc n) = true

abbrev pub is_some {ℓ} : {A : Type ℓ} → Option A → Bool
is_some none = false
is_some (some a) = true

-- A database whose calls fail only as the manual says of a missing or an existing key.
pub record IsHealthy {V : Type 0} (D : Database V) : Type 0 where
  pub get_found : (k : Bytes) (d : D.Db) (v : V) → D.find k d ≡ some v → D.get k d ≡ found v
  pub get_missing : (k : Bytes) (d : D.Db) → D.find k d ≡ none → D.get k d ≡ fails D.not_found
  pub put_stores : (k : Bytes) (v : V) (d : D.Db) → (D.put false k v d).0 ≡ pos 0
  pub put_new :
      (k : Bytes) (v : V) (d : D.Db)
      → (D.put true k v d).0 ≡ (if is_some (D.find k d) then D.key_exist else pos 0)
  pub find-put :
      (no_overwrite : Bool) (k j : Bytes) (v : V) (d : D.Db)
      → (D.put no_overwrite k v d).0 ≡ pos 0
      → D.find j (D.put no_overwrite k v d).1 ≡ (if bytes_eq k j then some v else D.find j d)
  pub find-put_refused :
      (no_overwrite : Bool) (k j : Bytes) (v : V) (d : D.Db)
      → (D.put no_overwrite k v d).0 ≢ pos 0
      → D.find j (D.put no_overwrite k v d).1 ≡ D.find j d
  pub del_found :
      (k : Bytes) (d : D.Db) → (D.del k d).0 ≡ (if is_some (D.find k d) then pos 0 else D.not_found)
  pub find-del :
      (k j : Bytes) (d : D.Db)
      → D.find j (D.del k d).1 ≡ (if bytes_eq k j then none else D.find j d)
  pub key_exist_negative : is_negative D.key_exist ≡ true
  pub not_found_negative : is_negative D.not_found ≡ true
