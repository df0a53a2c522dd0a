-- ===== src/Password/Store.antt =====
-- The routines of server/password.c over a healthy database.
use esif_client_server.Common.{
  ◌≡◌, refl, true, false, Option, none, some, Bytes, bytes_eq, if◌then◌else◌, ℤ, pos,
}
use esif_client_server.Database.{Database, IsHealthy}
use esif_client_server.Password.{db_key, pass_insertdb, pass_getdb}

abbrev pub ret_of_find : {V : Type 0} (D : Database V) → Option V → ℤ
ret_of_find D none = D.not_found
ret_of_find D (some v) = pos 0

abbrev pub buf_of_find {ℓ} : {V : Type ℓ} → Option V → Option V → Option V
buf_of_find none buf = buf
buf_of_find (some v) buf = some v

module _ {V : Type 0} (D : Database V) (H : IsHealthy D) where
  -- `pass_getdb` on a healthy database, by what is stored.
  pub pass_getdb_lem :
      (key : Bytes) (buf : Option V) (d : D.Db)
      → pass_getdb D key buf d
        ≡ (ret_of_find D (D.find (db_key key) d), buf_of_find (D.find (db_key key) d) buf)
  unfolding pass_getdb
  pass_getdb_lem key buf d = go (D.find (db_key key) d) refl
    where
      go :
          (o : Option V)
          → D.find (db_key key) d ≡ o
          → pass_getdb D key buf d ≡ (ret_of_find D o, buf_of_find o buf)
      go none e = rw (H.get_missing _ d e, pass_getdb) refl
      go (some v) e = rw (H.get_found _ d v e, pass_getdb) refl

  -- Storing with confirmation always succeeds; it changes the record of that key and no other.
  pub find-pass_insertdb :
      (key j : Bytes) (v : V) (d : D.Db)
      → ((pass_insertdb D key v true d).0 ≡ pos 0)
        × (D.find j (pass_insertdb D key v true d).1
            ≡ (if bytes_eq (db_key key) j then some v else D.find j d))
  unfolding pass_insertdb
  find-pass_insertdb key j v d = (
    H.put_stores (db_key key) v d,
    H.find-put false (db_key key) j v d (H.put_stores (db_key key) v d),
  )
