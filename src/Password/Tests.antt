-- ===== src/Password/Tests.antt =====
-- The theorems on the password database and its tools at databases in memory, and a run of each tool
-- that no theorem is about.
use esif_client_server.Common.{
  ◌≡◌, refl, true, false, List, [], ◌∷◌, some, none, Bytes, codes, replicate, length, bytes_eq,
  if◌then◌else◌, ℤ, pos, eq_int, map, arith, c_string, decimal_4,
}
use esif_client_server.Database.Memory.{memory, memory-IsHealthy}
use esif_client_server.Password.{Password, db_key, pass_getdb, pass_deletedb}
use esif_client_server.Password.Store.{ret_of_find, buf_of_find, pass_getdb_lem}
use esif_client_server.Password.Tools.{
  dispass, enapass, delpass, getpass, inspass, genpass_account, Account,
}
use esif_client_server.Password.Showing.{rows_of, show_args, show_args-rows, display_records}
use esif_client_server.Password.Accounts.{
  dispass_lem, enapass_lem, inspass_lem, set_if, is_listed, AllReadable, after_accounts,
}

abbrev college : Password
college = record {
  pass = replicate 20 88;
  len = 20;
  disabled = pos 0;
  start = pos 100;
  end = pos 900;
}

abbrev db : List (Bytes × Password)
db = (db_key (codes "0110"), college) ∷ []

pass_getdb_example : pass_getdb (memory Password) (codes "0110") none db ≡ (
  ret_of_find (memory Password) ((memory Password).find (db_key (codes "0110")) db),
  buf_of_find ((memory Password).find (db_key (codes "0110")) db) none,
)
pass_getdb_example =
    pass_getdb_lem (memory Password) (memory-IsHealthy Password) (codes "0110") none db

dispass_example :
    (d' : List (Bytes × Password)) × (dispass (memory Password) (map pos (110 ∷ 7 ∷ [])) db
      ≡ some d')
    × ((j : Bytes)
        → (memory Password).find j d'
          ≡ set_if (pos 1) (is_listed j (110 ∷ 7 ∷ [])) ((memory Password).find j db))
dispass_example =
    dispass_lem (memory Password) (memory-IsHealthy Password) (110 ∷ 7 ∷ []) db
      (omega arith, (omega arith, tt))

enapass_example :
    (d' : List (Bytes × Password)) × (enapass (memory Password) (map pos (110 ∷ 7 ∷ [])) db
      ≡ some d')
    × ((j : Bytes)
        → (memory Password).find j d'
          ≡ set_if (pos 0) (is_listed j (110 ∷ 7 ∷ [])) ((memory Password).find j db))
enapass_example =
    enapass_lem (memory Password) (memory-IsHealthy Password) (110 ∷ 7 ∷ []) db
      (omega arith, (omega arith, tt))

abbrev account : Account
account = record {
  disabled = pos 0;
  code = pos 110;
  pass = codes "secret";
  start = codes "2005";
  end = codes "2006";
}

abbrev readable : AllReadable (account ∷ [])
readable = (record { number = 110; code_is = refl; below = omega arith; fits_buffers = refl }, tt)

abbrev sha1 : Bytes → Bytes
sha1 text = replicate 20 88

abbrev to_time : Bytes → ℤ
to_time text = pos 5

inspass_example :
    ((d' : List (Bytes × Password)) × (inspass
          (memory Password)
          sha1
          to_time
          false
          (account ∷ [])
          db
        ≡ some d')
      × ((j : Bytes)
          → (memory Password).find j d'
            ≡ after_accounts
                (memory Password)
                sha1
                to_time
                j
                (account ∷ [])
                ((memory Password).find j db)))
    × (inspass (memory Password) sha1 to_time true (account ∷ []) db ≡ some db)
inspass_example =
    inspass_lem (memory Password) sha1 to_time (memory-IsHealthy Password) (account ∷ []) db
      readable

delpass_run : delpass (memory Password) (pos 110 ∷ []) db ≡ some []
unfolding delpass pass_deletedb decimal_4 c_string bytes_eq
delpass_run = refl

getpass_run : getpass (memory Password) (codes "0110\n") db ≡ pos 0
unfolding getpass pass_getdb c_string bytes_eq
getpass_run = refl

genpass_run : (genpass_account 3).pass ≡ codes "20051003"
unfolding genpass_account decimal_4
genpass_run = refl

-- A time as one letter for the first of the two, and another for the second.
abbrev ctime : ℤ → Bytes
ctime time = if eq_int time (pos 100) then codes "s\n" else codes "e\n"

abbrev asked : List Bytes
asked = codes "0110" ∷ codes "0007" ∷ []

show_args_example :
    show_args ctime true (memory Password) (length asked) asked none db
    ≡ some (rows_of ctime true (memory Password) asked db)
unfolding c_string
show_args_example =
    show_args-rows ctime true (memory Password) (memory-IsHealthy Password) asked none db
      (refl, (refl, tt))

show_args_run :
    show_args ctime true (memory Password) 2 asked none db
    ≡ some (codes "0110 (enabled)\n\tstart: s\n\tend  : s\n\n")
unfolding show_args pass_getdb c_string bytes_eq
show_args_run = refl

display_records_run :
    display_records ctime db ≡ codes "0110 :\r\n\tenabled\n\tStart : s\n\tEnd   : e\n\r\n"
unfolding display_records c_string
display_records_run = refl
