-- ===== src/Regdb/Tests.antt =====
-- The theorems on the registration records at a form in a database in memory.
use esif_client_server.Common.{
  ℕ, zero, suc, ◌≡◌, refl, true, false, List, [], ◌∷◌, some, none, Bytes, codes, replicate,
  bytes_eq, map, pos,
}
use esif_client_server.Database.Memory.{memory, memory-IsHealthy}
use esif_client_server.Password.{db_key}
use esif_client_server.Regdb.{reg_insertdb, reg_getdb}
use esif_client_server.Regdb.{next_string}
use esif_client_server.Common.{◌++◌, starts_with}
use esif_client_server.Regdb.Showing.{showdata}
use esif_client_server.Regdb.Raw.{
  show_raw_data, print_format, doubled, joined, show_raw_data-doubled,
}
use esif_client_server.Regdb.Records.{block_of, NoNul, reg_getdb-reg_insertdb}

abbrev form : List Bytes
form = codes "M\n" ∷ replicate 38 (codes "x\n")

replicate-NoNul : (n : ℕ) → NoNul (replicate n (codes "x\n"))
replicate-NoNul zero = tt
replicate-NoNul (suc n) = (refl, replicate-NoNul n)

form-NoNul : NoNul form
form-NoNul = (refl, replicate-NoNul 38)

reg_getdb_example :
    let d' = (reg_insertdb (memory Bytes) (codes "M_1") (block_of form) true []).1 in
    (reg_getdb (memory Bytes) (codes "M_1") d' ≡ some (pos 0, form))
    × ((j : Bytes)
        → bytes_eq (db_key (codes "M_1")) j ≡ false
        → (memory Bytes).find j d' ≡ (memory Bytes).find j [])
reg_getdb_example =
    reg_getdb-reg_insertdb (memory Bytes) (memory-IsHealthy Bytes) (codes "M_1") form [] refl
      form-NoNul

abbrev shown : List Bytes
shown = codes "REG_FORM\n" ∷ codes "\n" ∷ codes "STUDENTS_NAME ANNA\n" ∷ []

showdata_run : showdata (block_of shown) ≡ some (codes "ANNA" ++ (replicate 36 32 ++ codes "\r\n"))
unfolding showdata next_string starts_with bytes_eq
showdata_run = refl

abbrev raw : List Bytes
raw = codes "REG_FORM\n" ∷ codes "NAME 5%\n" ∷ []

raw-NoNul : NoNul (map doubled raw)
raw-NoNul = (refl, (refl, tt))

raw_example : show_raw_data (block_of (map doubled raw)) ≡ some (joined raw)
raw_example = show_raw_data-doubled raw raw-NoNul

-- A single '%' is a conversion.
percent_run : print_format (codes "5%d\n") ≡ none
unfolding print_format
percent_run = refl
