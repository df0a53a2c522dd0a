-- ===== src/Regdb/Records.antt =====
-- Lines to a block and back, and through the database.
use esif_client_server.Common.{
  ◌++◌, append-nil, append_assoc, ◌≡◌, refl, ◌∙◌, Bool, true, false, ◌||◌, List, [], ◌∷◌, some,
  Bytes, length, bytes_eq, bytes_eq_refl, ◌==◌, ℤ, pos, negsuc, eq_int, arith,
}
use esif_client_server.Database.{Database, IsHealthy, is_negative}
use esif_client_server.Password.{db_key}
use esif_client_server.Regdb.{txt_lines, next_string, read_lines, reg_insertdb, reg_getdb}

abbrev pub has_nul : Bytes → Bool
has_nul [] = false
has_nul (c ∷ cs) = c == 0 || has_nul cs

abbrev pub NoNul : List Bytes → Type 0
NoNul [] = Unit {0}
NoNul (l ∷ ls) = (has_nul l ≡ false) × NoNul ls

-- The lines with a NUL behind each.
abbrev pub block_of : List Bytes → Bytes
block_of [] = []
block_of (l ∷ ls) = l ++ 0 ∷ block_of ls

pub next_string-append :
    (s more : Bytes) → has_nul s ≡ false → next_string (s ++ 0 ∷ more) ≡ some (s, more)
unfolding next_string
next_string-append [] more h = refl
next_string-append (c ∷ cs) more h = ground (arith, next_string-append cs more)

-- A block that holds the lines gives them back, whatever lies behind them.
pub read_lines-block_of :
    (lines : List Bytes) (more : Bytes)
    → NoNul lines
    → read_lines (length lines) (block_of lines ++ more) ≡ some lines
unfolding read_lines
read_lines-block_of [] more h = refl
read_lines-block_of (l ∷ ls) more (h, hs) =
    rw
      (
        append_assoc l (0 ∷ block_of ls) more,
        next_string-append l (block_of ls ++ more) h,
        read_lines,
      )
      (rw (read_lines-block_of ls more hs) refl)

is_negative→ne : (z : ℤ) → is_negative z ≡ true → eq_int z (pos 0) ≡ false
is_negative→ne (pos n) h = cc
is_negative→ne (negsuc n) h = refl

module _ (D : Database Bytes) (H : IsHealthy D) where
  -- On a healthy database a form of 39 lines with no NUL in them, stored under a key with
  -- confirmation, is read back line by line under that key; another key still has what it had.
  pub reg_getdb-reg_insertdb :
      (key : Bytes) (lines : List Bytes) (d : D.Db)
      → length lines ≡ txt_lines
      → NoNul lines
      → let d' = (reg_insertdb D key (block_of lines) true d).1 in
        (reg_getdb D key d' ≡ some (pos 0, lines))
        × ((j : Bytes) → bytes_eq (db_key key) j ≡ false → D.find j d' ≡ D.find j d)
  unfolding reg_getdb reg_insertdb
  reg_getdb-reg_insertdb key lines d n h =
      let stores = H.find-put false (db_key key) in
      let put = H.put_stores (db_key key) (block_of lines) d in
      let d' = (D.put false (db_key key) (block_of lines) d).1 in
      let there : D.find (db_key key) d' ≡ some (block_of lines) =
        stores (db_key key) (block_of lines) d put ∙ rw (bytes_eq_refl (db_key key)) refl in
      (
        rw (H.get_found (db_key key) d' (block_of lines) there, reg_getdb)
            (rw (← n, ← append-nil (block_of lines)) (rw (read_lines-block_of lines [] h) refl)),
        λ j e. stores j (block_of lines) d put ∙ rw e refl,
      )
