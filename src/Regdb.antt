-- ===== src/Regdb.antt =====
-- server/regdb.h and server/regdb.c: the registration records and their database. A record is one
-- block of bytes, the lines of a form with a NUL behind each. What is printed is left out.
pub mod Records
pub mod Showing
pub mod Raw
pub mod Tests
use esif_client_server.Common.{
  ℕ, zero, suc, ◌++◌, Bool, true, false, List, [], ◌∷◌, Option, none, some, Bytes, c_string, ◌==◌,
  if◌then◌else◌, ℤ, pos, negsuc, eq_int,
}
use esif_client_server.Database.{Database, Got, found, fails}
use esif_client_server.Password.{db_key}

-- TXTLINES
abbrev pub txt_lines : ℕ
txt_lines = 39

abbrev with_first : ℕ → Option (Bytes × Bytes) → Option (Bytes × Bytes)
with_first c none = none
with_first c (some (s, more)) = some (c ∷ s, more)

-- The string at the start of a block, and what lies behind its NUL; `none` if no NUL is in it, and
-- strlen() would run past its end.
unfoldable pub next_string : Bytes → Option (Bytes × Bytes)
next_string [] = none
next_string (c ∷ cs) =
    let rest = with_first c (next_string cs) in if c == 0 then some ([], cs) else rest

-- The loop of `reg_getdb`, with that many lines still to fill.
unfoldable pub read_lines : ℕ → Bytes → Option (List Bytes)
unfolding next_string
read_lines zero block = some []
read_lines (suc n) block = elim (next_string block) [
  | none ↦ none
  | some (line, more) ↦ elim (read_lines n more) [ none ↦ none | some lines ↦ some (line ∷ lines) ]
]

module _ (D : Database Bytes) where
  -- `reg_insertdb`; the block is the first `len` bytes of `data`.
  unfoldable pub reg_insertdb : Bytes → Bytes → Bool → D.Db → ℤ × D.Db
  reg_insertdb key block confirm d = D.put (if confirm then false else true) (db_key key) block d

  -- `reg_deletedb`: 0, or 1 on any failure.
  unfoldable pub reg_deletedb : Bytes → D.Db → ℤ × D.Db
  reg_deletedb key d =
      let (ret, d') = D.del (db_key key) d in (if eq_int ret (pos 0) then pos 0 else pos 1, d')

  -- `reg_getdb` into an empty `reginfo`: its return code and the lines. The whole is `none` if
  -- the stored block holds fewer strings than there are lines.
  unfoldable pub reg_getdb : Bytes → D.Db → Option (ℤ × List Bytes)
  reg_getdb key d = elim (D.get (db_key key) d) [
    | fails ret ↦ some (pos 1, [])
    | found block ↦ elim (read_lines txt_lines block) [
      | none ↦ none
      | some lines ↦ some (pos 0, lines)
    ]
  ]
