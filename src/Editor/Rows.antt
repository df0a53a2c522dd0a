-- ===== src/Editor/Rows.antt =====
-- project2/src/editor.c: `editor_load_data`, the rows of the list of forms, as they are read from the
-- headers of the files. `none` is a write behind a field of `Data`.
use esif_client_server.Common.{
  ℕ, Bool, false, not, List, [], ◌∷◌, Option, none, some, Bytes, bytes_eq, codes, c_string, length,
  drop, ltb, ◌==◌, if◌then◌else◌, ℤ, pos,
}
use esif_client_server.Session.Scan.{span, scan_int, is_int}
use esif_client_server.Client.Header.{fgets, not_colon}
use esif_client_server.Form.Text.{construct_filename}

-- `Data`
pub record Row : Type 0 where
  pub roll : ℤ
  pub st_name : Bytes
  pub section : Bytes
  pub gender : Bytes
  pub tot_list : ℤ
  pub group : Bytes
  pub sent : ℤ

-- `memset(&info, 0, sizeof(info))`
abbrev pub blank : Row
blank = record {
  roll = pos 0;
  st_name = [];
  section = [];
  gender = [];
  tot_list = pos 0;
  group = [];
  sent = pos 0;
}

-- sscanf() so far: it goes on with what is left of the line, it has stopped, or it has written behind
-- a field.
pub data Reading : Type 0 where
  reads : Row → Bytes → Reading
  ended : Row → Reading
  overflows : Reading

infixl 5 ◌>>=◌
abbrev pub ◌>>=◌ : Reading → (Row × Bytes → Reading) → Reading
reads row text >>= f = f (row, text)
ended row >>= f = ended row
overflows >>= f = overflows

-- "%[^:]" for a field with `n` bytes and the NUL, by what it does to the row.
unfoldable pub read_part : (ℕ → Bool) → ℕ → (Bytes → Row) → Row → Bytes → Reading
read_part p n put row text =
    let (part, rest) = span p text in
    if length part == 0
    then ended row
    else if ltb n (length part)
    then overflows
    else reads (put part) rest

abbrev pub read_colon : Row → Bytes → Reading
read_colon row [] = ended row
read_colon row (c ∷ cs) = if c == b':' then reads row cs else ended row

-- "%d"
unfoldable pub read_int : (ℤ → Row) → Row → Option (ℤ × Bytes) → Reading
read_int put row none = ended row
read_int put row (some (n, rest)) = if is_int n then reads (put n) rest else overflows

abbrev pub not_newline : ℕ → Bool
not_newline c = not (c == b'\n')

-- "%[^:]:%d:%[^:]:%d:%[^:]:%d:%[^\n]"
unfoldable pub read_row : Bytes → Reading
unfolding scan_int read_part read_int
read_row text = do
  (a, t) ← read_part not_colon 6 (λ x. record blank { gender = x }) blank text
  (a, t) ← read_colon a t
  (b, t) ← read_int (λ n. record a { roll = n }) a (scan_int t)
  (b, t) ← read_colon b t
  (c, t) ← read_part not_colon 1 (λ x. record b { section = x }) b t
  (c, t) ← read_colon c t
  (d, t) ← read_int (λ n. record c { tot_list = n }) c (scan_int t)
  (d, t) ← read_colon d t
  (e, t) ← read_part not_colon 19 (λ x. record d { group = x }) d t
  (e, t) ← read_colon e t
  (f, t) ← read_int (λ n. record e { sent = n }) e (scan_int t)
  (f, t) ← read_colon f t
  read_part not_newline 40 (λ x. record f { st_name = x }) f t

abbrev pub row_read : Reading → Option Row
row_read (reads row rest) = some row
row_read (ended row) = some row
row_read overflows = none

-- The names that are taken: FILENAMELEN is 19.
unfoldable pub is_info_name : Bytes → Bool
is_info_name [] = false
is_info_name (c ∷ cs) =
    if c == b'.'
    then false
    else if not (length (c ∷ cs) == 19)
    then false
    else (bytes_eq (drop 15 (c ∷ cs)) (codes ".txt"))

abbrev pub with_row : Option Row → Option (List Row) → Option (List Row)
with_row none rows = none
with_row (some row) none = none
with_row (some row) (some rows) = some (row ∷ rows)

-- The row of a file by its text; a file with no line has none. `info_buf` has 80 bytes.
unfoldable pub add_file : Bytes → Option (List Row) → Option (List Row)
unfolding fgets read_row
add_file [] rows = rows
add_file (c ∷ cs) rows = with_row (row_read (read_row (c_string (fgets 79 (c ∷ cs)).0))) rows

-- The loop over the directory, whose files stand in the order of readdir(); `opens` tells which of
-- them fopen() opens.
unfoldable pub editor_load_data : (Bytes → Bool) → List (Bytes × Bytes) → Option (List Row)
unfolding is_info_name add_file
editor_load_data opens [] = some []
editor_load_data opens ((name, text) ∷ files) =
    let rest = editor_load_data opens files in
    if is_info_name name then (if opens name then add_file text rest else rest) else rest

-- The names of the files that are taken.
unfoldable pub taken_names : List (Bytes × Bytes) → List Bytes
taken_names [] = []
taken_names ((name, text) ∷ files) =
    let rest = taken_names files in if is_info_name name then name ∷ rest else rest

-- The name that `editor_edit_clicked` and `editor_delete_clicked` construct from the selected row.
unfoldable pub row_filename : Row → Bytes
unfolding construct_filename
row_filename row = construct_filename row.gender row.roll row.section row.tot_list row.group
