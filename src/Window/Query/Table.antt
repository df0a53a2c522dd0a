-- ===== src/Window/Query/Table.antt =====
-- project2/src/myfuncs.c, `create_col_hash_table`: the table of the colleges, as it is read from its file.
use esif_client_server.Common.{
  ℕ, zero, suc, ◌<◌, ◌≤◌, ◌≡◌, refl, sym, ap, ◌∙◌, ◌++◌, true, false, List, [], ◌∷◌, Option, none,
  some, Bytes, length, length-append, ltb, ◌^◌, if◌then◌else◌, ℤ, pos, c_string, is_space,
  decimal_4, decimal_4-AllDigits, length-decimal_4, read_digits-decimal_4, arith,
}
use mathlib.Core.Path.{subst}
use esif_client_server.Session.{Outcome, next, fault, spent}
use esif_client_server.Session.Scan.{span, skip_space, not_line_end, scan_int, is_int}
use esif_client_server.Session.Upload.Stored.{is_one_line}
use esif_client_server.Regdb.Records.{has_nul}
use esif_client_server.Client.Steps.{c_string_lem}
use esif_client_server.Client.Marking.{scan_int-sep}

-- fscanf() with "%d %[^\r\n]" on what is left of the file: nothing is read, something cannot be held, or
-- there is a code, with the name in its buffer, and the rest.
pub data CollegeLine : Type 0 where
  ended : CollegeLine
  overflows : CollegeLine
  scanned : ℤ → Bytes → Bytes → CollegeLine

-- The buffer keeps its name if no other one is read; it has 71 bytes.
unfoldable pub with_name : Bytes → ℤ → Bytes × Bytes → CollegeLine
with_name name code ([], rest) = scanned code name rest
with_name name code (c ∷ cs, rest) =
    if ltb 70 (length (c ∷ cs)) then overflows else scanned code (c ∷ cs) rest

unfoldable pub scan_college : Bytes → Option (ℤ × Bytes) → CollegeLine
unfolding with_name
scan_college name none = ended
scan_college name (some (code, rest)) =
    if is_int code then with_name name code (span not_line_end (skip_space rest)) else overflows

-- The loop, with the buffer and the table so far; strdup() takes the name up to its NUL.
unfoldable pub college_loop : ℕ → Bytes → List (ℤ × Bytes) → Bytes → Outcome (List (ℤ × Bytes))
unfolding scan_int scan_college c_string
college_loop zero name table text = spent
college_loop (suc fuel) name table text = elim (scan_college name (scan_int text)) [
  | ended ↦ next table
  | overflows ↦ fault
  | scanned code n rest ↦ college_loop fuel n ((code, c_string n) ∷ table) rest
]

unfoldable pub create_col_hash_table : Bytes → Outcome (List (ℤ × Bytes))
unfolding college_loop
create_col_hash_table text = college_loop (suc (length text)) [] [] text

-- A name that a line of the file can give.
pub record IsName (name : Bytes) : Type 0 where
  pub first : ℕ
  pub more : Bytes
  pub starts : name ≡ first ∷ more
  pub no_space : is_space first ≡ false
  pub one_line : is_one_line name ≡ true
  pub no_nul : has_nul name ≡ false
  pub fits : length name ≤ 70

abbrev pub AllNames : List (ℕ × Bytes) → Type 0
AllNames [] = Unit {0}
AllNames ((code, name) ∷ rows) = ((code < 10_000) × IsName name) × AllNames rows

-- The lines of the file, and the rows behind those before.
abbrev pub file_of_rows : List (ℕ × Bytes) → Bytes
file_of_rows [] = []
file_of_rows ((code, name) ∷ rows) =
    decimal_4 (pos code) ++ (b' ' ∷ (name ++ b'\n' ∷ file_of_rows rows))

abbrev pub rows_onto : List (ℤ × Bytes) → List (ℕ × Bytes) → List (ℤ × Bytes)
rows_onto table [] = table
rows_onto table ((code, name) ∷ rows) = rows_onto ((pos code, name) ∷ table) rows

span-line_end :
    (a rest : Bytes)
    → is_one_line a ≡ true
    → span not_line_end (a ++ b'\n' ∷ rest) ≡ (a, b'\n' ∷ rest)
span-line_end [] rest h = refl
span-line_end (c ∷ cs) rest h = ground (arith, span-line_end cs rest)

with_name-∷ :
    (old : Bytes) (code : ℤ) (c : ℕ) (cs rest : Bytes)
    → length (c ∷ cs) ≤ 70
    → with_name old code (c ∷ cs, rest) ≡ scanned code (c ∷ cs) rest
unfolding with_name
with_name-∷ old code c cs rest h =
    let fits : ltb 70 (length (c ∷ cs)) ≡ false = ground arith in rw fits refl

with_name-IsName :
    (old name rest : Bytes) (code : ℤ)
    → IsName name
    → with_name old code (span not_line_end (skip_space (name ++ b'\n' ∷ rest)))
      ≡ scanned code name (b'\n' ∷ rest)
with_name-IsName old name rest code h =
    let spelt = sym h.starts in
    let d = h.no_space in
    let start : skip_space ((h.first ∷ h.more) ++ b'\n' ∷ rest)
        ≡ (h.first ∷ h.more) ++ b'\n' ∷ rest =
      ground arith in
    let whole : skip_space (name ++ b'\n' ∷ rest) ≡ name ++ b'\n' ∷ rest =
      subst (λ n. skip_space (n ++ b'\n' ∷ rest) ≡ n ++ b'\n' ∷ rest) spelt start in
    ap (λ u. with_name old code (span not_line_end u)) whole
    ∙ ap (with_name old code) (span-line_end name rest h.one_line)
    ∙ subst (λ n. with_name old code (n, b'\n' ∷ rest) ≡ scanned code n (b'\n' ∷ rest)) spelt
        (with_name-∷ old code h.first h.more (b'\n' ∷ rest)
          (subst (λ n. length n ≤ 70) h.starts h.fits))

scan_college-row :
    (old name rest : Bytes) (code : ℕ)
    → code < 10_000
    → IsName name
    → scan_college old (scan_int (decimal_4 (pos code) ++ (b' ' ∷ (name ++ b'\n' ∷ rest))))
      ≡ scanned (pos code) name (b'\n' ∷ rest)
unfolding scan_college
scan_college-row old name rest code small h =
    let number =
      scan_int-sep b' ' (decimal_4 (pos code)) (name ++ b'\n' ∷ rest) refl
        (decimal_4-AllDigits code) (omega (arith, length-decimal_4 code small)) in
    let int : ltb code (2 ^ 31) ≡ true = ground arith in
    ap (scan_college old) number
    ∙ ap (λ m. scan_college old (some (pos m, b' ' ∷ (name ++ b'\n' ∷ rest))))
        (read_digits-decimal_4 code)
    ∙ rw int (with_name-IsName old name rest (pos code) h)

college_loop-newline :
    (fuel : ℕ) (name : Bytes) (table : List (ℤ × Bytes)) (text : Bytes)
    → college_loop fuel name table (b'\n' ∷ text) ≡ college_loop fuel name table text
unfolding college_loop
college_loop-newline zero name table text = refl
college_loop-newline (suc fuel) name table text = refl

college_loop-scanned :
    (fuel : ℕ) (name : Bytes) (table : List (ℤ × Bytes)) (text : Bytes) (code : ℤ) (n rest : Bytes)
    → scan_college name (scan_int text) ≡ scanned code n rest
    → college_loop (suc fuel) name table text
      ≡ college_loop fuel n ((code, c_string n) ∷ table) rest
unfolding college_loop
college_loop-scanned fuel name table text code n rest h = rw (h, college_loop) refl

college_loop-nil :
    (fuel : ℕ) (name : Bytes) (table : List (ℤ × Bytes))
    → college_loop (suc fuel) name table [] ≡ next table
unfolding college_loop
college_loop-nil fuel name table = refl

college_loop-rows :
    (fuel : ℕ) (name : Bytes) (table : List (ℤ × Bytes)) (rows : List (ℕ × Bytes))
    → AllNames rows
    → length (file_of_rows rows) < fuel
    → college_loop fuel name table (file_of_rows rows) ≡ next (rows_onto table rows)
college_loop-rows zero name table rows h f = absurd (omega arith)
college_loop-rows (suc fuel) name table [] h f = college_loop-nil fuel name table
college_loop-rows (suc fuel) name table ((code, n) ∷ rows) ((small, good), h) f =
    college_loop-scanned fuel name table _ (pos code) n _
      (scan_college-row name n (file_of_rows rows) code small good)
    ∙ college_loop-newline fuel n ((pos code, c_string n) ∷ table) (file_of_rows rows)
    ∙ ap (λ m. college_loop fuel n ((pos code, m) ∷ table) (file_of_rows rows))
        (c_string_lem n good.no_nul)
    ∙ college_loop-rows fuel n ((pos code, n) ∷ table) rows h (
        omega (
          arith,
          f,
          length-append (decimal_4 (pos code)) (b' ' ∷ (n ++ b'\n' ∷ file_of_rows rows)),
          length-append n (b'\n' ∷ file_of_rows rows),
        ))

-- A file with a line for each row, whose code has four digits and whose name has 1 to 70 bytes, none
-- of them the end of a line or a NUL and the first no space, is read to its end, and the table holds just
-- its rows, the last one first.
pub create_col_hash_table-rows :
    (rows : List (ℕ × Bytes))
    → AllNames rows
    → create_col_hash_table (file_of_rows rows) ≡ next (rows_onto [] rows)
unfolding create_col_hash_table
create_col_hash_table-rows rows h =
    college_loop-rows (suc (length (file_of_rows rows))) [] [] rows h (omega arith)
