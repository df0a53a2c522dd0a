-- ===== src/Regdb/Showing.antt =====
-- server/showregdb.c: `showdata`, as the bytes that it prints for a record. `none` is undefined
-- behaviour: a record that does not end in a NUL, or a field too long for `buf`.
use esif_client_server.Common.{
  ℕ, zero, suc, ◌+◌, ◌-◌, ◌≡◌, ◌++◌, false, ◌||◌, ◌&&◌, List, [], ◌∷◌, Option, none, some, Bytes,
  bytes_eq, starts_with, codes, length, length-append, drop, replicate, get_elem?, ltb, leb, ◌==◌,
  if◌then◌else◌, decimal_2, arith,
}
use esif_client_server.Support.{max_line}
use esif_client_server.Regdb.{next_string}
use esif_client_server.Regdb.Records.{block_of}

-- How a line is printed: not at all, padded to a width behind it or before it, or as a digit by its
-- place in a list of names, from a first digit on, with what is printed for any other text.
pub data Column : Type 0 where
  skipped : Column
  left : ℕ → Column
  right : ℕ → Column
  coded : ℕ → Bytes → List Bytes → Column

abbrev boards : List Bytes
boards =
    codes "Dhaka"
    ∷ codes "Comilla"
    ∷ codes "Rajshahi"
    ∷ codes "Jessore"
    ∷ codes "Chittagong"
    ∷ codes "Barisal"
    ∷ codes "Sylhet"
    ∷ []

-- The cases of the switch from 1 on, each with the label that its line begins with.
unfoldable pub columns : List (Bytes × Column)
columns =
    ([], skipped)
    ∷ ([], skipped)
    ∷ (codes "STUDENTS_NAME", left 40)
    ∷ (codes "FATHERS_NAME", left 40)
    ∷ (codes "MOTHERS_NAME", left 40)
    ∷ (
      codes "GROUP",
      coded b'0' (codes " ") (
          codes "Science"
          ∷ codes "Social Science"
          ∷ codes "Arts"
          ∷ codes "Commerce"
          ∷ codes "Agriculture"
          ∷ codes "Home Economics"
          ∷ codes "Islamic Studies"
          ∷ codes "Music"
          ∷ codes "Business"
          ∷ []),
    )
    ∷ (codes "SESSION", left 4)
    ∷ (codes "BOARD", coded b'0' (codes " ") boards)
    ∷ (codes "CLASS_ROLL", left 4)
    ∷ (codes "BIRTHDATE", right 11)
    ∷ (codes "TOT_LIST", left 4)
    ∷ (
      codes "SECTION",
      coded b'1' (codes "0")
          (codes "A" ∷ codes "B" ∷ codes "C" ∷ codes "D" ∷ codes "E" ∷ codes "F" ∷ []),
    )
    ∷ (codes "INSTITUTE_CODE", left 4)
    ∷ (codes "INSTITUTE_NAME", left 70)
    ∷ (
      codes "PREVIOUS_BOARD",
      coded b'0' (codes " ")
          (boards ++ (codes "Madrasa" ∷ codes "Technical" ∷ codes "Others" ∷ [])),
    )
    ∷ (codes "PREVIOUS_YEAR", left 4)
    ∷ (codes "PREVIOUS_ROLL", left 0)
    ∷ (codes "PREVIOUS_REG", left 0)
    ∷ (codes "PREVIOUS_SESSION", right 9)
    ∷ (codes "GENDER", coded b'0' (codes " ") (codes "Male" ∷ codes "Female" ∷ []))
    ∷ (
      codes "RELIGION",
      coded b'0' (codes " ") (
          codes "Islam"
          ∷ codes "Hindu"
          ∷ codes "Buddist"
          ∷ codes "Christian"
          ∷ codes "Others"
          ∷ []),
    )
    ∷ []

abbrev to_lower : ℕ → ℕ
to_lower c = if leb 65 c && leb c 90 then c + 32 else c

abbrev lower : Bytes → Bytes
lower [] = []
lower (c ∷ cs) = to_lower c ∷ lower cs

-- The chain of strcasecmp() tests.
unfoldable pub code_of : ℕ → Bytes → List Bytes → Bytes → Bytes
code_of digit other [] text = other
code_of digit other (name ∷ names) text =
    let rest = code_of (digit + 1) other names text in
    if bytes_eq (lower text) (lower name) then digit ∷ [] else rest

-- What printf() prints of a field.
unfoldable pub print_field : Column → Bytes → Bytes
unfolding code_of
print_field skipped text = []
print_field (left n) text = text ++ replicate (n - length text) b' '
print_field (right n) text = replicate (n - length text) b' ' ++ text
print_field (coded digit other names) text = code_of digit other names text

-- The spaces that a blank in a format skips, and then "%[^\r\n]".
abbrev skip_blanks : Bytes → Bytes
skip_blanks [] = []
skip_blanks (c ∷ cs) =
    let rest = skip_blanks cs in if c == b' ' || (leb 9 c && leb c 13) then rest else c ∷ cs

abbrev up_to_line_end : Bytes → Bytes
up_to_line_end [] = []
up_to_line_end (c ∷ cs) =
    let rest = up_to_line_end cs in if c == b'\r' || c == b'\n' then [] else c ∷ rest

-- `buf` after memset() and sscanf() with the label.
unfoldable pub scan_field : Bytes → Bytes → Bytes
scan_field label text =
    if starts_with label text then up_to_line_end (skip_blanks (drop (length label) text)) else []

-- `sprintf(pattern, "SUB_%02d", code)`
unfoldable pub sub_label : ℕ → Bytes
sub_label code = codes "SUB_" ++ decimal_2 code

-- The label and the form of line `line`, which is above 0.
unfoldable pub column : ℕ → Bytes × Column
unfolding columns sub_label
column line = elim (get_elem? columns (line - 1)) [
  | none ↦ (sub_label (line - length columns), left 3)
  | some c ↦ c
]

-- What `showdata` prints for a line, unless its field is too long; it scans nothing of the first two.
unfoldable pub show_line : ℕ → Bytes → Option Bytes
unfolding column scan_field print_field
show_line line text =
    if ltb line 3
    then some []
    else (let (label, form) = column line in
        let field = scan_field label text in
        if ltb (length field) max_line then some (print_field form field) else none)

abbrev pub behind : Bytes → Option Bytes → Option Bytes
behind row none = none
behind row (some more) = some (row ++ more)

abbrev pub line_then : Option Bytes → Option Bytes → Option Bytes
line_then none more = none
line_then (some row) more = behind row more

-- The loop of `showdata`, with that many lines read before; every round takes at least one byte.
unfoldable pub show_loop : ℕ → ℕ → Bytes → Option Bytes
unfolding show_line
show_loop zero line data_left = if length data_left == 0 then some (codes "\r\n") else none
show_loop (suc fuel) line data_left =
    if length data_left == 0 then some (codes "\r\n") else (elim (next_string data_left) [
      | none ↦ none
      | some (text, more) ↦ line_then (show_line (line + 1) text) (show_loop fuel (line + 1) more)
    ])

unfoldable pub showdata : Bytes → Option Bytes
unfolding show_loop
showdata block = show_loop (length block) 0 block

pub block_of-cons : (l : Bytes) (ls : List Bytes) → (length (block_of (l ∷ ls)) == 0) ≡ false
block_of-cons l ls = ground (arith, length-append l (0 ∷ block_of ls))
