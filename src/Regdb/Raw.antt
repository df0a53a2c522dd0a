-- ===== src/Regdb/Raw.antt =====
-- server/showregdb.c: `show_raw_data`, as the bytes that it prints for a record. `none` is undefined
-- behaviour: a record that does not end in a NUL, or a '%' other than in "%%" in a line, which is used as a format.
use esif_client_server.Common.{
  ℕ, zero, suc, ◌≤◌, ◌≡◌, refl, ◌++◌, Bool, true, Bool-cases, ==_iff, ap, sym, map, inl, inr, false,
  List, [], ◌∷◌, Option, none, some, Bytes, length, length-append, ◌==◌, if◌then◌else◌, arith,
}
use esif_client_server.Regdb.{next_string}
use esif_client_server.Regdb.Records.{NoNul, block_of, next_string-append}
use esif_client_server.Regdb.Showing.{behind, line_then, block_of-cons}

-- What printf() prints for a format without arguments, in a conversion or not: "%%" is one '%', and
-- any other conversion is undefined.
unfoldable pub print_rest : Bool → Bytes → Option Bytes
print_rest false [] = some []
print_rest true [] = none
print_rest false (c ∷ cs) =
    let conversion = print_rest true cs in
    let rest = print_rest false cs in if c == b'%' then conversion else behind (c ∷ []) rest
print_rest true (c ∷ cs) =
    let rest = print_rest false cs in if c == b'%' then behind (b'%' ∷ []) rest else none

unfoldable pub print_format : Bytes → Option Bytes
unfolding print_rest
print_format text = print_rest false text

-- The loop of `show_raw_data`, which gives each line to printf() as its format.
unfoldable pub raw_loop : ℕ → Bytes → Option Bytes
unfolding print_format
raw_loop zero data_left = if length data_left == 0 then some [] else none
raw_loop (suc fuel) data_left =
    if length data_left == 0 then some [] else (elim (next_string data_left) [
      | none ↦ none
      | some (text, more) ↦ line_then (print_format text) (raw_loop fuel more)
    ])

unfoldable pub show_raw_data : Bytes → Option Bytes
unfolding raw_loop
show_raw_data block = raw_loop (length block) block

-- Each '%' twice.
abbrev pub doubled : Bytes → Bytes
doubled [] = []
doubled (c ∷ cs) = let rest = doubled cs in if c == b'%' then b'%' ∷ (b'%' ∷ rest) else c ∷ rest

abbrev pub joined : List Bytes → Bytes
joined [] = []
joined (l ∷ ls) = l ++ joined ls

print_format-doubled : (text : Bytes) → print_format (doubled text) ≡ some text
unfolding print_format print_rest
print_format-doubled [] = refl
print_format-doubled (c ∷ cs) = elim (Bool-cases (c == b'%')) [
  | inl e ↦
      rw e (rw (print_format-doubled cs) (ap (λ d. some (d ∷ cs)) (sym ((==_iff c b'%').0 e))))
  | inr e ↦ rw e (rw e (rw (print_format-doubled cs) refl))
]

raw_loop-doubled :
    (fuel : ℕ) (texts : List Bytes)
    → NoNul (map doubled texts)
    → length (block_of (map doubled texts)) ≤ fuel
    → raw_loop fuel (block_of (map doubled texts)) ≡ some (joined texts)
unfolding raw_loop
raw_loop-doubled zero [] h n = refl
raw_loop-doubled (suc fuel) [] h n = refl
raw_loop-doubled zero (l ∷ ls) h n =
    absurd (omega (arith, length-append (doubled l) (0 ∷ block_of (map doubled ls))))
raw_loop-doubled (suc fuel) (l ∷ ls) (h, hs) n =
    rw
      (
        block_of-cons (doubled l) (map doubled ls),
        next_string-append (doubled l) (block_of (map doubled ls)) h,
      )
      (rw
        (
          print_format-doubled l,
          raw_loop-doubled fuel ls hs
              (omega (arith, length-append (doubled l) (0 ∷ block_of (map doubled ls)))),
        )
        refl)

-- For a record of lines with no NUL in them, in which each '%' stands twice, `show_raw_data` prints the
-- lines with each '%' once, in order: so lines without a '%' are printed as they are, and a '%' that a
-- client sends is not.
pub show_raw_data-doubled :
    (texts : List Bytes)
    → NoNul (map doubled texts)
    → show_raw_data (block_of (map doubled texts)) ≡ some (joined texts)
unfolding show_raw_data
show_raw_data-doubled texts h =
    raw_loop-doubled (length (block_of (map doubled texts))) texts h (omega arith)
