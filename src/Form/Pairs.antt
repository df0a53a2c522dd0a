-- ===== src/Form/Pairs.antt =====
-- project2/src/myfuncs.c: `create_pair_hash_table` and `paircheck`. The file of pairs is the list of
-- its lines, each the numbers that sscanf() reads from it, of which a code and nine more are kept.
use esif_client_server.Common.{
  ℕ, ◌+◌, ◌<◌, ◌≡◌, ap, ◌∙◌, Bool, true, false, not, ◌||◌, ◌&&◌, List, [], ◌∷◌, Option, none, some,
  take, ltb, ◌==◌, if◌then◌else◌, ℤ, pos, negsuc, eq_int, arith,
}

-- g_slist_find() on a list of numbers.
unfoldable pub is_in : ℤ → List ℤ → Bool
is_in code [] = false
is_in code (c ∷ cs) = eq_int code c || is_in code cs

-- The list that the hash table has for a code: that of the last line for it.
unfoldable pub pair_list : List (List ℤ) → ℤ → Option (List ℤ)
pair_list [] code = none
pair_list ([] ∷ more) code = pair_list more code
pair_list ((key ∷ []) ∷ more) code = pair_list more code
pair_list ((key ∷ value ∷ values) ∷ more) code = elim (pair_list more code) [
  | some list ↦ some list
  | none ↦ if eq_int key code then some (take 9 (value ∷ values)) else none
]

-- The inner loop of `paircheck`: `matched` is -1 as `none`, and the result is `found`.
unfoldable pub pair_found : List ℤ → Option ℕ → List ℤ → Bool
pair_found filled matched [] = false
pair_found filled matched (value ∷ values) =
    let counted = pair_found filled (some 0) values in
    let next = pair_found filled matched values in
    let one_more = λ (m : ℕ). pair_found filled (some (m + 1)) values in
    if eq_int value (pos 2)
    then counted
    else if eq_int value (pos 1)
    then next
    else if is_in value filled
    then (elim matched [ none ↦ true | some m ↦ if m + 1 == 2 then true else one_more m ])
    else next

-- The outer loop, with the index of the last code looked at.
unfoldable pub pairs_loop : List (List ℤ) → List ℤ → ℕ → List ℤ → ℤ
unfolding pair_found
pairs_loop table filled index [] = pos 0
pairs_loop table filled index (code ∷ codes) =
    let rest = pairs_loop table filled (index + 1) codes in
    if eq_int code (pos 0) then rest else (elim (pair_list table code) [
      | none ↦ rest
      | some values ↦ if pair_found filled none values then rest else (pos (index + 1))
    ])

-- `paircheck`, where the file of pairs may be missing.
unfoldable pub paircheck : Option (List (List ℤ)) → List ℤ → ℤ
unfolding pairs_loop
paircheck none filled = negsuc 0
paircheck (some table) [] = negsuc 0
paircheck (some table) (code ∷ codes) = pairs_loop table (code ∷ codes) 0 (code ∷ codes)

-- How many of the numbers above 2 in a line are among the filled codes.
abbrev pub count_filled : List ℤ → List ℤ → ℕ
count_filled filled [] = 0
count_filled filled (v ∷ vs) =
    (if not (eq_int v (pos 1)) && is_in v filled then 1 else 0) + count_filled filled vs

abbrev pub has_no_two : List ℤ → Bool
has_no_two [] = true
has_no_two (v ∷ vs) = not (eq_int v (pos 2)) && has_no_two vs

-- A code of a line without the mark 2 is paired if one of the others is filled in.
pair_found-none :
    (filled vs : List ℤ)
    → has_no_two vs ≡ true
    → pair_found filled none vs ≡ ltb 0 (count_filled filled vs)
unfolding pair_found
pair_found-none filled [] h = ground arith
pair_found-none filled (v ∷ vs) h = ground (arith, pair_found-none filled vs)

pair_found-some :
    (filled vs : List ℤ) (m : ℕ)
    → has_no_two vs ≡ true
    → m < 2
    → pair_found filled (some m) vs ≡ ltb 1 (m + count_filled filled vs)
unfolding pair_found
pair_found-some filled [] m h n = ground arith
pair_found-some filled (v ∷ vs) m h n =
    ground (arith, pair_found-some filled vs m, pair_found-some filled vs (m + 1))

-- A line of pairs that has no mark 2 is matched exactly if at least one of its codes is among the
-- filled ones, and the line with the mark 2 before the same codes if at least two are; the mark 1 counts
-- for nothing.
pub pair_found-count_filled :
    (filled values : List ℤ)
    → has_no_two values ≡ true
    → (pair_found filled none values ≡ ltb 0 (count_filled filled values))
      × (pair_found filled none (pos 2 ∷ values) ≡ ltb 1 (count_filled filled values))
unfolding pair_found
pair_found-count_filled filled values h = (
  pair_found-none filled values h,
  pair_found-some filled values 0 h (omega arith) ∙ ap (ltb 1) (omega arith),
)
