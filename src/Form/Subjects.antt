-- ===== src/Form/Subjects.antt =====
-- project2/src/myfuncs.c: `verify_subject_codes_by_group` and `verify_subject_codes`. The value of a
-- code is taken to fit an `int`.
pub mod Accepted
use esif_client_server.Common.{
  ℕ, zero, suc, ◌+◌, ◌-◌, ◌≤◌, ◌<◌, ◌≡◌, refl, ap, sym, ◌∙◌, ◌++◌, append_assoc, append-nil, Bool,
  Bool-cases, inl, inr, true, false, not, ◌||◌, ◌&&◌, List, [], ◌∷◌, Option, none, some, Bytes,
  length, take, drop, get_elem?, map, ltb, leb, ◌==◌, if◌then◌else◌, ℤ, pos, negsuc, eq_int,
  ltb_int, strtol, arith,
}
use esif_client_server.Form.Pairs.{is_in, paircheck}

-- NUM_TOTAL_SUB, WITHOUT_F_MIN, WITH_F_MIN
abbrev pub num_total_sub : ℕ
num_total_sub = 17

abbrev pub without_f_min : ℕ
without_f_min = 10

abbrev pub with_f_min : ℕ
with_f_min = 12

-- Which message is shown.
pub data Complaint : Type 0 where
  no_file bad_entry bad_fourth empty_entry not_listed duplicate pair_error pair_mismatch
        fourth_missing extra_entry :
      Complaint

-- 0; or 1 with the message; or a read past the array of the entries.
pub data Verdict : Type 0 where
  accepted : Verdict
  refused : Complaint → Verdict
  past_end : Verdict

-- What the loop over the entries leaves: the codes filled in and the entries behind them; or the
-- message, or that it reads past the array.
pub data Entries : Type 0 where
  filled : List ℤ → List Bytes → Entries
  bad : Complaint → Entries
  too_few : Entries

-- The loop over the entries, with that many still to check.
unfoldable pub entries_loop : List ℤ → ℕ → List Bytes → List ℤ → Entries
entries_loop sublist zero entries local_list = filled local_list entries
entries_loop sublist (suc n) [] local_list = too_few
entries_loop sublist (suc n) (entry ∷ entries) local_list =
    let codeval = strtol entry in
    let rest = entries_loop sublist n entries (local_list ++ codeval ∷ []) in
    if length entry == 0
    then bad empty_entry
    else if ltb (length entry) 3
    then bad bad_entry
    else if not (is_in codeval sublist)
    then bad not_listed
    else if is_in codeval local_list
    then bad duplicate
    else rest

-- The loop over the entries behind those.
unfoldable pub extra_loop : ℕ → List Bytes → Verdict
extra_loop zero entries = accepted
extra_loop (suc n) [] = past_end
extra_loop (suc n) (entry ∷ entries) =
    let rest = extra_loop n entries in if ltb 0 (length entry) then refused extra_entry else rest

-- How many entries hold a special code.
unfoldable pub count_special : List ℤ → List Bytes → ℕ
count_special special [] = 0
count_special special (entry ∷ entries) =
    (if is_in (strtol entry) special then 1 else 0) + count_special special entries

-- The number of entries to check before special codes, by the fourth subject.
unfoldable pub fourth_total : List ℤ → ℤ → Option ℕ
fourth_total fourthsublist fourth =
    if eq_int fourth (pos 0)
    then some without_f_min
    else if ltb_int fourth (pos 100) || not (is_in fourth fourthsublist)
    then none
    else (some with_f_min)

-- The checks behind the loop over the entries.
unfoldable pub after_entries : Option (List (List ℤ)) → ℤ → ℕ → Entries → Verdict
unfolding extra_loop
after_entries pairs fourth total_sub (bad complaint) = refused complaint
after_entries pairs fourth total_sub too_few = past_end
after_entries pairs fourth total_sub (filled local_list entries) =
    let ret = paircheck pairs local_list in
    if ltb_int ret (pos 0)
    then refused pair_error
    else if not (eq_int ret (pos 0))
    then refused pair_mismatch
    else if leb with_f_min total_sub && not (is_in fourth local_list)
    then refused fourth_missing
    else (extra_loop (num_total_sub - 1 - total_sub) entries)

-- `verify_subject_codes_by_group`; `none` is a file that does not open.
unfoldable pub verify_subject_codes_by_group :
    List Bytes
    → Option (List ℤ)
    → Option (List ℤ)
    → Option (List ℤ)
    → Option (List (List ℤ))
    → Verdict
unfolding entries_loop count_special fourth_total after_entries
verify_subject_codes_by_group entries none fourthsub special pairs = refused no_file
verify_subject_codes_by_group entries (some sublist) none special pairs = refused no_file
verify_subject_codes_by_group entries (some sublist) (some fourthsublist) special pairs =
    elim (get_elem? entries (num_total_sub - 1)) [
      | none ↦ past_end
      | some last ↦
          let fourth = strtol last in
          elim (fourth_total fourthsublist fourth) [
            | none ↦ refused (if ltb_int fourth (pos 100) then bad_entry else bad_fourth)
            | some minimum ↦ elim special [
              | none ↦ refused no_file
              | some specials ↦
                  let total_sub = minimum + count_special specials entries in
                  after_entries pairs fourth total_sub (entries_loop sublist total_sub entries [])
            ]
          ]
    ]

-- `verify_subject_codes`, with the keys of the table of all subjects: its loop.
unfoldable pub subject_codes_loop : List ℤ → ℕ → List Bytes → List ℤ → Verdict
subject_codes_loop table zero entries local_list = accepted
subject_codes_loop table (suc n) [] local_list = past_end
subject_codes_loop table (suc n) (entry ∷ entries) local_list =
    let codeval = strtol entry in
    let skipped = subject_codes_loop table n entries local_list in
    let rest = subject_codes_loop table n entries (local_list ++ codeval ∷ []) in
    if length entry == 0
    then skipped
    else if ltb (length entry) 3
    then refused bad_entry
    else if not (is_in codeval table)
    then refused not_listed
    else if is_in codeval local_list
    then refused duplicate
    else rest

unfoldable pub verify_subject_codes : List Bytes → Option (List ℤ) → Verdict
unfolding subject_codes_loop
verify_subject_codes entries none = refused no_file
verify_subject_codes entries (some table) = subject_codes_loop table num_total_sub entries []

-- The codes are in the list, none is among `seen`, and no two are the same.
abbrev pub AllNew : List ℤ → List ℤ → List ℤ → Type 0
AllNew sublist seen [] = Unit
AllNew sublist seen (c ∷ cs) =
    (is_in c sublist ≡ true) × (is_in c seen ≡ false) × AllNew sublist (seen ++ c ∷ []) cs

entries_loop-step :
    (sublist : List ℤ) (n : ℕ) (entry : Bytes) (entries : List Bytes) (seen codes : List ℤ)
    (more : List Bytes)
    → entries_loop sublist (suc n) (entry ∷ entries) seen ≡ filled codes more
    → (is_in (strtol entry) sublist ≡ true)
      × (is_in (strtol entry) seen ≡ false)
      × (entries_loop sublist n entries (seen ++ strtol entry ∷ []) ≡ filled codes more)
unfolding entries_loop
entries_loop-step sublist n entry entries seen codes more h =
    (ground arith, ground arith, ground arith)

-- The loop over the entries goes through only if there are as many entries, each of at least three
-- bytes; what it has then filled in are their codes in order, which are in the group's list and
-- different from each other, and it leaves the entries behind them.
pub entries_loop-AllNew :
    (sublist : List ℤ) (n : ℕ) (entries more : List Bytes) (seen codes : List ℤ)
    → entries_loop sublist n entries seen ≡ filled codes more
    → (codes ≡ seen ++ map strtol (take n entries))
      × (more ≡ drop n entries)
      × (n ≤ length entries)
      × AllNew sublist seen (map strtol (take n entries))
unfolding entries_loop
entries_loop-AllNew sublist zero entries more seen codes h = (rw append-nil cc, cc, omega arith, tt)
entries_loop-AllNew sublist (suc n) [] more seen codes h = absurd cc
entries_loop-AllNew sublist (suc n) (entry ∷ entries) more seen codes h =
    let (listed, new, go_on) = entries_loop-step sublist n entry entries seen codes more h in
    let (p, q, r, all) =
      entries_loop-AllNew sublist n entries more (seen ++ strtol entry ∷ []) codes go_on in
    (p ∙ append_assoc seen (strtol entry ∷ []) _, q, omega arith, (listed, new, all))
