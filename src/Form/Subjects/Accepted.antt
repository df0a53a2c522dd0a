-- ===== src/Form/Subjects/Accepted.antt =====
-- What the codes of a form are that `verify_subject_codes_by_group` accepts.
use esif_client_server.Common.{
  ℕ, zero, suc, ◌+◌, ◌-◌, ◌≤◌, ◌≡◌, refl, true, not, ◌&&◌, List, [], ◌∷◌, Option, some, Bytes,
  length, take, drop, get_elem?, map, leb, if◌then◌else◌, ℤ, pos, negsuc, eq_int, ltb_int, strtol,
  Option-cases, inl, inr, arith,
}
use esif_client_server.Form.Pairs.{is_in, paircheck}
use esif_client_server.Form.Subjects.{
  Complaint, Verdict, accepted, refused, past_end, Entries, filled, bad, too_few, num_total_sub,
  with_f_min, entries_loop, extra_loop, count_special, fourth_total, after_entries,
  verify_subject_codes_by_group, AllNew, entries_loop-AllNew,
}

abbrev pub AllEmpty : List Bytes → Type 0
AllEmpty [] = Unit
AllEmpty (entry ∷ entries) = (length entry ≡ 0) × AllEmpty entries

extra_loop-AllEmpty :
    (n : ℕ) (entries : List Bytes) → extra_loop n entries ≡ accepted → AllEmpty (take n entries)
unfolding extra_loop
extra_loop-AllEmpty zero entries h = tt
extra_loop-AllEmpty (suc n) [] h = tt
extra_loop-AllEmpty (suc n) (entry ∷ entries) h =
    (ground arith, extra_loop-AllEmpty n entries (ground arith))

-- What a form's entries are, for the number `total_sub` of entries that must be filled in.
pub record IsFilled (sublist : List ℤ) (pairs : Option (List (List ℤ))) (fourth : ℤ) (total_sub : ℕ)
    (entries : List Bytes) : Type 0 where
  pub enough : total_sub ≤ length entries
  pub listed : AllNew sublist [] (map strtol (take total_sub entries))
  pub paired : paircheck pairs (map strtol (take total_sub entries)) ≡ pos 0
  pub has_fourth :
      leb with_f_min total_sub ≡ true → is_in fourth (map strtol (take total_sub entries)) ≡ true
  pub no_extra : AllEmpty (take (num_total_sub - 1 - total_sub) (drop total_sub entries))

checks-pass :
    (ret : ℤ) (fourth : ℤ) (total_sub : ℕ) (codes : List ℤ) (v : Verdict)
    → (if ltb_int ret (pos 0)
        then refused Complaint.pair_error
        else if not (eq_int ret (pos 0))
        then refused Complaint.pair_mismatch
        else if leb with_f_min total_sub && not (is_in fourth codes)
        then refused Complaint.fourth_missing
        else v)
      ≡ accepted
    → (ret ≡ pos 0) × (leb with_f_min total_sub ≡ true → is_in fourth codes ≡ true) × (v ≡ accepted)
checks-pass (pos n) fourth total_sub codes v h = (ground arith, λ e. ground arith, ground arith)
checks-pass (negsuc n) fourth total_sub codes v h = absurd cc

module _ (pairs : Option (List (List ℤ))) (sublist : List ℤ) (fourth : ℤ) (total_sub : ℕ)
    (entries : List Bytes) where
  after_entries-IsFilled :
      (loop : Entries)
      → entries_loop sublist total_sub entries [] ≡ loop
      → after_entries pairs fourth total_sub loop ≡ accepted
      → IsFilled sublist pairs fourth total_sub entries
  unfolding after_entries
  after_entries-IsFilled (bad complaint) e h = absurd cc
  after_entries-IsFilled too_few e h = absurd cc
  after_entries-IsFilled (filled codes more) e h =
      let (codes_are, more_is, enough, listed) =
        entries_loop-AllNew sublist total_sub entries more [] codes e in
      let (paired, has_fourth, no_extra) =
        checks-pass (paircheck pairs codes) fourth total_sub codes _ h in
      record {
        enough = enough;
        listed = listed;
        paired = rw (← codes_are) paired;
        has_fourth = rw (← codes_are) has_fourth;
        no_extra = rw (← more_is) (extra_loop-AllEmpty _ more no_extra);
      }

-- If `verify_subject_codes_by_group` accepts a form, its files open, the entry of the fourth subject
-- is empty, or holds a code of the list of fourth subjects, and with ten entries, or with twelve for a
-- fourth subject, and one more for each special code: each of that many first entries holds a code of
-- the group's list, no two the same; their pairs are complete; from twelve on the fourth subject is
-- among them; and the entries behind them, up to the sixteenth, are empty.
pub verify_subject_codes_by_group-IsFilled :
    (entries : List Bytes) (sublist fourthsublist specials : List ℤ)
    (pairs : Option (List (List ℤ)))
    → verify_subject_codes_by_group entries
        (some sublist)
        (some fourthsublist)
        (some specials)
        pairs
      ≡ accepted
    → (last : Bytes) × (minimum : ℕ) × (get_elem? entries (num_total_sub - 1) ≡ some last)
      × (fourth_total fourthsublist (strtol last) ≡ some minimum)
      × IsFilled sublist pairs (strtol last) (minimum + count_special specials entries) entries
unfolding verify_subject_codes_by_group
verify_subject_codes_by_group-IsFilled entries sublist fourthsublist specials pairs h =
    elim (Option-cases (get_elem? entries (num_total_sub - 1))) [
      | inl e ↦
          let r : past_end ≡ accepted = rw (e, verify_subject_codes_by_group) at h in absurd cc
      | inr (last, e) ↦ elim (Option-cases (fourth_total fourthsublist (strtol last))) [
        | inl f ↦
            let r : refused (
                  if ltb_int (strtol last) (pos 100)
                  then Complaint.bad_entry
                  else Complaint.bad_fourth)
                ≡ accepted =
              rw (e, f, verify_subject_codes_by_group) at h in
            absurd cc
        | inr (minimum, f) ↦ (
          last,
          minimum,
          e,
          f,
          after_entries-IsFilled pairs sublist (strtol last)
              (minimum + count_special specials entries) entries _ refl
              (rw (e, f, verify_subject_codes_by_group) at h),
        )
      ]
    ]
