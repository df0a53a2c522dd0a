-- ===== src/Window/Settles/Leaf.antt =====
-- The handlers that set no other text than that of their own entry.
use esif_client_server.Common.{
  ℕ, suc, ◌≡◌, ◌≤◌, refl, ap, Bool, Bool-cases, inl, inr, true, false, not, ◌||◌, List, [], ◌∷◌,
  Option, Bytes, length, ltb, if◌then◌else◌, is_digit, ℤ, pos, strtol, arith,
}
use esif_client_server.Session.{M, Outcome, return, next}
use esif_client_server.Window.{
  Toolkit, Widget, Window, if_present, grab_focus, set_editable, set_sub_tip, set_entry_text,
}
use esif_client_server.Window.Handlers.{
  Handler, name_changed, upper_changed, full_changed, digits_changed, session_changed, sub_changed,
  group_changed, board_changed, nothing_changed, is_accepted, upper, strupper, valid_part,
  update_gender, on_name, on_upper, on_full, on_digits, on_sub, show_subject, enough, run,
}
use esif_client_server.Window.Clean.{
  is_not_lower, allowed, all_of, is_raised, Keeps, Ends, Ends-resume,
}

-- What a handler sets its entry's text to.
abbrev pub filtered : Handler → Bytes → Bytes
filtered (name_changed gender) t = valid_part is_accepted (upper t)
filtered upper_changed t = upper t
filtered (full_changed to) t = t
filtered (digits_changed limit to) t = valid_part is_digit t
filtered session_changed t = valid_part is_digit t
filtered (sub_changed to) t = valid_part is_digit t
filtered group_changed t = t
filtered board_changed t = t
filtered nothing_changed t = t

pub valid_part-all_of : (p : ℕ → Bool) (t : Bytes) → all_of p (valid_part p t) ≡ true
valid_part-all_of p [] = refl
valid_part-all_of p (c ∷ cs) = let ih = valid_part-all_of p cs in ground arith

pub valid_part_self : (p : ℕ → Bool) (t : Bytes) → all_of p t ≡ true → valid_part p t ≡ t
valid_part_self p [] h = refl
valid_part_self p (c ∷ cs) h = ground (arith, valid_part_self p cs)

pub length-valid_part : (p : ℕ → Bool) (t : Bytes) → length (valid_part p t) ≤ length t
length-valid_part p [] = omega arith
length-valid_part p (c ∷ cs) = let ih = length-valid_part p cs in ground arith

all_of-upper : (t : Bytes) → all_of is_not_lower (upper t) ≡ true
unfolding upper
all_of-upper [] = refl
all_of-upper (c ∷ cs) = ground (arith, all_of-upper cs)

upper_self : (t : Bytes) → all_of is_not_lower t ≡ true → upper t ≡ t
unfolding upper
upper_self [] h = refl
upper_self (c ∷ cs) h = ground (arith, upper_self cs)

length-upper : (t : Bytes) → length (upper t) ≡ length t
unfolding upper
length-upper [] = refl
length-upper (c ∷ cs) = ap suc (length-upper cs)

accepted_not_lower : (t : Bytes) → all_of is_accepted t ≡ true → all_of is_not_lower t ≡ true
accepted_not_lower [] h = refl
accepted_not_lower (c ∷ cs) h = ground (arith, accepted_not_lower cs)

pub all_of-any : (t : Bytes) → all_of (λ c. true) t ≡ true
all_of-any [] = refl
all_of-any (c ∷ cs) = all_of-any cs

pub all_of-filtered : (h : Handler) (t : Bytes) → all_of (allowed h) (filtered h t) ≡ true
all_of-filtered (name_changed gender) t = valid_part-all_of is_accepted (upper t)
all_of-filtered upper_changed t = all_of-upper t
all_of-filtered (full_changed to) t = all_of-any t
all_of-filtered (digits_changed limit to) t = valid_part-all_of is_digit t
all_of-filtered session_changed t = valid_part-all_of is_digit t
all_of-filtered (sub_changed to) t = valid_part-all_of is_digit t
all_of-filtered group_changed t = all_of-any t
all_of-filtered board_changed t = all_of-any t
all_of-filtered nothing_changed t = all_of-any t

pub filtered_self : (h : Handler) (t : Bytes) → all_of (allowed h) t ≡ true → filtered h t ≡ t
filtered_self (name_changed gender) t h =
    rw (upper_self t (accepted_not_lower t h)) (valid_part_self is_accepted t h)
filtered_self upper_changed t h = upper_self t h
filtered_self (full_changed to) t h = refl
filtered_self (digits_changed limit to) t h = valid_part_self is_digit t h
filtered_self session_changed t h = valid_part_self is_digit t h
filtered_self (sub_changed to) t h = valid_part_self is_digit t h
filtered_self group_changed t h = refl
filtered_self board_changed t h = refl
filtered_self nothing_changed t h = refl

pub length-filtered : (h : Handler) (t : Bytes) → length (filtered h t) ≤ length t
length-filtered (name_changed gender) t =
    omega (arith, length-valid_part is_accepted (upper t), length-upper t)
length-filtered upper_changed t = omega (arith, length-upper t)
length-filtered (full_changed to) t = omega arith
length-filtered (digits_changed limit to) t = length-valid_part is_digit t
length-filtered session_changed t = length-valid_part is_digit t
length-filtered (sub_changed to) t = length-valid_part is_digit t
length-filtered group_changed t = omega arith
length-filtered board_changed t = omega arith
length-filtered nothing_changed t = omega arith

-- The steps that leave the texts alone.
pub grab_focus-Keeps :
    (m : Widget → ℕ) (w : Widget) (t : Window) → Keeps m t → Ends (Keeps m) (grab_focus w t)
unfolding grab_focus
grab_focus-Keeps m w t h = record {
  clean = record { suits = h.clean.suits; subs = h.clean.subs };
  lengths = h.lengths;
}

pub set_editable-Keeps :
    (m : Widget → ℕ) (w : Widget) (b : Bool) (t : Window)
    → Keeps m t
    → Ends (Keeps m) (set_editable w b t)
unfolding set_editable
set_editable-Keeps m w b t h = record {
  clean = record { suits = h.clean.suits; subs = h.clean.subs };
  lengths = h.lengths;
}

pub set_sub_tip-Keeps :
    (subject : ℤ → Option Bytes) (m : Widget → ℕ) (w : Widget) (code : ℤ) (t : Window)
    → Keeps m t
    → Ends (Keeps m) (set_sub_tip subject w code t)
unfolding set_sub_tip
set_sub_tip-Keeps subject m w code t h = record {
  clean = record { suits = h.clean.suits; subs = h.clean.subs };
  lengths = h.lengths;
}

pub if-Ends :
    {A : Type 0} (Q : Window → Type 0) (b : Bool) (x y : Outcome A × Window)
    → Ends Q x
    → Ends Q y
    → Ends Q (if b then x else y)
if-Ends Q true x y h k = h
if-Ends Q false x y h k = k

pub focus_if_present-Keeps :
    (m : Widget → ℕ) (w : Widget) (t : Window)
    → Keeps m t
    → Ends (Keeps m) (if_present w (grab_focus w) t)
focus_if_present-Keeps m w t h =
    if-Ends (Keeps m) (t.present w) (grab_focus w t) (next tt, t) (grab_focus-Keeps m w t h) h

abbrev pub is_leaf : Handler → Bool
is_leaf (name_changed gender) = not gender
is_leaf upper_changed = true
is_leaf (full_changed to) = true
is_leaf (digits_changed limit to) = true
is_leaf session_changed = false
is_leaf (sub_changed to) = true
is_leaf group_changed = false
is_leaf board_changed = false
is_leaf nothing_changed = true

module _ (G : Toolkit) (numbers_in : Bytes → Option (List ℤ)) (subject : ℤ → Option Bytes)
    (emit : Widget → M Window (Unit {0})) (w : Widget) (m : Widget → ℕ) where
  -- The handler's own text is set, and the rest of the handler follows.
  abbrev pub Settled : Handler → Window → Type 0
  Settled h s = Ends (Keeps m) (set_entry_text G emit w (filtered h (s.text w)) s)

  pub on_name-Ends :
      (gender : Bool) (s : Window)
      → length (s.text w) ≤ 79
      → Settled (name_changed gender) s
      → ((t : Window)
          → Keeps m t
          → Ends
              (Keeps m)
              ((if gender then update_gender G numbers_in subject emit w else return tt) t))
      → Ends (Keeps m) (on_name G numbers_in subject emit gender w s)
  unfolding on_name strupper
  on_name-Ends gender s f h k =
      let short : ltb 79 (length (s.text w)) ≡ false = ground arith in
      rw short (
        Ends-resume (Keeps m) (Keeps m)
          (λ _. if gender then update_gender G numbers_in subject emit w else return tt)
          (set_entry_text G emit w (valid_part is_accepted (upper (s.text w))) s) h
          (λ _ t g. k t g))

  on_upper-Ends :
      (s : Window)
      → length (s.text w) ≤ 79
      → Settled upper_changed s
      → Ends (Keeps m) (on_upper G numbers_in subject emit w s)
  unfolding on_upper strupper
  on_upper-Ends s f h = let short : ltb 79 (length (s.text w)) ≡ false = ground arith in rw short h

  on_full-Ends :
      (to : Widget) (s : Window)
      → Keeps m s
      → Ends (Keeps m) (on_full G numbers_in subject emit to w s)
  unfolding on_full
  on_full-Ends to s h =
      if-Ends (Keeps m) (not (s.present w) || ltb (length (s.text w)) 4) (next tt, s)
        (if_present to (grab_focus to) s) h (focus_if_present-Keeps m to s h)

  on_digits-Ends :
      (limit : Option ℕ) (to : Widget) (s : Window)
      → Settled (digits_changed limit to) s
      → Ends (Keeps m) (on_digits G numbers_in subject emit limit to w s)
  unfolding on_digits
  on_digits-Ends limit to s h =
      Ends-resume (Keeps m) (Keeps m) _ (set_entry_text G emit w (valid_part is_digit (s.text w)) s)
        h
        (λ _ t g.
          if-Ends (Keeps m)
            (ltb (length (valid_part is_digit (s.text w)))
              (enough G numbers_in subject emit limit w t))
            (next tt, t) (if_present to (grab_focus to) t) g (focus_if_present-Keeps m to t g))

  show_subject-Ends :
      (to : Widget) (t : Window)
      → Keeps m t
      → Ends (Keeps m) (show_subject G numbers_in subject emit to w t)
  unfolding show_subject
  show_subject-Ends to t g =
      if-Ends (Keeps m) (t.present w) _ (next tt, t)
        (Ends-resume (Keeps m) (Keeps m) _ (set_sub_tip subject w (strtol (t.text w)) t)
          (set_sub_tip-Keeps subject m w (strtol (t.text w)) t g)
          (λ _ u k. focus_if_present-Keeps m to u k))
        g

  on_sub-Ends :
      (to : Widget) (s : Window)
      → Settled (sub_changed to) s
      → Ends (Keeps m) (on_sub G numbers_in subject emit to w s)
  unfolding on_sub
  on_sub-Ends to s h =
      let val = valid_part is_digit (s.text w) in
      let rest = λ (u : Unit {0}).
        if ltb (length val) 3
        then set_sub_tip subject w (pos 0)
        else show_subject G numbers_in subject emit to w in
      Ends-resume (Keeps m) (Keeps m) rest (set_entry_text G emit w val s) h (λ _ t g.
        elim (Bool-cases (ltb (length val) 3)) [
          | inl e ↦ rw e (set_sub_tip-Keeps subject m w (pos 0) t g)
          | inr e ↦ rw e (show_subject-Ends to t g)
        ])

  pub run_leaf-Ends :
      (h : Handler) (s : Window)
      → is_leaf h ≡ true
      → (is_raised h ≡ true → length (s.text w) ≤ 79)
      → (all_of (allowed h) (s.text w) ≡ true → Keeps m s)
      → Settled h s
      → Ends (Keeps m) (run G numbers_in subject emit h w s)
  unfolding run
  run_leaf-Ends (name_changed true) s l f c h = cc
  run_leaf-Ends (name_changed false) s l f c h = on_name-Ends false s (f refl) h (λ t g. g)
  run_leaf-Ends upper_changed s l f c h = on_upper-Ends s (f refl) h
  run_leaf-Ends (full_changed to) s l f c h = on_full-Ends to s (c (all_of-any (s.text w)))
  run_leaf-Ends (digits_changed limit to) s l f c h = on_digits-Ends limit to s h
  run_leaf-Ends session_changed s l f c h = cc
  run_leaf-Ends (sub_changed to) s l f c h = on_sub-Ends to s h
  run_leaf-Ends group_changed s l f c h = cc
  run_leaf-Ends board_changed s l f c h = cc
  run_leaf-Ends nothing_changed s l f c h = c (all_of-any (s.text w))
