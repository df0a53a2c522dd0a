-- ===== src/Window/Settles/Parts.antt =====
-- The handlers that set the text of another entry.
use esif_client_server.Common.{
  ℕ, zero, suc, ◌+◌, ◌-◌, ◌≡◌, ◌≤◌, refl, sym, Bool-cases, inl, inr, true, false, ◌||◌, List, [],
  ◌∷◌, Option, none, some, Bytes, bytes_eq, bytes_eq→eq, codes, length, drop, starts_with, ltb,
  if◌then◌else◌, is_digit, ℤ, pos, negsuc, strtol, decimal, AllDigits, decimal-AllDigits,
  zeros-AllDigits, strtol-AllDigits, arith,
}
use mathlib.Core.Path.{subst}
use esif_client_server.Session.{M, Outcome, ◌>>=◌, ◌>>◌, return, next, stop, fault, spent}
use esif_client_server.Window.{
  Toolkit, Widget, entry, combo_entry, Window, same, update, if_present, grab_focus, set_editable,
  set_sub_tip, set_entry_text, set_max_length, cut, put_each,
}
use esif_client_server.Window.Handlers.{
  session_changed, sub_changed, upper, valid_part, decimal_3, subentrymap, common_file, file_of,
  update_gender, on_session, next_session, print_int, plus_one, load_code, load_codes,
  make_editable, load_sub_common, clear_sub_entry, fill_group, on_group, on_board,
}
use esif_client_server.Window.Entries.{handler_of}
use esif_client_server.Window.Clean.{
  allowed, all_of, is_raised, Suits, Suits-cut, same→eq, same_refl, IsClean, IsClean-IsCleanBut,
  AllSubs, Keeps, Ends, Ends-resume, Quiet, set_entry_text-Keeps, put_each-Keeps,
}
use esif_client_server.Window.Settles.Leaf.{
  is_leaf, Settled, if-Ends, focus_if_present-Keeps, grab_focus-Keeps, set_editable-Keeps,
  set_sub_tip-Keeps,
}

-- The files of codes hold no negative number.
abbrev pub AllPos : List ℤ → Type 0
AllPos [] = Unit {0}
AllPos (pos n ∷ zs) = AllPos zs
AllPos (negsuc n ∷ zs) = ⊥

AllDigits-all_of : (t : Bytes) → AllDigits t → all_of is_digit t ≡ true
AllDigits-all_of [] h = refl
AllDigits-all_of (c ∷ cs) (d, h) = ground (arith, AllDigits-all_of cs h)

all_of-AllDigits : (t : Bytes) → all_of is_digit t ≡ true → AllDigits t
all_of-AllDigits [] h = tt
all_of-AllDigits (c ∷ cs) h = (ground arith, all_of-AllDigits cs (ground arith))

decimal_3-all_of : (n : ℕ) → all_of is_digit (decimal_3 (pos n)) ≡ true
unfolding decimal_3
decimal_3-all_of n =
    AllDigits-all_of _ (zeros-AllDigits (3 - length (decimal n)) (decimal n) (decimal-AllDigits n))

next_session-all_of :
    (t : Bytes)
    → all_of is_digit t ≡ true
    → all_of is_digit (print_int (plus_one (strtol t))) ≡ true
next_session-all_of t h =
    rw (strtol-AllDigits t (all_of-AllDigits t h)) (AllDigits-all_of _ (decimal-AllDigits _))

AllSubs-drop : (n : ℕ) (ws : List Widget) → AllSubs ws → AllSubs (drop n ws)
AllSubs-drop zero ws h = h
AllSubs-drop (suc n) [] h = h
AllSubs-drop (suc n) (w ∷ ws) (i, h) = AllSubs-drop n ws h

pub Keeps-IsClean :
    (m : Widget → ℕ) (r : Outcome (Unit {0}) × Window) → Ends (Keeps m) r → Ends IsClean r
Keeps-IsClean m (next u, t) h = h.clean
Keeps-IsClean m (stop, t) h = h
Keeps-IsClean m (fault, t) h = tt
Keeps-IsClean m (spent, t) h = h

Suits-max_length :
    (u v : Widget) (max : ℕ) (g : Widget → ℕ) (f : Widget → Bytes)
    → Suits (handler_of v) max (f v)
    → Suits (handler_of u) (g u) (f u)
    → Suits (handler_of u) (update v max g u) (f u)
Suits-max_length u v max g f h k = elim (Bool-cases (same u v)) [
  | inl e ↦
      subst (λ b. Suits (handler_of u) (if b then max else g u) (f u)) (sym e)
        (rw (same→eq u v e) h)
  | inr e ↦ subst (λ b. Suits (handler_of u) (if b then max else g u) (f u)) (sym e) k
]

module _ (G : Toolkit) (numbers_in : Bytes → Option (List ℤ)) (subject : ℤ → Option Bytes)
    (emit : Widget → M Window (Unit {0}))
    (leafs : (v : Widget) → is_leaf (handler_of v) ≡ true → Quiet emit v)
    (files : (f : Bytes) (zs : List ℤ) → numbers_in f ≡ some zs → AllPos zs) (m : Widget → ℕ) where
  set_leaf-Keeps :
      (v : Widget) (t : Bytes) (s : Window)
      → is_leaf (handler_of v) ≡ true
      → all_of (allowed (handler_of v)) t ≡ true
      → (is_raised (handler_of v) ≡ true → length t ≤ 79)
      → Keeps m s
      → Ends (Keeps m) (set_entry_text G emit v t s)
  set_leaf-Keeps v t s l a f h =
      set_entry_text-Keeps G emit v m (leafs v l) t s (IsClean-IsCleanBut v s h.clean) h.lengths a f

  set_gender-Keeps :
      (t : Bytes) (s : Window)
      → Keeps m s
      → Ends (Keeps m) (set_entry_text G emit (combo_entry 8) t s)
  unfolding handler_of
  set_gender-Keeps t s h = set_leaf-Keeps (combo_entry 8) t s refl (anything t) (λ e. cc) h
    where
      anything : (u : Bytes) → all_of (λ c. true) u ≡ true
      anything [] = refl
      anything (c ∷ cs) = anything cs

  pub update_gender-Ends :
      (w : Widget) (s : Window)
      → Keeps m s
      → Ends (Keeps m) (update_gender G numbers_in subject emit w s)
  unfolding update_gender
  update_gender-Ends w s h =
      let name = upper (s.text w) in
      let male =
        starts_with (codes "MOHAMMAD") name
        || (starts_with (codes "MD ") name || starts_with (codes "MD.") name) in
      let female =
        starts_with (codes "MOSAMMAT") name
        || (starts_with (codes "MST ") name || starts_with (codes "MST.") name) in
      let woman = set_entry_text G emit (combo_entry 8) (codes "Female") s in
      let man = set_entry_text G emit (combo_entry 8) (codes "Male") s in
      if-Ends (Keeps m) (s.present (combo_entry 8))
        (if male then man else if female then woman else (next tt, s)) (next tt, s)
        (if-Ends (Keeps m) male man (if female then woman else (next tt, s))
          (set_gender-Keeps (codes "Male") s h)
          (if-Ends (Keeps m) female woman (next tt, s) (set_gender-Keeps (codes "Female") s h) h))
        h

  next_session-Ends :
      (w : Widget) (s : Window)
      → all_of is_digit (s.text w) ≡ true
      → Keeps m s
      → Ends (Keeps m) (next_session G numbers_in subject emit w s)
  unfolding next_session handler_of
  next_session-Ends w s d h =
      let text = print_int (plus_one (strtol (s.text w))) in
      elim (Bool-cases (ltb 4 (length text))) [
        | inl e ↦ rw e tt
        | inr e ↦ rw e (
            Ends-resume (Keeps m) (Keeps m)
              (λ _. if_present (combo_entry 8) (grab_focus (combo_entry 8)))
              (if_present (entry 14) (set_entry_text G emit (entry 14) text) s)
              (if-Ends (Keeps m) (s.present (entry 14)) (set_entry_text G emit (entry 14) text s)
                (next tt, s)
                (set_leaf-Keeps (entry 14) text s refl (next_session-all_of (s.text w) d) (λ e. cc)
                  h)
                h)
              (λ _ t k. focus_if_present-Keeps m (combo_entry 8) t k))
      ]

  -- A subject's entry given digits.
  set_sub-Keeps :
      (v to : Widget) (t : Bytes) (s : Window)
      → handler_of v ≡ sub_changed to
      → all_of is_digit t ≡ true
      → Keeps m s
      → Ends (Keeps m) (set_entry_text G emit v t s)
  set_sub-Keeps v to t s e d h =
      set_leaf-Keeps v t s (rw e refl) (rw e d)
        (subst (λ k. is_raised k ≡ true → length t ≤ 79) (sym e) (λ f. cc)) h

  load_code-Ends :
      (v to : Widget) (n : ℕ) (s : Window)
      → handler_of v ≡ sub_changed to
      → Keeps m s
      → Ends (Keeps m) (load_code G numbers_in subject emit v (pos n) s)
  unfolding load_code
  load_code-Ends v to n s e h = elim (Bool-cases (ltb 3 (length (decimal_3 (pos n))))) [
    | inl f ↦ rw f tt
    | inr f ↦ rw f (
        Ends-resume (Keeps m) (Keeps m)
          (λ _. set_editable v false >> set_sub_tip subject v (strtol (decimal_3 (pos n))))
          (set_entry_text G emit v (decimal_3 (pos n)) s)
          (set_sub-Keeps v to (decimal_3 (pos n)) s e (decimal_3-all_of n) h)
          (λ _ t k.
            Ends-resume (Keeps m) (Keeps m)
              (λ _. set_sub_tip subject v (strtol (decimal_3 (pos n)))) (set_editable v false t)
              (set_editable-Keeps m v false t k)
              (λ _ u l. set_sub_tip-Keeps subject m v (strtol (decimal_3 (pos n))) u l)))
  ]

  make_editable-Ends :
      (ws : List Widget) (s : Window)
      → Keeps m s
      → Ends (Keeps m) (make_editable G numbers_in subject emit ws s)
  unfolding make_editable
  make_editable-Ends [] s h = h
  make_editable-Ends (w ∷ ws) s h =
      Ends-resume (Keeps m) (Keeps m) (λ _. make_editable G numbers_in subject emit ws)
        (set_editable w true s) (set_editable-Keeps m w true s h)
        (λ _ t k. make_editable-Ends ws t k)

  load_codes-Ends :
      (zs : List ℤ) (ws : List Widget) (s : Window)
      → AllPos zs
      → AllSubs ws
      → Keeps m s
      → Ends (Keeps m) (load_codes G numbers_in subject emit zs ws s)
  unfolding load_codes
  load_codes-Ends [] ws s p a h =
      Ends-resume (Keeps m) (Keeps m) (λ _. return 0) (make_editable G numbers_in subject emit ws s)
        (make_editable-Ends ws s h) (λ _ t k. k)
  load_codes-Ends (z ∷ zs) [] s p a h = h
  load_codes-Ends (pos n ∷ zs) (w ∷ ws) s p ((to, e), a) h =
      Ends-resume (Keeps m) (Keeps m)
        (λ _. load_codes G numbers_in subject emit zs ws >>= λ k. return (k + 1))
        (load_code G numbers_in subject emit w (pos n) s) (load_code-Ends w to n s e h)
        (λ _ t k.
          Ends-resume (Keeps m) (Keeps m) (λ n. return (n + 1))
            (load_codes G numbers_in subject emit zs ws t) (load_codes-Ends zs ws t p a k)
            (λ _ u l. l))
  load_codes-Ends (negsuc n ∷ zs) (w ∷ ws) s p a h = absurd p

  load_sub_common-Ends :
      (f : Bytes) (ws : List Widget) (s : Window)
      → AllSubs ws
      → Keeps m s
      → Ends (Keeps m) (load_sub_common G numbers_in subject emit f ws s)
  unfolding load_sub_common
  load_sub_common-Ends f ws s a h = by_file (numbers_in f) refl
    where
      by_file :
          (o : Option (List ℤ))
          → numbers_in f ≡ o
          → Ends (Keeps m) (
              (let r : M Window ℕ = elim o [
                | none ↦ return 0
                | some values ↦ load_codes G numbers_in subject emit values ws
              ] in
                  r)
                s)
      by_file none e = h
      by_file (some zs) e = load_codes-Ends zs ws s (files f zs e) a h

  clear_sub_entry-Ends :
      (ws : List Widget) (s : Window)
      → AllSubs ws
      → Keeps m s
      → Ends (Keeps m) (clear_sub_entry G numbers_in subject emit ws s)
  unfolding clear_sub_entry
  clear_sub_entry-Ends [] s a h = h
  clear_sub_entry-Ends (w ∷ ws) s ((to, e), a) h =
      Ends-resume (Keeps m) (Keeps m) (λ _. clear_sub_entry G numbers_in subject emit ws)
        (set_entry_text G emit w [] s) (set_sub-Keeps w to [] s e refl h)
        (λ _ t k. clear_sub_entry-Ends ws t a k)

  fill_group-Ends :
      (w : Widget) (ws : List Widget) (group : Bytes) (s : Window)
      → AllSubs ws
      → Keeps m s
      → Ends (Keeps m) (fill_group G numbers_in subject emit w ws group s)
  unfolding fill_group
  fill_group-Ends w ws group s a h =
      Ends-resume (Keeps m) (Keeps m) _ (load_sub_common G numbers_in subject emit common_file ws s)
        (load_sub_common-Ends common_file ws s a h)
        (λ n t k.
          Ends-resume (Keeps m) (Keeps m) _
            (load_sub_common G numbers_in subject emit (file_of subentrymap group) (drop n ws) t)
            (load_sub_common-Ends (file_of subentrymap group) (drop n ws) t (AllSubs-drop n ws a) k)
            (λ i u l.
              Ends-resume (Keeps m) (Keeps m) (λ _. grab_focus w)
                (clear_sub_entry G numbers_in subject emit (drop (n + i) ws) u)
                (clear_sub_entry-Ends (drop (n + i) ws) u (AllSubs-drop (n + i) ws a) l)
                (λ _ v j. grab_focus-Keeps m w v j)))

  pub on_group-Ends :
      (w : Widget) (s : Window)
      → Keeps m s
      → Ends (Keeps m) (on_group G numbers_in subject emit w s)
  unfolding on_group
  on_group-Ends w s h = by_data s.subentries refl
    where
      by_data :
          (o : Option (List Widget))
          → s.subentries ≡ o
          → Ends (Keeps m) (
              let r : Outcome (Unit {0}) × Window = elim o [
                | none ↦ (next tt, s)
                | some ws ↦ fill_group G numbers_in subject emit w ws (s.text w) s
              ] in
              r)
      by_data none e = h
      by_data (some ws) e = fill_group-Ends w ws (s.text w) s (h.clean.subs ws e) h

  pub on_session-Ends :
      (w : Widget) (s : Window)
      → handler_of w ≡ session_changed
      → Settled G numbers_in subject emit w m session_changed s
      → Ends (Keeps m) (on_session G numbers_in subject emit w s)
  unfolding on_session
  on_session-Ends w s e h =
      let val = valid_part is_digit (s.text w) in
      let rest = λ (u : Unit {0}).
        if ltb (length val) 4 then return tt else next_session G numbers_in subject emit w in
      Ends-resume (Keeps m) (Keeps m) rest (set_entry_text G emit w val s) h (λ _ t g.
        elim (Bool-cases (ltb (length val) 4)) [
          | inl f ↦ rw f g
          | inr f ↦ rw f (
              next_session-Ends w t
                (subst (λ k. all_of (allowed k) (t.text w) ≡ true) e (g.clean.suits w).valid) g)
        ])

  -- gtk_entry_set_max_length() on an entry of digits.
  set_max_length-Ends :
      (v : Widget) (max : ℕ) (s : Window)
      → is_leaf (handler_of v) ≡ true
      → is_raised (handler_of v) ≡ false
      → IsClean s
      → Ends IsClean (set_max_length G emit v max s)
  unfolding set_max_length
  set_max_length-Ends v max s l r h =
      let new = cut max (s.text v) in
      let lengths = update v max s.max_length in
      let t : Window = record s { max_length = lengths } in
      let suits : Suits (handler_of v) max new =
        Suits-cut (handler_of v) max (s.text v) (h.suits v).valid (λ e. cc) in
      elim (Bool-cases (bytes_eq (s.text v) new)) [
        | inl e ↦
            let same_text = bytes_eq→eq (s.text v) new e in
            let silent : G.signals (s.text v) new ≡ [] =
              subst (λ u. G.signals (s.text v) u ≡ []) same_text (G.unchanged (s.text v)) in
            subst (λ ts. Ends IsClean (put_each G emit v ts t)) (sym silent)
              (record {
                suits = λ u.
                    Suits-max_length u v max s.max_length s.text
                      (subst (Suits (handler_of v) max) (sym same_text) suits) (h.suits u);
                subs = h.subs;
              })
        | inr e ↦ Keeps-IsClean lengths (put_each G emit v (G.signals (s.text v) new) t) (
            put_each-Keeps G emit v lengths (leafs v l) new (G.signals (s.text v) new) t
              (G.replaced (s.text v) new e)
              (record {
                suits = λ u f.
                    subst (λ b. Suits (handler_of u) (if b then max else s.max_length u) (s.text u))
                      (sym f) (h.suits u);
                subs = h.subs;
              })
              refl
              (subst (λ b. Suits (handler_of v) (if b then max else s.max_length v) new)
                (sym (same_refl v)) suits))
      ]

  pub on_board-Ends :
      (w : Widget) (s : Window) → IsClean s → Ends IsClean (on_board G numbers_in subject emit w s)
  unfolding on_board handler_of
  on_board-Ends w s h =
      let max =
        if bytes_eq (s.text w) (codes "Technical") || bytes_eq (s.text w) (codes "Others")
        then 10
        else 6 in
      let twelve = λ (t : Window). λ (k : IsClean t).
        if-Ends IsClean (t.present (entry 12)) (set_max_length G emit (entry 12) max t) (next tt, t)
          (set_max_length-Ends (entry 12) max t refl refl k) k in
      if-Ends IsClean (s.present (entry 11)) _ (next tt, s)
        (Ends-resume IsClean IsClean
          (λ _. if_present (entry 12) (set_max_length G emit (entry 12) max))
          (set_max_length G emit (entry 11) max s)
          (set_max_length-Ends (entry 11) max s refl refl h) (λ _ t k. twelve t k))
        h
