-- ===== src/Window/Clean.antt =====
-- What the texts of the form's window hold between two signals, and the calls that keep it.
use esif_client_server.Common.{
  ℕ, zero, suc, ◌≡◌, ◌≤◌, ◌⊎◌, refl, sym, ap, ◌∙◌, Bool, Bool-cases, inl, inr, true, false, not,
  ◌&&◌, List, [], ◌∷◌, some, Bytes, bytes_eq, bytes_eq→eq, length, leb, ◌==◌, ==_iff, if◌then◌else◌,
  is_digit, arith,
}
use mathlib.Core.Path.{subst}
use esif_client_server.Session.{M, Outcome, resume, return, next, stop, fault, spent}
use esif_client_server.Window.Chars.{
  first_chars, first_chars-first_chars, first_chars-of_le, length-first_chars, is_continuation,
}
use esif_client_server.Window.{
  Toolkit, Widget, entry, combo_entry, combo, button, same, Window, update, cut, put_text,
  put_and_emit, put_each, LeadsTo, set_entry_text,
}
use esif_client_server.Window.Handlers.{
  Handler, name_changed, upper_changed, full_changed, digits_changed, session_changed, sub_changed,
  group_changed, board_changed, nothing_changed, is_accepted,
}
use esif_client_server.Window.Entries.{handler_of}

abbrev pub is_not_lower : ℕ → Bool
is_not_lower c = not (leb 97 c && leb c 122)

-- The bytes that an entry may hold.
abbrev pub allowed : Handler → ℕ → Bool
allowed (name_changed gender) c = is_accepted c
allowed upper_changed c = is_not_lower c
allowed (full_changed to) c = true
allowed (digits_changed limit to) c = is_digit c
allowed session_changed c = is_digit c
allowed (sub_changed to) c = is_digit c
allowed group_changed c = true
allowed board_changed c = true
allowed nothing_changed c = true

abbrev pub all_of : (ℕ → Bool) → Bytes → Bool
all_of p [] = true
all_of p (c ∷ cs) = p c && all_of p cs

-- The entries whose text goes through `strupper`.
abbrev pub is_raised : Handler → Bool
is_raised (name_changed gender) = true
is_raised upper_changed = true
is_raised (full_changed to) = false
is_raised (digits_changed limit to) = false
is_raised session_changed = false
is_raised (sub_changed to) = false
is_raised group_changed = false
is_raised board_changed = false
is_raised nothing_changed = false

-- The text is of the bytes of its entry, is not longer than the entry, and fits the buffer of `strupper`.
pub record Suits (h : Handler) (max : ℕ) (t : Bytes) : Type 0 where
  pub valid : all_of (allowed h) t ≡ true
  pub within : cut max t ≡ t
  pub fits : is_raised h ≡ true → length t ≤ 79

abbrev pub AllSubs : List Widget → Type 0
AllSubs [] = Unit {0}
AllSubs (w ∷ ws) = ((to : Widget) × (handler_of w ≡ sub_changed to)) × AllSubs ws

pub record IsClean (s : Window) : Type 0 where
  pub suits : (w : Widget) → Suits (handler_of w) (s.max_length w) (s.text w)
  pub subs : (ws : List Widget) → s.subentries ≡ some ws → AllSubs ws

-- All but the text of one widget, which somebody has changed.
pub record IsCleanBut (w : Widget) (s : Window) : Type 0 where
  pub suits : (v : Widget) → same v w ≡ false → Suits (handler_of v) (s.max_length v) (s.text v)
  pub subs : (ws : List Widget) → s.subentries ≡ some ws → AllSubs ws

pub same→eq : (v w : Widget) → same v w ≡ true → v ≡ w
unfolding same
same→eq (entry n) (entry m) h = ap entry ((==_iff n m).0 h)
same→eq (combo_entry n) (combo_entry m) h = ap combo_entry ((==_iff n m).0 h)
same→eq (combo n) (combo m) h = ap combo ((==_iff n m).0 h)
same→eq (button n) (button m) h = ap button ((==_iff n m).0 h)
same→eq (entry n) (combo_entry m) h = cc
same→eq (entry n) (combo m) h = cc
same→eq (entry n) (button m) h = cc
same→eq (combo_entry n) (entry m) h = cc
same→eq (combo_entry n) (combo m) h = cc
same→eq (combo_entry n) (button m) h = cc
same→eq (combo n) (entry m) h = cc
same→eq (combo n) (combo_entry m) h = cc
same→eq (combo n) (button m) h = cc
same→eq (button n) (entry m) h = cc
same→eq (button n) (combo_entry m) h = cc
same→eq (button n) (combo m) h = cc

pub same_refl : (w : Widget) → same w w ≡ true
unfolding same
same_refl (entry n) = ground arith
same_refl (combo_entry n) = ground arith
same_refl (combo n) = ground arith
same_refl (button n) = ground arith

pub IsClean-IsCleanBut : (w : Widget) (s : Window) → IsClean s → IsCleanBut w s
IsClean-IsCleanBut w s h = record { suits = λ v e. h.suits v; subs = h.subs }

pub IsCleanBut-IsClean :
    (w : Widget) (s : Window)
    → Suits (handler_of w) (s.max_length w) (s.text w)
    → IsCleanBut w s
    → IsClean s
IsCleanBut-IsClean w s e h = record {
  suits = λ v. elim (Bool-cases (same v w)) [ inl t ↦ rw (same→eq v w t) e | inr f ↦ h.suits v f ];
  subs = h.subs;
}

Suits-update :
    (v w : Widget) (t : Bytes) (f : Widget → Bytes) (m : ℕ)
    → (same v w ≡ true → Suits (handler_of v) m t)
    → (same v w ≡ false → Suits (handler_of v) m (f v))
    → Suits (handler_of v) m (update w t f v)
Suits-update v w t f m h k = elim (Bool-cases (same v w)) [
  | inl e ↦ subst (λ b. Suits (handler_of v) m (if b then t else f v)) (sym e) (h e)
  | inr e ↦ subst (λ b. Suits (handler_of v) m (if b then t else f v)) (sym e) (k e)
]

-- A text that suits an entry put into it.
pub put_text-IsClean :
    (w : Widget) (t : Bytes) (s : Window)
    → IsCleanBut w s
    → Suits (handler_of w) (s.max_length w) t
    → IsClean (put_text w t s)
unfolding put_text
put_text-IsClean w t s h k = record {
  suits = λ v.
      Suits-update v w t s.text (s.max_length v) (λ e. rw (same→eq v w e) k) (λ e. h.suits v e);
  subs = h.subs;
}

-- Any text put into it.
pub put_text-IsCleanBut :
    (w : Widget) (t : Bytes) (s : Window) → IsClean s → IsCleanBut w (put_text w t s)
unfolding put_text
put_text-IsCleanBut w t s h = record {
  suits = λ v e. Suits-update v w t s.text (s.max_length v) (λ f. cc) (λ f. h.suits v);
  subs = h.subs;
}

pub put_text_self : (w : Widget) (t : Bytes) (s : Window) → (put_text w t s).text w ≡ t
unfolding put_text
put_text_self w t s = ap (λ b. if b then t else s.text w) (same_refl w)

pub cut-cut : (max : ℕ) (t : Bytes) → cut max (cut max t) ≡ cut max t
cut-cut max t = elim (Bool-cases (max == 0)) [
  | inl e ↦ rw e refl
  | inr f ↦ rw f (first_chars-first_chars max t)
]

all_of-first_chars :
    (p : ℕ → Bool) (n : ℕ) (t : Bytes) → all_of p t ≡ true → all_of p (first_chars n t) ≡ true
unfolding first_chars
all_of-first_chars p n [] h = refl
all_of-first_chars p zero (c ∷ cs) h = let rest = all_of-first_chars p zero cs in ground arith
all_of-first_chars p (suc n) (c ∷ cs) h =
    let rest = all_of-first_chars p (if is_continuation c then suc n else n) cs in ground arith

pub Suits-cut :
    (h : Handler) (max : ℕ) (t : Bytes)
    → all_of (allowed h) t ≡ true
    → (is_raised h ≡ true → length t ≤ 79)
    → Suits h max (cut max t)
Suits-cut h max t v f = record {
  valid = elim (Bool-cases (max == 0)) [
    | inl e ↦ rw e v
    | inr g ↦ rw g (all_of-first_chars (allowed h) max t v)
  ];
  within = cut-cut max t;
  fits = λ r.
      let k = f r in
      elim (Bool-cases (max == 0)) [
        | inl e ↦ rw e k
        | inr g ↦ rw g (omega (arith, length-first_chars max t))
      ];
}

pub Suits-nil : (h : Handler) (max : ℕ) → Suits h max []
Suits-nil h max = record {
  valid = refl;
  within = elim (Bool-cases (max == 0)) [
    | inl e ↦ rw e refl
    | inr g ↦ rw g (first_chars-of_le max [] (omega arith))
  ];
  fits = λ r. omega arith;
}

-- A clean window with those maximal lengths.
pub record Keeps (m : Widget → ℕ) (t : Window) : Type 0 where
  pub clean : IsClean t
  pub lengths : t.max_length ≡ m

-- How a part of a handler may end: in a state with the property, or in undefined behaviour.
abbrev pub Ends : {St A : Type 0} → (St → Type 0) → Outcome A × St → Type 0
Ends Q (next u, s) = Q s
Ends Q (stop, s) = ⊥
Ends Q (fault, s) = Unit {0}
Ends Q (spent, s) = ⊥

pub Ends-resume :
    {St A B : Type 0} (Q R : St → Type 0) (f : A → M St B) (r : Outcome A × St)
    → Ends Q r
    → ((a : A) (t : St) → Q t → Ends R (f a t))
    → Ends R (resume f r)
Ends-resume Q R f (next u, t) h k = k u t h
Ends-resume Q R f (stop, t) h k = h
Ends-resume Q R f (fault, t) h k = tt
Ends-resume Q R f (spent, t) h k = h

-- `emit` keeps a clean window clean, and its maximal lengths, for that widget.
abbrev pub Quiet : (Widget → M Window (Unit {0})) → Widget → Type 0
Quiet emit w = (m : Widget → ℕ) (t : Window) → Keeps m t → Ends (Keeps m) (emit w t)

module _ (G : Toolkit) (emit : Widget → M Window (Unit {0})) (w : Widget) (m : Widget → ℕ) where
  module _ (q : Quiet emit w) where
    pub put_and_emit-Keeps :
        (t : Bytes) (s : Window)
        → IsCleanBut w s
        → s.max_length ≡ m
        → Suits (handler_of w) (m w) t
        → Ends (Keeps m) (put_and_emit G emit w t s)
    unfolding put_and_emit put_text
    put_and_emit-Keeps t s h e k = q m (put_text w t s) (record {
      clean = put_text-IsClean w t s h (subst (λ l. Suits (handler_of w) (l w) t) (sym e) k);
      lengths = e;
    })

    pub put_each-Keeps :
        (t : Bytes) (ts : List Bytes) (s : Window)
        → LeadsTo t ts
        → IsCleanBut w s
        → s.max_length ≡ m
        → Suits (handler_of w) (m w) t
        → Ends (Keeps m) (put_each G emit w ts s)
    put_each-Keeps t [] s l h e k = absurd l
    put_each-Keeps t (u ∷ []) s l h e k =
        Ends-resume (Keeps m) (Keeps m) (λ _. return tt) (put_and_emit G emit w u s)
          (put_and_emit-Keeps u s h e (subst (Suits (handler_of w) (m w)) (sym l) k)) (λ _ v g. g)
    put_each-Keeps t (u ∷ (v ∷ more)) s (l, r) h e k =
        Ends-resume (Keeps m) (Keeps m) (λ _. put_each G emit w (v ∷ more))
          (put_and_emit G emit w u s) (put_and_emit-Keeps u s h e (either l))
          (λ _ x g. put_each-Keeps t (v ∷ more) x r (IsClean-IsCleanBut w x g.clean) g.lengths k)
      where
        either : ((u ≡ []) ⊎ (u ≡ t)) → Suits (handler_of w) (m w) u
        either (inl a) = subst (Suits (handler_of w) (m w)) (sym a) (Suits-nil (handler_of w) (m w))
        either (inr a) = subst (Suits (handler_of w) (m w)) (sym a) k

    -- gtk_entry_set_text() with a text of the right bytes.
    pub set_entry_text-Keeps :
        (t : Bytes) (s : Window)
        → IsCleanBut w s
        → s.max_length ≡ m
        → all_of (allowed (handler_of w)) t ≡ true
        → (is_raised (handler_of w) ≡ true → length t ≤ 79)
        → Ends (Keeps m) (set_entry_text G emit w t s)
    unfolding set_entry_text
    set_entry_text-Keeps t s h e v f =
        let k = Suits-cut (handler_of w) (s.max_length w) t v f in
        elim (Bool-cases (bytes_eq (s.text w) (cut (s.max_length w) t))) [
          | inl d ↦
              let same_text = bytes_eq→eq (s.text w) (cut (s.max_length w) t) d in
              let silent : G.signals (s.text w) (cut (s.max_length w) t) ≡ [] =
                subst (λ u. G.signals (s.text w) u ≡ []) same_text (G.unchanged (s.text w)) in
              subst (λ ts. Ends (Keeps m) (put_each G emit w ts s)) (sym silent)
                (record {
                  clean =
                      IsCleanBut-IsClean w s
                        (subst (Suits (handler_of w) (s.max_length w)) (sym same_text) k) h;
                  lengths = e;
                })
          | inr d ↦
              put_each-Keeps (cut (s.max_length w) t)
                (G.signals (s.text w) (cut (s.max_length w) t)) s
                (G.replaced (s.text w) (cut (s.max_length w) t) d) h e
                (subst (λ l. Suits (handler_of w) (l w) (cut (s.max_length w) t)) e k)
        ]

  -- The same on the entry's own text, where nothing is emitted.
  pub set_entry_text_self :
      (s : Window) → Keeps m s → set_entry_text G emit w (s.text w) s ≡ (next tt, s)
  unfolding set_entry_text
  set_entry_text_self s h =
      ap (λ ts. put_each G emit w ts s)
        (ap (G.signals (s.text w)) (h.clean.suits w).within ∙ G.unchanged (s.text w))
