-- ===== src/Window/Query/Texts.antt =====
-- What the handlers of the query window do with its two texts.
use esif_client_server.Common.{
  ℕ, suc, ◌≡◌, ◌≤◌, ◌⊎◌, refl, sym, ap, ◌∙◌, Bool, Bool-cases, inl, inr, true, List, [], ◌∷◌,
  Option, none, some, Bytes, bytes_eq, bytes_eq→eq, length, ℤ, is_digit, arith,
}
use mathlib.Core.Path.{subst}
use esif_client_server.Session.{M, Outcome, return, next, stop, fault, spent}
use esif_client_server.Window.Chars.{first_chars-of_le}
use esif_client_server.Window.{Toolkit, cut, LeadsTo}
use esif_client_server.Window.Handlers.{valid_part}
use esif_client_server.Window.Clean.{all_of, Ends, Ends-resume}
use esif_client_server.Window.Settles.Leaf.{valid_part-all_of, valid_part_self}
use esif_client_server.Window.Query.{
  Ask, code_entry, Query, text_in, max_in, put_in, is_some, lookup_college_by_code, replace_each,
  set_text_in, show_college, q_col_entry_changed, q_changed,
}

pub Ends-map :
    {A : Type 0} (Q R : Query → Type 0) (r : Outcome A × Query)
    → Ends Q r
    → ((x : Query) → Q x → R x)
    → Ends R r
Ends-map Q R (next u, x) h k = k x h
Ends-map Q R (stop, x) h k = h
Ends-map Q R (fault, x) h k = tt
Ends-map Q R (spent, x) h k = h

pub set_text_in_self :
    (G : Toolkit) (emit : Ask → M Query (Unit {0})) (w : Ask) (t : Bytes) (s : Query)
    → text_in w s ≡ t
    → cut (max_in w) t ≡ t
    → set_text_in G emit w t s ≡ (next tt, s)
unfolding set_text_in replace_each
set_text_in_self G emit w t s e within =
    ap (λ ts. replace_each G emit w ts s)
      (ap (G.signals (text_in w s)) (within ∙ sym e) ∙ G.unchanged (text_in w s))

module _ (G : Toolkit) (emit : Ask → M Query (Unit {0})) (w : Ask) (t : Bytes) (A : Query → Type 0)
    (B : Bytes → Query → Type 0)
    (enters : (u : Bytes) (s : Query)
      → (u ≡ []) ⊎ (u ≡ t)
      → A s
      → Ends (B u) (emit w (put_in w u s)))
    (back : (u : Bytes) (s : Query) → B u s → A s) where
  replace_each-Ends :
      (ts : List Bytes) (s : Query) → LeadsTo t ts → A s → Ends (B t) (replace_each G emit w ts s)
  unfolding replace_each
  replace_each-Ends [] s l a = absurd l
  replace_each-Ends (u ∷ []) s l a =
      Ends-resume (B t) (B t) (λ _. return tt) (emit w (put_in w u s))
        (subst (λ v. Ends (B v) (emit w (put_in w u s))) l (enters u s (inr l) a)) (λ _ v b. b)
  replace_each-Ends (u ∷ (v ∷ more)) s (l, r) a =
      Ends-resume (B u) (B t) (λ _. replace_each G emit w (v ∷ more)) (emit w (put_in w u s))
        (enters u s l a) (λ _ x b. replace_each-Ends (v ∷ more) x r (back u x b))

  -- gtk_entry_set_text(), with what holds if the text is there already.
  pub set_text_in-Ends :
      (C : Query → Type 0) (s : Query)
      → cut (max_in w) t ≡ t
      → (text_in w s ≡ t → C s)
      → ((x : Query) → B t x → C x)
      → A s
      → Ends C (set_text_in G emit w t s)
  unfolding set_text_in replace_each
  set_text_in-Ends C s within stays reached a = elim (Bool-cases (bytes_eq (text_in w s) t)) [
    | inl d ↦
        let e = bytes_eq→eq (text_in w s) t d in
        subst (Ends C) (sym (set_text_in_self G emit w t s e within)) (stays e)
    | inr d ↦
        subst (λ v. Ends C (replace_each G emit w (G.signals (text_in w s) v) s)) (sym within)
          (Ends-map (B t) C (replace_each G emit w (G.signals (text_in w s) t) s)
            (replace_each-Ends (G.signals (text_in w s) t) s (G.replaced (text_in w s) t d) a)
            reached)
  ]

-- The session and whether the code may be typed, which the handler of the code leaves alone.
pub record Beside (x : Bytes) (e : Bool) (s : Query) : Type 0 where
  pub session : s.session ≡ x
  pub editable : s.code_editable ≡ e

pub record HoldsCode (x : Bytes) (e : Bool) (u : Bytes) (s : Query) : Type 0 where
  pub beside : Beside x e s
  pub code : s.code ≡ u

-- A label shows a name by what its markup makes of it, whatever it showed before.
abbrev pub Shows : (Bytes → Bytes → Bytes) → Bytes → Bytes → Type 0
Shows markup name text = (old : Bytes) × (text ≡ markup old name)

-- The button is there just if the code is known, with the name of the college.
pub record NamesCode (markup : Bytes → Bytes → Bytes) (table : List (ℤ × Bytes)) (x : Bytes)
    (e : Bool) (u : Bytes) (s : Query) : Type 0 where
  pub holds : HoldsCode x e u s
  pub ok : s.ok_shown ≡ is_some (lookup_college_by_code table u)
  pub named : (n : Bytes) → lookup_college_by_code table u ≡ some n → Shows markup n s.name

module _ (G : Toolkit) (markup : Bytes → Bytes → Bytes) (table : List (ℤ × Bytes)) where
  show_college-NamesCode :
      (x : Bytes) (e : Bool) (u : Bytes) (s : Query) (found : Option Bytes)
      → lookup_college_by_code table u ≡ found
      → HoldsCode x e u s
      → Ends (NamesCode markup table x e u) (show_college markup found s)
  unfolding show_college
  show_college-NamesCode x e u s none k h = record {
    holds = record {
      beside = record { session = h.beside.session; editable = h.beside.editable };
      code = h.code;
    };
    ok = rw k refl;
    named = λ n f. absurd cc;
  }
  show_college-NamesCode x e u s (some m) k h = record {
    holds = record {
      beside = record { session = h.beside.session; editable = h.beside.editable };
      code = h.code;
    };
    ok = rw k refl;
    named = λ n f. (s.name, cc);
  }

  module _ (emit : Ask → M Query (Unit {0})) (x : Bytes) (e : Bool) (s : Query) where
    q_col_entry_changed-NamesCode :
        Ends (HoldsCode x e (valid_part is_digit s.code)) (
          set_text_in G emit code_entry
            (valid_part is_digit s.code)
            (record s { name_shown = true }))
        → Ends
            (NamesCode markup table x e (valid_part is_digit s.code))
            (q_col_entry_changed G markup table emit s)
    unfolding q_col_entry_changed
    q_col_entry_changed-NamesCode h =
        let u = valid_part is_digit s.code in
        Ends-resume (HoldsCode x e u) (NamesCode markup table x e u)
          (λ _. show_college markup (lookup_college_by_code table u))
          (set_text_in G emit code_entry u (record s { name_shown = true })) h
          (λ _ v k. show_college-NamesCode x e u v (lookup_college_by_code table u) refl k)

  code_leaf-NamesCode :
      (n : ℕ) (x : Bytes) (e : Bool) (s : Query)
      → all_of is_digit s.code ≡ true
      → length s.code ≤ 4
      → Beside x e s
      → Ends (NamesCode markup table x e s.code) (q_changed G markup table (suc n) code_entry s)
  unfolding q_changed
  code_leaf-NamesCode n x e s v f b =
      let own = valid_part_self is_digit s.code v in
      subst
        (λ u.
          Ends (NamesCode markup table x e u)
            (q_col_entry_changed G markup table (q_changed G markup table n) s))
        own
        (q_col_entry_changed-NamesCode (q_changed G markup table n) x e s (
          subst
            (λ u. Ends (HoldsCode x e u) (
              set_text_in G (q_changed G markup table n) code_entry u
                (record s { name_shown = true })))
            (sym own)
            (subst (Ends (HoldsCode x e s.code))
              (sym (
                set_text_in_self G (q_changed G markup table n) code_entry s.code
                  (record s { name_shown = true }) refl (first_chars-of_le 4 s.code f)))
              (record {
                beside = record { session = b.session; editable = b.editable };
                code = refl;
              }))))

  pub code_changed-NamesCode :
      (n : ℕ) (x : Bytes) (e : Bool) (s : Query)
      → length (valid_part is_digit s.code) ≤ 4
      → Beside x e s
      → Ends
          (NamesCode markup table x e (valid_part is_digit s.code))
          (q_changed G markup table (suc (suc n)) code_entry s)
  unfolding q_changed
  code_changed-NamesCode n x e s f b =
      let u = valid_part is_digit s.code in
      q_col_entry_changed-NamesCode (q_changed G markup table (suc n)) x e s (
        set_text_in-Ends G (q_changed G markup table (suc n)) code_entry u (Beside x e)
          (NamesCode markup table x e)
          (λ v y g a.
            code_leaf-NamesCode n x e (put_in code_entry v y) (each v g).0 (each v g).1
              (record { session = a.session; editable = a.editable }))
          (λ v y h. h.holds.beside) (HoldsCode x e u) (record s { name_shown = true })
          (first_chars-of_le 4 u f)
          (λ g. record { beside = record { session = b.session; editable = b.editable }; code = g })
          (λ y h. h.holds) (record { session = b.session; editable = b.editable }))
    where
      each :
          (v : Bytes)
          → (v ≡ []) ⊎ (v ≡ valid_part is_digit s.code)
          → (all_of is_digit v ≡ true) × (length v ≤ 4)
      each v (inl g) = rw g (refl, omega arith)
      each v (inr g) = rw g (valid_part-all_of is_digit s.code, f)
