-- ===== src/Window/Query/Sound.antt =====
-- The query window, whatever is typed into it, and what its button passes on.
use esif_client_server.Common.{
  ℕ, zero, suc, ◌≡◌, ◌≤◌, refl, sym, ap, ◌∙◌, Bool, Bool-cases, inl, inr, true, false, ◌&&◌, List,
  [], ◌∷◌, none, some, Bytes, length, leb, if◌then◌else◌, ℤ, pos, is_digit, strtol, arith,
}
use mathlib.Core.Path.{subst}
use esif_client_server.Session.{next}
use esif_client_server.Window.Chars.{first_chars, is_continuation}
use esif_client_server.Window.{Toolkit, cut}
use esif_client_server.Window.Handlers.{valid_part}
use esif_client_server.Window.Clean.{all_of, Ends, Ends-resume}
use esif_client_server.Window.Settles.Leaf.{valid_part-all_of}
use esif_client_server.Window.Query.{
  Ask, session_entry, code_entry, Query, is_session, is_some, lookup_college,
  lookup_college_by_code, opened, q_changed, type_in, type_all,
}
use esif_client_server.Window.Query.Texts.{Shows, NamesCode, Ends-map, code_changed-NamesCode}
use esif_client_server.Window.Query.Years.{OpensCode}
use esif_client_server.Window.Query.Settles.{session_changed-OpensCode}

-- The texts are a session and a code. The code can be typed just if the session has its first four
-- bytes, the button is there just if besides the code is that of a college, and then with what the
-- label makes of the name of that college.
pub record IsSound (markup : Bytes → Bytes → Bytes) (table : List (ℤ × Bytes)) (s : Query)
    : Type 0 where
  pub session : all_of is_session s.session ≡ true
  pub session_fits : length s.session ≤ 9
  pub code : all_of is_digit s.code ≡ true
  pub code_fits : length s.code ≤ 4
  pub editable : s.code_editable ≡ leb 4 (length s.session)
  pub ok : s.ok_shown ≡ (leb 4 (length s.session) && is_some (lookup_college_by_code table s.code))
  pub named : (n : Bytes) → lookup_college_by_code table s.code ≡ some n → Shows markup n s.name

pub both : (a b : Bool) → (a && b) ≡ true → (a ≡ true) × (b ≡ true)
both true b h = (refl, h)
both false b h = absurd cc

OpensCode-IsSound :
    (markup : Bytes → Bytes → Bytes) (table : List (ℤ × Bytes)) (u : Bytes) (s t : Query)
    → IsSound markup table s
    → OpensCode table s.code s.name u t
    → IsSound markup table t
OpensCode-IsSound markup table u s t h k =
    let same_code = k.holds.asked.code in
    let enough = k.holds.enough in
    record {
      session = k.holds.valid;
      session_fits = k.holds.fits;
      code = ap (all_of is_digit) same_code ∙ h.code;
      code_fits = subst (λ c. length c ≤ 4) (sym same_code) h.code_fits;
      editable = k.editable ∙ sym enough;
      ok = rw (enough, same_code) k.ok;
      named = λ n e.
          let (old, shown) =
            h.named n (subst (λ c. lookup_college_by_code table c ≡ some n) same_code e) in
          (old, k.holds.asked.name ∙ shown);
    }

NamesCode-IsSound :
    (markup : Bytes → Bytes → Bytes) (table : List (ℤ × Bytes)) (u : Bytes) (s t : Query)
    → IsSound markup table s
    → s.code_editable ≡ true
    → all_of is_digit u ≡ true
    → length u ≤ 4
    → NamesCode markup table s.session true u t
    → IsSound markup table t
NamesCode-IsSound markup table u s t h e v f k =
    let enough : leb 4 (length t.session) ≡ true =
      ap (λ x. leb 4 (length x)) k.holds.beside.session ∙ (sym h.editable ∙ e) in
    record {
      session = ap (all_of is_session) k.holds.beside.session ∙ h.session;
      session_fits = subst (λ x. length x ≤ 9) (sym k.holds.beside.session) h.session_fits;
      code = ap (all_of is_digit) k.holds.code ∙ v;
      code_fits = subst (λ x. length x ≤ 4) (sym k.holds.code) f;
      editable = k.holds.beside.editable ∙ sym enough;
      ok = rw (enough, k.holds.code) k.ok;
      named =
          λ n g. k.named n (subst (λ c. lookup_college_by_code table c ≡ some n) k.holds.code g);
    }

pub opened-IsSound :
    (markup : Bytes → Bytes → Bytes) (table : List (ℤ × Bytes))
    → lookup_college table (pos 0) ≡ none
    → IsSound markup table opened
unfolding opened lookup_college_by_code strtol
opened-IsSound markup table none_zero = record {
  session = refl;
  session_fits = omega arith;
  code = refl;
  code_fits = omega arith;
  editable = refl;
  ok = refl;
  named = λ n e. absurd cc;
}

-- The characters of a session and of a code have one byte each.
is_session-ascii : (c : ℕ) → is_session c ≡ true → is_continuation c ≡ false
is_session-ascii c h = ground arith

is_digit-ascii : (c : ℕ) → is_digit c ≡ true → is_continuation c ≡ false
is_digit-ascii c h = ground arith

valid_part-stops :
    (p : ℕ → Bool) (c : ℕ) (cs : Bytes) → p c ≡ false → length (valid_part p (c ∷ cs)) ≤ 0
valid_part-stops p c cs h = ground arith

valid_part-goes :
    (p : ℕ → Bool) (c : ℕ) (cs : Bytes) (n : ℕ)
    → length (valid_part p cs) ≤ n
    → length (valid_part p (c ∷ cs)) ≤ suc n
valid_part-goes p c cs n h = ground arith

length-valid_part-first_chars :
    (p : ℕ → Bool)
    → ((c : ℕ) → p c ≡ true → is_continuation c ≡ false)
    → (n : ℕ) (t : Bytes) → length (valid_part p (first_chars n t)) ≤ n
unfolding first_chars
length-valid_part-first_chars p ascii n [] = omega arith
length-valid_part-first_chars p ascii zero (c ∷ cs) = elim (Bool-cases (is_continuation c)) [
  | inr e ↦ rw e (omega arith)
  | inl e ↦ elim (Bool-cases (p c)) [
    | inr f ↦ rw e (valid_part-stops p c (first_chars zero cs) f)
    | inl f ↦ absurd (let a = ascii c f in cc)
  ]
]
length-valid_part-first_chars p ascii (suc n) (c ∷ cs) = elim (Bool-cases (p c)) [
  | inr f ↦
      omega
        (arith, valid_part-stops p c (first_chars (if is_continuation c then suc n else n) cs) f)
  | inl f ↦
      rw (ascii c f)
        (valid_part-goes p c (first_chars n cs) n (length-valid_part-first_chars p ascii n cs))
]

module _ (G : Toolkit) (markup : Bytes → Bytes → Bytes) (table : List (ℤ × Bytes)) where
  type_in-IsSound :
      (w : Ask) (t : Bytes) (s : Query)
      → IsSound markup table s
      → Ends (IsSound markup table) (type_in G markup table w t s)
  unfolding type_in
  type_in-IsSound session_entry t s h =
      let typed = record s { session = cut 9 t } in
      Ends-map (OpensCode table s.code s.name (valid_part is_session (cut 9 t)))
        (IsSound markup table) (q_changed G markup table 3 session_entry typed)
        (session_changed-OpensCode G markup table s.code s.name 0 typed
          (length-valid_part-first_chars is_session is_session-ascii 9 t)
          (record {
            code = refl;
            name = refl;
            known = λ e. (both (leb 4 (length s.session)) _ (sym h.ok ∙ e)).1;
          }))
        (λ x k. OpensCode-IsSound markup table (valid_part is_session (cut 9 t)) s x h k)
  type_in-IsSound code_entry t s h = elim (Bool-cases s.code_editable) [
    | inr shut ↦
        subst
          (λ b. Ends (IsSound markup table) (
            if b
            then q_changed G markup table 3 code_entry (record s { code = cut 4 t })
            else (next tt, s)))
          (sym shut) h
    | inl e ↦
        let typed = record s { code = cut 4 t } in
        let u = valid_part is_digit (cut 4 t) in
        subst
          (λ b.
            Ends (IsSound markup table)
              (if b then q_changed G markup table 3 code_entry typed else (next tt, s)))
          (sym e)
          (Ends-map (NamesCode markup table s.session true u) (IsSound markup table)
            (q_changed G markup table 3 code_entry typed)
            (code_changed-NamesCode G markup table 1 s.session true typed
              (length-valid_part-first_chars is_digit is_digit-ascii 4 t)
              (record { session = refl; editable = e }))
            (λ x k.
              NamesCode-IsSound markup table u s x h e (valid_part-all_of is_digit (cut 4 t))
                (length-valid_part-first_chars is_digit is_digit-ascii 4 t) k))
  ]

  type_all_any-IsSound :
      (texts : List (Ask × Bytes)) (s : Query)
      → IsSound markup table s
      → Ends (IsSound markup table) (type_all G markup table texts s)
  unfolding type_all
  type_all_any-IsSound [] s h = h
  type_all_any-IsSound ((w, t) ∷ more) s h =
      Ends-resume (IsSound markup table) (IsSound markup table) (λ _. type_all G markup table more)
        (type_in G markup table w t s) (type_in-IsSound w t s h)
        (λ _ x k. type_all_any-IsSound more x k)

  pub type_all-IsSound :
      (texts : List (Ask × Bytes))
      → lookup_college table (pos 0) ≡ none
      → Ends (IsSound markup table) (type_all G markup table texts opened)
  type_all-IsSound texts none_zero =
      type_all_any-IsSound texts opened (opened-IsSound markup table none_zero)
