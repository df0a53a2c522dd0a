-- ===== src/Window/Query/Passed.antt =====
-- What the button of the query window passes on.
use esif_client_server.Common.{
  ◌⊎◌, inl, inr, Bool, Bool-cases, not, leb, ◌&&◌, ◌||◌, ◌==◌, ℕ, zero, suc, ◌+◌, ◌-◌, ◌*◌, ◌≡◌,
  ◌≤◌, ◌<◌, refl, sym, ap, ◌∙◌, true, false, List, [], ◌∷◌, Option, none, some, Bytes, length, ltb,
  leb, if◌then◌else◌, ℤ, pos, is_digit, strtol, decimal_4, AllDigits, strtol-AllDigits,
  length-decimal_4, read_digits, arith,
}
use mathlib.Core.Path.{subst}
use esif_client_server.Session.{next}
use esif_client_server.Window.{Toolkit}
use esif_client_server.Window.Handlers.{valid_part}
use esif_client_server.Window.Clean.{all_of, Ends}
use esif_client_server.Window.Query.{
  Ask, Query, Globals, is_some, lookup_college, lookup_college_by_code, opened, type_all,
  q_okbutton_clicked,
}
use esif_client_server.Window.Query.Texts.{Shows}
use esif_client_server.Window.Query.Sound.{IsSound, both, type_all-IsSound}

AllDigits-all_of : (code : Bytes) → all_of is_digit code ≡ true → AllDigits code
AllDigits-all_of [] h = tt
AllDigits-all_of (c ∷ cs) h = let (d, k) = both (is_digit c) _ h in (d, AllDigits-all_of cs k)

-- A number of at most `k` digits.
abbrev tens : ℕ → ℕ → ℕ
tens m zero = m
tens m (suc k) = tens (10 * m) k

read_digits-tens :
    (k a m : ℕ) (cs : Bytes) → AllDigits cs → length cs ≤ k → a < m → read_digits a cs < tens m k
unfolding read_digits
read_digits-tens zero a m [] h f l = l
read_digits-tens (suc k) a m [] h f l =
    read_digits-tens k a (10 * m) [] h (omega arith) (omega arith)
read_digits-tens zero a m (c ∷ cs) h f l = absurd (omega arith)
read_digits-tens (suc k) a m (c ∷ cs) (d, h) f l =
    rw d (read_digits-tens k (10 * a + (c - b'0')) (10 * m) cs h (omega arith) (ground arith))

length-decimal_4-strtol :
    (code : Bytes)
    → all_of is_digit code ≡ true
    → length code ≤ 4
    → length (decimal_4 (strtol code)) ≡ 4
length-decimal_4-strtol code h f =
    let all = AllDigits-all_of code h in
    let small : read_digits 0 code < 10_000 = read_digits-tens 4 0 1 code all f (omega arith) in
    ap (λ z. length (decimal_4 z)) (strtol-AllDigits code all)
    ∙ length-decimal_4 (read_digits 0 code) small

-- What "OK" passes on.
abbrev pub passed : Query → Bytes → Globals
passed s name = record {
  col_code = strtol s.code;
  colcode = decimal_4 (strtol s.code);
  col_name = name;
  session = valid_part is_digit s.session;
}

-- The label and the years have room in their globals.
abbrev pub has_room : Query → Bool
has_room s = leb (length s.name) 70 && leb (length (valid_part is_digit s.session)) 4

q_okbutton_clicked-passed :
    (markup : Bytes → Bytes → Bytes) (table : List (ℤ × Bytes)) (s : Query)
    → IsSound markup table s
    → s.ok_shown ≡ true
    → (name : Bytes) × (lookup_college table (strtol s.code) ≡ some name)
      × Shows markup name s.name
      × (q_okbutton_clicked s ≡ (if has_room s then some (passed s s.name) else none))
unfolding q_okbutton_clicked lookup_college_by_code
q_okbutton_clicked-passed markup table s h ok =
    let (name, found) =
      some_of (lookup_college table (strtol s.code))
        (both (leb 4 (length s.session)) _ (sym h.ok ∙ ok)).1 in
    let short_code : ltb 4 (length s.code) ≡ false = let f = h.code_fits in ground arith in
    let short_digits : ltb 4 (length (decimal_4 (strtol s.code))) ≡ false =
      let f = length-decimal_4-strtol s.code h.code h.code_fits in ground arith in
    (name, found, h.named name found, rw (short_code, short_digits) (ground arith))
  where
    some_of : (o : Option Bytes) → is_some o ≡ true → (name : Bytes) × (o ≡ some name)
    some_of none e = absurd cc
    some_of (some name) e = (name, refl)

-- A text that is its own markup.
abbrev pub is_plain : Bytes → Bool
is_plain [] = true
is_plain (c ∷ cs) = (leb 32 c && (leb c 126 && not (c == b'&' || c == b'<'))) && is_plain cs

module _ (G : Toolkit) (markup : Bytes → Bytes → Bytes) (table : List (ℤ × Bytes))
    (plain : (old name : Bytes) → is_plain name ≡ true → markup old name ≡ name) where
  -- From the opened window on, if no college has the code 0 and a label shows printable ASCII without
  -- '&' and '<' as it is: where the texts that were typed have left the button visible, the code is that
  -- of a college, and it passes on the number of the code, its four digits, the text of the label and
  -- the years up to the dash, unless the label has more than 70 bytes or the years more than four, which
  -- are then written behind their globals; and the text of the label is the name that the table has for
  -- the code, or that name is none that a label shows as it is.
  pub q_okbutton_clicked-type_all :
      (texts : List (Ask × Bytes)) (t : Query)
      → lookup_college table (pos 0) ≡ none
      → type_all G markup table texts opened ≡ (next tt, t)
      → t.ok_shown ≡ true
      → (name : Bytes) × (lookup_college table (strtol t.code) ≡ some name)
        × ((t.name ≡ name) ⊎ (is_plain name ≡ false))
        × (length (decimal_4 (strtol t.code)) ≡ 4)
        × (q_okbutton_clicked t ≡ (if has_room t then some (passed t t.name) else none))
  q_okbutton_clicked-type_all texts t none_zero runs ok =
      let sound : IsSound markup table t =
        subst (Ends (IsSound markup table)) runs
          (type_all-IsSound G markup table texts none_zero) in
      let (name, found, (old, shown), passes) = q_okbutton_clicked-passed markup table t sound ok in
      let named : (t.name ≡ name) ⊎ (is_plain name ≡ false) = elim (Bool-cases (is_plain name)) [
        | inl e ↦ inl (shown ∙ plain old name e)
        | inr e ↦ inr e
      ] in
      (name, found, named, length-decimal_4-strtol t.code sound.code sound.code_fits, passes)
