-- ===== src/Form/Right/Texts.antt =====
-- What is true of a text that `verify_name` or `verify_number` accepts.
use esif_client_server.Common.{
  ℕ, ◌+◌, ◌<◌, ◌≡◌, ◌⊎◌, inl, inr, refl, ap, ◌∙◌, Bool, Bool-cases, true, false, not, ◌&&◌, ◌||◌,
  [], ◌∷◌, Bytes, length, ltb, ◌==◌, ℤ, pos, negsuc, strtol, is_digit, is_space, read_digits,
  AllDigits, strtol-AllDigits, arith,
}
use mathlib.Core.Path.{subst}
use esif_client_server.Form.Text.{
  is_alpha, name_loop, verify_name, verify_number, all_digits, verify_number-all_digits,
}
use esif_client_server.Form.Checks.{fails}

pub record IsNumber (t : Bytes) : Type 0 where
  pub some_digit : 0 < length t
  pub digits : all_digits t ≡ true

abbrev pub number_of : Bytes → ℕ
number_of t = read_digits 0 t

abbrev pub name_bytes : Bytes → Bool
name_bytes [] = true
name_bytes (c ∷ cs) = (is_alpha c || (c == b'.' || (c == b'-' || is_space c))) && name_bytes cs

-- No two spaces stand side by side.
abbrev pub single_spaced : Bytes → Bool
single_spaced [] = true
single_spaced (c ∷ []) = true
single_spaced (c ∷ (d ∷ cs)) = not (is_space c && is_space d) && single_spaced (d ∷ cs)

-- A name begins with a letter.
pub record IsName (t : Bytes) : Type 0 where
  pub first : ℕ
  pub more : Bytes
  pub spelt : t ≡ first ∷ more
  pub letter : is_alpha first ≡ true
  pub bytes : name_bytes more ≡ true
  pub spaced : single_spaced (first ∷ more) ≡ true

name_loop-bytes : (n : ℕ) (cs : Bytes) → name_loop n cs ≡ pos 0 → name_bytes cs ≡ true
unfolding name_loop
name_loop-bytes n [] h = refl
name_loop-bytes n (c ∷ cs) h =
    let word = name_loop-bytes 0 cs in let space = name_loop-bytes (n + 1) cs in ground arith

abbrev starts_spaced : Bytes → Bool
starts_spaced [] = false
starts_spaced (c ∷ cs) = is_space c

name_loop-first : (n : ℕ) (cs : Bytes) → name_loop (n + 1) cs ≡ pos 0 → starts_spaced cs ≡ false
unfolding name_loop
name_loop-first n [] h = refl
name_loop-first n (c ∷ cs) h = ground arith

single_spaced-∷ :
    (c : ℕ) (cs : Bytes)
    → (is_space c && starts_spaced cs) ≡ false
    → single_spaced cs ≡ true
    → single_spaced (c ∷ cs) ≡ true
single_spaced-∷ c [] h k = refl
single_spaced-∷ c (d ∷ cs) h k = rw (h, k) refl

pub ignored_or : (a b : Bool) → (not a && b) ≡ false → (a ≡ true) ⊎ (b ≡ false)
ignored_or true b h = inl refl
ignored_or false b h = inr h

pub neither : (a b : Bool) → (a || b) ≡ false → (a ≡ false) × (b ≡ false)
neither true b h = absurd cc
neither false b h = (refl, h)

both : (a b : Bool) → (a && b) ≡ true → (a ≡ true) × (b ≡ true)
both true b h = (refl, h)
both false b h = absurd cc

AllDigits-all_digits : (t : Bytes) → all_digits t ≡ true → AllDigits t
AllDigits-all_digits [] h = tt
AllDigits-all_digits (c ∷ cs) h =
    let (d, k) = both (is_digit c) _ h in (d, AllDigits-all_digits cs k)

pub verify_number-IsNumber : (t : Bytes) → fails (verify_number t) ≡ false → IsNumber t
verify_number-IsNumber t h =
    let same = (verify_number-all_digits t).0 in
    elim (Bool-cases (ltb 0 (length t) && all_digits t)) [
      | inl e ↦
          let (some_digit, digits) = both (ltb 0 (length t)) _ e in
          record { some_digit = ground arith; digits = digits }
      | inr e ↦ absurd (fails_lem (verify_number t) (same ∙ rw e refl) h)
    ]
  where
    fails_lem : (z : ℤ) → z ≡ pos 1 → fails z ≡ false → ⊥
    fails_lem z e k =
        let bad : fails (pos 1) ≡ false = subst (λ y. fails y ≡ false) e k in absurd cc

pub strtol-number_of : (t : Bytes) → IsNumber t → strtol t ≡ pos (number_of t)
strtol-number_of t h = strtol-AllDigits t (AllDigits-all_digits t h.digits)

name_loop-spaced : (n : ℕ) (cs : Bytes) → name_loop n cs ≡ pos 0 → single_spaced cs ≡ true
unfolding name_loop
name_loop-spaced n [] h = refl
name_loop-spaced n (c ∷ cs) h = elim (Bool-cases (is_alpha c || (c == b'.' || c == b'-'))) [
  | inl e ↦
      let black : is_space c ≡ false = ground arith in
      single_spaced-∷ c cs (rw black refl) (name_loop-spaced 0 cs (rw e at h))
  | inr e ↦ elim (Bool-cases (is_space c && ltb n 1)) [
    | inl s ↦
        let rest : name_loop (n + 1) cs ≡ pos 0 = rw (e, s) at h in
        single_spaced-∷ c cs (rw (name_loop-first n cs rest) (and_false (is_space c)))
          (name_loop-spaced (n + 1) cs rest)
    | inr s ↦ absurd (let bad : pos 1 ≡ pos 0 = rw (e, s) at h in cc)
  ]
]
  where
    and_false : (b : Bool) → (b && false) ≡ false
    and_false true = refl
    and_false false = refl

pub verify_name-IsName : (t : Bytes) → fails (verify_name t) ≡ false → IsName t
unfolding verify_name
verify_name-IsName [] h = absurd cc
verify_name-IsName (c ∷ cs) h = elim (Bool-cases (is_alpha c)) [
  | inr e ↦ absurd (let bad : fails (pos 1) ≡ false = rw e at h in cc)
  | inl e ↦
      let rest : name_loop 0 cs ≡ pos 0 = is_zero (name_loop 0 cs) (rw e at h) in
      let black : is_space c ≡ false = ground arith in
      record {
        first = c;
        more = cs;
        spelt = refl;
        letter = e;
        bytes = name_loop-bytes 0 cs rest;
        spaced = single_spaced-∷ c cs (rw black refl) (name_loop-spaced 0 cs rest);
      }
]
  where
    is_zero : (z : ℤ) → fails z ≡ false → z ≡ pos 0
    is_zero (pos n) k = let e : n ≡ 0 = ground arith in ap pos e
    is_zero (negsuc n) k = absurd cc
