-- ===== src/Window/Chars.antt =====
-- The first characters of a text in UTF-8, which is what the length of an entry counts.
use esif_client_server.Common.{
  ℕ, zero, suc, ◌≤◌, ◌≡◌, refl, ap, Bool, Bool-cases, ◌&&◌, inl, inr, [], ◌∷◌, Bytes, length, leb,
  ltb, if◌then◌else◌, arith,
}

-- A byte that goes on with the character before it.
abbrev pub is_continuation : ℕ → Bool
is_continuation c = leb 128 c && ltb c 192

unfoldable pub first_chars : ℕ → Bytes → Bytes
first_chars n [] = []
first_chars zero (c ∷ cs) =
    let rest = first_chars zero cs in if is_continuation c then c ∷ rest else []
first_chars (suc n) (c ∷ cs) = c ∷ first_chars (if is_continuation c then suc n else n) cs

pub length-first_chars : (n : ℕ) (t : Bytes) → length (first_chars n t) ≤ length t
unfolding first_chars
length-first_chars n [] = omega arith
length-first_chars zero (c ∷ cs) = ground (arith, length-first_chars zero cs)
length-first_chars (suc n) (c ∷ cs) =
    omega (arith, length-first_chars (if is_continuation c then suc n else n) cs)

pub first_chars-of_le : (n : ℕ) (t : Bytes) → length t ≤ n → first_chars n t ≡ t
unfolding first_chars
first_chars-of_le n [] h = refl
first_chars-of_le zero (c ∷ cs) h = absurd (omega (arith, h))
first_chars-of_le (suc n) (c ∷ cs) h = elim (Bool-cases (is_continuation c)) [
  | inl e ↦ rw e (ap (λ r. c ∷ r) (first_chars-of_le (suc n) cs (omega arith)))
  | inr e ↦ rw e (ap (λ r. c ∷ r) (first_chars-of_le n cs (omega arith)))
]

pub first_chars-first_chars :
    (n : ℕ) (t : Bytes) → first_chars n (first_chars n t) ≡ first_chars n t
unfolding first_chars
first_chars-first_chars n [] = refl
first_chars-first_chars zero (c ∷ cs) = elim (Bool-cases (is_continuation c)) [
  | inl e ↦ rw e (rw e (ap (λ r. c ∷ r) (first_chars-first_chars zero cs)))
  | inr e ↦ rw e refl
]
first_chars-first_chars (suc n) (c ∷ cs) =
    ap (λ r. c ∷ r) (first_chars-first_chars (if is_continuation c then suc n else n) cs)
