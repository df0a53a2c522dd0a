-- ===== src/Common/Decimal.antt =====
-- Decimal numbers as <stdio.h> prints and <stdlib.h> reads them.
use Prim.Native.Nat.{ℕ, zero, suc, ◌+◌, ◌-◌, ◌*◌, ◌/◌, ◌%◌, ◌≤◌, ◌<◌}
use mathlib.Core.Path.{◌≡◌, refl, ◌∙◌, ap}
use mathlib.Core.Bool.{Bool, true, ◌&&◌, ◌||◌}
use mathlib.Core.List.{[], ◌∷◌, ◌++◌}
use native.Mathlib.Omega.{arith}
use mathlib.Core.Logic.{inl, inr}
use esif_client_server.Common.Tests.{◌==◌, ltb, leb, if◌then◌else◌, Bool-cases, ltb→lt, lt→ltb}
use esif_client_server.Common.Lists.{length, replicate, length-append, length-replicate}
use esif_client_server.Common.Int.{ℤ, pos, negsuc}
use esif_client_server.Common.CString.{Bytes}

-- isdigit() and isspace() in the C locale.
abbrev pub is_digit : ℕ → Bool
is_digit c = leb b'0' c && leb c b'9'

abbrev pub is_space : ℕ → Bool
is_space c = c == b' ' || (leb 9 c && leb c 13)

decimal_loop : ℕ → ℕ → Bytes → Bytes
decimal_loop zero n out = out
decimal_loop (suc fuel) n out =
    let rest = decimal_loop fuel (n / 10) ((b'0' + n % 10) ∷ out) in
    if ltb n 10 then (b'0' + n) ∷ out else rest

-- "%d" of a number that is not negative.
unfoldable pub decimal : ℕ → Bytes
unfolding decimal_loop
decimal n = decimal_loop (n + 1) n []

pad : ℕ → Bytes → Bytes
pad width digits = replicate (width - length digits) b'0' ++ digits

-- "%04d"
unfoldable pub decimal_4 : ℤ → Bytes
unfolding decimal pad
decimal_4 (pos n) = pad 4 (decimal n)
decimal_4 (negsuc n) = b'-' ∷ pad 3 (decimal (n + 1))

-- "%02d" of a number that is not negative.
unfoldable pub decimal_2 : ℕ → Bytes
unfolding decimal pad
decimal_2 n = pad 2 (decimal n)

-- The digits that strtol() reads, onto the value read so far.
unfoldable pub read_digits : ℕ → Bytes → ℕ
read_digits n [] = n
read_digits n (c ∷ cs) =
    let rest = read_digits (10 * n + (c - b'0')) cs in if is_digit c then rest else n

read_sign : Bytes → ℤ
read_sign [] = pos 0
read_sign (c ∷ cs) =
    if c == b'-'
    then negate (read_digits 0 cs)
    else if c == b'+'
    then pos (read_digits 0 cs)
    else pos (read_digits 0 (c ∷ cs))
  where
    negate : ℕ → ℤ
    negate zero = pos 0
    negate (suc n) = negsuc n

-- strtol(s, NULL, 10), and atoi(s), for values that the type holds.
unfoldable pub strtol : Bytes → ℤ
unfolding read_sign read_digits
strtol [] = pos 0
strtol (c ∷ cs) = let rest = strtol cs in if is_space c then rest else read_sign (c ∷ cs)

read_digits-digit :
    (a d : ℕ) (out : Bytes)
    → d < 10
    → read_digits a ((b'0' + d) ∷ out) ≡ read_digits (10 * a + d) out
unfolding read_digits
read_digits-digit a d out h =
    let e : 10 * a + (b'0' + d - b'0') ≡ 10 * a + d = omega arith in
    ground (arith, ap (λ (t : ℕ). read_digits t out) e)

read_digits-decimal_loop :
    (fuel n : ℕ) (out : Bytes)
    → n < fuel
    → read_digits 0 (decimal_loop fuel n out) ≡ read_digits n out
unfolding decimal_loop
read_digits-decimal_loop zero n out h = absurd (omega arith)
read_digits-decimal_loop (suc fuel) n out h = elim (Bool-cases (ltb n 10)) [
  | inl small ↦
      rw small
        (read_digits-digit 0 n out (ltb→lt n 10 small) ∙ ap (λ t. read_digits t out) (omega arith))
  | inr large ↦ rw large (
      read_digits-decimal_loop fuel (n / 10) ((b'0' + n % 10) ∷ out) (ground arith)
      ∙ read_digits-digit (n / 10) (n % 10) out (omega arith)
      ∙ ap (λ t. read_digits t out) (omega arith))
]

pub read_digits-zeros :
    (k : ℕ) (out : Bytes) → read_digits 0 (replicate k b'0' ++ out) ≡ read_digits 0 out
read_digits-zeros zero out = refl
read_digits-zeros (suc k) out =
    read_digits-digit 0 0 (replicate k b'0' ++ out) (omega arith) ∙ read_digits-zeros k out

pub read_digits-decimal : (n : ℕ) → read_digits 0 (decimal n) ≡ n
unfolding decimal read_digits
read_digits-decimal n = read_digits-decimal_loop (n + 1) n [] (omega arith)

-- Every byte is a digit.
abbrev pub AllDigits : Bytes → Type 0
AllDigits [] = Unit {0}
AllDigits (c ∷ cs) = (is_digit c ≡ true) × AllDigits cs

decimal_loop-AllDigits :
    (fuel n : ℕ) (out : Bytes) → AllDigits out → AllDigits (decimal_loop fuel n out)
unfolding decimal_loop
decimal_loop-AllDigits zero n out h = h
decimal_loop-AllDigits (suc fuel) n out h = elim (Bool-cases (ltb n 10)) [
  | inl small ↦ rw small (ground arith, h)
  | inr large ↦
      rw large (decimal_loop-AllDigits fuel (n / 10) ((b'0' + n % 10) ∷ out) (ground arith, h))
]

pub zeros-AllDigits : (k : ℕ) (out : Bytes) → AllDigits out → AllDigits (replicate k b'0' ++ out)
zeros-AllDigits zero out h = h
zeros-AllDigits (suc k) out h = (refl, zeros-AllDigits k out h)

pub decimal-AllDigits : (n : ℕ) → AllDigits (decimal n)
unfolding decimal
decimal-AllDigits n = decimal_loop-AllDigits (n + 1) n [] tt

pub decimal_4-AllDigits : (n : ℕ) → AllDigits (decimal_4 (pos n))
unfolding decimal_4
decimal_4-AllDigits n = zeros-AllDigits _ _ (decimal_loop-AllDigits (n + 1) n [] tt)

pub strtol-AllDigits : (cs : Bytes) → AllDigits cs → strtol cs ≡ pos (read_digits 0 cs)
unfolding strtol read_sign read_digits
strtol-AllDigits [] h = refl
strtol-AllDigits (c ∷ cs) (d, h) = ground arith

-- What "%04d" prints of a number that is not negative reads back as that number.
pub strtol-decimal_4 : (n : ℕ) → strtol (decimal_4 (pos n)) ≡ pos n
unfolding decimal_4
strtol-decimal_4 n =
    strtol-AllDigits _ (decimal_4-AllDigits n)
    ∙ ap pos (read_digits-zeros _ (decimal n) ∙ read_digits-decimal n)

abbrev pub ten_to : ℕ → ℕ
ten_to zero = 1
ten_to (suc k) = 10 * ten_to k

length-decimal_loop :
    (k fuel n : ℕ) (out : Bytes)
    → n < ten_to k
    → 0 < k
    → length (decimal_loop fuel n out) ≤ k + length out
unfolding decimal_loop
length-decimal_loop zero fuel n out h p = absurd (omega arith)
length-decimal_loop (suc zero) zero n out h p = omega arith
length-decimal_loop (suc zero) (suc fuel) n out h p = rw (lt→ltb n 10 (omega arith)) (omega arith)
length-decimal_loop (suc (suc k)) zero n out h p = omega arith
length-decimal_loop (suc (suc k)) (suc fuel) n out h p = elim (Bool-cases (ltb n 10)) [
  | inl small ↦ rw small (omega arith)
  | inr large ↦ rw large (
      omega (
        arith,
        length-decimal_loop (suc k) fuel (n / 10) ((b'0' + n % 10) ∷ out) (omega arith)
            (omega arith),
      ))
]

pub length-decimal : (k n : ℕ) → n < ten_to k → 0 < k → length (decimal n) ≤ k
unfolding decimal
length-decimal k n h p = omega (arith, length-decimal_loop k (n + 1) n [] h p)

-- "%04d" prints four bytes of a number below 10000.
pub length-decimal_4 : (n : ℕ) → n < 10_000 → length (decimal_4 (pos n)) ≡ 4
unfolding decimal_4
length-decimal_4 n h = omega (
  arith,
  length-append (replicate (4 - length (decimal n)) b'0') (decimal n),
  length-replicate {A = ℕ} (4 - length (decimal n)) b'0',
  length-decimal 4 n (omega arith) (omega arith),
)

pub decimal_4-long : (n : ℤ) → 4 ≤ length (decimal_4 n)
unfolding decimal_4
decimal_4-long (pos n) = omega (
  arith,
  length-append (replicate (4 - length (decimal n)) b'0') (decimal n),
  length-replicate {A = ℕ} (4 - length (decimal n)) b'0',
)
decimal_4-long (negsuc n) = omega (
  arith,
  length-append (replicate (3 - length (decimal (n + 1))) b'0') (decimal (n + 1)),
  length-replicate {A = ℕ} (3 - length (decimal (n + 1))) b'0',
)

pub decimal_4-negsuc : (n : ℕ) → (t : Bytes) × (decimal_4 (negsuc n) ≡ b'-' ∷ t) × AllDigits t
unfolding decimal_4
decimal_4-negsuc n = (_, refl, zeros-AllDigits _ _ (decimal-AllDigits (n + 1)))

pub decimal_2-AllDigits : (n : ℕ) → AllDigits (decimal_2 n)
unfolding decimal_2
decimal_2-AllDigits n = zeros-AllDigits _ _ (decimal_loop-AllDigits (n + 1) n [] tt)

pub length-decimal_2 : (n : ℕ) → n < 100 → length (decimal_2 n) ≤ 2
unfolding decimal_2
length-decimal_2 n h = omega (
  arith,
  length-append (replicate (2 - length (decimal n)) b'0') (decimal n),
  length-replicate {A = ℕ} (2 - length (decimal n)) b'0',
  length-decimal 2 n h (omega arith),
)

-- The digits of "%04d" stand for the number.
pub read_digits-decimal_4 : (n : ℕ) → read_digits 0 (decimal_4 (pos n)) ≡ n
unfolding decimal_4
read_digits-decimal_4 n = read_digits-zeros _ (decimal n) ∙ read_digits-decimal n
