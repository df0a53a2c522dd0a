-- ===== src/Session/Scan.antt =====
-- What `manage_client` reads from a line by sscanf().
use esif_client_server.Common.{
  ℕ, zero, suc, ◌-◌, ◌^◌, Bool, true, false, ◌||◌, [], ◌∷◌, Option, none, some, Bytes, ltb, ◌==◌,
  if◌then◌else◌, ℤ, pos, negsuc, is_space, is_digit, read_digits,
}

abbrev pub skip_space : Bytes → Bytes
skip_space [] = []
skip_space (c ∷ cs) = let rest = skip_space cs in if is_space c then rest else c ∷ cs

-- The longest first part of bytes that pass the test, and what follows it.
abbrev pub span : (ℕ → Bool) → Bytes → Bytes × Bytes
span p [] = ([], [])
span p (c ∷ cs) = let (a, b) = span p cs in if p c then (c ∷ a, b) else ([], c ∷ cs)

abbrev pub not_line_end : ℕ → Bool
not_line_end c = if c == b'\r' || c == b'\n' then false else true

abbrev pub not_space : ℕ → Bool
not_space c = if is_space c then false else true

abbrev non_empty : Bytes → Option Bytes
non_empty [] = none
non_empty (c ∷ cs) = some (c ∷ cs)

-- "%s"
unfoldable pub scan_word : Bytes → Option Bytes
scan_word s = non_empty (span not_space (skip_space s)).0

-- "%[^\r\n]": `none` where nothing matches, and the variable keeps what it holds.
unfoldable pub scan_line : Bytes → Option Bytes
scan_line s = non_empty (span not_line_end s).0

abbrev negative : ℕ → ℤ
negative zero = pos 0
negative (suc n) = negsuc n

abbrev pub scan_digits : (ℕ → ℤ) → Bytes × Bytes → Option (ℤ × Bytes)
scan_digits sign ([], rest) = none
scan_digits sign (c ∷ cs, rest) = some (sign (read_digits 0 (c ∷ cs)), rest)

abbrev pub scan_signed : Bytes → Option (ℤ × Bytes)
scan_signed [] = none
scan_signed (c ∷ cs) =
    if c == b'-'
    then scan_digits negative (span is_digit cs)
    else if c == b'+'
    then scan_digits pos (span is_digit cs)
    else scan_digits pos (span is_digit (c ∷ cs))

-- "%d": the number, and what follows it.
unfoldable pub scan_int : Bytes → Option (ℤ × Bytes)
unfolding read_digits
scan_int s = scan_signed (skip_space s)

-- The values that an `int` holds.
abbrev pub is_int : ℤ → Bool
is_int (pos n) = ltb n (2 ^ 31)
is_int (negsuc n) = ltb n (2 ^ 31)

-- An `int` as a `size_t`.
abbrev pub to_size : ℤ → ℕ
to_size (pos n) = n
to_size (negsuc n) = 2 ^ 64 - (suc n)
