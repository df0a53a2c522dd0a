-- ===== src/Client/Header.antt =====
-- project2/src/myfuncs.c: how `apply_forms` and `apply_form` read the header of a form's file by
-- sscanf(), and how `apply_form` prints it again.
use esif_client_server.Common.{
  ℕ, zero, suc, ◌++◌, Bool, not, [], ◌∷◌, Option, none, some, Bytes, codes, c_string, overwrite,
  length, ltb, ◌==◌, if◌then◌else◌, ℤ, decimal_4,
}
use esif_client_server.Session.Scan.{span, scan_line, scan_int, is_int}

-- What is converted; or a conversion does not match, and variables keep what they hold; or a value is
-- too large for its variable.
pub data Scanned (A : Type 0) : Type 0 where
  found : A → Scanned A
  missing : Scanned A
  overflow : Scanned A

infixl 5 ◌>>=◌
abbrev pub ◌>>=◌ : {A B : Type 0} → Scanned A → (A → Scanned B) → Scanned B
found a >>= f = f a
missing >>= f = missing
overflow >>= f = overflow

-- fgets() with room for `n` bytes and the NUL: the line, and what is left of the file.
unfoldable pub fgets : ℕ → Bytes → Bytes × Bytes
fgets zero text = ([], text)
fgets (suc n) [] = ([], [])
fgets (suc n) (c ∷ cs) =
    let (line, rest) = fgets n cs in if c == b'\n' then (c ∷ [], cs) else (c ∷ line, rest)

abbrev pub not_colon : ℕ → Bool
not_colon c = not (c == b':')

-- The ':' of the format.
abbrev pub colon : {A : Type 0} → A → Bytes → Scanned (A × Bytes)
colon a [] = missing
colon a (c ∷ cs) = if c == b':' then found (a, cs) else missing

abbrev pub fitting : ℕ → Bytes × Bytes → Scanned (Bytes × Bytes)
fitting n ([], rest) = missing
fitting n (c ∷ cs, rest) = if ltb n (length (c ∷ cs)) then overflow else colon (c ∷ cs) rest

-- "%[^:]:", where there is room for `n` bytes and the NUL.
abbrev pub text_field : ℕ → Bytes → Scanned (Bytes × Bytes)
text_field n text = fitting n (span not_colon text)

-- "%d"
abbrev pub number : Option (ℤ × Bytes) → Scanned (ℤ × Bytes)
number none = missing
number (some (n, rest)) = if is_int n then found (n, rest) else overflow

-- "%d:"
abbrev pub number_field : Bytes → Scanned (ℤ × Bytes)
number_field text = do (n, rest) ← number (scan_int text); colon n rest

pub record Fields : Type 0 where
  pub gender : Bytes
  pub roll : ℤ
  pub section : Bytes
  pub totlist : ℤ
  pub group : Bytes
  pub sent : ℤ

-- "%[^:]:%d:%[^:]:%d:%[^:]:%d", and what follows it.
unfoldable pub scan_fields : Bytes → Scanned (Fields × Bytes)
unfolding scan_int
scan_fields text = do
  (gender, a) ← text_field 6 text
  (roll, b) ← number_field a
  (section, c) ← text_field 1 b
  (totlist, d) ← number_field c
  (group, e) ← text_field 19 d
  (sent, rest) ← number (scan_int e)
  found (
    record {
      gender = gender;
      roll = roll;
      section = section;
      totlist = totlist;
      group = group;
      sent = sent;
    },
    rest,
  )

-- ":%[^\r\n]" into `st_name`, which has 41 bytes and keeps what it holds where nothing matches.
unfoldable pub scan_name : Bytes → Bytes → Scanned Bytes
scan_name st_name [] = found st_name
scan_name st_name (c ∷ cs) =
    if c == b':'
    then (elim (scan_line cs) [
      | none ↦ found st_name
      | some name ↦ if ltb 40 (length name) then overflow else found name
    ])
    else found st_name

-- "%s:%04d:%s:%04d:%s:%d:%s\n", where the sent flag is 1.
unfoldable pub sent_header : Fields → Bytes → Bytes
sent_header f name =
    f.gender
    ++ (codes ":"
        ++ (decimal_4 f.roll
            ++ (codes ":"
                ++ (f.section
                    ++ (codes ":"
                        ++ (decimal_4 f.totlist
                            ++ (codes ":"
                                ++ (f.group ++ (codes ":1:" ++ (name ++ codes "\n"))))))))))

-- The file's text when its header has been read and printed over its start again, and `st_name`.
unfoldable pub marked : Bytes → Bytes → Scanned (Bytes × Bytes)
unfolding scan_fields scan_name sent_header fgets
marked st_name text = do
  (fields, rest) ← scan_fields (c_string (fgets 119 text).0)
  name ← scan_name st_name rest
  found (overwrite (sent_header fields name) text, name)
