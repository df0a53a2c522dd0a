-- ===== src/Form/Text.antt =====
-- project2/src/myfuncs.c: the checks of one entry of a form, and the name of its file.
use esif_client_server.Common.{
  ℕ, zero, suc, ◌+◌, ◌<◌, ◌%◌, ◌≡◌, refl, ◌++◌, Bool, true, not, ◌||◌, ◌&&◌, [], ◌∷◌, Option, none,
  some, Bytes, bytes_eq, codes, length, length-append, ltb, leb, ◌==◌, if◌then◌else◌, ℤ, pos,
  ltb_int, is_digit, is_space, decimal_4, length-decimal_4, arith,
}

-- isalpha() of the C locale.
abbrev pub is_alpha : ℕ → Bool
is_alpha c = (leb 65 c && leb c 90) || (leb 97 c && leb c 122)

-- The loop of `verify_name`, with the number of spaces just before.
unfoldable pub name_loop : ℕ → Bytes → ℤ
name_loop num_space [] = pos 0
name_loop num_space (c ∷ cs) =
    let word = name_loop 0 cs in
    let space = name_loop (num_space + 1) cs in
    if is_alpha c || (c == b'.' || c == b'-')
    then word
    else if is_space c && ltb num_space 1
    then space
    else (pos 1)

unfoldable pub verify_name : Bytes → ℤ
unfolding name_loop
verify_name [] = pos 1
verify_name (c ∷ cs) = if not (is_alpha c) then pos 1 else name_loop 0 cs

abbrev char_at : ℕ → Bytes → ℕ
char_at n [] = 0
char_at zero (c ∷ cs) = c
char_at (suc n) (c ∷ cs) = char_at n cs

unfoldable pub verify_sub_code : Bytes → ℤ
verify_sub_code code =
    if not (is_digit (char_at 0 code)) || ltb b'2' (char_at 0 code)
    then pos 1
    else if not (is_digit (char_at 1 code)) || not (is_digit (char_at 2 code))
    then pos 1
    else (pos 0)

unfoldable pub number_loop : Bytes → ℤ
number_loop [] = pos 0
number_loop (c ∷ cs) = let rest = number_loop cs in if not (is_digit c) then pos 1 else rest

unfoldable pub verify_number : Bytes → ℤ
unfolding number_loop
verify_number str = if ltb (length str) 1 then pos 1 else number_loop str

unfoldable pub verify_year : Bytes → ℤ
unfolding verify_number
verify_year str = verify_number str

-- The loop of `verify_session`, with that many rounds left: the byte that it tests is the same in
-- each round.
unfoldable pub session_loop : ℕ → ℕ → Bytes → ℤ
session_loop zero i str = pos 0
session_loop (suc rounds) i str =
    let rest = session_loop rounds (i + 1) str in
    if i == 2 then rest else if not (is_digit (char_at 1 str)) then pos 1 else rest

-- `none` where the text is too short for its third byte to be read.
unfoldable pub verify_session : Bytes → Option ℤ
unfolding session_loop
verify_session str =
    if ltb (length str) 2
    then none
    else if not (char_at 2 str == b'-')
    then some (pos 1)
    else (some (session_loop 6 0 str))

-- `verify_date`, for a year from 0 on.
unfoldable pub verify_date : ℤ → Bytes → ℕ → ℤ
verify_date dd mon yyyy =
    let leap = (yyyy % 4 == 0 && not (yyyy % 100 == 0)) || yyyy % 400 == 0 in
    if bytes_eq mon (codes "Feb")
    then if leap && ltb_int (pos 29) dd
      then pos 1
      else if not leap && ltb_int (pos 28) dd
      then pos 1
      else (pos 0)
    else if bytes_eq mon (codes "Apr") && ltb_int (pos 30) dd
    then pos 1
    else if bytes_eq mon (codes "Jun") && ltb_int (pos 30) dd
    then pos 1
    else if bytes_eq mon (codes "Sep") && ltb_int (pos 30) dd
    then pos 1
    else if bytes_eq mon (codes "Nov") && ltb_int (pos 30) dd
    then pos 1
    else (pos 0)

unfoldable pub group_code : Bytes → Bytes
group_code group =
    if bytes_eq group (codes "Science")
    then codes "0"
    else if bytes_eq group (codes "Social Science")
    then codes "1"
    else if bytes_eq group (codes "Arts")
    then codes "2"
    else if bytes_eq group (codes "Commerce")
    then codes "3"
    else if bytes_eq group (codes "Agriculture")
    then codes "4"
    else if bytes_eq group (codes "home_eco")
    then codes "5"
    else if bytes_eq group (codes "Islamic Studies")
    then codes "6"
    else if bytes_eq group (codes "Music")
    then codes "7"
    else if bytes_eq group (codes "Business")
    then codes "8"
    else (codes "u")

unfoldable pub gender_code : Bytes → Bytes
gender_code gender = if bytes_eq gender (codes "Male") then codes "M" else codes "F"

unfoldable pub section_code : Bytes → Bytes
section_code section = if bytes_eq section (codes " ") then codes "_" else section

-- "%s_%04d_%s_%04d_%s.txt"; the copy of a section has two bytes.
unfoldable pub construct_filename : Bytes → ℤ → Bytes → ℤ → Bytes → Bytes
unfolding group_code gender_code section_code
construct_filename gender roll section totlist group =
    gender_code gender
    ++ (codes "_"
        ++ (decimal_4 roll
            ++ (codes "_"
                ++ (section_code section
                    ++ (codes "_"
                        ++ (decimal_4 totlist
                            ++ (codes "_" ++ (group_code group ++ codes ".txt"))))))))

length-gender_code : (gender : Bytes) → length (gender_code gender) ≡ 1
unfolding gender_code
length-gender_code gender = ground arith

pub length-section_code : (section : Bytes) → length section ≡ 1 → length (section_code section) ≡ 1
unfolding section_code
length-section_code section h = ground arith

length-group_code : (group : Bytes) → length (group_code group) ≡ 1
unfolding group_code
length-group_code group = ground arith

-- The name of a form whose section is one byte and whose numbers are below 10000 has 19 bytes, so
-- that with its NUL it just fills the server's `tmpname`, whatever the gender and the group.
pub length-construct_filename :
    (gender section group : Bytes) (roll totlist : ℕ)
    → length section ≡ 1
    → roll < 10_000
    → totlist < 10_000
    → length (construct_filename gender (pos roll) section (pos totlist) group) ≡ 19
unfolding construct_filename
length-construct_filename gender section group roll totlist h r t =
    let a = length-gender_code gender in
    let b = length-section_code section h in
    let c = length-group_code group in
    let d = length-decimal_4 roll r in
    let e = length-decimal_4 totlist t in simp length-append (omega arith)

-- A session is accepted whatever stands in it, if its second byte is a digit and its third a dash.
pub verify_session-digit :
    (c d : ℕ) (more : Bytes)
    → is_digit d ≡ true
    → verify_session (c ∷ d ∷ b'-' ∷ more) ≡ some (pos 0)
unfolding verify_session session_loop
verify_session-digit c d more h = rw h (ground arith)

abbrev pub all_digits : Bytes → Bool
all_digits [] = true
all_digits (c ∷ cs) = is_digit c && all_digits cs

number_loop-all_digits :
    (str : Bytes) → number_loop str ≡ (if all_digits str then pos 0 else (pos 1))
unfolding number_loop
number_loop-all_digits [] = refl
number_loop-all_digits (c ∷ cs) = ground (arith, number_loop-all_digits cs)

-- `verify_number`, and so `verify_year`, accepts a text exactly if it is not empty and has only digits.
pub verify_number-all_digits :
    (str : Bytes)
    → (verify_number str ≡ (if ltb 0 (length str) && all_digits str then pos 0 else (pos 1)))
      × (verify_year str ≡ verify_number str)
unfolding verify_number verify_year
verify_number-all_digits [] = (refl, refl)
verify_number-all_digits (c ∷ cs) = (ground (arith, number_loop-all_digits (c ∷ cs)), refl)
