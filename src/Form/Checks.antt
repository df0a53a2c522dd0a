-- ===== src/Form/Checks.antt =====
-- project2/src/myfuncs.c, `verify_form`: its tests on the entries, in their order.
use esif_client_server.Common.{
  ℕ, Bool, not, ◌||◌, ◌&&◌, List, [], ◌∷◌, ◌++◌, Option, none, some, length, ltb, if◌then◌else◌, ℤ,
  pos, negsuc, ltb_int, eq_int, minus, strtol,
}
use esif_client_server.Form.Entries.{Student, Options}
use esif_client_server.Form.Text.{verify_name, verify_number, verify_date}

-- A test that makes the form wrong, and the error that it gives.
abbrev pub Check : Type 0
Check = Bool × ℕ

-- The error of the first test that holds.
unfoldable pub first_error : List Check → Option ℕ
first_error [] = none
first_error ((wrong, error) ∷ checks) =
    let rest = first_error checks in if wrong then some error else rest

-- A routine that returns other than 0.
abbrev pub fails : ℤ → Bool
fails ret = not (eq_int ret (pos 0))

abbrev pub year_of : ℤ → ℕ
year_of (pos n) = n
year_of (negsuc n) = 0

unfoldable pub name_checks : Options → Student → List Check
name_checks o e =
    (fails (verify_name e.student_name), 1)
    ∷ (not o.ignore_fa_name && fails (verify_name e.father_name), 2)
    ∷ (not o.ignore_mo_name && fails (verify_name e.mother_name), 3)
    ∷ []

unfoldable pub number_checks : Student → List Check
number_checks e =
    (fails (verify_number e.session), 4)
    ∷ (ltb_int (strtol e.class_roll) (pos 1) || fails (verify_number e.class_roll), 5)
    ∷ []

unfoldable pub birth_checks : Options → Student → List Check
birth_checks o e =
    let yyyy = strtol e.year_of_birth in
    let session = strtol o.all_session in
    (
      not o.ignore_birthdate
          && (ltb (length e.year_of_birth) 4 || fails (verify_number e.year_of_birth)),
      6,
    )
    ∷ (
      not o.ignore_birthdate
          && fails (verify_date (strtol e.day_of_birth) e.month_of_birth (year_of yyyy)),
      6,
    )
    ∷ (
      not o.ignore_birthdate
          && (ltb_int (minus session 10) yyyy || not (ltb_int (minus session 30) yyyy)),
      6,
    )
    ∷ []

unfoldable pub list_checks : Options → Student → List Check
list_checks o e =
    (not o.ignore_totlist && (ltb (length e.tot_list) 1 || fails (verify_number e.tot_list)), 7)
    ∷ (fails (verify_number e.college_code), 8)
    ∷ []

-- The information on the school before, which a form for the S. S. C. does not have.
unfoldable pub previous_checks : Options → Student → List Check
previous_checks o e =
    let session = strtol o.all_session in
    (
      not o.ignore_prev_year
          && (ltb (length e.previous_year) 4 || fails (verify_number e.previous_year)),
      9,
    )
    ∷ (not o.ignore_prev_year && not (ltb_int (strtol e.previous_year) session), 9)
    ∷ (
      not o.ignore_prev_roll
          && (ltb (length e.previous_roll) 6 || fails (verify_number e.previous_roll)),
      10,
    )
    ∷ (
      not o.ignore_prev_reg
          && (ltb (length e.previous_reg) 6 || fails (verify_number e.previous_reg)),
      11,
    )
    ∷ []

unfoldable pub session_checks : Options → Student → List Check
session_checks o e =
    let session = strtol o.all_session in
    let start = strtol e.previous_sess_start in
    let end_year = strtol e.previous_sess_end in
    (
      not o.ignore_prev_sess
          && (ltb (length e.previous_sess_start) 4 || fails (verify_number e.previous_sess_start)),
      12,
    )
    ∷ (not o.ignore_prev_sess && not (ltb_int start session), 12)
    ∷ (
      not o.ignore_prev_sess
          && (ltb (length e.previous_sess_end) 4 || fails (verify_number e.previous_sess_end)),
      13,
    )
    ∷ (not o.ignore_prev_sess && not (ltb_int end_year session), 13)
    ∷ (not o.ignore_prev_sess && not (eq_int start (minus end_year 1)), 12)
    ∷ []

unfoldable pub form_checks : Options → Student → List Check
unfolding name_checks number_checks birth_checks list_checks previous_checks session_checks
form_checks o e =
    name_checks o e
    ++ (number_checks e
        ++ (birth_checks o e
            ++ (list_checks o e
                ++ (if o.is_ssc then [] else previous_checks o e ++ session_checks o e))))
