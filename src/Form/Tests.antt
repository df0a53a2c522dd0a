-- ===== src/Form/Tests.antt =====
-- The checks of a form at concrete entries, and the theorems on them there.
use esif_client_server.Common.{
  ℕ, ◌+◌, ◌≡◌, refl, List, [], ◌∷◌, none, some, Bytes, codes, length, ltb, ◌&&◌, if◌then◌else◌, ℤ,
  pos, replicate, get_elem?, strtol, bytes_eq, arith, decimal_4,
}
use esif_client_server.Form.Text.{
  verify_name, verify_sub_code, verify_number, verify_year, verify_session, verify_date,
  construct_filename, length-construct_filename, verify_session-digit, all_digits,
  verify_number-all_digits,
}
use esif_client_server.Form.Pairs.{
  is_in, pair_list, pair_found, paircheck, count_filled, pair_found-count_filled,
}
use esif_client_server.Form.Subjects.{
  accepted, refused, duplicate, fourth_total, count_special, verify_subject_codes_by_group,
  verify_subject_codes,
}
use esif_client_server.Form.Subjects.Accepted.{IsFilled, verify_subject_codes_by_group-IsFilled}
use esif_client_server.Common.{true, false}
use esif_client_server.Form.Entries.{Options, Files}
use esif_client_server.Form.Example.{student, student-IsSendable}
use esif_client_server.Form.Verify.{
  photo_text, form_name, codes_verdict, verify_form, saved, rejected,
}
use esif_client_server.Form.Checks.{form_checks, first_error}
use esif_client_server.Form.File.{form_lines, birthdate}
use esif_client_server.Common.{◌≤◌}
use esif_client_server.Session.Upload.Whole.{block_of_lines}
use esif_client_server.Session.Image.{max_info_size}
use esif_client_server.Form.File.Lines.{block-form_lines}
use esif_client_server.Form.Right.{IsRight, verify_form-IsRight}
use esif_client_server.Form.Saved.{IsWritten}

name_run : verify_name (codes "A. B-c D") ≡ pos 0
unfolding verify_name
name_run = refl

spaces_run : verify_name (codes "A  B") ≡ pos 1
unfolding verify_name
spaces_run = refl

sub_code_run : verify_sub_code (codes "301") ≡ pos 1
unfolding verify_sub_code
sub_code_run = refl

leap_run : verify_date (pos 29) (codes "Feb") 2004 ≡ pos 0
unfolding verify_date bytes_eq
leap_run = refl

january_run : verify_date (pos 45) (codes "Jan") 2004 ≡ pos 0
unfolding verify_date bytes_eq
january_run = refl

filename_run :
    construct_filename (codes "Male") (pos 2) (codes "A") (pos 1) (codes "Science")
    ≡ codes "M_0002_A_0001_0.txt"
unfolding construct_filename decimal_4 bytes_eq
filename_run = refl

filename_example :
    length (construct_filename (codes "Male") (pos 2) (codes "A") (pos 1) (codes "Science")) ≡ 19
filename_example =
    length-construct_filename (codes "Male") (codes "A") (codes "Science") 2 1 refl (omega arith)
      (omega arith)

session_example : verify_session (codes "x1-yz") ≡ some (pos 0)
session_example = verify_session-digit 120 49 (codes "yz") refl

number_example :
    (verify_number (codes "12")
      ≡ (if ltb 0 (length (codes "12")) && all_digits (codes "12") then pos 0 else (pos 1)))
    × (verify_year (codes "12") ≡ verify_number (codes "12"))
number_example = verify_number-all_digits (codes "12")

pair_example :
    (pair_found (pos 101 ∷ []) none (pos 1 ∷ pos 101 ∷ [])
      ≡ ltb 0 (count_filled (pos 101 ∷ []) (pos 1 ∷ pos 101 ∷ [])))
    × (pair_found (pos 101 ∷ []) none (pos 2 ∷ pos 1 ∷ pos 101 ∷ [])
        ≡ ltb 1 (count_filled (pos 101 ∷ []) (pos 1 ∷ pos 101 ∷ [])))
pair_example = pair_found-count_filled (pos 101 ∷ []) (pos 1 ∷ pos 101 ∷ []) refl

abbrev ten_codes : List Bytes
ten_codes =
    codes "101"
    ∷ codes "102"
    ∷ codes "103"
    ∷ codes "104"
    ∷ codes "105"
    ∷ codes "106"
    ∷ codes "107"
    ∷ codes "108"
    ∷ codes "109"
    ∷ codes "110"
    ∷ replicate 7 []

abbrev ten_subjects : List ℤ
ten_subjects =
    pos 101
    ∷ pos 102
    ∷ pos 103
    ∷ pos 104
    ∷ pos 105
    ∷ pos 106
    ∷ pos 107
    ∷ pos 108
    ∷ pos 109
    ∷ pos 110
    ∷ []

abbrev pair_lines : List (List ℤ)
pair_lines = (pos 101 ∷ pos 102 ∷ []) ∷ []

group_run :
    verify_subject_codes_by_group ten_codes
      (some ten_subjects)
      (some [])
      (some [])
      (some pair_lines)
    ≡ accepted
unfolding verify_subject_codes_by_group paircheck pair_list is_in strtol
group_run = refl

group_example :
    (last : Bytes) × (minimum : ℕ) × (get_elem? ten_codes 16 ≡ some last)
    × (fourth_total [] (strtol last) ≡ some minimum)
    × IsFilled ten_subjects
        (some pair_lines)
        (strtol last)
        (minimum + count_special [] ten_codes)
        ten_codes
group_example =
    verify_subject_codes_by_group-IsFilled ten_codes ten_subjects [] [] (some pair_lines) group_run

subject_codes_run :
    verify_subject_codes (codes "101" ∷ codes "101" ∷ replicate 15 []) (some ten_subjects)
    ≡ refused duplicate
unfolding verify_subject_codes is_in strtol
subject_codes_run = refl

-- A form as a whole.
abbrev options : Options
options = record {
  ignore_fa_name = false;
  ignore_mo_name = false;
  ignore_birthdate = false;
  ignore_totlist = false;
  ignore_prev_year = false;
  ignore_prev_roll = false;
  ignore_prev_reg = false;
  ignore_prev_sess = false;
  is_ssc = true;
  all_session = codes "2005";
}

abbrev files : Files
files = record {
  infodirname = codes "forms/";
  numbers_in = λ name.
      if bytes_eq name (codes "special.txt")
      then some []
      else some (
          pos 101
          ∷ pos 102
          ∷ pos 107
          ∷ pos 108
          ∷ pos 126
          ∷ pos 127
          ∷ pos 136
          ∷ pos 137
          ∷ pos 125
          ∷ pos 124
          ∷ []);
  pairs = some [];
  can_write = λ path. true;
}

photo_run :
    photo_text (codes "forms/M_0012_A_0003_0.txt") (some (codes "/home/a.b/x.jpeg"))
    ≡ some (codes "forms/M_0012_A_0003_0.jpeg")
unfolding photo_text
photo_run = refl

no_slash_run : photo_text (codes "forms/M_0012_A_0003_0.txt") (some (codes "x.jpeg")) ≡ none
unfolding photo_text
no_slash_run = refl

abbrev form_path : Bytes
form_path = codes "forms/M_0012_A_0003_0.txt"

verdict_run : codes_verdict files student ≡ accepted
unfolding codes_verdict bytes_eq strtol verify_subject_codes_by_group count_special is_in paircheck
    pair_list
verdict_run = refl

saved_run : verify_form options files student ≡ saved form_path (form_lines (codes "0") [] student)
unfolding verify_form form_checks verify_name verify_number verify_year verify_date photo_text
    form_name construct_filename decimal_4 birthdate codes_verdict bytes_eq strtol
    verify_subject_codes_by_group count_special is_in first_error paircheck pair_list
saved_run = refl

right_example :
    IsRight options 2005 student
    × IsWritten options files student form_path (form_lines (codes "0") [] student)
unfolding strtol
right_example =
    verify_form-IsRight options files student 2005 form_path (form_lines (codes "0") [] student)
      refl saved_run

-- A name with two spaces is the first error.
name_error_run :
    verify_form options files (record student { student_name = codes "A  B" }) ≡ rejected 1
unfolding verify_form form_checks first_error verify_name birthdate
name_error_run = refl

block_example : length (block_of_lines (form_lines (codes "0") [] student)) ≤ max_info_size
block_example =
    block-form_lines (codes "0") [] student student-IsSendable (refl, omega arith)
      (refl, omega arith)
