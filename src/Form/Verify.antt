-- ===== src/Form/Verify.antt =====
-- project2/src/myfuncs.c: `verify_form`. The copy of the photo and the clearing of the window are left
-- out.
use esif_client_server.Common.{
  ℕ, ◌-◌, not, ◌||◌, List, [], ◌∷◌, ◌++◌, Option, none, some, Bytes, bytes_eq, codes, length, take,
  ltb, ◌==◌, if◌then◌else◌, strtol,
}
use esif_client_server.Form.Entries.{Student, Options, Files}
use esif_client_server.Form.Text.{construct_filename, section_code}
use esif_client_server.Form.Subjects.{
  Verdict, accepted, refused, past_end, verify_subject_codes_by_group,
}
use esif_client_server.Form.Checks.{first_error, form_checks}
use esif_client_server.Form.File.{birthdate, form_lines}

-- E_FILE_OPEN and E_NO_ERROR_FAILED
abbrev pub e_file_open : ℕ
e_file_open = 30

abbrev pub e_no_error_failed : ℕ
e_no_error_failed = 100

-- An error; or the path of the file that was written and its lines; or undefined behaviour, a write
-- past a buffer or behind the NULL of strrchr().
pub data Saving : Type 0 where
  rejected : ℕ → Saving
  saved : Bytes → List Bytes → Saving
  unsafe : Saving

-- `groupfiles`
unfoldable pub group_files : List (Bytes × Bytes × Bytes)
group_files =
    (codes "Science", codes "sub_sc.txt", codes "sub_4th_sc.txt")
    ∷ (codes "Social Science", codes "sub_so_sc.txt", codes "sub_4th_so_sc.txt")
    ∷ (codes "Arts", codes "sub_arts.txt", codes "sub_4th_arts.txt")
    ∷ (codes "Commerce", codes "sub_com.txt", codes "sub_4th_com.txt")
    ∷ (codes "Agriculture", codes "sub_agri.txt", codes "sub_4th_agri.txt")
    ∷ (codes "Home Economics", codes "sub_home_eco.txt", codes "sub_4th_home_eco.txt")
    ∷ (codes "Islamic Studies", codes "sub_is_st.txt", codes "sub_4th_is_st.txt")
    ∷ (codes "Music", codes "sub_music.txt", codes "sub_4th_music.txt")
    ∷ (codes "Business", codes "sub_busi.txt", codes "sub_4th_busi.txt")
    ∷ []

-- The loop over the groups; behind the last one is a name that no file has.
unfoldable pub files_of : List (Bytes × Bytes × Bytes) → Bytes → Option (Bytes × Bytes)
files_of [] group = none
files_of ((name, sub, fourth) ∷ more) group =
    let rest = files_of more group in if bytes_eq group name then some (sub, fourth) else rest

-- The codes of the form against the files of its group.
unfoldable pub codes_verdict : Files → Student → Verdict
unfolding group_files files_of
codes_verdict files e = elim (files_of group_files e.group) [
  | none ↦
      verify_subject_codes_by_group e.subs none none (files.numbers_in (codes "special.txt"))
        files.pairs
  | some (sub, fourth) ↦
      verify_subject_codes_by_group e.subs (files.numbers_in sub) (files.numbers_in fourth)
        (files.numbers_in (codes "special.txt")) files.pairs
]

-- strrchr(), and the byte behind what it finds.
unfoldable pub behind_last : ℕ → Bytes → Option Bytes
behind_last c [] = none
behind_last c (b ∷ bs) = elim (behind_last c bs) [
  | some rest ↦ some rest
  | none ↦ if b == c then some bs else none
]

-- What the line "PHOTO " holds: nothing without a picture, else the path of the form's file with the
-- picture's extension; `none` where the picture's path has no '/', or its name no '.'.
unfoldable pub photo_text : Bytes → Option Bytes → Option Bytes
unfolding behind_last
photo_text path none = some []
photo_text path (some photo) = elim (behind_last b'/' photo) [
  | none ↦ none
  | some base ↦ elim (behind_last b'.' base) [
    | none ↦ none
    | some ext ↦ some (take (length path - 3) path ++ ext)
  ]
]

unfoldable pub form_name : Student → Bytes
form_name e =
    construct_filename e.gender (strtol e.class_roll) e.section (strtol e.tot_list) e.group

-- Behind the checks: the copy of a section has 2 bytes, `filename` 30.
unfoldable pub write_form : Files → Student → Saving
unfolding photo_text form_name
write_form files e =
    let path = files.infodirname ++ form_name e in
    if ltb 1 (length (section_code e.section)) || ltb 29 (length (form_name e))
    then unsafe
    else if not (files.can_write path)
    then rejected e_file_open
    else (elim (photo_text path e.photo) [
      | none ↦ unsafe
      | some photo ↦ saved path (form_lines (codes "0") photo e)
    ])

unfoldable pub after_checks : Files → Student → Verdict → Saving
unfolding write_form
after_checks files e accepted = write_form files e
after_checks files e (refused complaint) = rejected e_no_error_failed
after_checks files e past_end = unsafe

-- `verify_form`; `birthdate` has 12 bytes.
unfoldable pub verify_form : Options → Files → Student → Saving
unfolding codes_verdict after_checks
verify_form o files e =
    if ltb 11 (length (birthdate e)) then unsafe else (elim (first_error (form_checks o e)) [
      | some error ↦ rejected error
      | none ↦ after_checks files e (codes_verdict files e)
    ])
