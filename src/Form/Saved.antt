-- ===== src/Form/Saved.antt =====
-- When `verify_form` writes the file of a form, and which.
use esif_client_server.Common.{
  ◌≤◌, ◌≡◌, refl, ◌++◌, true, false, ◌||◌, List, [], ◌∷◌, none, some, Bytes, codes, length, ltb,
  Bool-cases, Option-cases, inl, inr, arith, ◌↔◌,
}
use esif_client_server.Form.Entries.{Student, Options, Files}
use esif_client_server.Form.Text.{section_code}
use esif_client_server.Form.Subjects.{Verdict, accepted, refused, past_end}
use esif_client_server.Form.Checks.{Check, first_error, form_checks}
use esif_client_server.Form.File.{birthdate, form_lines}
use esif_client_server.Form.Verify.{
  rejected, saved, unsafe, codes_verdict, photo_text, form_name, write_form, after_checks,
  verify_form,
}

-- No test finds the form wrong.
abbrev pub AllPass : List Check → Type 0
AllPass [] = Unit
AllPass ((wrong, error) ∷ checks) = (wrong ≡ false) × AllPass checks

first_error-AllPass : (checks : List Check) → first_error checks ≡ none → AllPass checks
unfolding first_error
first_error-AllPass [] h = tt
first_error-AllPass ((wrong, error) ∷ checks) h = elim (Bool-cases wrong) [
  | inl e ↦ let r : some error ≡ none = rw (e, first_error) at h in absurd cc
  | inr e ↦ (e, first_error-AllPass checks (rw (e, first_error) at h))
]

AllPass-first_error : (checks : List Check) → AllPass checks → first_error checks ≡ none
unfolding first_error
AllPass-first_error [] h = refl
AllPass-first_error ((wrong, error) ∷ checks) (e, h) = rw e (AllPass-first_error checks h)

module _ (o : Options) (files : Files) (e : Student) where
  -- The form can be written, and this is its file.
  pub record IsWritten (path : Bytes) (lines : List Bytes) : Type 0 where
    pub section_fits : length (section_code e.section) ≤ 1
    pub name_fits : length (form_name e) ≤ 29
    pub writable : files.can_write path ≡ true
    pub path_is : path ≡ files.infodirname ++ form_name e
    pub photo : Bytes
    pub photo_is : photo_text path e.photo ≡ some photo
    pub lines_are : lines ≡ form_lines (codes "0") photo e

  -- The form is right, and this is its file.
  pub record IsSaved (path : Bytes) (lines : List Bytes) : Type 0 where
    pub birthdate_fits : length (birthdate e) ≤ 11
    pub passes : AllPass (form_checks o e)
    pub codes_right : codes_verdict files e ≡ accepted
    pub written : IsWritten path lines

  write_form-IsWritten :
      (path : Bytes) (lines : List Bytes)
      → write_form files e ≡ saved path lines
      → IsWritten path lines
  unfolding write_form
  write_form-IsWritten path lines h =
      elim (Bool-cases (ltb 1 (length (section_code e.section)) || ltb 29 (length (form_name e)))) [
        | inl big ↦ let r : unsafe ≡ saved path lines = rw (big, write_form) at h in absurd cc
        | inr fits ↦ elim (Bool-cases (files.can_write (files.infodirname ++ form_name e))) [
          | inr shut ↦
              let r : rejected 30 ≡ saved path lines = rw (fits, shut, write_form) at h in absurd cc
          | inl writable ↦
              elim (Option-cases (photo_text (files.infodirname ++ form_name e) e.photo)) [
                | inl none_is ↦
                    let r : unsafe ≡ saved path lines =
                      rw (fits, writable, none_is, write_form) at h in
                    absurd cc
                | inr (photo, some_is) ↦
                    let r : saved (files.infodirname ++ form_name e)
                          (form_lines (codes "0") photo e)
                        ≡ saved path lines =
                      rw (fits, writable, some_is, write_form) at h in
                    let p : path ≡ files.infodirname ++ form_name e = cc in
                    record {
                      section_fits = ground arith;
                      name_fits = ground arith;
                      writable = rw p writable;
                      path_is = p;
                      photo = photo;
                      photo_is = rw p some_is;
                      lines_are = cc;
                    }
              ]
        ]
      ]

  IsWritten-write_form :
      (path : Bytes) (lines : List Bytes)
      → IsWritten path lines
      → write_form files e ≡ saved path lines
  unfolding write_form
  IsWritten-write_form path lines w =
      let fits : ltb 1 (length (section_code e.section)) || ltb 29 (length (form_name e)) ≡ false =
        ground (arith, w.section_fits, w.name_fits) in
      let open_is = rw w.path_is at w.writable in
      let photo_is = rw w.path_is at w.photo_is in
      rw (w.path_is, w.lines_are) (rw fits (rw open_is (rw photo_is refl)))

  after_checks-IsSaved :
      (path : Bytes) (lines : List Bytes) (v : Verdict)
      → after_checks files e v ≡ saved path lines
      → (v ≡ accepted) × IsWritten path lines
  unfolding after_checks
  after_checks-IsSaved path lines accepted h = (refl, write_form-IsWritten path lines h)
  after_checks-IsSaved path lines (refused complaint) h = absurd cc
  after_checks-IsSaved path lines past_end h = absurd cc

  verify_form-IsSaved :
      (path : Bytes) (lines : List Bytes)
      → verify_form o files e ≡ saved path lines
      → IsSaved path lines
  unfolding verify_form
  verify_form-IsSaved path lines h = elim (Bool-cases (ltb 11 (length (birthdate e)))) [
    | inl long ↦ let r : unsafe ≡ saved path lines = rw (long, verify_form) at h in absurd cc
    | inr short ↦ elim (Option-cases (first_error (form_checks o e))) [
      | inr (error, f) ↦
          let r : rejected error ≡ saved path lines = rw (short, f, verify_form) at h in absurd cc
      | inl f ↦
          let (right, written) =
            after_checks-IsSaved path lines (codes_verdict files e)
              (rw (short, f, verify_form) at h) in
          record {
            birthdate_fits = ground arith;
            passes = first_error-AllPass (form_checks o e) f;
            codes_right = right;
            written = written;
          }
    ]
  ]

  IsSaved-verify_form :
      (path : Bytes) (lines : List Bytes)
      → IsSaved path lines
      → verify_form o files e ≡ saved path lines
  unfolding verify_form after_checks
  IsSaved-verify_form path lines s =
      let short : ltb 11 (length (birthdate e)) ≡ false = ground (arith, s.birthdate_fits) in
      rw short (
        rw (AllPass-first_error _ s.passes)
          (rw s.codes_right (IsWritten-write_form path lines s.written)))

  -- `verify_form` writes a file just if the date of birth fits into its buffer, no test finds the form
  -- wrong, the codes are accepted, the section and the name fit into theirs, the path can be written
  -- and the photo's name has a '/' and then a '.'; and then the path is the forms' directory and the
  -- form's name, and the lines are those of the form with the sent flag 0.
  pub verify_form-saved_iff :
      (path : Bytes) (lines : List Bytes)
      → (verify_form o files e ≡ saved path lines) ↔ IsSaved path lines
  verify_form-saved_iff path lines =
      (verify_form-IsSaved path lines, IsSaved-verify_form path lines)
