-- ===== src/Form/File.antt =====
-- project2/src/myfuncs.c, `verify_form`: the lines of the file that it writes for a form.
pub mod Sendable
pub mod Lines
use esif_client_server.Common.{
  ℕ, zero, suc, ◌+◌, ◌≡◌, refl, List, [], ◌∷◌, ◌++◌, Bytes, codes, strtol, decimal_4, decimal_2,
  length, ℤ,
}
use esif_client_server.Form.Entries.{Student}

-- HEADPATTERN up to its first newline, with the digit of `sent`.
unfoldable pub header : Bytes → Student → Bytes
header sent e =
    e.gender
    ++ (b':'
        ∷ (decimal_4 (strtol e.class_roll)
            ++ (b':'
                ∷ (e.section
                    ++ (b':'
                        ∷ (decimal_4 (strtol e.tot_list)
                            ++ (b':'
                                ∷ (e.group ++ (b':' ∷ (sent ++ (b':' ∷ e.student_name)))))))))))

-- `fprintf(fp, "SUB_%02d %s\n", i+1, subs[i])`, from index `i` on.
unfoldable pub sub_lines : ℕ → List Bytes → List Bytes
sub_lines i [] = []
sub_lines i (sub ∷ subs) =
    (codes "SUB_" ++ (decimal_2 (i + 1) ++ (b' ' ∷ sub))) ∷ sub_lines (i + 1) subs

unfoldable pub birthdate : Student → Bytes
birthdate e = e.day_of_birth ++ (b'-' ∷ (e.month_of_birth ++ (b'-' ∷ e.year_of_birth)))

-- The labels of the lines 3 to 21 and what stands behind them.
unfoldable pub labelled : Student → List (Bytes × Bytes)
unfolding birthdate
labelled e =
    (codes "STUDENTS_NAME", e.student_name)
    ∷ (codes "FATHERS_NAME", e.father_name)
    ∷ (codes "MOTHERS_NAME", e.mother_name)
    ∷ (codes "GROUP", e.group)
    ∷ (codes "SESSION", e.session)
    ∷ (codes "BOARD", e.board)
    ∷ (codes "CLASS_ROLL", decimal_4 (strtol e.class_roll))
    ∷ (codes "BIRTHDATE", birthdate e)
    ∷ (codes "TOT_LIST", decimal_4 (strtol e.tot_list))
    ∷ (codes "SECTION", e.section)
    ∷ (codes "INSTITUTE_CODE", e.college_code)
    ∷ (codes "INSTITUTE_NAME", e.college_name)
    ∷ (codes "PREVIOUS_BOARD", e.previous_board)
    ∷ (codes "PREVIOUS_YEAR", e.previous_year)
    ∷ (codes "PREVIOUS_ROLL", e.previous_roll)
    ∷ (codes "PREVIOUS_REG", e.previous_reg)
    ∷ (codes "PREVIOUS_SESSION", e.previous_sess_start ++ (b'-' ∷ e.previous_sess_end))
    ∷ (codes "GENDER", e.gender)
    ∷ (codes "RELIGION", e.religion)
    ∷ []

-- `fprintf(fp, "LABEL %s\n", text)` for each.
unfoldable pub label_lines : List (Bytes × Bytes) → List Bytes
label_lines [] = []
label_lines ((label, text) ∷ more) = (label ++ (b' ' ∷ text)) ∷ label_lines more

-- The lines of the file, with what stands for the photo on the last one.
unfoldable pub form_lines : Bytes → Bytes → Student → List Bytes
unfolding header labelled label_lines sub_lines
form_lines sent photo e =
    header sent e
    ∷ []
    ∷ (label_lines (labelled e) ++ (sub_lines 0 e.subs ++ ((codes "PHOTO " ++ photo) ∷ [])))
