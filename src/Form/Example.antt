-- ===== src/Form/Example.antt =====
-- A form, for the tests.
use esif_client_server.Common.{refl, List, [], ◌∷◌, none, Bytes, codes, strtol, arith}
use esif_client_server.Form.Entries.{Student}
use esif_client_server.Form.File.{birthdate}
use esif_client_server.Form.File.Sendable.{IsText, IsSendable}
use esif_client_server.Form.Name.{IsWord}

abbrev pub subject_codes : List Bytes
subject_codes =
    codes "101"
    ∷ codes "102"
    ∷ codes "107"
    ∷ codes "108"
    ∷ codes "126"
    ∷ codes "127"
    ∷ codes "136"
    ∷ codes "137"
    ∷ codes "125"
    ∷ codes "124"
    ∷ []
    ∷ []
    ∷ []
    ∷ []
    ∷ []
    ∷ []
    ∷ []
    ∷ []

abbrev pub student : Student
student = record {
  student_name = codes "Rahim Uddin";
  father_name = codes "Karim Uddin";
  mother_name = codes "Salma";
  group = codes "Science";
  session = codes "2005";
  board = codes "Rajshahi";
  class_roll = codes "12";
  day_of_birth = codes "1";
  month_of_birth = codes "Jan";
  year_of_birth = codes "1988";
  tot_list = codes "3";
  section = codes "A";
  college_code = codes "0110";
  college_name = codes "City College";
  previous_board = codes "Rajshahi";
  previous_year = codes "2004";
  previous_roll = codes "123456";
  previous_reg = codes "234567";
  previous_sess_start = codes "2002";
  previous_sess_end = codes "2003";
  gender = codes "Male";
  religion = codes "Islam";
  subs = subject_codes;
  photo = none;
}

three : IsText 3 (codes "101")
three = (refl, omega arith)

none_filled : IsText 3 []
none_filled = (refl, omega arith)

pub student-IsSendable : IsSendable student
unfolding strtol birthdate
student-IsSendable = record {
  roll = 12;
  class_roll = refl;
  roll_fits = omega arith;
  serial = 3;
  tot_list = refl;
  serial_fits = omega arith;
  student_name = (refl, omega arith);
  father_name = (refl, omega arith);
  mother_name = (refl, omega arith);
  group = (refl, omega arith);
  session = (refl, omega arith);
  board = (refl, omega arith);
  birthdate = (refl, omega arith);
  section = (refl, omega arith);
  college_code = (refl, omega arith);
  college_name = (refl, omega arith);
  previous_board = (refl, omega arith);
  previous_year = (refl, omega arith);
  previous_roll = (refl, omega arith);
  previous_reg = (refl, omega arith);
  previous_sess_start = (refl, omega arith);
  previous_sess_end = (refl, omega arith);
  gender = (refl, omega arith);
  religion = (refl, omega arith);
  subs = (
    three,
    (
      three,
      (
        three,
        (
          three,
          (
            three,
            (
              three,
              (
                three,
                (
                  three,
                  (
                    three,
                    (
                      three,
                      (
                        none_filled,
                        (
                          none_filled,
                          (
                            none_filled,
                            (none_filled, (none_filled, (none_filled, (none_filled, tt)))),
                          ),
                        ),
                      ),
                    ),
                  ),
                ),
              ),
            ),
          ),
        ),
      ),
    ),
  );
  all_subs = refl;
}

pub A-IsWord : IsWord student.section
A-IsWord = record { no_nul = refl; one_line = refl }
