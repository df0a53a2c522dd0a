-- ===== src/Form/Entries.antt =====
-- project2/src/myfuncs.c, `verify_form`: the texts of a form's entries, and what is set for all forms.
use esif_client_server.Common.{Bool, List, Option, Bytes, ℤ}

-- What the widgets of the window hold, in the order of `verify_form`. `photo` is the path of the
-- picture that was chosen.
pub record Student : Type 0 where
  pub student_name : Bytes
  pub father_name : Bytes
  pub mother_name : Bytes
  pub group : Bytes
  pub session : Bytes
  pub board : Bytes
  pub class_roll : Bytes
  pub day_of_birth : Bytes
  pub month_of_birth : Bytes
  pub year_of_birth : Bytes
  pub tot_list : Bytes
  pub section : Bytes
  pub college_code : Bytes
  pub college_name : Bytes
  pub previous_board : Bytes
  pub previous_year : Bytes
  pub previous_roll : Bytes
  pub previous_reg : Bytes
  pub previous_sess_start : Bytes
  pub previous_sess_end : Bytes
  pub gender : Bytes
  pub religion : Bytes
  pub subs : List Bytes
  pub photo : Option Bytes

-- The globals that the checks look at.
pub record Options : Type 0 where
  pub ignore_fa_name : Bool
  pub ignore_mo_name : Bool
  pub ignore_birthdate : Bool
  pub ignore_totlist : Bool
  pub ignore_prev_year : Bool
  pub ignore_prev_roll : Bool
  pub ignore_prev_reg : Bool
  pub ignore_prev_sess : Bool
  pub is_ssc : Bool
  pub all_session : Bytes

-- What the client's file system gives and takes: the directory of the forms, the numbers that are in
-- a file of codes, the lines of numbers of the file of pairs, and which files can be opened to write.
pub record Files : Type 0 where
  pub infodirname : Bytes
  pub numbers_in : Bytes → Option (List ℤ)
  pub pairs : Option (List (List ℤ))
  pub can_write : Bytes → Bool
