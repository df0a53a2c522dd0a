-- ===== src/Form/Right.antt =====
-- What is true of the entries of a form that `verify_form` writes to a file.
pub mod Texts
use esif_client_server.Common.{
  ℕ, ◌+◌, ◌<◌, ◌≤◌, ◌≡◌, ◌⊎◌, inl, inr, refl, ap, ◌∙◌, ◌++◌, Bool, Bool-cases, true, false, not,
  ◌&&◌, ◌||◌, [], ◌∷◌, Bytes, length, ltb, ◌==◌, if◌then◌else◌, ℤ, pos, negsuc, ltb_int, eq_int,
  minus, strtol, is_digit, is_space, read_digits, AllDigits, strtol-AllDigits, arith,
}
use mathlib.Core.Path.{subst}
use esif_client_server.Form.Entries.{Student, Options, Files}
use esif_client_server.Form.Text.{
  is_alpha, name_loop, verify_name, verify_number, all_digits, verify_number-all_digits,
}
use esif_client_server.Form.Checks.{
  fails, name_checks, number_checks, birth_checks, list_checks, previous_checks, session_checks,
  form_checks,
}
use esif_client_server.Form.Verify.{saved, verify_form}
use esif_client_server.Form.Saved.{AllPass, IsWritten, verify_form-saved_iff}
use esif_client_server.Form.Right.Texts.{
  IsNumber, IsName, number_of, ignored_or, neither, verify_number-IsNumber, strtol-number_of,
  verify_name-IsName,
}

-- Unless it is ignored, the entry has that property.
abbrev pub Unless : Bool → Type 0 → Type 0
Unless ignored A = (ignored ≡ true) ⊎ A

unless :
    {A : Type 0} (ignored wrong : Bool)
    → (not ignored && wrong) ≡ false
    → (wrong ≡ false → A)
    → Unless ignored A
unless ignored wrong h f = elim (ignored_or ignored wrong h) [ inl e ↦ inl e | inr e ↦ inr (f e) ]

-- A number of at least so many digits.
pub record IsLong (n : ℕ) (t : Bytes) : Type 0 where
  pub number : IsNumber t
  pub long : n ≤ length t

IsLong_lem :
    (n : ℕ) (t : Bytes) → (ltb (length t) n || fails (verify_number t)) ≡ false → IsLong n t
IsLong_lem n t h =
    let (a, b) = neither (ltb (length t) n) (fails (verify_number t)) h in
    record { number = verify_number-IsNumber t b; long = ground arith }

-- The years of the exam before and of its session, for a session of the year `year`.
pub record IsPrevious (o : Options) (year : ℕ) (e : Student) : Type 0 where
  pub previous_year :
      Unless o.ignore_prev_year (IsLong 4 e.previous_year × (number_of e.previous_year < year))
  pub previous_roll : Unless o.ignore_prev_roll (IsLong 6 e.previous_roll)
  pub previous_reg : Unless o.ignore_prev_reg (IsLong 6 e.previous_reg)
  pub previous_session : Unless o.ignore_prev_sess (
      IsLong 4 e.previous_sess_start
      × IsLong 4 e.previous_sess_end
      × (number_of e.previous_sess_end < year)
      × (number_of e.previous_sess_start + 1 ≡ number_of e.previous_sess_end))

-- The entries of a form for a session of the year `year`: what each may hold, and how the years of the
-- birth, of the exam before and of its session lie to that year and to each other.
pub record IsRight (o : Options) (year : ℕ) (e : Student) : Type 0 where
  pub student_name : IsName e.student_name
  pub father_name : Unless o.ignore_fa_name (IsName e.father_name)
  pub mother_name : Unless o.ignore_mo_name (IsName e.mother_name)
  pub session : IsNumber e.session
  pub class_roll : IsNumber e.class_roll × (0 < number_of e.class_roll)
  pub year_of_birth : Unless o.ignore_birthdate (
      IsLong 4 e.year_of_birth
      × (number_of e.year_of_birth + 10 ≤ year)
      × (year < number_of e.year_of_birth + 30))
  pub tot_list : Unless o.ignore_totlist (IsNumber e.tot_list)
  pub college_code : IsNumber e.college_code
  pub previous : Unless o.is_ssc (IsPrevious o year e)

class_roll_lem :
    (t : Bytes)
    → (ltb_int (strtol t) (pos 1) || fails (verify_number t)) ≡ false
    → IsNumber t × (0 < number_of t)
class_roll_lem t h =
    let (a, b) = neither (ltb_int (strtol t) (pos 1)) (fails (verify_number t)) h in
    let number = verify_number-IsNumber t b in
    let above : ltb_int (pos (number_of t)) (pos 1) ≡ false =
      subst (λ z. ltb_int z (pos 1) ≡ false) (strtol-number_of t number) a in
    (number, ground arith)

birth_lem :
    (t session : Bytes) (year : ℕ)
    → strtol session ≡ pos year
    → IsLong 4 t
    → (ltb_int (minus (strtol session) 10) (strtol t)
        || not (ltb_int (minus (strtol session) 30) (strtol t)))
      ≡ false
    → (number_of t + 10 ≤ year) × (year < number_of t + 30)
birth_lem t session year s n h =
    let k : (ltb_int (minus (pos year) 10) (pos (number_of t))
          || not (ltb_int (minus (pos year) 30) (pos (number_of t))))
        ≡ false =
      subst
        (λ z. (ltb_int (minus (pos year) 10) z || not (ltb_int (minus (pos year) 30) z)) ≡ false)
        (strtol-number_of t n.number)
        (subst
          (λ z. (ltb_int (minus z 10) (strtol t) || not (ltb_int (minus z 30) (strtol t))) ≡ false)
          s h) in
    let (a, b) = neither (ltb_int (minus (pos year) 10) (pos (number_of t))) _ k in
    (ground arith, ground arith)

below_lem :
    (t session : Bytes) (year : ℕ)
    → strtol session ≡ pos year
    → IsNumber t
    → not (ltb_int (strtol t) (strtol session)) ≡ false
    → number_of t < year
below_lem t session year s n h =
    let k : not (ltb_int (pos (number_of t)) (pos year)) ≡ false =
      subst (λ z. not (ltb_int z (pos year)) ≡ false) (strtol-number_of t n)
        (subst (λ z. not (ltb_int (strtol t) z) ≡ false) s h) in
    ground arith

follows_lem :
    (a b : Bytes)
    → IsNumber a
    → IsNumber b
    → not (eq_int (strtol a) (minus (strtol b) 1)) ≡ false
    → number_of a + 1 ≡ number_of b
follows_lem a b n m h =
    let k : not (eq_int (pos (number_of a)) (minus (pos (number_of b)) 1)) ≡ false =
      subst (λ z. not (eq_int (pos (number_of a)) (minus z 1)) ≡ false) (strtol-number_of b m)
        (subst (λ z. not (eq_int z (minus (strtol b) 1)) ≡ false) (strtol-number_of a n) h) in
    ground arith

-- What a test says where it is not ignored.
heeded : (ignored wrong : Bool) → ignored ≡ false → (not ignored && wrong) ≡ false → wrong ≡ false
heeded true wrong e h = absurd cc
heeded false wrong e h = h

unless_ignored : {A : Type 0} (ignored : Bool) → (ignored ≡ false → A) → Unless ignored A
unless_ignored true f = inl refl
unless_ignored false f = inr (f refl)

AllPass-IsPrevious :
    (o : Options) (e : Student) (year : ℕ)
    → strtol o.all_session ≡ pos year
    → AllPass (previous_checks o e ++ session_checks o e)
    → IsPrevious o year e
unfolding previous_checks session_checks
AllPass-IsPrevious o e year s
      (y, (before, (roll, (reg, (start, (start_before, (last, (last_before, (follows, _))))))))) =
    record {
      previous_year = unless_ignored o.ignore_prev_year λ on.
          let long = IsLong_lem 4 e.previous_year (heeded o.ignore_prev_year _ on y) in
          (
            long,
            below_lem e.previous_year o.all_session year s long.number
                (heeded o.ignore_prev_year _ on before),
          );
      previous_roll = unless o.ignore_prev_roll _ roll (IsLong_lem 6 e.previous_roll);
      previous_reg = unless o.ignore_prev_reg _ reg (IsLong_lem 6 e.previous_reg);
      previous_session = unless_ignored o.ignore_prev_sess λ on.
          let a = IsLong_lem 4 e.previous_sess_start (heeded o.ignore_prev_sess _ on start) in
          let b = IsLong_lem 4 e.previous_sess_end (heeded o.ignore_prev_sess _ on last) in
          (
            a,
            b,
            below_lem e.previous_sess_end o.all_session year s b.number
                (heeded o.ignore_prev_sess _ on last_before),
            follows_lem e.previous_sess_start e.previous_sess_end a.number b.number
                (heeded o.ignore_prev_sess _ on follows),
          );
    }

AllPass-IsRight :
    (o : Options) (e : Student) (year : ℕ)
    → strtol o.all_session ≡ pos year
    → AllPass (form_checks o e)
    → IsRight o year e
unfolding form_checks name_checks number_checks birth_checks list_checks
AllPass-IsRight o e year s
      (name, (father, (mother, (session, (roll, (born, (day, (age, (list, (code, more)))))))))) =
    record {
      student_name = verify_name-IsName e.student_name name;
      father_name = unless o.ignore_fa_name _ father (verify_name-IsName e.father_name);
      mother_name = unless o.ignore_mo_name _ mother (verify_name-IsName e.mother_name);
      session = verify_number-IsNumber e.session session;
      class_roll = class_roll_lem e.class_roll roll;
      year_of_birth = unless_ignored o.ignore_birthdate λ on.
          let long = IsLong_lem 4 e.year_of_birth (heeded o.ignore_birthdate _ on born) in
          let (old, young) =
            birth_lem e.year_of_birth o.all_session year s long
              (heeded o.ignore_birthdate _ on age) in
          (long, old, young);
      tot_list = unless o.ignore_totlist _ list λ h. (IsLong_lem 1 e.tot_list h).number;
      college_code = verify_number-IsNumber e.college_code code;
      previous = unless_ignored o.is_ssc λ on. AllPass-IsPrevious o e year s (
          subst (λ b. AllPass (if b then [] else previous_checks o e ++ session_checks o e)) on
            more);
    }

-- For a session that is the number `year`: where `verify_form` writes a file, the student's name, and
-- unless they are ignored the father's and mother's, begin with a letter, have only letters, '.', '-' and
-- spaces, and no two spaces side by side; the session and the college's code are numbers, the class roll
-- is one above 0, and so, unless it is ignored, is the list number a number; and unless they are ignored
-- the student is from 10 to 29 years old, and, but for the S. S. C., the exam before was before that
-- year, its roll and registration have at least six digits, and its session ends before that year and
-- has the year that follows its start as its end; and the file is the form's.
pub verify_form-IsRight :
    (o : Options) (files : Files) (e : Student) (year : ℕ) (path : Bytes) (lines : _)
    → strtol o.all_session ≡ pos year
    → verify_form o files e ≡ saved path lines
    → IsRight o year e × IsWritten o files e path lines
verify_form-IsRight o files e year path lines s h =
    let written = (verify_form-saved_iff o files e path lines).0 h in
    (AllPass-IsRight o e year s written.passes, written.written)
