-- ===== src/Form/File/Sendable.antt =====
-- The lines of a form's file are lines that the server takes as lines of a form.
use esif_client_server.Common.{
  ℕ, ◌+◌, ◌≤◌, ◌<◌, ◌≡◌, refl, Bool, true, false, not, ◌&&◌, ◌||◌, List, [], ◌∷◌, ◌++◌, Bytes,
  codes, starts_with, strtol, decimal_4, length, length-append, length-decimal_4, leb, ◌==◌, ℤ, pos,
  AllDigits, decimal_4-AllDigits, arith,
}
use esif_client_server.Support.Lines.{is_terminated}
use esif_client_server.Regdb.Records.{has_nul}
use esif_client_server.Session.Upload.Lines.{IsFormLine}
use esif_client_server.Session.Upload.Whole.{AllFormLines}
use esif_client_server.Form.Entries.{Student}
use esif_client_server.Form.File.{header, birthdate, labelled, label_lines}

-- No NUL and no newline is in it.
abbrev pub is_plain : Bytes → Bool
is_plain [] = true
is_plain (c ∷ cs) = not (c == 0) && (not (c == b'\n') && is_plain cs)

is_plain-append : (a b : Bytes) → is_plain a ≡ true → is_plain b ≡ true → is_plain (a ++ b) ≡ true
is_plain-append [] b p q = q
is_plain-append (c ∷ cs) b p q = ground (arith, is_plain-append cs b)

pub is_plain-AllDigits : (a : Bytes) → AllDigits a → is_plain a ≡ true
is_plain-AllDigits [] h = refl
is_plain-AllDigits (c ∷ cs) (d, h) = ground (arith, is_plain-AllDigits cs h)

plain-one_line : (a : Bytes) → is_plain a ≡ true → is_terminated a ≡ false
plain-one_line [] p = refl
plain-one_line (c ∷ cs) p = ground (arith, plain-one_line cs)

plain-no_nul : (a : Bytes) → is_plain a ≡ true → has_nul a ≡ false
plain-no_nul [] p = refl
plain-no_nul (c ∷ cs) p = ground (arith, plain-no_nul cs)

abbrev pub has : ℕ → Bytes → Bool
has d [] = false
has d (c ∷ cs) = c == d || has d cs

-- A line with the byte `d` in it does not begin with a word without that byte and a newline.
no_command :
    (w a t : Bytes) (d : ℕ)
    → has d w ≡ false
    → (d == b'\n') ≡ false
    → is_plain a ≡ true
    → starts_with (w ++ b'\n' ∷ []) ((a ++ d ∷ t) ++ b'\n' ∷ []) ≡ false
unfolding starts_with
no_command [] [] t d h n p = ground arith
no_command [] (c ∷ cs) t d h n p = ground arith
no_command (x ∷ w) [] t d h n p = ground arith
no_command (x ∷ w) (c ∷ cs) t d h n p = ground (arith, no_command w cs t d)

pub marked-IsFormLine :
    (a t : Bytes) (d : ℕ)
    → has d (codes "QUIT.") ≡ false
    → (d == 0) ≡ false
    → (d == b'\n') ≡ false
    → is_plain a ≡ true
    → is_plain t ≡ true
    → length a + length t < 118
    → IsFormLine (a ++ d ∷ t)
marked-IsFormLine a t d out z n p q fits =
    let tail : is_plain (d ∷ t) ≡ true = ground arith in
    let all = is_plain-append a (d ∷ t) p tail in
    record {
      one_line = plain-one_line (a ++ d ∷ t) all;
      no_nul = plain-no_nul (a ++ d ∷ t) all;
      fits = omega (arith, length-append a (d ∷ t));
      no_end = no_command (codes ".") a t d (ground arith) n p;
      no_quit = no_command (codes "QUIT") a t d (ground arith) n p;
    }

-- A text of at most `n` bytes.
abbrev pub IsText : ℕ → Bytes → Type 0
IsText n text = (is_plain text ≡ true) × (length text ≤ n)

pub IsText-append :
    (m n k : ℕ) (a b : Bytes) → IsText m a → IsText n b → m + n ≤ k → IsText k (a ++ b)
IsText-append m n k a b (p, l) (q, r) h =
    (is_plain-append a b p q, omega (arith, length-append a b))

pub IsText-cons :
    (n k c : ℕ) (b : Bytes)
    → (c == 0) ≡ false
    → (c == b'\n') ≡ false
    → IsText n b
    → n + 1 ≤ k
    → IsText k (c ∷ b)
IsText-cons n k c b z l (q, r) h = (ground arith, omega arith)

abbrev pub AllTexts : ℕ → List Bytes → Type 0
AllTexts n [] = Unit
AllTexts n (text ∷ texts) = IsText n text × AllTexts n texts

-- The entries of a form as its window lets them be: texts of one line with their lengths, two
-- numbers below 10000, and the 17 entries of the codes.
pub record IsSendable (e : Student) : Type 0 where
  pub roll : ℕ
  pub class_roll : strtol e.class_roll ≡ pos roll
  pub roll_fits : roll < 10_000
  pub serial : ℕ
  pub tot_list : strtol e.tot_list ≡ pos serial
  pub serial_fits : serial < 10_000
  pub student_name : IsText 40 e.student_name
  pub father_name : IsText 40 e.father_name
  pub mother_name : IsText 40 e.mother_name
  pub group : IsText 19 e.group
  pub session : IsText 4 e.session
  pub board : IsText 20 e.board
  pub birthdate : IsText 11 (birthdate e)
  pub section : IsText 1 e.section
  pub college_code : IsText 4 e.college_code
  pub college_name : IsText 70 e.college_name
  pub previous_board : IsText 20 e.previous_board
  pub previous_year : IsText 4 e.previous_year
  pub previous_roll : IsText 10 e.previous_roll
  pub previous_reg : IsText 10 e.previous_reg
  pub previous_sess_start : IsText 4 e.previous_sess_start
  pub previous_sess_end : IsText 4 e.previous_sess_end
  pub gender : IsText 6 e.gender
  pub religion : IsText 20 e.religion
  pub subs : AllTexts 3 e.subs
  pub all_subs : length e.subs ≡ 17

pub decimal_4-IsText : (z : ℤ) (n : ℕ) → z ≡ pos n → n < 10_000 → IsText 4 (decimal_4 z)
decimal_4-IsText z n e h =
    rw e (is_plain-AllDigits _ (decimal_4-AllDigits n), omega (arith, length-decimal_4 n h))

pub header-IsFormLine :
    (sent : Bytes) (e : Student) → IsSendable e → IsText 1 sent → IsFormLine (header sent e)
unfolding header
header-IsFormLine sent e h one =
    let name = IsText-cons 40 41 b':' _ refl refl h.student_name (omega arith) in
    let flag =
      IsText-cons 42 43 b':' _ refl refl (IsText-append 1 41 42 _ _ one name (omega arith))
        (omega arith) in
    let group =
      IsText-cons 62 63 b':' _ refl refl (IsText-append 19 43 62 _ _ h.group flag (omega arith))
        (omega arith) in
    let serial =
      IsText-cons 67 68 b':' _ refl refl
        (IsText-append 4 63 67 _ _ (decimal_4-IsText _ _ h.tot_list h.serial_fits) group
          (omega arith))
        (omega arith) in
    let section =
      IsText-cons 69 70 b':' _ refl refl (IsText-append 1 68 69 _ _ h.section serial (omega arith))
        (omega arith) in
    let roll =
      IsText-append 4 70 74 _ _ (decimal_4-IsText _ _ h.class_roll h.roll_fits) section
        (omega arith) in
    marked-IsFormLine e.gender _ b':' refl refl refl h.gender.0 roll.0
      (omega (arith, h.gender.1, roll.1))

abbrev pub AllLabelled : List (Bytes × Bytes) → Type 0
AllLabelled [] = Unit
AllLabelled ((label, text) ∷ more) =
    ((is_plain label && leb (length label) 17) ≡ true) × (IsText 70 text × AllLabelled more)

pub label_lines-AllFormLines :
    (fields : List (Bytes × Bytes)) (more : List Bytes)
    → AllLabelled fields
    → AllFormLines more
    → AllFormLines (label_lines fields ++ more)
unfolding label_lines
label_lines-AllFormLines [] more h m = m
label_lines-AllFormLines ((label, text) ∷ fields) more (p, (q, h)) m = (
  marked-IsFormLine label text b' ' refl refl refl (ground arith) q.0 (ground arith),
  label_lines-AllFormLines fields more h m,
)

IsText-weaken : (m n : ℕ) (a : Bytes) → IsText m a → m ≤ n → IsText n a
IsText-weaken m n a (p, l) h = (p, omega arith)

pub labelled-AllLabelled : (e : Student) → IsSendable e → AllLabelled (labelled e)
unfolding labelled
labelled-AllLabelled e h =
    let up = λ (m : ℕ) (a : Bytes) (t : IsText m a) (l : m ≤ 70). IsText-weaken m 70 a t l in
    let sess =
      IsText-append 4 5 9 _ _ h.previous_sess_start
        (IsText-cons 4 5 b'-' _ refl refl h.previous_sess_end (omega arith)) (omega arith) in
    (
      refl,
      (
        up 40 _ h.student_name (omega arith),
        (
          refl,
          (
            up 40 _ h.father_name (omega arith),
            (
              refl,
              (
                up 40 _ h.mother_name (omega arith),
                (
                  refl,
                  (
                    up 19 _ h.group (omega arith),
                    (
                      refl,
                      (
                        up 4 _ h.session (omega arith),
                        (
                          refl,
                          (
                            up 20 _ h.board (omega arith),
                            (
                              refl,
                              (
                                up 4 _ (decimal_4-IsText _ _ h.class_roll h.roll_fits)
                                    (omega arith),
                                (
                                  refl,
                                  (
                                    up 11 _ h.birthdate (omega arith),
                                    (
                                      refl,
                                      (
                                        up 4 _ (decimal_4-IsText _ _ h.tot_list h.serial_fits)
                                            (omega arith),
                                        (
                                          refl,
                                          (
                                            up 1 _ h.section (omega arith),
                                            (
                                              refl,
                                              (
                                                up 4 _ h.college_code (omega arith),
                                                (
                                                  refl,
                                                  (
                                                    h.college_name,
                                                    (
                                                      refl,
                                                      (
                                                        up 20 _ h.previous_board (omega arith),
                                                        (
                                                          refl,
                                                          (
                                                            up 4 _ h.previous_year (omega arith),
                                                            (
                                                            refl,
                                                            (
                                                            up 10 _ h.previous_roll (omega arith),
                                                            (
                                                            refl,
                                                            (
                                                            up 10 _ h.previous_reg (omega arith),
                                                            (
                                                            refl,
                                                            (
                                                            up 9 _ sess (omega arith),
                                                            (
                                                            refl,
                                                            (
                                                            up 6 _ h.gender (omega arith),
                                                            (
                                                            refl,
                                                            (up 20 _ h.religion (omega arith), tt),
                                                            ),
                                                            ),
                                                            ),
                                                            ),
                                                            ),
                                                            ),
                                                            ),
                                                            ),
                                                            ),
                                                          ),
                                                        ),
                                                      ),
                                                    ),
                                                  ),
                                                ),
                                              ),
                                            ),
                                          ),
                                        ),
                                      ),
                                    ),
                                  ),
                                ),
                              ),
                            ),
                          ),
                        ),
                      ),
                    ),
                  ),
                ),
              ),
            ),
          ),
        ),
      ),
    )
