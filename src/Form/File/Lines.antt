-- ===== src/Form/File/Lines.antt =====
-- The file of a form as a whole: 39 lines that the server takes, in the room that it has for them.
use esif_client_server.Common.{
  ℕ, suc, ◌+◌, ◌*◌, ◌≤◌, ◌<◌, ◌≡◌, refl, ap, List, [], ◌∷◌, ◌++◌, Bytes, codes, starts_with,
  decimal_2, length, length-append, length-decimal_2, decimal_2-AllDigits, line_of, arith,
}
use esif_client_server.Session.Upload.Lines.{IsFormLine}
use esif_client_server.Session.Upload.Whole.{AllFormLines, block_of_lines}
use esif_client_server.Session.Image.{max_info_size}
use esif_client_server.Regdb.{txt_lines}
use esif_client_server.Form.Entries.{Student}
use esif_client_server.Form.File.{header, sub_lines, labelled, label_lines, form_lines}
use esif_client_server.Form.File.Sendable.{
  IsText, AllTexts, IsSendable, is_plain-AllDigits, IsText-append, marked-IsFormLine,
  header-IsFormLine, label_lines-AllFormLines, labelled-AllLabelled, decimal_4-IsText,
}

decimal_2-IsText : (n : ℕ) → n < 100 → IsText 2 (decimal_2 n)
decimal_2-IsText n h = (is_plain-AllDigits _ (decimal_2-AllDigits n), length-decimal_2 n h)

sub_lines-AllFormLines :
    (i : ℕ) (subs more : List Bytes)
    → AllTexts 3 subs
    → i + length subs < 100
    → AllFormLines more
    → AllFormLines (sub_lines i subs ++ more)
unfolding sub_lines
sub_lines-AllFormLines i [] more h n m = m
sub_lines-AllFormLines i (sub ∷ subs) more (t, h) n m =
    let label =
      IsText-append 4 2 6 (codes "SUB_") _ (refl, omega arith)
        (decimal_2-IsText (i + 1) (omega arith)) (omega arith) in
    (
      marked-IsFormLine (codes "SUB_" ++ decimal_2 (i + 1)) sub b' ' refl refl refl label.0 t.0
          (omega (arith, label.1, t.1)),
      sub_lines-AllFormLines (i + 1) subs more h (omega arith) m,
    )

empty-IsFormLine : IsFormLine []
unfolding starts_with
empty-IsFormLine = record {
  one_line = refl;
  no_nul = refl;
  fits = omega arith;
  no_end = refl;
  no_quit = refl;
}

-- Every line of the file of such a form is one that the server takes as a line of a form.
pub form_lines-AllFormLines :
    (sent photo : Bytes) (e : Student)
    → IsSendable e
    → IsText 1 sent
    → IsText 99 photo
    → AllFormLines (form_lines sent photo e)
unfolding form_lines
form_lines-AllFormLines sent photo e h one p =
    let last =
      marked-IsFormLine (codes "PHOTO") photo b' ' refl refl refl refl p.0 (omega (arith, p.1)) in
    (
      header-IsFormLine sent e h one,
      (
        empty-IsFormLine,
        label_lines-AllFormLines (labelled e) _ (labelled-AllLabelled e h)
            (sub_lines-AllFormLines 0 e.subs _ h.subs (omega (arith, h.all_subs)) (last, tt)),
      ),
    )

length-label_lines : (fields : List (Bytes × Bytes)) → length (label_lines fields) ≡ length fields
unfolding label_lines
length-label_lines [] = refl
length-label_lines (f ∷ fields) = ap suc (length-label_lines fields)

length-sub_lines : (i : ℕ) (subs : List Bytes) → length (sub_lines i subs) ≡ length subs
unfolding sub_lines
length-sub_lines i [] = refl
length-sub_lines i (s ∷ subs) = ap suc (length-sub_lines (i + 1) subs)

-- The file has the 39 lines that the server's `reg_getdb` reads.
pub length-form_lines :
    (sent photo : Bytes) (e : Student)
    → length e.subs ≡ 17
    → length (form_lines sent photo e) ≡ txt_lines
unfolding form_lines labelled
length-form_lines sent photo e h = omega (
  arith,
  length-append (label_lines (labelled e)) (sub_lines 0 e.subs ++ ((codes "PHOTO " ++ photo) ∷ [])),
  length-append (sub_lines 0 e.subs) ((codes "PHOTO " ++ photo) ∷ []),
  length-label_lines (labelled e),
  length-sub_lines 0 e.subs,
)

length-block_of_lines-cons :
    (l : Bytes) (ls : List Bytes)
    → length (block_of_lines (l ∷ ls)) ≡ length l + 2 + length (block_of_lines ls)
unfolding block_of_lines
length-block_of_lines-cons l ls = omega (
  arith,
  length-append (line_of l ++ 0 ∷ []) (block_of_lines ls),
  length-append (line_of l) (0 ∷ []),
  length-append l (b'\n' ∷ []),
)

abbrev size_of : List (Bytes × Bytes) → ℕ
size_of [] = 0
size_of ((label, text) ∷ more) = length label + length text + 3 + size_of more

length-block-label_lines :
    (fields : List (Bytes × Bytes)) (more : List Bytes)
    → length (block_of_lines (label_lines fields ++ more))
      ≡ size_of fields + length (block_of_lines more)
unfolding label_lines
length-block-label_lines [] more = omega arith
length-block-label_lines ((label, text) ∷ fields) more = omega (
  arith,
  length-block_of_lines-cons (label ++ b' ' ∷ text) (label_lines fields ++ more),
  length-append label (b' ' ∷ text),
  length-block-label_lines fields more,
)

length-block-sub_lines :
    (i : ℕ) (subs more : List Bytes)
    → AllTexts 3 subs
    → i + length subs < 100
    → length (block_of_lines (sub_lines i subs ++ more))
      ≤ 12 * length subs + length (block_of_lines more)
unfolding sub_lines
length-block-sub_lines i [] more h n = omega arith
length-block-sub_lines i (sub ∷ subs) more (t, h) n =
    let tail = length-block-sub_lines (i + 1) subs more h (omega arith) in
    omega (
      arith,
      length-block_of_lines-cons (codes "SUB_" ++ (decimal_2 (i + 1) ++ (b' ' ∷ sub)))
          (sub_lines (i + 1) subs ++ more),
      length-append (decimal_2 (i + 1)) (b' ' ∷ sub),
      length-decimal_2 (i + 1) (omega arith),
      t.1,
      tail,
    )

size_of-labelled : (e : Student) → IsSendable e → size_of (labelled e) ≤ 591
unfolding labelled
size_of-labelled e h = omega (
  arith,
  h.student_name.1,
  h.father_name.1,
  h.mother_name.1,
  h.group.1,
  h.session.1,
  h.board.1,
  h.birthdate.1,
  h.section.1,
  h.college_code.1,
  h.college_name.1,
  h.previous_board.1,
  h.previous_year.1,
  h.previous_roll.1,
  h.previous_reg.1,
  h.previous_sess_start.1,
  h.previous_sess_end.1,
  h.gender.1,
  h.religion.1,
  (decimal_4-IsText _ _ h.class_roll h.roll_fits).1,
  (decimal_4-IsText _ _ h.tot_list h.serial_fits).1,
  length-append e.previous_sess_start (b'-' ∷ e.previous_sess_end),
)

-- A form whose entries have the lengths that its window lets them have is never too long for the
-- server's `regbuf`.
pub block-form_lines :
    (sent photo : Bytes) (e : Student)
    → IsSendable e
    → IsText 1 sent
    → IsText 99 photo
    → length (block_of_lines (form_lines sent photo e)) ≤ max_info_size
unfolding form_lines block_of_lines
block-form_lines sent photo e h one p =
    let last = (codes "PHOTO " ++ photo) ∷ [] in
    omega (
      arith,
      length-block_of_lines-cons (header sent e)
          ([] ∷ (label_lines (labelled e) ++ (sub_lines 0 e.subs ++ last))),
      length-block_of_lines-cons [] (label_lines (labelled e) ++ (sub_lines 0 e.subs ++ last)),
      length-block-label_lines (labelled e) (sub_lines 0 e.subs ++ last),
      length-block-sub_lines 0 e.subs last h.subs (omega (arith, h.all_subs)),
      length-block_of_lines-cons (codes "PHOTO " ++ photo) [],
      size_of-labelled e h,
      h.all_subs,
      p.1,
      (header-IsFormLine sent e h one).fits,
    )
