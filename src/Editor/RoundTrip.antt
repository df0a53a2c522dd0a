-- ===== src/Editor/RoundTrip.antt =====
-- A form that `verify_form` writes, and what `load_student_info` shows of it.
use esif_client_server.Common.{
  ℕ, ◌+◌, ◌<◌, ◌≤◌, ◌≡◌, refl, ap, ◌∙◌, ◌++◌, append-nil, Bool, true, false, not, ◌&&◌, List, [],
  ◌∷◌, some, Bytes, codes, length, length-append, line_of, wire, length-wire, ltb, ◌==◌, AllDigits,
  decimal_4, decimal_4-AllDigits, strtol, if◌then◌else◌, arith, is_space, ℤ, pos,
}
use esif_client_server.Session.Scan.{span, skip_space}
use esif_client_server.Session.Upload.Lines.{IsFormLine}
use esif_client_server.Session.Upload.Whole.{AllFormLines}
use esif_client_server.Session.Upload.Stored.{is_one_line}
use esif_client_server.Form.Entries.{Student}
use esif_client_server.Form.File.{header, birthdate, labelled, label_lines, sub_lines, form_lines}
use esif_client_server.Form.File.Sendable.{IsText, IsSendable}
use esif_client_server.Form.File.Lines.{form_lines-AllFormLines}
use esif_client_server.Client.Header.{fgets}
use esif_client_server.Client.Steps.{fgets-line_of}
use esif_client_server.Editor.{
  Setting, entry, and_then, not_dash, parts, line_settings, field_settings, birth_settings,
  session_settings, widget_of, photo_settings, load_student_info,
}
use esif_client_server.Editor.Load.{all_settings, load_loop-wire}
use esif_client_server.Editor.Shown.{
  numbered, load_line-line, AllShown, fields_from, all_settings-label_lines, subs_from, AllLines,
  all_settings-sub_lines,
}

-- A text that does not begin with a space and has no '-'.
abbrev pub is_part : Bytes → Bool
is_part [] = true
is_part (c ∷ cs) = not (c == b'-') && is_part cs

abbrev pub starts_with_space : Bytes → Bool
starts_with_space [] = false
starts_with_space (c ∷ cs) = is_space c

span-not_dash :
    (a rest : Bytes) → is_part a ≡ true → span not_dash (a ++ b'-' ∷ rest) ≡ (a, b'-' ∷ rest)
span-not_dash [] rest h = refl
span-not_dash (c ∷ cs) rest h = ground (arith, span-not_dash cs rest)

span-last : (a : Bytes) → is_part a ≡ true → span not_dash a ≡ (a, [])
span-last [] h = refl
span-last (c ∷ cs) h = ground (arith, span-last cs)

skip_space-kept :
    (a rest : Bytes)
    → starts_with_space a ≡ false
    → 0 < length a
    → skip_space (a ++ rest) ≡ a ++ rest
skip_space-kept [] rest h n = absurd (omega arith)
skip_space-kept (c ∷ cs) rest h n = ground arith

digits-kept : (a : Bytes) → AllDigits a → skip_space a ≡ a
digits-kept [] h = refl
digits-kept (c ∷ cs) (d, h) = ground arith

-- A form that the editor shows as it was entered.
pub record IsEditable (e : Student) : Type 0 where
  pub day :
      (is_part e.day_of_birth ≡ true)
      × (starts_with_space e.day_of_birth ≡ false)
      × (0 < length e.day_of_birth)
  pub month : (is_part e.month_of_birth ≡ true) × (0 < length e.month_of_birth)
  pub year : is_part e.year_of_birth ≡ true
  pub day_fits : length e.day_of_birth ≤ 2
  pub month_fits : length e.month_of_birth ≤ 3
  pub year_fits : length e.year_of_birth ≤ 4
  pub sess_start :
      (is_part e.previous_sess_start ≡ true)
      × (starts_with_space e.previous_sess_start ≡ false)
      × (0 < length e.previous_sess_start)
  pub sess_end : is_part e.previous_sess_end ≡ true
  pub texts : AllShown (labelled e)
  pub codes_shown : AllLines e.subs
  pub header_fits : length (header (codes "0") e) ≤ 78

birth_settings-birthdate :
    (e : Student)
    → IsEditable e
    → birth_settings (skip_space (birthdate e))
      ≡ some (
          entry (codes "combo_entry3") e.day_of_birth
          ∷ entry (codes "combo_entry4") e.month_of_birth
          ∷ entry (codes "combo_entry5") e.year_of_birth
          ∷ [])
unfolding birth_settings birthdate parts
birth_settings-birthdate e h =
    rw
      (skip_space-kept e.day_of_birth (b'-' ∷ (e.month_of_birth ++ (b'-' ∷ e.year_of_birth)))
        h.day.1 h.day.2)
      (rw (span-not_dash e.day_of_birth (e.month_of_birth ++ (b'-' ∷ e.year_of_birth)) h.day.0) (
        rw (span-not_dash e.month_of_birth e.year_of_birth h.month.0) (
          rw (span-last e.year_of_birth h.year)
            (ground (arith, h.day.2, h.month.1, h.day_fits, h.month_fits, h.year_fits)))))

session_settings-previous :
    (e : Student)
    → IsSendable e
    → IsEditable e
    → session_settings (skip_space (e.previous_sess_start ++ (b'-' ∷ e.previous_sess_end)))
      ≡ some (
          entry (codes "entry13") e.previous_sess_start
          ∷ entry (codes "entry14") e.previous_sess_end
          ∷ [])
unfolding session_settings parts
session_settings-previous e h k =
    rw
      (skip_space-kept e.previous_sess_start (b'-' ∷ e.previous_sess_end) k.sess_start.1
        k.sess_start.2)
      (rw (span-not_dash e.previous_sess_start e.previous_sess_end k.sess_start.0) (
        rw (span-last e.previous_sess_end k.sess_end)
          (ground (arith, k.sess_start.2, h.previous_sess_start.1, h.previous_sess_end.1))))

-- The text of a section, where a blank is skipped and put back.
abbrev pub shown_section : Bytes → Bytes
shown_section value = if ltb (length value) 1 then codes " " else value

field_settings-section :
    (value : Bytes)
    → field_settings 12 value ≡ some (entry (codes "combo_entry6") (shown_section value) ∷ [])
unfolding field_settings widget_of
field_settings-section value = ground arith

-- What the editor's window shows of the lines 3 to 21, each text less the spaces at its start.
unfoldable pub shown_fields : Student → List Setting
shown_fields e =
    entry (codes "entry2") (skip_space e.student_name)
    ∷ entry (codes "entry3") (skip_space e.father_name)
    ∷ entry (codes "entry4") (skip_space e.mother_name)
    ∷ entry (codes "combo_entry1") (skip_space e.group)
    ∷ entry (codes "entry5") (skip_space e.session)
    ∷ entry (codes "combo_entry2") (skip_space e.board)
    ∷ entry (codes "entry6") (decimal_4 (strtol e.class_roll))
    ∷ entry (codes "combo_entry3") e.day_of_birth
    ∷ entry (codes "combo_entry4") e.month_of_birth
    ∷ entry (codes "combo_entry5") e.year_of_birth
    ∷ entry (codes "entry7") (decimal_4 (strtol e.tot_list))
    ∷ entry (codes "combo_entry6") (shown_section (skip_space e.section))
    ∷ entry (codes "entry8") (skip_space e.college_code)
    ∷ entry (codes "entry9") (skip_space e.college_name)
    ∷ entry (codes "combo_entry7") (skip_space e.previous_board)
    ∷ entry (codes "entry10") (skip_space e.previous_year)
    ∷ entry (codes "entry11") (skip_space e.previous_roll)
    ∷ entry (codes "entry12") (skip_space e.previous_reg)
    ∷ entry (codes "entry13") e.previous_sess_start
    ∷ entry (codes "entry14") e.previous_sess_end
    ∷ entry (codes "combo_entry8") (skip_space e.gender)
    ∷ entry (codes "combo_entry9") (skip_space e.religion)
    ∷ []

number-kept : (z : ℤ) (n : ℕ) → z ≡ pos n → skip_space (decimal_4 z) ≡ decimal_4 z
number-kept z n e = rw e (digits-kept _ (decimal_4-AllDigits n))

fields_from-labelled :
    (e : Student) → IsSendable e → IsEditable e → fields_from 3 (labelled e) ≡ some (shown_fields e)
unfolding labelled line_settings widget_of shown_fields
fields_from-labelled e h k = rw (birth_settings-birthdate e k) (
    rw (session_settings-previous e h k) (
      rw (number-kept _ h.roll h.class_roll) (
        rw (number-kept _ h.serial h.tot_list)
          (rw (field_settings-section (skip_space e.section)) refl))))

load_student_info-split :
    (head : Bytes) (ls : List Bytes)
    → length head ≤ 78
    → AllFormLines (head ∷ [] ∷ ls)
    → load_student_info (wire (head ∷ [] ∷ ls)) ≡ all_settings 3 ls
unfolding load_student_info wire fgets
load_student_info-split head ls h (good, (empty, goods)) =
    let size = length-append head (b'\n' ∷ []) in
    let size' = length-append (line_of head) (b'\n' ∷ wire ls) in
    let enough =
      load_loop-wire (length (line_of head ++ (b'\n' ∷ wire ls)) + 1) 3 ls goods
        (omega (arith, length-wire ls)) in
    rw (fgets-line_of 119 head (b'\n' ∷ wire ls) good.one_line good.fits) (rw enough (ground arith))

AllFormLines-drop : (a b : List Bytes) → AllFormLines (a ++ b) → AllFormLines b
AllFormLines-drop [] b h = h
AllFormLines-drop (l ∷ ls) b (_, h) = AllFormLines-drop ls b h

all_settings-photo :
    (photo : Bytes)
    → IsFormLine (codes "PHOTO " ++ photo)
    → is_one_line photo ≡ true
    → length photo ≤ 79
    → all_settings 39 ((codes "PHOTO " ++ photo) ∷ []) ≡ some (photo_settings (skip_space photo))
unfolding all_settings line_settings
all_settings-photo photo good line short =
    rw (load_line-line 39 (codes "PHOTO") photo good refl line short)
      (ap some (append-nil (photo_settings (skip_space photo))))

-- Of a file that `verify_form` writes for a form whose entries have the lengths of the window's, whose
-- header has at most 78 bytes and whose texts and photo have at most 79, whose texts have no '\r', and
-- whose day, month and year of birth have at most two, three and four bytes, with no '-' in a part of a
-- date and no empty part before another: `load_student_info` never writes behind a buffer, and shows
-- each entry in the widget that it comes from as the file has it, less the spaces at its start and with
-- the class roll and the list number padded to four digits, with a blank for a section that is a
-- blank, the 17 codes, each with its tip if it is above 100, and the photo, if there is one.
pub load_student_info-form_lines :
    (photo : Bytes) (e : Student)
    → IsSendable e
    → IsEditable e
    → IsText 99 photo
    → (is_one_line photo ≡ true) × (length photo ≤ 79)
    → load_student_info (wire (form_lines (codes "0") photo e))
      ≡ some (shown_fields e ++ (subs_from 22 e.subs ++ photo_settings (skip_space photo)))
unfolding form_lines
load_student_info-form_lines photo e h k p (line, short) =
    let goods = form_lines-AllFormLines (codes "0") photo e h (refl, omega arith) p in
    let last = (codes "PHOTO " ++ photo) ∷ [] in
    let subs = sub_lines 0 e.subs ++ last in
    let subs_good = AllFormLines-drop (label_lines (labelled e)) subs goods.1.1 in
    load_student_info-split (header (codes "0") e) (label_lines (labelled e) ++ subs) k.header_fits
      goods
    ∙ all_settings-label_lines 3 (labelled e) subs goods.1.1 k.texts
    ∙ ap (λ a. and_then a (all_settings 22 subs)) (fields_from-labelled e h k)
    ∙ ap (and_then (some (shown_fields e))) (
        all_settings-sub_lines 22 0 e.subs last subs_good k.codes_shown (omega arith)
          (omega (arith, h.all_subs)) (omega (arith, h.all_subs))
        ∙ ap (and_then (some (subs_from 22 e.subs))) (
            numbered (22 + length e.subs) 39 last (omega (arith, h.all_subs))
            ∙ all_settings-photo photo (AllFormLines-drop (sub_lines 0 e.subs) last subs_good).0
                line short))
