-- ===== src/Editor/Files.antt =====
-- The rows of a directory of saved forms.
use esif_client_server.Common.{
  ℕ, ◌<◌, ◌≤◌, ◌≡◌, refl, sym, ap, ◌∙◌, ◌++◌, ◌⊎◌, inl, inr, append_assoc, Bool-cases, true, false,
  List, [], ◌∷◌, Option, some, Bytes, bytes_eq, codes, c_string, length, length-append, drop,
  drop-length, ==_iff, map, line_of, wire, ◌==◌, ℤ, pos, strtol, decimal_4, arith,
}
use esif_client_server.Session.Upload.Lines.{has_nul-line_of}
use esif_client_server.Form.Entries.{Student}
use esif_client_server.Form.File.{header, form_lines}
use esif_client_server.Form.File.Sendable.{IsText, IsSendable, header-IsFormLine}
use esif_client_server.Form.Verify.{form_name}
use esif_client_server.Form.Name.{length-form_name}
use esif_client_server.Form.Text.{construct_filename, section_code, group_code, gender_code}
use esif_client_server.Client.Header.{fgets}
use esif_client_server.Client.Steps.{fgets-line_of, c_string_lem}
use esif_client_server.Client.Marking.{HasHeader}
use esif_client_server.Editor.Rows.{
  Row, read_row, row_read, is_info_name, with_row, add_file, editor_load_data, taken_names,
  row_filename,
}
use esif_client_server.Editor.Header.{row_of, IsFlag, read_row-header}

-- A file that holds a saved form, sent or not, under the form's name.
pub record IsForm (name text : Bytes) : Type 0 where
  pub e : Student
  pub photo : Bytes
  pub flag : Bytes
  pub sent : ℤ
  pub is_flag : IsFlag flag sent
  pub sendable : IsSendable e
  pub headed : HasHeader e
  pub header_fits : length (header flag e) ≤ 78
  pub section_fits : length e.section ≡ 1
  pub name_is : name ≡ form_name e
  pub text_is : text ≡ wire (form_lines flag photo e)

pub row_of_form : {name text : Bytes} → IsForm name text → Row
row_of_form f = row_of f.sendable.roll f.sendable.serial f.sent f.e

flag_text : (flag : Bytes) (sent : ℤ) → IsFlag flag sent → IsText 1 flag
flag_text flag sent (inl (e, f)) = rw e (refl, omega arith)
flag_text flag sent (inr (e, f)) = rw e (refl, omega arith)

-- Each file is a saved form, or its name is not taken.
abbrev pub AllForms : List (Bytes × Bytes) → Type 0
AllForms [] = Unit {0}
AllForms ((name, text) ∷ files) = (IsForm name text ⊎ (is_info_name name ≡ false)) × AllForms files

row_filename-row_of :
    (e : Student) (h : IsSendable e) (sent : ℤ)
    → row_filename (row_of h.roll h.serial sent e) ≡ form_name e
unfolding row_filename form_name
row_filename-row_of e h sent =
    ap (λ z. construct_filename e.gender z e.section (pos h.serial) e.group) (sym h.class_roll)
    ∙ ap (λ z. construct_filename e.gender (strtol e.class_roll) e.section z e.group)
        (sym h.tot_list)

is_info_name-append :
    (c : ℕ) (cs : Bytes)
    → (c == b'.') ≡ false
    → length (c ∷ (cs ++ codes ".txt")) ≡ 19
    → is_info_name (c ∷ (cs ++ codes ".txt")) ≡ true
unfolding is_info_name bytes_eq
is_info_name-append c cs h k =
    let size : length (c ∷ cs) ≡ 15 = omega (arith, length-append cs (codes ".txt")) in
    let ending : drop 15 ((c ∷ cs) ++ codes ".txt") ≡ codes ".txt" =
      ap (λ n. drop n ((c ∷ cs) ++ codes ".txt")) (sym size)
      ∙ drop-length (c ∷ cs) (codes ".txt") in
    let whole : (length (c ∷ (cs ++ codes ".txt")) == 19) ≡ true = (==_iff _ 19).1 k in
    rw h (rw whole (rw ending refl))

-- What stands between the letter of the gender and ".txt".
abbrev middle : Student → Bytes
middle e =
    codes "_"
    ++ (decimal_4 (strtol e.class_roll)
        ++ (codes "_"
            ++ (section_code e.section
                ++ (codes "_"
                    ++ (decimal_4 (strtol e.tot_list) ++ (codes "_" ++ group_code e.group))))))

form_name-middle : (e : Student) → form_name e ≡ gender_code e.gender ++ (middle e ++ codes ".txt")
unfolding form_name construct_filename
form_name-middle e = simp append_assoc refl

is_info_name-form_name :
    (e : Student) → IsSendable e → length e.section ≡ 1 → is_info_name (form_name e) ≡ true
unfolding gender_code
is_info_name-form_name e h one =
    let size = length-form_name e h one in
    elim (Bool-cases (bytes_eq e.gender (codes "Male"))) [
      | inl m ↦
          let spelt : form_name e ≡ b'M' ∷ (middle e ++ codes ".txt") =
            form_name-middle e ∙ rw m refl in
          rw spelt (is_info_name-append b'M' (middle e) refl (sym (ap length spelt) ∙ size))
      | inr f ↦
          let spelt : form_name e ≡ b'F' ∷ (middle e ++ codes ".txt") =
            form_name-middle e ∙ rw f refl in
          rw spelt (is_info_name-append b'F' (middle e) refl (sym (ap length spelt) ∙ size))
    ]

row_of_form-names :
    {name text : Bytes} (f : IsForm name text) (rows : List Row) (names : List Bytes)
    → map row_filename rows ≡ names
    → map row_filename (row_of_form f ∷ rows) ≡ name ∷ names
unfolding row_of_form
row_of_form-names {name} f rows names h =
    let own : row_filename (row_of f.sendable.roll f.sendable.serial f.sent f.e) ≡ name =
      row_filename-row_of f.e f.sendable f.sent ∙ sym f.name_is in
    rw (own, h) refl

add_file-text :
    (text : Bytes) (rows : Option (List Row))
    → 0 < length text
    → add_file text rows ≡ with_row (row_read (read_row (c_string (fgets 79 text).0))) rows
unfolding add_file
add_file-text [] rows h = absurd (omega arith)
add_file-text (c ∷ cs) rows h = refl

add_file-IsForm :
    (name text : Bytes) (f : IsForm name text) (rows : Option (List Row))
    → add_file text rows ≡ with_row (some (row_of_form f)) rows
unfolding form_lines wire row_of_form
add_file-IsForm name text f rows =
    let head = header f.flag f.e in
    let more = wire (drop 1 (form_lines f.flag f.photo f.e)) in
    let good = header-IsFormLine f.flag f.e f.sendable (flag_text f.flag f.sent f.is_flag) in
    let line = fgets-line_of 79 head more good.one_line (let k = f.header_fits in omega arith) in
    let all = c_string_lem (line_of head) (has_nul-line_of head good.no_nul) in
    let row = read_row-header f.flag f.sent f.e f.sendable f.headed f.is_flag in
    ap (λ t. add_file t rows) f.text_is
    ∙ add_file-text (line_of head ++ more) rows
        (omega (arith, length-append (line_of head) more, length-append head (b'\n' ∷ [])))
    ∙ ap (λ l. with_row (row_read (read_row (c_string l.0))) rows) line
    ∙ ap (λ l. with_row (row_read (read_row l)) rows) all
    ∙ ap (λ r. with_row (row_read r) rows) row

-- In a directory whose files are saved forms under their names, or have names that are not taken, each
-- form has its row, in the order
-- of the directory, and the name that is constructed from a row is that of its file.
pub record Lists (files : List (Bytes × Bytes)) : Type 0 where
  pub rows : List Row
  pub loads : editor_load_data (λ name. true) files ≡ some rows
  pub names : map row_filename rows ≡ taken_names files

pub editor_load_data-Lists : (files : List (Bytes × Bytes)) → AllForms files → Lists files
unfolding editor_load_data taken_names
editor_load_data-Lists [] h = record { rows = []; loads = refl; names = refl }
editor_load_data-Lists ((name, text) ∷ files) (inr skipped, h) =
    let l = editor_load_data-Lists files h in
    record { rows = l.rows; loads = rw skipped l.loads; names = rw skipped l.names }
editor_load_data-Lists ((name, text) ∷ files) (inl f, h) =
    let l = editor_load_data-Lists files h in
    let taken : is_info_name name ≡ true =
      ap is_info_name f.name_is ∙ is_info_name-form_name f.e f.sendable f.section_fits in
    record {
      rows = row_of_form f ∷ l.rows;
      loads = rw taken (
          add_file-IsForm name text f (editor_load_data (λ name. true) files)
          ∙ ap (with_row (some (row_of_form f))) l.loads);
      names = rw taken (row_of_form-names f l.rows (taken_names files) l.names);
    }
