-- ===== src/Editor/Tests.antt =====
-- The editor at a concrete form, and the theorem on it there.
use esif_client_server.Common.{
  ◌≡◌, refl, ◌++◌, Bool, true, ◌&&◌, leb, length, pos, List, [], ◌∷◌, some, Bytes, codes, wire,
  strtol, bytes_eq, decimal, decimal_4, c_string, inl, inr, get_elem?, arith,
}
use esif_client_server.Form.File.{header, labelled, form_lines}
use esif_client_server.Form.Example.{student, subject_codes, student-IsSendable}
use esif_client_server.Editor.{
  entry, sub_tip, load_line, scan_value, photo_settings, load_student_info,
}
use esif_client_server.Editor.Shown.{AllShown, AllLines, subs_from}
use esif_client_server.Editor.Load.{is_label}
use esif_client_server.Session.Upload.Stored.{is_one_line}
use esif_client_server.Form.Text.{construct_filename}
use esif_client_server.Form.Verify.{form_name}
use esif_client_server.Client.Example.{student-HasHeader}
use esif_client_server.Editor.Rows.{Row, row_filename, taken_names, editor_load_data}
use esif_client_server.Editor.Listing.{Listing, editor_delete_clicked, editor_edit_clicked}
use esif_client_server.Editor.Files.{IsForm}
use esif_client_server.Editor.Recycled.{IsShown, Deleted, editor_delete_clicked-Deleted}
use esif_client_server.Editor.RoundTrip.{IsEditable, shown_fields, load_student_info-form_lines}

code_run :
    load_line 22 (codes "SUB_01 101\n")
    ≡ some (entry (codes "entry15") (codes "101") ∷ sub_tip (codes "entry15") (pos 101) ∷ [])
unfolding load_line scan_value c_string strtol decimal
code_run = refl

-- A day that is empty takes the month and the year with it.
birth_run :
    load_line 10 (codes "BIRTHDATE -Jan-1988\n")
    ≡ some (
        entry (codes "combo_entry3") []
        ∷ entry (codes "combo_entry4") []
        ∷ entry (codes "combo_entry5") []
        ∷ [])
unfolding load_line scan_value c_string
birth_run = refl

abbrev all_shown : List (Bytes × Bytes) → Bool
all_shown [] = true
all_shown ((label, text) ∷ more) =
    is_label label && (is_one_line text && (leb (length text) 79 && all_shown more))

shown : (fields : List (Bytes × Bytes)) → all_shown fields ≡ true → AllShown fields
shown [] h = tt
shown ((label, text) ∷ more) h =
    (ground arith, (ground arith, (ground arith, shown more (ground arith))))

abbrev all_lines : List Bytes → Bool
all_lines [] = true
all_lines (t ∷ ts) = is_one_line t && (leb (length t) 79 && all_lines ts)

lines : (ts : List Bytes) → all_lines ts ≡ true → AllLines ts
lines [] h = tt
lines (t ∷ ts) h = (ground arith, (ground arith, lines ts (ground arith)))

student-IsEditable : IsEditable student
unfolding header labelled strtol decimal_4
student-IsEditable = record {
  day = (refl, refl, omega arith);
  month = (refl, omega arith);
  year = refl;
  day_fits = omega arith;
  month_fits = omega arith;
  year_fits = omega arith;
  sess_start = (refl, refl, omega arith);
  sess_end = refl;
  texts = shown (labelled student) refl;
  codes_shown = lines subject_codes refl;
  header_fits = omega arith;
}

load_student_info_example :
    load_student_info (wire (form_lines (codes "0") [] student))
    ≡ some (shown_fields student ++ (subs_from 22 student.subs ++ photo_settings []))
load_student_info_example =
    load_student_info-form_lines [] student student-IsSendable student-IsEditable
      (refl, omega arith) (refl, omega arith)

student-IsForm : IsForm (form_name student) (wire (form_lines (codes "0") [] student))
unfolding header strtol decimal_4
student-IsForm = record {
  e = student;
  photo = [];
  flag = codes "0";
  sent = pos 0;
  is_flag = inl (refl, refl);
  sendable = student-IsSendable;
  headed = student-HasHeader;
  header_fits = omega arith;
  section_fits = refl;
  name_is = refl;
  text_is = refl;
}

abbrev student_row : Row
student_row = record {
  roll = pos 12;
  st_name = codes "Rahim Uddin";
  section = codes "A";
  gender = codes "Male";
  tot_list = pos 3;
  group = codes "Science";
  sent = pos 0;
}

abbrev listing : Listing
listing = record {
  folder = record {
    files =
        (codes "photo.jpg", [])
        ∷ (form_name student, wire (form_lines (codes "0") [] student))
        ∷ [];
    recycled = [];
  };
  rows = student_row ∷ [];
  selected = some student_row;
}

listing-IsShown : IsShown listing
unfolding editor_load_data header decimal_4 strtol form_name construct_filename bytes_eq wire
    form_lines c_string
listing-IsShown = record { forms = (inr refl, (inl student-IsForm, tt)); shown = refl }

at_0 : get_elem? listing.rows 0 ≡ some student_row
at_0 = refl

recycled_example :
    (editor_edit_clicked (codes "d/") listing ≡ some (codes "d/" ++ row_filename student_row))
    × (get_elem? (taken_names listing.folder.files) 0 ≡ some (row_filename student_row))
    × ((t : Listing) × (editor_delete_clicked (λ name. true) true listing ≡ some t)
        × Deleted listing student_row t)
recycled_example =
    editor_delete_clicked-Deleted (codes "d/") listing 0 student_row listing-IsShown at_0 refl
