-- ===== src/Window/Tests.antt =====
-- The form's window as it is created, texts that are typed into it, and the theorems on it.
use esif_client_server.Common.{
  ℕ, ◌≡◌, refl, true, false, not, List, [], ◌∷◌, Option, none, some, Bytes, codes, map, bytes_eq,
  if◌then◌else◌, ℤ, pos, eq_int, strtol, decimal, ltb, starts_with,
}
use esif_client_server.Session.{fault}
use esif_client_server.Window.Chars.{first_chars}
use esif_client_server.Window.{cut}
use esif_client_server.Window.{
  Widget, entry, combo_entry, Window, same, combo, set_entry_text, grab_focus,
}
use esif_client_server.Window.Example.{toolkit}
use esif_client_server.Window.Handlers.{subentrymap}
use esif_client_server.Window.Entries.{handler_of, type_text, type_texts}
use esif_client_server.Window.Ignored.{
  fa_name_box, prev_sess_box, fa_name_box, photo_box, Agrees, toggle_all, open_form, toggled-Agrees,
}

abbrev numbers : List ℕ
numbers = 15 ∷ 16 ∷ 17 ∷ 18 ∷ 19 ∷ []

abbrev subcodes : List Widget
subcodes = map entry numbers

abbrev max_of : Widget → ℕ
max_of (entry n) = if ltb n 5 then 40 else if ltb n 15 then 4 else 3
max_of w = 0

abbrev window : Window
window = record {
  text = λ w. [];
  max_length = max_of;
  editable = λ w. true;
  sensitive = λ w. true;
  tip = λ w. [];
  focus = some (entry 2);
  present = λ w. not (same w (combo 5));
  subentries = some subcodes;
}

abbrev numbers_in : Bytes → Option (List ℤ)
numbers_in f =
    if bytes_eq f (codes "sub_common_all.txt")
    then some (pos 101 ∷ pos 107 ∷ [])
    else if bytes_eq f (codes "sub_common_sc.txt")
    then some (pos 136 ∷ [])
    else none

abbrev subject : ℤ → Option Bytes
subject code = if eq_int code (pos 101) then some (codes "Bangla") else none

abbrev typed : List (Widget × Bytes)
typed =
    (entry 2, codes "md. Karim7") ∷ (entry 13, codes "2004") ∷ (combo_entry 1, codes "Science") ∷ []

toggled_example : Agrees (
    toggle_all
      (fa_name_box ∷ prev_sess_box ∷ fa_name_box ∷ photo_box ∷ [])
      (open_form false window))
unfolding same
toggled_example =
    toggled-Agrees false window
      (record {
        fa_name = refl;
        mo_name = refl;
        birthdate = refl;
        totlist = refl;
        prev_board = refl;
        prev_year = refl;
        prev_roll = refl;
        prev_reg = refl;
        prev_sess_start = refl;
        prev_sess_end = refl;
        photo = refl;
      })
      (λ w. refl) (fa_name_box ∷ prev_sess_box ∷ fa_name_box ∷ photo_box ∷ [])

-- The name is raised and cut before the digit, and sets the gender; the session sets its end; the
-- group's codes fill the first entries.
typed_run :
    (let s = (type_texts toolkit numbers_in subject typed window).1 in
      map s.text
        (entry 2 ∷ combo_entry 8 ∷ entry 14 ∷ entry 15 ∷ entry 16 ∷ entry 17 ∷ entry 18 ∷ []))
    ≡ codes "MD. KARIM"
      ∷ codes "Male"
      ∷ codes "2005"
      ∷ codes "101"
      ∷ codes "107"
      ∷ codes "136"
      ∷ []
      ∷ []
unfolding type_texts handler_of strtol decimal bytes_eq starts_with same set_entry_text first_chars
    grab_focus subentrymap
typed_run = refl

-- A session that starts in 9999.
session_run : (type_text toolkit numbers_in subject (entry 13) (codes "9999") window).0 ≡ fault
unfolding type_text first_chars handler_of strtol decimal bytes_eq same set_entry_text
session_run = refl

-- A group that is not in the table gets the codes for all groups G.
group_run :
    (let s = (type_text toolkit numbers_in subject (combo_entry 1) (codes "Law") window).1 in
      map s.text (entry 15 ∷ entry 16 ∷ entry 17 ∷ entry 18 ∷ entry 19 ∷ []))
    ≡ codes "101" ∷ codes "107" ∷ codes "101" ∷ codes "107" ∷ [] ∷ []
unfolding type_text first_chars handler_of strtol decimal bytes_eq same set_entry_text grab_focus
    subentrymap
group_run = refl

-- Two characters of two bytes each.
cut_run : cut 2 (195 ∷ (169 ∷ (195 ∷ (169 ∷ codes "A")))) ≡ 195 ∷ (169 ∷ (195 ∷ (169 ∷ [])))
unfolding first_chars
cut_run = refl
