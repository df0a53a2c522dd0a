-- ===== src/Window/Ignored.antt =====
-- project2/src/callbacks.c: the boxes that switch entries of the form off, with the globals that tell
-- `verify_form` and `apply_form` to ignore them.
use esif_client_server.Common.{
  ◌≡◌, Bool, true, false, not, ◌&&◌, ◌||◌, List, [], ◌∷◌, if◌then◌else◌, arith,
}
use esif_client_server.Window.{Widget, entry, combo, button, same, Window, update}

-- The globals "ignore_...", by what they ignore.
pub record Ignored : Type 0 where
  pub fa_name : Bool
  pub mo_name : Bool
  pub birthdate : Bool
  pub totlist : Bool
  pub prev_year : Bool
  pub prev_roll : Bool
  pub prev_reg : Bool
  pub prev_sess : Bool
  pub photo : Bool

pub record FormState : Type 0 where
  pub window : Window
  pub ignored : Ignored
  pub is_ssc : Bool

unfoldable pub init_ignored : Ignored
init_ignored = record {
  fa_name = false;
  mo_name = false;
  birthdate = false;
  totlist = false;
  prev_year = false;
  prev_roll = false;
  prev_reg = false;
  prev_sess = false;
  photo = true;
}

-- `if (ptr) gtk_widget_set_sensitive(ptr, b)`
abbrev set_window_sensitive : Widget → Bool → Window → Window
set_window_sensitive w b s = record s {
  sensitive = λ v. if s.present w && same v w then b else s.sensitive v;
}

-- `create_window2` for the picture, and `q_okbutton_clicked` for the entries of the exam before.
unfoldable pub disable_photo : Bool → Window → Window
disable_photo ignore_photo s =
    if ignore_photo then record s { sensitive = update (button 4) false s.sensitive } else s

unfoldable pub disable_previous : Bool → Window → Window
disable_previous is_ssc s =
    if is_ssc
    then set_window_sensitive (entry 14) false (
        set_window_sensitive (entry 13) false (
          set_window_sensitive (entry 12) false (
            set_window_sensitive (entry 11) false
              (set_window_sensitive (entry 10) false (set_window_sensitive (combo 7) false s)))))
    else s

unfoldable pub open_form : Bool → Window → FormState
unfolding init_ignored disable_photo disable_previous
open_form is_ssc s = record {
  window = disable_previous is_ssc (disable_photo init_ignored.photo s);
  ignored = init_ignored;
  is_ssc = is_ssc;
}

-- `gtk_widget_set_sensitive(ptr, 1 ^ GTK_WIDGET_SENSITIVE(ptr))`
unfoldable pub flip : Widget → Window → Window
flip w s = record s { sensitive = update w (not (s.sensitive w)) s.sensitive }

unfoldable pub on_fa_name_toggled : FormState → FormState
unfolding flip
on_fa_name_toggled f =
    if f.window.present (entry 3)
    then record f {
      window = flip (entry 3) f.window;
      ignored = record f.ignored { fa_name = not f.ignored.fa_name };
    }
    else f

unfoldable pub on_mo_name_toggled : FormState → FormState
unfolding flip
on_mo_name_toggled f =
    if f.window.present (entry 4)
    then record f {
      window = flip (entry 4) f.window;
      ignored = record f.ignored { mo_name = not f.ignored.mo_name };
    }
    else f

unfoldable pub on_birthdate_toggled : FormState → FormState
unfolding flip
on_birthdate_toggled f =
    if f.window.present (combo 5)
    then record f {
      window = flip (combo 5) f.window;
      ignored = record f.ignored { birthdate = not f.ignored.birthdate };
    }
    else f

unfoldable pub on_totlist_toggled : FormState → FormState
unfolding flip
on_totlist_toggled f =
    if f.window.present (entry 7)
    then record f {
      window = flip (entry 7) f.window;
      ignored = record f.ignored { totlist = not f.ignored.totlist };
    }
    else f

unfoldable pub on_prev_year_toggled : FormState → FormState
unfolding flip
on_prev_year_toggled f =
    if f.is_ssc
    then f
    else if f.window.present (entry 10)
    then record f {
      window = flip (entry 10) f.window;
      ignored = record f.ignored { prev_year = not f.ignored.prev_year };
    }
    else f

unfoldable pub on_prev_roll_toggled : FormState → FormState
unfolding flip
on_prev_roll_toggled f =
    if f.is_ssc
    then f
    else if f.window.present (entry 11)
    then record f {
      window = flip (entry 11) f.window;
      ignored = record f.ignored { prev_roll = not f.ignored.prev_roll };
    }
    else f

unfoldable pub on_prev_reg_toggled : FormState → FormState
unfolding flip
on_prev_reg_toggled f =
    if f.is_ssc
    then f
    else if f.window.present (entry 12)
    then record f {
      window = flip (entry 12) f.window;
      ignored = record f.ignored { prev_reg = not f.ignored.prev_reg };
    }
    else f

-- The flag changes whether the widgets are found or not.
unfoldable pub on_prev_sess_toggled : FormState → FormState
unfolding flip
on_prev_sess_toggled f =
    if f.is_ssc
    then f
    else (let s = if f.window.present (entry 13) then flip (entry 13) f.window else f.window in
        let t = if s.present (entry 14) then flip (entry 14) s else s in
        record f { window = t; ignored = record f.ignored { prev_sess = not f.ignored.prev_sess } })

unfoldable pub on_photo_toggled : FormState → FormState
unfolding flip
on_photo_toggled f = record f {
  window = if f.window.present (button 4) then flip (button 4) f.window else f.window;
  ignored = record f.ignored { photo = not f.ignored.photo };
}

-- The boxes of the options' window.
pub data Box : Type 0 where
  fa_name_box : Box
  mo_name_box : Box
  birthdate_box : Box
  totlist_box : Box
  prev_year_box : Box
  prev_roll_box : Box
  prev_reg_box : Box
  prev_sess_box : Box
  photo_box : Box

unfoldable pub toggle : Box → FormState → FormState
unfolding on_fa_name_toggled on_mo_name_toggled on_birthdate_toggled on_totlist_toggled
    on_prev_year_toggled on_prev_roll_toggled on_prev_reg_toggled on_prev_sess_toggled
    on_photo_toggled
toggle fa_name_box f = on_fa_name_toggled f
toggle mo_name_box f = on_mo_name_toggled f
toggle birthdate_box f = on_birthdate_toggled f
toggle totlist_box f = on_totlist_toggled f
toggle prev_year_box f = on_prev_year_toggled f
toggle prev_roll_box f = on_prev_roll_toggled f
toggle prev_reg_box f = on_prev_reg_toggled f
toggle prev_sess_box f = on_prev_sess_toggled f
toggle photo_box f = on_photo_toggled f

unfoldable pub toggle_all : List Box → FormState → FormState
unfolding toggle
toggle_all [] f = f
toggle_all (b ∷ bs) f = toggle_all bs (toggle b f)

-- The widgets that the boxes switch, as `create_window2` makes them: all but the one of the date of
-- birth, "combo5", which is not compiled.
pub record AreFound (s : Window) : Type 0 where
  pub fa_name : s.present (entry 3) ≡ true
  pub mo_name : s.present (entry 4) ≡ true
  pub birthdate : s.present (combo 5) ≡ false
  pub totlist : s.present (entry 7) ≡ true
  pub prev_board : s.present (combo 7) ≡ true
  pub prev_year : s.present (entry 10) ≡ true
  pub prev_roll : s.present (entry 11) ≡ true
  pub prev_reg : s.present (entry 12) ≡ true
  pub prev_sess_start : s.present (entry 13) ≡ true
  pub prev_sess_end : s.present (entry 14) ≡ true
  pub photo : s.present (button 4) ≡ true

-- What is ignored is just what cannot be filled in, and the date of birth never is; for the first exam the entries of an exam before
-- are off and no flag is set for them.
pub record Agrees (f : FormState) : Type 0 where
  pub found : AreFound f.window
  pub fa_name : f.ignored.fa_name ≡ not (f.window.sensitive (entry 3))
  pub mo_name : f.ignored.mo_name ≡ not (f.window.sensitive (entry 4))
  pub birthdate : f.ignored.birthdate ≡ false
  pub totlist : f.ignored.totlist ≡ not (f.window.sensitive (entry 7))
  pub prev_year : f.ignored.prev_year ≡ (not f.is_ssc && not (f.window.sensitive (entry 10)))
  pub prev_roll : f.ignored.prev_roll ≡ (not f.is_ssc && not (f.window.sensitive (entry 11)))
  pub prev_reg : f.ignored.prev_reg ≡ (not f.is_ssc && not (f.window.sensitive (entry 12)))
  pub prev_sess : f.ignored.prev_sess ≡ (not f.is_ssc && not (f.window.sensitive (entry 13)))
  pub sess_end : f.window.sensitive (entry 14) ≡ f.window.sensitive (entry 13)
  pub off :
      (f.is_ssc
        && (f.window.sensitive (entry 10)
            || (f.window.sensitive (entry 11)
                || (f.window.sensitive (entry 12) || f.window.sensitive (entry 13)))))
      ≡ false
  pub photo : f.ignored.photo ≡ not (f.window.sensitive (button 4))

toggle-Agrees : (b : Box) (f : FormState) → Agrees f → Agrees (toggle b f)
unfolding toggle same
toggle-Agrees fa_name_box f h = let p = h.found.fa_name in ground arith
toggle-Agrees mo_name_box f h = let p = h.found.mo_name in ground arith
toggle-Agrees birthdate_box f h = let p = h.found.birthdate in ground arith
toggle-Agrees totlist_box f h = let p = h.found.totlist in ground arith
toggle-Agrees prev_year_box f h = let p = h.found.prev_year in ground arith
toggle-Agrees prev_roll_box f h = let p = h.found.prev_roll in ground arith
toggle-Agrees prev_reg_box f h = let p = h.found.prev_reg in ground arith
toggle-Agrees prev_sess_box f h = ground arith
toggle-Agrees photo_box f h = let p = h.found.photo in ground arith

-- At first all but what the picture and the exam switch off is sensitive.
open_form-Agrees :
    (is_ssc : Bool) (s : Window)
    → AreFound s
    → ((w : Widget) → s.sensitive w ≡ true)
    → Agrees (open_form is_ssc s)
unfolding open_form same
open_form-Agrees true s h k =
    let a = k (entry 3) in
    let b = k (entry 4) in let c = k (combo 5) in let d = k (entry 7) in ground arith
open_form-Agrees false s h k =
    let a = k (entry 3) in
    let b = k (entry 4) in
    let c = k (combo 5) in
    let d = k (entry 7) in
    let e = k (entry 10) in
    let f = k (entry 11) in
    let g = k (entry 12) in let i = k (entry 13) in let j = k (entry 14) in ground arith

toggle_all-Agrees : (bs : List Box) (f : FormState) → Agrees f → Agrees (toggle_all bs f)
unfolding toggle_all
toggle_all-Agrees [] f h = h
toggle_all-Agrees (b ∷ bs) f h = toggle_all-Agrees bs (toggle b f) (toggle-Agrees b f h)

-- Whatever boxes are toggled after the form was opened with the widgets that `create_window2` makes,
-- all of them sensitive: the date of birth is never ignored, since its box finds no widget, and each
-- of the eight others is ignored just if its entry cannot be filled in, but for the entries of an exam
-- before in a form for the first exam: those stay switched off, and no flag is set for them.
pub toggled-Agrees :
    (is_ssc : Bool) (s : Window)
    → AreFound s
    → ((w : Widget) → s.sensitive w ≡ true)
    → (bs : List Box) → Agrees (toggle_all bs (open_form is_ssc s))
toggled-Agrees is_ssc s h k bs =
    toggle_all-Agrees bs (open_form is_ssc s) (open_form-Agrees is_ssc s h k)
