-- ===== src/Window/Query.antt =====
-- project2/src/myfuncs.c, `query`, and the handlers of its window: the session and the code of the
-- college are asked for before the form is opened. In Table the colleges are read from their file.
pub mod Table
pub mod Texts
pub mod Years
pub mod Settles
pub mod Sound
pub mod Passed
mod Tests
use esif_client_server.Common.{
  ℕ, zero, suc, ◌++◌, Bool, true, false, ◌&&◌, ◌||◌, List, [], ◌∷◌, Option, none, some, Bytes,
  codes, length, ltb, leb, ◌==◌, if◌then◌else◌, ℤ, pos, eq_int, is_digit, strtol, decimal_4,
}
use esif_client_server.Session.{M, ◌>>=◌, ◌>>◌, return, next, spent, fault_if}
use esif_client_server.Window.{Toolkit, Widget, entry, button, cut}
use esif_client_server.Window.Handlers.{valid_part, plus_one}

-- `colhtable`, the last insertion of a code first.
unfoldable pub lookup_college : List (ℤ × Bytes) → ℤ → Option Bytes
lookup_college [] code = none
lookup_college ((c, name) ∷ more) code =
    let rest = lookup_college more code in if eq_int c code then some name else rest

unfoldable pub lookup_college_by_code : List (ℤ × Bytes) → Bytes → Option Bytes
unfolding lookup_college strtol
lookup_college_by_code table code = lookup_college table (strtol code)

abbrev pub is_some : Option Bytes → Bool
is_some none = false
is_some (some name) = true

-- "entry2" and "entry1"
pub data Ask : Type 0 where
  session_entry : Ask
  code_entry : Ask

-- `name` is the text of "label4", `ok_shown` tells whether "button1" is visible.
pub record Query : Type 0 where
  pub session : Bytes
  pub code : Bytes
  pub code_editable : Bool
  pub name : Bytes
  pub name_shown : Bool
  pub ok_shown : Bool
  pub focus : Option Widget
  pub prevlen : ℕ

-- `query`
unfoldable pub opened : Query
opened = record {
  session = [];
  code = [];
  code_editable = false;
  name = [];
  name_shown = false;
  ok_shown = false;
  focus = none;
  prevlen = 0;
}

abbrev pub text_in : Ask → Query → Bytes
text_in session_entry s = s.session
text_in code_entry s = s.code

abbrev pub max_in : Ask → ℕ
max_in session_entry = 9
max_in code_entry = 4

abbrev pub put_in : Ask → Bytes → Query → Query
put_in session_entry t s = record s { session = t }
put_in code_entry t s = record s { code = t }

abbrev pub is_session : ℕ → Bool
is_session c = is_digit c || c == b'-'

-- "%04d-%04d"
unfoldable pub two_years : ℤ → Bytes
unfolding decimal_4
two_years n = decimal_4 n ++ (b'-' ∷ decimal_4 (plus_one n))

module _ (G : Toolkit) (emit : Ask → M Query (Unit {0})) where
  unfoldable pub replace_each : Ask → List Bytes → M Query (Unit {0})
  replace_each w [] = return tt
  replace_each w (t ∷ ts) = (λ s. emit w (put_in w t s)) >> replace_each w ts

  -- gtk_entry_set_text()
  unfoldable pub set_text_in : Ask → Bytes → M Query (Unit {0})
  unfolding replace_each
  set_text_in w text s = replace_each w (G.signals (text_in w s) (cut (max_in w) text)) s

-- `markup` is the text of the label after gtk_label_set_markup() with that name in a <span>.
unfoldable pub show_college : (Bytes → Bytes → Bytes) → Option Bytes → M Query (Unit {0})
show_college markup none s =
    (next tt, record s { name = codes "No matching college name"; ok_shown = false })
show_college markup (some name) s =
    (next tt, record s { name = markup s.name name; ok_shown = true; focus = some (button 1) })

-- `if (prevlen < strlen(val)) prevlen = strlen(val);`
abbrev pub longer : Bytes → Query → Query
longer val s = record s { prevlen = if ltb s.prevlen (length val) then length val else s.prevlen }

unfoldable pub open_code : List (ℤ × Bytes) → ℕ → M Query (Unit {0})
unfolding lookup_college_by_code
open_code table i s = (
  next tt,
  record s {
    code_editable = true;
    focus = if i == 9 then some (entry 1) else s.focus;
    ok_shown = is_some (lookup_college_by_code table s.code) || s.ok_shown;
  },
)

module _ (G : Toolkit) (markup : Bytes → Bytes → Bytes) (table : List (ℤ × Bytes)) where
  module _ (emit : Ask → M Query (Unit {0})) where
    unfoldable pub q_col_entry_changed : M Query (Unit {0})
    unfolding set_text_in show_college lookup_college_by_code
    q_col_entry_changed = do
      λ s. (next tt, record s { name_shown = true })
      codestr ← λ s. (next (valid_part is_digit s.code), s)
      set_text_in G emit code_entry codestr
      show_college markup (lookup_college_by_code table codestr)

    -- The years of a session of four bytes, unless the text was longer before; `char buf[10]`. The
    -- result is `i`.
    unfoldable pub complete_session : Bytes → M Query ℕ
    unfolding set_text_in two_years
    complete_session val s =
        if length val == 4 && leb s.prevlen 4
        then (do
          fault_if (ltb 9 (length (two_years (strtol val))))
          set_text_in G emit session_entry (two_years (strtol val))
          return 9)
            s
        else (next (length val), s)

    unfoldable pub after_session : Bytes → M Query (Unit {0})
    unfolding complete_session open_code
    after_session val s =
        if ltb (length val) 4
        then (next tt, record s { code_editable = false; ok_shown = false })
        else (do i ← complete_session val; open_code table i) s

    unfoldable pub q_sess_entry_changed : M Query (Unit {0})
    unfolding set_text_in after_session
    q_sess_entry_changed = do
      val ← λ s. (next (valid_part is_session s.session), s)
      set_text_in G emit session_entry val
      λ s. after_session val (longer val s)

  -- The signal of an entry, with that many handlers in one another.
  unfoldable pub q_changed : ℕ → Ask → M Query (Unit {0})
  unfolding q_col_entry_changed q_sess_entry_changed
  q_changed zero w s = (spent, s)
  q_changed (suc n) session_entry s = q_sess_entry_changed (q_changed n) s
  q_changed (suc n) code_entry s = q_col_entry_changed (q_changed n) s

  -- What is typed into an entry, which takes nothing if it is not editable.
  unfoldable pub type_in : Ask → Bytes → M Query (Unit {0})
  unfolding q_changed
  type_in session_entry t s = q_changed 3 session_entry (record s { session = cut 9 t })
  type_in code_entry t s =
      if s.code_editable then q_changed 3 code_entry (record s { code = cut 4 t }) else (next tt, s)

  unfoldable pub type_all : List (Ask × Bytes) → M Query (Unit {0})
  unfolding type_in
  type_all [] = return tt
  type_all ((w, t) ∷ more) = do type_in w t; type_all more

-- `all_col_code`, `all_colcode`, `all_col_name` and `all_session`.
pub record Globals : Type 0 where
  pub col_code : ℤ
  pub colcode : Bytes
  pub col_name : Bytes
  pub session : Bytes

-- `q_okbutton_clicked` until the window of the form is made: `none` is a write behind a buffer.
unfoldable pub q_okbutton_clicked : Query → Option Globals
unfolding strtol decimal_4
q_okbutton_clicked s =
    let col_code = strtol s.code in
    let years = valid_part is_digit s.session in
    if ltb 4 (length s.code)
      || (ltb 4 (length (decimal_4 col_code)) || (ltb 70 (length s.name) || ltb 4 (length years)))
    then none
    else some (record {
      col_code = col_code;
      colcode = decimal_4 col_code;
      col_name = s.name;
      session = years;
    })
