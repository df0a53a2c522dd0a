-- ===== src/Window.antt =====
-- project2/src/callbacks.c: the window of the form, as far as its handlers read and change it, and the
-- calls of GTK that they make. A handler of "changed" that sets a text causes "changed" again, so the
-- handlers take the emission as an argument. For which texts GTK emits is a parameter with laws.
pub mod Chars
pub mod Handlers
pub mod Entries
pub mod Ignored
pub mod Query
mod Tests
pub mod Clean
pub mod Settles
pub mod Example
use esif_client_server.Common.{
  ℕ, ◌+◌, ◌++◌, ◌≡◌, ◌⊎◌, Bool, true, false, not, ◌&&◌, ◌||◌, List, [], ◌∷◌, Option, none, some,
  Bytes, bytes_eq, codes, length, ltb, ◌==◌, if◌then◌else◌, ℤ, pos, eq_int,
}
use esif_client_server.Session.{M, ◌>>=◌, ◌>>◌, return, next}
use esif_client_server.Window.Chars.{first_chars}

-- The widgets by their names: "entry2", "combo_entry1", "combo7", "button3".
pub data Widget : Type 0 where
  entry : ℕ → Widget
  combo_entry : ℕ → Widget
  combo : ℕ → Widget
  button : ℕ → Widget

unfoldable pub same : Widget → Widget → Bool
same (entry n) (entry m) = n == m
same (combo_entry n) (combo_entry m) = n == m
same (combo n) (combo m) = n == m
same (button n) (button m) = n == m
same v w = false

-- `present` says which widgets lookup_widget() finds, and `subentries` is the data of "combo_entry1".
-- A maximal length of 0 is none.
pub record Window : Type 0 where
  pub text : Widget → Bytes
  pub max_length : Widget → ℕ
  pub editable : Widget → Bool
  pub sensitive : Widget → Bool
  pub tip : Widget → Bytes
  pub focus : Option Widget
  pub present : Widget → Bool
  pub subentries : Option (List Widget)

abbrev pub update : {A : Type 0} → Widget → A → (Widget → A) → Widget → A
update w a f v = if same v w then a else f v

-- `if (ptr) ...`, for a widget that is looked up.
abbrev pub if_present : Widget → M Window (Unit {0}) → M Window (Unit {0})
if_present w m s = if s.present w then m s else (next tt, s)

-- gtk_widget_grab_focus()
unfoldable pub grab_focus : Widget → M Window (Unit {0})
grab_focus w s = (next tt, record s { focus = some w })

unfoldable pub set_editable : Widget → Bool → M Window (Unit {0})
set_editable w b s = (next tt, record s { editable = update w b s.editable })

unfoldable pub set_sensitive : Widget → Bool → M Window (Unit {0})
set_sensitive w b s = (next tt, record s { sensitive = update w b s.sensitive })

-- The subject names that `lookup_subject_by_code` finds.
module _ (subject : ℤ → Option Bytes) where
  abbrev pub tip_of : ℤ → Bytes
  tip_of code =
      if eq_int code (pos 0)
      then codes "3 digits"
      else elim (subject code) [ none ↦ codes "Unknown" | some name ↦ name ]

  unfoldable pub set_sub_tip : Widget → ℤ → M Window (Unit {0})
  set_sub_tip w code s = (next tt, record s { tip = update w (tip_of code) s.tip })

-- A text as an entry takes it, by its characters in UTF-8.
abbrev pub cut : ℕ → Bytes → Bytes
cut max text = if max == 0 then text else first_chars max text

unfoldable pub put_text : Widget → Bytes → Window → Window
put_text w text s = record s { text = update w text s.text }

-- The texts for which an entry emits "changed" when its text is replaced: they end in the new text,
-- and what comes before is that text or the empty one, as the old text may be deleted first.
abbrev pub LeadsTo : Bytes → List Bytes → Type 0
LeadsTo new [] = ⊥
LeadsTo new (t ∷ []) = t ≡ new
LeadsTo new (t ∷ (u ∷ more)) = ((t ≡ []) ⊎ (t ≡ new)) × LeadsTo new (u ∷ more)

-- GTK: the signals of gtk_entry_set_text(), which does nothing for the text that is there.
pub record Toolkit : Type 0 where
  pub signals : Bytes → Bytes → List Bytes
  pub unchanged : (t : Bytes) → signals t t ≡ []
  pub replaced : (old new : Bytes) → bytes_eq old new ≡ false → LeadsTo new (signals old new)

module _ (G : Toolkit) (emit : Widget → M Window (Unit {0})) where
  -- The text in place, and the handlers.
  unfoldable pub put_and_emit : Widget → Bytes → M Window (Unit {0})
  unfolding put_text
  put_and_emit w text s = emit w (put_text w text s)

  abbrev pub put_each : Widget → List Bytes → M Window (Unit {0})
  put_each w [] = return tt
  put_each w (t ∷ ts) = put_and_emit w t >> put_each w ts

  -- gtk_entry_set_text()
  unfoldable pub set_entry_text : Widget → Bytes → M Window (Unit {0})
  unfolding put_and_emit
  set_entry_text w text s = put_each w (G.signals (s.text w) (cut (s.max_length w) text)) s

  -- gtk_entry_set_max_length(), which cuts the text.
  unfoldable pub set_max_length : Widget → ℕ → M Window (Unit {0})
  unfolding put_and_emit
  set_max_length w max s =
      put_each w (G.signals (s.text w) (cut max (s.text w)))
        (record s { max_length = update w max s.max_length })
