-- ===== src/Window/Entries.antt =====
-- project2/src/callbacks.c: the handlers of "changed" by the widget that each is connected to, as
-- project2/src/interface.c connects them, and what a signal does.
use esif_client_server.Common.{
  ℕ, zero, suc, true, false, List, [], ◌∷◌, Option, none, some, Bytes, ℤ,
}
use esif_client_server.Session.{M, ◌>>◌, return, spent}
use esif_client_server.Window.{Toolkit, Widget, entry, combo_entry, button, Window, cut, put_text}
use esif_client_server.Window.Handlers.{
  Handler, name_changed, upper_changed, full_changed, digits_changed, session_changed, sub_changed,
  group_changed, board_changed, nothing_changed, run,
}

abbrev pub on_entry2_changed : Handler
on_entry2_changed = name_changed true

abbrev pub on_entry3_changed : Handler
on_entry3_changed = name_changed false

abbrev pub on_entry4_changed : Handler
on_entry4_changed = name_changed false

abbrev pub on_entry5_changed : Handler
on_entry5_changed = full_changed (entry 6)

abbrev pub on_entry6_changed : Handler
on_entry6_changed = digits_changed (some 4) (combo_entry 3)

abbrev pub on_entry7_changed : Handler
on_entry7_changed = digits_changed (some 4) (combo_entry 6)

abbrev pub on_entry8_changed : Handler
on_entry8_changed = full_changed (entry 9)

abbrev pub on_entry9_changed : Handler
on_entry9_changed = upper_changed

abbrev pub on_entry10_changed : Handler
on_entry10_changed = digits_changed (some 4) (entry 11)

abbrev pub on_entry11_changed : Handler
on_entry11_changed = digits_changed none (entry 12)

abbrev pub on_entry12_changed : Handler
on_entry12_changed = digits_changed none (entry 13)

abbrev pub on_entry13_changed : Handler
on_entry13_changed = session_changed

abbrev pub on_entry14_changed : Handler
on_entry14_changed = digits_changed (some 4) (combo_entry 8)

abbrev pub on_entry15_changed : Handler
on_entry15_changed = sub_changed (entry 16)

abbrev pub on_entry16_changed : Handler
on_entry16_changed = sub_changed (entry 17)

abbrev pub on_entry17_changed : Handler
on_entry17_changed = sub_changed (entry 18)

abbrev pub on_entry18_changed : Handler
on_entry18_changed = sub_changed (entry 19)

abbrev pub on_entry19_changed : Handler
on_entry19_changed = sub_changed (entry 20)

abbrev pub on_entry20_changed : Handler
on_entry20_changed = sub_changed (entry 21)

abbrev pub on_entry21_changed : Handler
on_entry21_changed = sub_changed (entry 22)

abbrev pub on_entry22_changed : Handler
on_entry22_changed = sub_changed (entry 23)

abbrev pub on_entry23_changed : Handler
on_entry23_changed = sub_changed (entry 24)

abbrev pub on_entry24_changed : Handler
on_entry24_changed = sub_changed (entry 25)

abbrev pub on_entry25_changed : Handler
on_entry25_changed = sub_changed (entry 26)

abbrev pub on_entry26_changed : Handler
on_entry26_changed = sub_changed (entry 27)

abbrev pub on_entry27_changed : Handler
on_entry27_changed = sub_changed (entry 28)

abbrev pub on_entry28_changed : Handler
on_entry28_changed = sub_changed (entry 29)

abbrev pub on_entry29_changed : Handler
on_entry29_changed = sub_changed (entry 30)

abbrev pub on_entry30_changed : Handler
on_entry30_changed = sub_changed (entry 31)

abbrev pub on_entry31_changed : Handler
on_entry31_changed = sub_changed (button 3)

abbrev pub on_combo_entry1_changed : Handler
on_combo_entry1_changed = group_changed

abbrev pub on_combo_entry5_changed : Handler
on_combo_entry5_changed = digits_changed (some 4) (entry 7)

abbrev pub on_combo_entry7_changed : Handler
on_combo_entry7_changed = board_changed

abbrev pub on_combo_entry8_changed : Handler
on_combo_entry8_changed = nothing_changed

abbrev pub on_combo_entry9_changed : Handler
on_combo_entry9_changed = nothing_changed

-- The entries from "entry2" on, and the texts of the combo boxes from "combo_entry1" on.
abbrev pub entries : List Handler
entries =
    on_entry2_changed ∷ on_entry3_changed ∷ on_entry4_changed ∷ on_entry5_changed
    ∷ on_entry6_changed ∷ on_entry7_changed ∷ on_entry8_changed ∷ on_entry9_changed
    ∷ on_entry10_changed ∷ on_entry11_changed ∷ on_entry12_changed ∷ on_entry13_changed
    ∷ on_entry14_changed ∷ on_entry15_changed ∷ on_entry16_changed ∷ on_entry17_changed
    ∷ on_entry18_changed ∷ on_entry19_changed ∷ on_entry20_changed ∷ on_entry21_changed
    ∷ on_entry22_changed ∷ on_entry23_changed ∷ on_entry24_changed ∷ on_entry25_changed
    ∷ on_entry26_changed ∷ on_entry27_changed ∷ on_entry28_changed ∷ on_entry29_changed
    ∷ on_entry30_changed ∷ on_entry31_changed ∷ []

abbrev pub combo_entries : List Handler
combo_entries =
    on_combo_entry1_changed ∷ nothing_changed ∷ nothing_changed ∷ nothing_changed
    ∷ on_combo_entry5_changed ∷ nothing_changed ∷ on_combo_entry7_changed ∷ on_combo_entry8_changed
    ∷ on_combo_entry9_changed ∷ []

abbrev pub handler_at : List Handler → ℕ → Handler
handler_at [] n = nothing_changed
handler_at (h ∷ hs) zero = h
handler_at (h ∷ hs) (suc n) = handler_at hs n

unfoldable pub handler_of : Widget → Handler
handler_of (entry (suc (suc n))) = handler_at entries n
handler_of (combo_entry (suc n)) = handler_at combo_entries n
handler_of w = nothing_changed

-- A "changed" of a widget, with the depth to which a handler may cause it again.
module _ (G : Toolkit) (numbers_in : Bytes → Option (List ℤ)) (subject : ℤ → Option Bytes) where
  unfoldable pub changed : ℕ → Widget → M Window (Unit {0})
  unfolding run handler_of
  changed zero w s = (spent, s)
  changed (suc depth) w s = run G numbers_in subject (changed depth) (handler_of w) w s

  -- The user's text for an entry, of which it takes what it has room for, and the signal.
  unfoldable pub type_text : Widget → Bytes → M Window (Unit {0})
  unfolding changed put_text
  type_text w t s = changed 3 w (put_text w (cut (s.max_length w) t) s)

  unfoldable pub type_texts : List (Widget × Bytes) → M Window (Unit {0})
  unfolding type_text
  type_texts [] = return tt
  type_texts ((w, t) ∷ more) = do type_text w t; type_texts more
