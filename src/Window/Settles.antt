-- ===== src/Window/Settles.antt =====
-- That the form's window stays clean whatever is typed into it, and that the signals which its handlers
-- cause by setting texts come to an end.
pub mod Leaf
pub mod Parts
use esif_client_server.Common.{
  zero, ◌+◌, ◌≡◌, ◌≤◌, ap, ◌∙◌, Bool, true, false, List, [], ◌∷◌, Bytes, length, ltb, leb,
  if◌then◌else◌,
}
use esif_client_server.Session.{Outcome, resume, ◌>>=◌, ◌>>◌, return, next, stop, fault, spent}
use esif_client_server.Window.{Widget, Window, set_entry_text}
use esif_client_server.Window.Handlers.{
  Handler, name_changed, upper_changed, full_changed, digits_changed, session_changed, sub_changed,
  group_changed, board_changed, nothing_changed, on_name, on_session, on_group, on_board,
}
use esif_client_server.Window.Entries.{handler_of}
use esif_client_server.Window.Clean.{is_raised, Suits, IsClean-IsCleanBut, put_text-IsClean}

abbrev is_board : Handler → Bool
is_board (name_changed gender) = false
is_board upper_changed = false
is_board (full_changed to) = false
is_board (digits_changed limit to) = false
is_board session_changed = false
is_board (sub_changed to) = false
is_board group_changed = false
is_board board_changed = true
is_board nothing_changed = false

-- Room in the buffer of `strupper`.
abbrev pub AllShort : List (Widget × Bytes) → Type 0
AllShort [] = Unit {0}
AllShort ((w, t) ∷ more) = (is_raised (handler_of w) ≡ true → length t ≤ 79) × AllShort more
