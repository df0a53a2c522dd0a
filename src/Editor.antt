-- ===== src/Editor.antt =====
-- project2/src/editor.c: `load_student_info`, which fills the editor's window from a form's file. The
-- window and its widgets are GTK's: what the routine does is the sequence of its calls on them, all
-- of which it is assumed to find.
pub mod Rows
pub mod Listing
pub mod Header
pub mod Files
pub mod Recycled
pub mod Load
pub mod Shown
pub mod RoundTrip
mod Tests
use esif_client_server.Common.{
  ℕ, zero, suc, ◌+◌, ◌-◌, ◌++◌, Bool, true, false, not, ◌&&◌, List, [], ◌∷◌, Option, none, some,
  Bytes, codes, c_string, length, ltb, ◌==◌, if◌then◌else◌, ℤ, pos, ltb_int, strtol, decimal,
}
use esif_client_server.Session.Scan.{span, skip_space, not_space, not_line_end}
use esif_client_server.Client.Header.{fgets}

-- gtk_entry_set_text(), set_sub_tip(), and the new image in the frame of the photo.
pub data Setting : Type 0 where
  entry : Bytes → Bytes → Setting
  sub_tip : Bytes → ℤ → Setting
  photo_image : Bytes → Setting

-- `none` is a write behind a buffer.
abbrev pub Settings : Type 0
Settings = Option (List Setting)

abbrev pub and_then : Settings → Settings → Settings
and_then none more = none
and_then (some a) none = none
and_then (some a) (some b) = some (a ++ b)

-- sscanf(buffer, "%s %[^\r\n]", name, value), for 20 and 80 bytes that are 0 before: `value`.
unfoldable pub scan_value : Bytes → Option Bytes
scan_value buffer =
    let (name, rest) = span not_space (skip_space buffer) in
    let value = (span not_line_end (skip_space rest)).0 in
    if ltb 19 (length name) then none else if ltb 79 (length value) then none else some value

abbrev pub not_dash : ℕ → Bool
not_dash c = not (c == b'-')

-- What follows a '-'.
abbrev pub behind_dash : Bytes → Bytes
behind_dash [] = []
behind_dash (c ∷ cs) = if c == b'-' then cs else []

-- The parts of "%[^-]-%[^-]-%[^-]" and of "%[^\n-]-%[^\n-]", where no newline is in the value: a part
-- that does not match leaves what follows empty too.
unfoldable pub parts : Bytes → Bytes × Bytes × Bytes
parts value =
    let (first, rest) = span not_dash value in
    let (second, rest₂) = span not_dash (behind_dash rest) in
    let (third, rest₃) = span not_dash (behind_dash rest₂) in
    if length first == 0
    then ([], [], [])
    else if length second == 0
    then (first, [], [])
    else (first, second, third)

-- `birthday`, `birthmon` and `birthyear` have 3, 4 and 5 bytes.
unfoldable pub birth_settings : Bytes → Settings
unfolding parts
birth_settings value =
    let (day, month, year) = parts value in
    if ltb 2 (length day)
    then none
    else if ltb 3 (length month)
    then none
    else if ltb 4 (length year)
    then none
    else (some (
        entry (codes "combo_entry3") day
        ∷ entry (codes "combo_entry4") month
        ∷ entry (codes "combo_entry5") year
        ∷ []))

-- `sess_start` and `sess_end` have 5 bytes each.
unfoldable pub session_settings : Bytes → Settings
unfolding parts
session_settings value =
    let (start, end, more) = parts value in
    if ltb 4 (length start)
    then none
    else if ltb 4 (length end)
    then none
    else (some (entry (codes "entry13") start ∷ entry (codes "entry14") end ∷ []))

-- The widgets of the lines from 3 to 21, where the lines 10 and 19 have more than one.
abbrev widgets : List Bytes
widgets =
    codes "entry2"
    ∷ codes "entry3"
    ∷ codes "entry4"
    ∷ codes "combo_entry1"
    ∷ codes "entry5"
    ∷ codes "combo_entry2"
    ∷ codes "entry6"
    ∷ []
    ∷ codes "entry7"
    ∷ codes "combo_entry6"
    ∷ codes "entry8"
    ∷ codes "entry9"
    ∷ codes "combo_entry7"
    ∷ codes "entry10"
    ∷ codes "entry11"
    ∷ codes "entry12"
    ∷ []
    ∷ codes "combo_entry8"
    ∷ codes "combo_entry9"
    ∷ []

abbrev nth : ℕ → List Bytes → Bytes
nth n [] = []
nth zero (b ∷ bs) = b
nth (suc n) (b ∷ bs) = nth n bs

unfoldable pub widget_of : ℕ → Bytes
widget_of i = nth (i - 3) widgets

-- The cases from line 3 to 21; a section that sscanf() has skipped is a blank.
unfoldable pub field_settings : ℕ → Bytes → Settings
unfolding birth_settings session_settings widget_of
field_settings i value =
    if i == 10
    then birth_settings value
    else if i == 19
    then session_settings value
    else if i == 12 && ltb (length value) 1
    then some (entry (widget_of i) (codes " ") ∷ [])
    else (some (entry (widget_of i) value ∷ []))

-- The cases from line 22 to 38, for entry15 to entry31.
unfoldable pub sub_settings : ℕ → Bytes → List Setting
sub_settings i value =
    let widget = codes "entry" ++ decimal (i - 7) in
    let valint = strtol value in
    if ltb_int (pos 100) valint
    then entry widget value ∷ sub_tip widget valint ∷ []
    else (entry widget value ∷ [])

-- The case for line 39.
unfoldable pub photo_settings : Bytes → List Setting
photo_settings value = if length value == 0 then [] else (photo_image value ∷ [])

-- The switch on the line's number, from 3 on.
unfoldable pub line_settings : ℕ → Bytes → Settings
unfolding field_settings sub_settings photo_settings
line_settings i value =
    if ltb i 22
    then field_settings i value
    else if ltb i 39
    then some (sub_settings i value)
    else if i == 39
    then some (photo_settings value)
    else (some [])

scanned_line : ℕ → Option Bytes → Settings
unfolding line_settings
scanned_line i none = none
scanned_line i (some value) = line_settings i value

-- One round of the loop, for the line with that number.
unfoldable pub load_line : ℕ → Bytes → Settings
unfolding scan_value scanned_line
load_line i buffer = scanned_line i (scan_value (c_string buffer))

-- The loop, with the number of the line that is next; a round takes a byte at least.
unfoldable pub load_loop : ℕ → ℕ → Bytes → Settings
unfolding load_line fgets
load_loop zero i text = none
load_loop (suc fuel) i [] = some []
load_loop (suc fuel) i (c ∷ cs) =
    let (line, rest) = fgets 119 (c ∷ cs) in
    and_then (load_line i line) (load_loop fuel (i + 1) rest)

-- `load_student_info` of a file that can be read; the first two lines go into `value`, which has 80
-- bytes, by calls of fgets() with room for 120.
unfoldable pub load_student_info : Bytes → Settings
unfolding load_loop
load_student_info text =
    let (first, rest) = fgets 119 text in
    let (second, rest₂) = fgets 119 rest in
    let more = load_loop (length text + 1) 3 rest₂ in
    if ltb 79 (length first) then none else if ltb 79 (length second) then none else more
