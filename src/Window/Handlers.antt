-- ===== src/Window/Handlers.antt =====
-- project2/src/callbacks.c: what the handlers of "changed" do. Many of them are one text over other
-- widgets; each such text is a constructor of `Handler` with the widgets it names.
use esif_client_server.Common.{
  ℕ, zero, suc, ◌+◌, ◌-◌, ◌++◌, Bool, true, false, not, ◌&&◌, ◌||◌, List, [], ◌∷◌, Option, none,
  some, Bytes, bytes_eq, codes, length, drop, starts_with, ltb, leb, ◌==◌, if◌then◌else◌, ℤ, pos,
  negsuc, is_digit, strtol, decimal, replicate,
}
use esif_client_server.Session.{M, ◌>>=◌, ◌>>◌, return, next, fault_if}
use esif_client_server.Session.Scan.{span}
use esif_client_server.Window.{
  Toolkit, Widget, entry, combo_entry, Window, if_present, grab_focus, set_editable, set_sub_tip,
  set_entry_text, set_max_length,
}

-- One value for each text of a handler: `upper_changed` with whether it looks at the gender,
-- `digits_changed` with the length that is enough, if it is not the maximal one.
pub data Handler : Type 0 where
  name_changed : Bool → Handler
  upper_changed : Handler
  full_changed : Widget → Handler
  digits_changed : Option ℕ → Widget → Handler
  session_changed : Handler
  sub_changed : Widget → Handler
  group_changed : Handler
  board_changed : Handler
  nothing_changed : Handler

-- toupper() in the C locale, and ACCEPTCHARS.
abbrev pub to_upper : ℕ → ℕ
to_upper c = if leb 97 c && leb c 122 then c - 32 else c

abbrev pub is_accepted : ℕ → Bool
is_accepted c = (leb 65 c && leb c 90) || (c == b'.' || (c == b'-' || c == b' '))

-- `strupper`, into a buffer of BUFLEN bytes, as the text without its NUL.
unfoldable pub upper : Bytes → Bytes
upper [] = []
upper (c ∷ cs) = to_upper c ∷ upper cs

unfoldable pub strupper : Bytes → M Window Bytes
unfolding upper
strupper str = do fault_if (ltb 79 (length str)); return (upper str)

-- What strspn() counts.
abbrev pub valid_part : (ℕ → Bool) → Bytes → Bytes
valid_part p text = (span p text).0

-- `session++`, and "%d".
abbrev pub plus_one : ℤ → ℤ
plus_one (pos n) = pos (n + 1)
plus_one (negsuc zero) = pos 0
plus_one (negsuc (suc n)) = negsuc n

abbrev pub print_int : ℤ → Bytes
print_int (pos n) = decimal n
print_int (negsuc n) = b'-' ∷ decimal (n + 1)

-- "%03d"
unfoldable pub decimal_3 : ℤ → Bytes
decimal_3 (pos n) = replicate (3 - length (decimal n)) b'0' ++ decimal n
decimal_3 (negsuc n) = b'-' ∷ (replicate (2 - length (decimal (n + 1))) b'0' ++ decimal (n + 1))

-- `subentrymap`, the file for all groups last.
unfoldable pub subentrymap : List (Bytes × Bytes)
subentrymap =
    (codes "Science", codes "sub_common_sc.txt")
    ∷ (codes "Social Science", codes "sub_common_so_sc.txt")
    ∷ (codes "Arts", codes "sub_common_arts.txt")
    ∷ (codes "Commerce", codes "sub_common_com.txt")
    ∷ (codes "Agriculture", codes "sub_common_agri.txt")
    ∷ (codes "Home Economics", codes "sub_common_home_eco.txt")
    ∷ (codes "Islamic Studies", codes "sub_common_is_st.txt")
    ∷ (codes "Music", codes "sub_common_music.txt")
    ∷ (codes "Business", codes "sub_common_busi.txt")
    ∷ []

abbrev pub common_file : Bytes
common_file = codes "sub_common_all.txt"

-- The loop over the groups: without a match its counter is GROUPS, the place of the common file.
unfoldable pub file_of : List (Bytes × Bytes) → Bytes → Bytes
file_of [] group = common_file
file_of ((name, file) ∷ more) group = if bytes_eq name group then file else file_of more group

-- `numbers_in` is what fscanf() with "%d" reads of a file, and `subject` the table of the subjects.
module _ (G : Toolkit) (numbers_in : Bytes → Option (List ℤ)) (subject : ℤ → Option Bytes) where
  module _ (emit : Widget → M Window (Unit {0})) where
    -- `update_gender`
    unfoldable pub update_gender : Widget → M Window (Unit {0})
    unfolding upper
    update_gender self = if_present (combo_entry 8) λ s.
        let name = upper (s.text self) in
        if starts_with (codes "MOHAMMAD") name
          || (starts_with (codes "MD ") name || starts_with (codes "MD.") name)
        then set_entry_text G emit (combo_entry 8) (codes "Male") s
        else if starts_with (codes "MOSAMMAT") name
            || (starts_with (codes "MST ") name || starts_with (codes "MST.") name)
        then set_entry_text G emit (combo_entry 8) (codes "Female") s
        else (next tt, s)

    unfoldable pub on_name : Bool → Widget → M Window (Unit {0})
    unfolding strupper update_gender
    on_name gender self = do
      up ← λ s. strupper (s.text self) s
      set_entry_text G emit self (valid_part is_accepted up)
      if gender then update_gender self else return tt

    unfoldable pub on_upper : Widget → M Window (Unit {0})
    unfolding strupper
    on_upper self = do up ← λ s. strupper (s.text self) s; set_entry_text G emit self up

    -- Four bytes, and the next entry.
    unfoldable pub on_full : Widget → Widget → M Window (Unit {0})
    on_full to self s =
        if not (s.present self) || ltb (length (s.text self)) 4
        then (next tt, s)
        else if_present to (grab_focus to) s

    abbrev pub enough : Option ℕ → Widget → Window → ℕ
    enough none self s = s.max_length self
    enough (some n) self s = n

    unfoldable pub on_digits : Option ℕ → Widget → Widget → M Window (Unit {0})
    on_digits limit to self = do
      val ← λ s. (next (valid_part is_digit (s.text self)), s)
      set_entry_text G emit self val
      λ s.
          if ltb (length val) (enough limit self s)
          then (next tt, s)
          else if_present to (grab_focus to) s

    -- `on_entry13_changed`, with `char sess_next[5]`.
    unfoldable pub next_session : Widget → M Window (Unit {0})
    next_session self = do
      sess_next ← λ s. (next (print_int (plus_one (strtol (s.text self)))), s)
      fault_if (ltb 4 (length sess_next))
      if_present (entry 14) (set_entry_text G emit (entry 14) sess_next)
      if_present (combo_entry 8) (grab_focus (combo_entry 8))

    unfoldable pub on_session : Widget → M Window (Unit {0})
    unfolding next_session
    on_session self = do
      val ← λ s. (next (valid_part is_digit (s.text self)), s)
      set_entry_text G emit self val
      if ltb (length val) 4 then return tt else next_session self

    unfoldable pub show_subject : Widget → Widget → M Window (Unit {0})
    unfolding set_sub_tip
    show_subject to self =
        if_present self
          do λ s. set_sub_tip subject self (strtol (s.text self)) s; if_present to (grab_focus to)

    unfoldable pub on_sub : Widget → Widget → M Window (Unit {0})
    unfolding show_subject set_sub_tip
    on_sub to self = do
      val ← λ s. (next (valid_part is_digit (s.text self)), s)
      set_entry_text G emit self val
      if ltb (length val) 3 then set_sub_tip subject self (pos 0) else show_subject to self

    -- A round of `load_sub_common`, with `char sub_code_str[4]`.
    unfoldable pub load_code : Widget → ℤ → M Window (Unit {0})
    unfolding set_sub_tip set_editable decimal_3
    load_code w codeval = do
      fault_if (ltb 3 (length (decimal_3 codeval)))
      set_entry_text G emit w (decimal_3 codeval)
      set_editable w false
      set_sub_tip subject w (strtol (decimal_3 codeval))

    -- Its two loops: the number of the entries that got a code, the rest made editable.
    unfoldable pub make_editable : List Widget → M Window (Unit {0})
    unfolding set_editable
    make_editable [] = return tt
    make_editable (w ∷ ws) = do set_editable w true; make_editable ws

    unfoldable pub load_codes : List ℤ → List Widget → M Window ℕ
    unfolding load_code make_editable
    load_codes (codeval ∷ more) (w ∷ ws) = do
      load_code w codeval
      n ← load_codes more ws
      return (n + 1)
    load_codes [] ws = do make_editable ws; return 0
    load_codes (codeval ∷ more) [] = return 0

    unfoldable pub load_sub_common : Bytes → List Widget → M Window ℕ
    unfolding load_codes
    load_sub_common filename ent = elim (numbers_in filename) [
      | none ↦ return 0
      | some values ↦ load_codes values ent
    ]

    unfoldable pub clear_sub_entry : List Widget → M Window (Unit {0})
    clear_sub_entry [] = return tt
    clear_sub_entry (w ∷ ws) = do set_entry_text G emit w []; clear_sub_entry ws

    unfoldable pub fill_group : Widget → List Widget → Bytes → M Window (Unit {0})
    unfolding load_sub_common clear_sub_entry file_of
    fill_group self subcodes group = do
      n ← load_sub_common common_file subcodes
      m ← load_sub_common (file_of subentrymap group) (drop n subcodes)
      clear_sub_entry (drop (n + m) subcodes)
      grab_focus self

    unfoldable pub on_group : Widget → M Window (Unit {0})
    unfolding fill_group
    on_group self s = elim s.subentries [
      | none ↦ (next tt, s)
      | some subcodes ↦ fill_group self subcodes (s.text self) s
    ]

    unfoldable pub on_board : Widget → M Window (Unit {0})
    on_board self s =
        let max =
          if bytes_eq (s.text self) (codes "Technical") || bytes_eq (s.text self) (codes "Others")
          then 10
          else 6 in
        if_present (entry 11)
          (set_max_length G emit (entry 11) max
            >> if_present (entry 12) (set_max_length G emit (entry 12) max))
          s

    unfoldable pub run : Handler → Widget → M Window (Unit {0})
    unfolding on_name on_upper on_full on_digits on_session on_sub on_group on_board
    run (name_changed gender) self = on_name gender self
    run upper_changed self = on_upper self
    run (full_changed to) self = on_full to self
    run (digits_changed limit to) self = on_digits limit to self
    run session_changed self = on_session self
    run (sub_changed to) self = on_sub to self
    run group_changed self = on_group self
    run board_changed self = on_board self
    run nothing_changed self = return tt
