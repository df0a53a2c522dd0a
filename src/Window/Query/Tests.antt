-- ===== src/Window/Query/Tests.antt =====
-- Texts that are typed into the query window, and the theorems on them.
use esif_client_server.Common.{
  ◌⊎◌, ℕ, ◌≡◌, refl, true, false, List, [], ◌∷◌, none, some, Bytes, bytes_eq, codes, length,
  if◌then◌else◌, ℤ, pos, strtol, decimal_4, arith,
}
use esif_client_server.Session.{fault, next}
use esif_client_server.Window.Chars.{first_chars}
use esif_client_server.Window.{button}
use esif_client_server.Window.Example.{toolkit}
use esif_client_server.Window.Query.{
  Ask, session_entry, code_entry, Query, lookup_college, opened, type_in, type_all,
  q_okbutton_clicked,
}
use esif_client_server.Window.Query.Table.{
  create_col_hash_table, IsName, AllNames, file_of_rows, rows_onto, create_col_hash_table-rows,
}
use esif_client_server.Window.Query.Passed.{has_room, is_plain, passed, q_okbutton_clicked-type_all}

abbrev table : List (ℤ × Bytes)
table = (pos 110, codes "City College") ∷ (pos 205, codes "Town College") ∷ []

abbrev plain_label : Bytes → Bytes → Bytes
plain_label old name = name

plain : (old name : Bytes) → is_plain name ≡ true → plain_label old name ≡ name
plain old name e = refl

abbrev texts : List (Ask × Bytes)
texts = (code_entry, codes "205") ∷ (session_entry, codes "2004") ∷ (code_entry, codes "110x") ∷ []

abbrev typed : Query
typed = record {
  session = codes "2004-2005";
  code = codes "110";
  code_editable = true;
  name = codes "City College";
  name_shown = true;
  ok_shown = true;
  focus = some (button 1);
  prevlen = 9;
}

no_zero : lookup_college table (pos 0) ≡ none
unfolding lookup_college
no_zero = refl

run : type_all toolkit plain_label table texts opened ≡ (next tt, typed)
unfolding type_all opened strtol decimal_4 bytes_eq first_chars
run = refl

-- A session that starts in 9999 is printed behind the buffer.
late_run : (type_in toolkit plain_label table session_entry (codes "9999") opened).0 ≡ fault
unfolding type_in first_chars opened strtol decimal_4 bytes_eq
late_run = refl

-- "-123" is taken for a session, and no year is passed on.
minus_run :
    (type_in toolkit plain_label table session_entry (codes "-123") opened).1.session
    ≡ codes "-123--122"
unfolding type_in first_chars opened strtol decimal_4 bytes_eq
minus_run = refl

q_okbutton_clicked_example :
    (name : Bytes) × (lookup_college table (strtol typed.code) ≡ some name)
    × ((typed.name ≡ name) ⊎ (is_plain name ≡ false))
    × (length (decimal_4 (strtol typed.code)) ≡ 4)
    × (q_okbutton_clicked typed ≡ (if has_room typed then some (passed typed typed.name) else none))
q_okbutton_clicked_example =
    q_okbutton_clicked-type_all toolkit plain_label table plain texts typed no_zero run refl

abbrev rows : List (ℕ × Bytes)
rows = (110, codes "City College") ∷ (205, codes "Town College") ∷ []

rows-AllNames : AllNames rows
rows-AllNames = ((omega arith, city), ((omega arith, town), tt))
  where
    city : IsName (codes "City College")
    city = record {
      first = b'C';
      more = codes "ity College";
      starts = refl;
      no_space = refl;
      one_line = refl;
      no_nul = refl;
      fits = omega arith;
    }

    town : IsName (codes "Town College")
    town = record {
      first = b'T';
      more = codes "own College";
      starts = refl;
      no_space = refl;
      one_line = refl;
      no_nul = refl;
      fits = omega arith;
    }

-- The last line of a file may have no name: it gets that of the line before.
nameless_run :
    create_col_hash_table (codes "0110 City College\n0205\n")
    ≡ next ((pos 205, codes "City College") ∷ (pos 110, codes "City College") ∷ [])
unfolding create_col_hash_table
nameless_run = refl

create_col_hash_table_example : create_col_hash_table (file_of_rows rows) ≡ next (rows_onto [] rows)
create_col_hash_table_example = create_col_hash_table-rows rows rows-AllNames
