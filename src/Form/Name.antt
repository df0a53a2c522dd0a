-- ===== src/Form/Name.antt =====
-- The name of a form's file is one that the server takes.
use esif_client_server.Common.{
  ◌≡◌, refl, ◌++◌, true, false, [], ◌∷◌, ℕ, Bytes, codes, length, AllDigits, decimal_4,
  decimal_4-AllDigits, strtol, ℤ, pos, arith,
}
use esif_client_server.Regdb.Records.{has_nul}
use esif_client_server.Session.Upload.Stored.{is_one_line, IsFormName}
use esif_client_server.Form.Entries.{Student}
use esif_client_server.Form.Text.{
  gender_code, section_code, group_code, construct_filename, length-construct_filename,
}
use esif_client_server.Form.File.Sendable.{IsSendable}
use esif_client_server.Form.Verify.{form_name}

-- No NUL, no '\r' and no '\n' is in it.
pub record IsWord (t : Bytes) : Type 0 where
  pub no_nul : has_nul t ≡ false
  pub one_line : is_one_line t ≡ true

has_nul-append : (a b : Bytes) → has_nul a ≡ false → has_nul b ≡ false → has_nul (a ++ b) ≡ false
has_nul-append [] b h k = k
has_nul-append (c ∷ cs) b h k = ground (arith, has_nul-append cs b)

is_one_line-append :
    (a b : Bytes) → is_one_line a ≡ true → is_one_line b ≡ true → is_one_line (a ++ b) ≡ true
is_one_line-append [] b h k = k
is_one_line-append (c ∷ cs) b h k = ground (arith, is_one_line-append cs b)

IsWord-append : (a b : Bytes) → IsWord a → IsWord b → IsWord (a ++ b)
IsWord-append a b h k = record {
  no_nul = has_nul-append a b h.no_nul k.no_nul;
  one_line = is_one_line-append a b h.one_line k.one_line;
}

digits-IsWord : (a : Bytes) → AllDigits a → IsWord a
digits-IsWord [] h = record { no_nul = refl; one_line = refl }
digits-IsWord (c ∷ cs) (d, h) =
    let r = digits-IsWord cs h in
    record { no_nul = ground (arith, r.no_nul); one_line = ground (arith, r.one_line) }

gender_code-IsWord : (gender : Bytes) → IsWord (gender_code gender)
unfolding gender_code
gender_code-IsWord gender = record { no_nul = ground arith; one_line = ground arith }

group_code-IsWord : (group : Bytes) → IsWord (group_code group)
unfolding group_code
group_code-IsWord group = record { no_nul = ground arith; one_line = ground arith }

section_code-IsWord : (section : Bytes) → IsWord section → IsWord (section_code section)
unfolding section_code
section_code-IsWord section h = record {
  no_nul = ground (arith, h.no_nul);
  one_line = ground (arith, h.one_line);
}

decimal_4-IsWord : (z : ℤ) (n : ℕ) → z ≡ pos n → IsWord (decimal_4 z)
decimal_4-IsWord z n e = rw e (digits-IsWord _ (decimal_4-AllDigits n))

pub length-form_name :
    (e : Student) → IsSendable e → length e.section ≡ 1 → length (form_name e) ≡ 19
unfolding form_name
length-form_name e h one =
    rw (h.class_roll, h.tot_list)
      (length-construct_filename e.gender e.section e.group h.roll h.serial one h.roll_fits
        h.serial_fits)

-- The name of a form's file is one that the server's "FILENAME " takes.
pub form_name-IsFormName :
    (e : Student)
    → IsSendable e
    → IsWord e.section
    → length e.section ≡ 1
    → IsFormName (form_name e)
unfolding form_name construct_filename
form_name-IsFormName e h word one =
    let mark : IsWord (codes "_") = record { no_nul = refl; one_line = refl } in
    let word = IsWord-append (gender_code e.gender) _ (gender_code-IsWord e.gender) (
      IsWord-append (codes "_") _ mark (
        IsWord-append (decimal_4 (strtol e.class_roll)) _ (decimal_4-IsWord _ h.roll h.class_roll) (
          IsWord-append (codes "_") _ mark (
            IsWord-append (section_code e.section) _ (section_code-IsWord e.section word) (
              IsWord-append (codes "_") _ mark (
                IsWord-append (decimal_4 (strtol e.tot_list)) _
                  (decimal_4-IsWord _ h.serial h.tot_list)
                  (IsWord-append (codes "_") _ mark (
                    IsWord-append (group_code e.group) (codes ".txt") (group_code-IsWord e.group)
                      (record { no_nul = refl; one_line = refl }))))))))) in
    let size = length-form_name e h one in
    record {
      no_nul = word.no_nul;
      one_line = word.one_line;
      fits = omega arith;
      has_key = omega arith;
    }
