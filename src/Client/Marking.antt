-- ===== src/Client/Marking.antt =====
-- What becomes of the file of a saved form when its sent flag is set.
use esif_client_server.Common.{
  ℕ, ◌<◌, ◌≤◌, ◌≡◌, refl, sym, ap, ◌∙◌, ◌++◌, append_assoc, true, false, [], ◌∷◌, some, Bytes,
  codes, length, length-append, drop, drop-length, overwrite, line_of, wire, ltb, ℤ, pos, arith,
  is_digit, read_digits, AllDigits, decimal_4, decimal_4-AllDigits, length-decimal_4,
  read_digits-decimal_4, strtol, ◌^◌, c_string,
}
use esif_client_server.Session.Scan.{span, scan_int, scan_signed, skip_space}
use esif_client_server.Session.Upload.Lines.{has_nul-line_of}
use esif_client_server.Session.Upload.Stored.{is_one_line, scan_line-line_of}
use esif_client_server.Form.Entries.{Student}
use esif_client_server.Form.File.{header, form_lines}
use esif_client_server.Form.File.Sendable.{has, IsSendable, header-IsFormLine}
use esif_client_server.Client.Header.{
  found, ◌>>=◌, Fields, not_colon, colon, fitting, text_field, number, number_field, scan_fields,
  scan_name, sent_header, marked, fgets,
}
use esif_client_server.Client.Steps.{fgets-line_of, c_string_lem}

pub span-not_colon :
    (a rest : Bytes) → has b':' a ≡ false → span not_colon (a ++ b':' ∷ rest) ≡ (a, b':' ∷ rest)
span-not_colon [] rest h = refl
span-not_colon (c ∷ cs) rest h = ground (arith, span-not_colon cs rest)

text_field-append :
    (n : ℕ) (a rest : Bytes)
    → has b':' a ≡ false
    → 0 < length a
    → length a ≤ n
    → text_field n (a ++ b':' ∷ rest) ≡ found (a, rest)
text_field-append n [] rest h p q = absurd (omega arith)
text_field-append n (c ∷ cs) rest h p q =
    ap (fitting n) (span-not_colon (c ∷ cs) rest h) ∙ ground arith

span-is_digit :
    (sep : ℕ) (a rest : Bytes)
    → is_digit sep ≡ false
    → AllDigits a
    → span is_digit (a ++ sep ∷ rest) ≡ (a, sep ∷ rest)
span-is_digit sep [] rest e h = ground (arith, e)
span-is_digit sep (c ∷ cs) rest e (d, h) = ground (arith, span-is_digit sep cs rest e)

-- Digits up to another byte.
pub scan_int-sep :
    (sep : ℕ) (a rest : Bytes)
    → is_digit sep ≡ false
    → AllDigits a
    → 0 < length a
    → scan_int (a ++ sep ∷ rest) ≡ some (pos (read_digits 0 a), sep ∷ rest)
unfolding scan_int
scan_int-sep sep [] rest e h p = absurd (omega arith)
scan_int-sep sep (c ∷ cs) rest e (d, h) p =
    let start : skip_space ((c ∷ cs) ++ sep ∷ rest) ≡ (c ∷ cs) ++ sep ∷ rest = ground arith in
    ap scan_signed start ∙ rw (span-is_digit sep cs rest e h) (ground arith)

pub scan_int-digits :
    (a rest : Bytes)
    → AllDigits a
    → 0 < length a
    → scan_int (a ++ b':' ∷ rest) ≡ some (pos (read_digits 0 a), b':' ∷ rest)
scan_int-digits a rest h p = scan_int-sep b':' a rest refl h p

number_field-decimal_4 :
    (n : ℕ) (rest : Bytes)
    → n < 10_000
    → number_field (decimal_4 (pos n) ++ b':' ∷ rest) ≡ found (pos n, rest)
number_field-decimal_4 n rest h =
    let scanned =
      scan_int-digits (decimal_4 (pos n)) rest (decimal_4-AllDigits n)
        (omega (arith, length-decimal_4 n h)) in
    let small : ltb n (2 ^ 31) ≡ true = ground arith in
    ap (λ o. number o >>= λ p. colon p.0 p.1) scanned
    ∙ ap (λ m. number (some (pos m, b':' ∷ rest)) >>= λ p. colon p.0 p.1) (read_digits-decimal_4 n)
    ∙ rw small refl

number_field-printed :
    (z : ℤ) (n : ℕ) (rest : Bytes)
    → z ≡ pos n
    → n < 10_000
    → number_field (decimal_4 z ++ b':' ∷ rest) ≡ found (pos n, rest)
number_field-printed z n rest e h = rw e (number_field-decimal_4 n rest h)

-- A form whose header is read as it was printed.
pub record HasHeader (e : Student) : Type 0 where
  pub gender : (has b':' e.gender ≡ false) × (0 < length e.gender)
  pub section : (has b':' e.section ≡ false) × (0 < length e.section)
  pub group : (has b':' e.group ≡ false) × (0 < length e.group)
  pub name_line : is_one_line e.student_name ≡ true
  pub name : 0 < length e.student_name

abbrev fields_of : ℕ → ℕ → ℤ → Student → Fields
fields_of roll serial sent e = record {
  gender = e.gender;
  roll = pos roll;
  section = e.section;
  totlist = pos serial;
  group = e.group;
  sent = sent;
}

scan_fields-found :
    (t a b c d e rest gender section group : Bytes) (roll totlist sent : ℤ)
    → text_field 6 t ≡ found (gender, a)
    → number_field a ≡ found (roll, b)
    → text_field 1 b ≡ found (section, c)
    → number_field c ≡ found (totlist, d)
    → text_field 19 d ≡ found (group, e)
    → number (scan_int e) ≡ found (sent, rest)
    → scan_fields t
      ≡ found (
        record {
          gender = gender;
          roll = roll;
          section = section;
          totlist = totlist;
          group = group;
          sent = sent;
        },
        rest,
      )
unfolding scan_fields
scan_fields-found t a b c d e rest gender section group roll totlist sent p1 p2 p3 p4 p5 p6 =
    rw p1 (rw p2 (rw p3 (rw p4 (rw p5 (rw p6 refl)))))

-- What follows the sent flag.
abbrev pub behind : Student → Bytes
behind e = b':' ∷ line_of e.student_name

pub line_of-header :
    (sent : Bytes) (e : Student)
    → line_of (header sent e)
      ≡ e.gender
        ++ (b':'
            ∷ (decimal_4 (strtol e.class_roll)
                ++ (b':'
                    ∷ (e.section
                        ++ (b':'
                            ∷ (decimal_4 (strtol e.tot_list)
                                ++ (b':' ∷ (e.group ++ (b':' ∷ (sent ++ behind e))))))))))
unfolding header
line_of-header sent e = simp append_assoc refl

scan_fields-header :
    (e : Student) (h : IsSendable e)
    → HasHeader e
    → scan_fields (line_of (header (codes "0") e))
      ≡ found (fields_of h.roll h.serial (pos 0) e, behind e)
unfolding scan_int read_digits
scan_fields-header e h k =
    ap scan_fields (line_of-header (codes "0") e)
    ∙ scan_fields-found _ _ _ _ _ _ _ e.gender e.section e.group (pos h.roll) (pos h.serial) (pos 0)
        (text_field-append 6 e.gender _ k.gender.0 k.gender.1 h.gender.1)
        (number_field-printed _ h.roll _ h.class_roll h.roll_fits)
        (text_field-append 1 e.section _ k.section.0 k.section.1 h.section.1)
        (number_field-printed _ h.serial _ h.tot_list h.serial_fits)
        (text_field-append 19 e.group _ k.group.0 k.group.1 h.group.1) refl

scan_name-behind :
    (st_name : Bytes) (e : Student)
    → IsSendable e
    → HasHeader e
    → scan_name st_name (behind e) ≡ found e.student_name
unfolding scan_name
scan_name-behind st_name e h k =
    rw (scan_line-line_of e.student_name k.name_line k.name) (ground (arith, h.student_name.1))

sent_header-fields_of :
    (e : Student) (h : IsSendable e)
    → sent_header (fields_of h.roll h.serial (pos 0) e) e.student_name
      ≡ line_of (header (codes "1") e)
unfolding sent_header
sent_header-fields_of e h =
    rw (← h.class_roll) (rw (← h.tot_list) (sym (line_of-header (codes "1") e)))

length-header :
    (e : Student)
    → length (line_of (header (codes "1") e)) ≡ length (line_of (header (codes "0") e))
length-header e =
    rw (line_of-header (codes "1") e, line_of-header (codes "0") e) (simp length-append refl)

marked-found :
    (st_name text line tail rest name : Bytes) (f : Fields)
    → fgets 119 text ≡ (line, tail)
    → c_string line ≡ line
    → scan_fields line ≡ found (f, rest)
    → scan_name st_name rest ≡ found name
    → marked st_name text ≡ found (overwrite (sent_header f name) text, name)
unfolding marked
marked-found st_name text line tail rest name f p q r t = rw p (rw q (rw r (rw t refl)))

-- When `apply_form` marks the file of a saved form as sent, the file becomes just what `verify_form`
-- writes for the form with the flag 1 in place of 0, whatever form was sent before.
pub marked-form_lines :
    (st_name photo : Bytes) (e : Student)
    → IsSendable e
    → HasHeader e
    → marked st_name (wire (form_lines (codes "0") photo e))
      ≡ found (wire (form_lines (codes "1") photo e), e.student_name)
unfolding form_lines wire
marked-form_lines st_name photo e h k =
    let good = header-IsFormLine (codes "0") e h (refl, omega arith) in
    let old = line_of (header (codes "0") e) in
    let new = line_of (header (codes "1") e) in
    let more = wire (drop 1 (form_lines (codes "0") photo e)) in
    let printed = sent_header-fields_of e h in
    let same : drop (length new) (old ++ more) ≡ more =
      ap (λ n. drop n (old ++ more)) (length-header e) ∙ drop-length old more in
    marked-found st_name (old ++ more) old more (behind e) e.student_name
      (fields_of h.roll h.serial (pos 0) e)
      (fgets-line_of 119 (header (codes "0") e) more good.one_line good.fits)
      (c_string_lem old (has_nul-line_of (header (codes "0") e) good.no_nul))
      (scan_fields-header e h k) (scan_name-behind st_name e h k)
    ∙ ap (λ text. found (text, e.student_name))
        (ap (λ t. overwrite t (old ++ more)) printed ∙ ap (λ t. new ++ t) same)
