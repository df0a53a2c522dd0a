-- ===== src/Editor/Header.antt =====
-- The row that is read from the header of a saved form.
use esif_client_server.Common.{
  ℕ, ◌<◌, ◌≤◌, ◌≡◌, refl, ap, ◌∙◌, ◌++◌, ◌⊎◌, inl, inr, true, false, [], ◌∷◌, some, Bytes, codes,
  length, line_of, ltb, ◌==◌, ℤ, pos, decimal_4, decimal_4-AllDigits, length-decimal_4,
  read_digits-decimal_4, arith, ◌^◌,
}
use esif_client_server.Session.Scan.{span, scan_int}
use esif_client_server.Form.Entries.{Student}
use esif_client_server.Form.File.{header}
use esif_client_server.Form.File.Sendable.{is_plain, has, IsSendable}
use esif_client_server.Client.Header.{not_colon}
use esif_client_server.Client.Marking.{span-not_colon, scan_int-digits, HasHeader, line_of-header}
use esif_client_server.Editor.Rows.{Row, reads, blank, read_part, read_int, not_newline, read_row}

read_part-append :
    (n : ℕ) (put : Bytes → Row) (row : Row) (a rest : Bytes)
    → has b':' a ≡ false
    → 0 < length a
    → length a ≤ n
    → read_part not_colon n put row (a ++ b':' ∷ rest) ≡ reads (put a) (b':' ∷ rest)
unfolding read_part
read_part-append n put row a rest h p q =
    let some_text : (length a == 0) ≡ false = ground arith in
    let fits : ltb n (length a) ≡ false = ground arith in
    rw (span-not_colon a rest h) (rw some_text (rw fits refl))

read_int-decimal_4 :
    (put : ℤ → Row) (row : Row) (z : ℤ) (n : ℕ) (rest : Bytes)
    → z ≡ pos n
    → n < 10_000
    → read_int put row (scan_int (decimal_4 z ++ b':' ∷ rest)) ≡ reads (put (pos n)) (b':' ∷ rest)
unfolding read_int
read_int-decimal_4 put row z n rest e h =
    let scanned =
      scan_int-digits (decimal_4 (pos n)) rest (decimal_4-AllDigits n)
        (omega (arith, length-decimal_4 n h)) in
    let small : ltb n (2 ^ 31) ≡ true = ground arith in
    rw e (
      ap (read_int put row)
        (scanned ∙ ap (λ k. some (pos k, b':' ∷ rest)) (read_digits-decimal_4 n))
      ∙ rw small refl)

span-not_newline :
    (a : Bytes) → is_plain a ≡ true → span not_newline (a ++ b'\n' ∷ []) ≡ (a, b'\n' ∷ [])
span-not_newline [] h = refl
span-not_newline (c ∷ cs) h = ground (arith, span-not_newline cs)

read_name-line_of :
    (put : Bytes → Row) (row : Row) (a : Bytes)
    → is_plain a ≡ true
    → 0 < length a
    → length a ≤ 40
    → read_part not_newline 40 put row (line_of a) ≡ reads (put a) (b'\n' ∷ [])
unfolding read_part
read_name-line_of put row a h p q =
    let some_text : (length a == 0) ≡ false = ground arith in
    let fits : ltb 40 (length a) ≡ false = ground arith in
    rw (span-not_newline a h) (rw some_text (rw fits refl))

-- The row of a form.
abbrev pub row_of : ℕ → ℕ → ℤ → Student → Row
row_of roll serial sent e = record {
  roll = pos roll;
  st_name = e.student_name;
  section = e.section;
  gender = e.gender;
  tot_list = pos serial;
  group = e.group;
  sent = sent;
}

read_row-found :
    (t a b c d e f rest gender section group name : Bytes) (roll serial sent : ℤ)
    → read_part not_colon 6 (λ x. record blank { gender = x }) blank t
      ≡ reads (record blank { gender = gender }) (b':' ∷ a)
    → read_int
        (λ n. record blank { gender = gender; roll = n })
        (record blank { gender = gender })
        (scan_int a)
      ≡ reads (record blank { gender = gender; roll = roll }) (b':' ∷ b)
    → read_part not_colon 1
        (λ x. record blank { gender = gender; roll = roll; section = x })
        (record blank { gender = gender; roll = roll })
        b
      ≡ reads (record blank { gender = gender; roll = roll; section = section }) (b':' ∷ c)
    → read_int
        (λ n. record blank { gender = gender; roll = roll; section = section; tot_list = n })
        (record blank { gender = gender; roll = roll; section = section })
        (scan_int c)
      ≡ reads
          (record blank { gender = gender; roll = roll; section = section; tot_list = serial })
          (b':' ∷ d)
    → read_part not_colon 19
        (λ x. record blank {
          gender = gender;
          roll = roll;
          section = section;
          tot_list = serial;
          group = x;
        })
        (record blank { gender = gender; roll = roll; section = section; tot_list = serial })
        d
      ≡ reads
          (record blank {
            gender = gender;
            roll = roll;
            section = section;
            tot_list = serial;
            group = group;
          })
          (b':' ∷ e)
    → read_int
        (λ n. record blank {
          gender = gender;
          roll = roll;
          section = section;
          tot_list = serial;
          group = group;
          sent = n;
        })
        (record blank {
          gender = gender;
          roll = roll;
          section = section;
          tot_list = serial;
          group = group;
        })
        (scan_int e)
      ≡ reads
          (record blank {
            gender = gender;
            roll = roll;
            section = section;
            tot_list = serial;
            group = group;
            sent = sent;
          })
          (b':' ∷ f)
    → read_part not_newline 40
        (λ x. record blank {
          gender = gender;
          roll = roll;
          section = section;
          tot_list = serial;
          group = group;
          sent = sent;
          st_name = x;
        })
        (record blank {
          gender = gender;
          roll = roll;
          section = section;
          tot_list = serial;
          group = group;
          sent = sent;
        })
        f
      ≡ reads
          (record {
            gender = gender;
            roll = roll;
            section = section;
            tot_list = serial;
            group = group;
            sent = sent;
            st_name = name;
          })
          rest
    → read_row t
      ≡ reads
          (record {
            gender = gender;
            roll = roll;
            section = section;
            tot_list = serial;
            group = group;
            sent = sent;
            st_name = name;
          })
          rest
unfolding read_row
read_row-found t a b c d e f rest gender section group name roll serial sent p1 p2 p3 p4 p5 p6 p7 =
    rw p1 (rw p2 (rw p3 (rw p4 (rw p5 (rw p6 (rw p7 refl))))))

-- The digit of the sent flag is read as its number.
abbrev pub IsFlag : Bytes → ℤ → Type 0
IsFlag flag sent = ((flag ≡ codes "0") × (sent ≡ pos 0)) ⊎ ((flag ≡ codes "1") × (sent ≡ pos 1))

read_flag :
    (put : ℤ → Row) (row : Row) (flag : Bytes) (sent : ℤ) (rest : Bytes)
    → IsFlag flag sent
    → read_int put row (scan_int (flag ++ b':' ∷ rest)) ≡ reads (put sent) (b':' ∷ rest)
unfolding scan_int read_int
read_flag put row flag sent rest (inl (e, f)) = rw (e, f) refl
read_flag put row flag sent rest (inr (e, f)) = rw (e, f) refl

pub read_row-header :
    (flag : Bytes) (sent : ℤ) (e : Student) (h : IsSendable e)
    → HasHeader e
    → IsFlag flag sent
    → read_row (line_of (header flag e)) ≡ reads (row_of h.roll h.serial sent e) (b'\n' ∷ [])
read_row-header flag sent e h k g =
    ap read_row (line_of-header flag e)
    ∙ read_row-found _ _ _ _ _ _ _ (b'\n' ∷ []) e.gender e.section e.group e.student_name
        (pos h.roll) (pos h.serial) sent
        (read_part-append 6 _ _ e.gender _ k.gender.0 k.gender.1 h.gender.1)
        (read_int-decimal_4 _ _ _ h.roll _ h.class_roll h.roll_fits)
        (read_part-append 1 _ _ e.section _ k.section.0 k.section.1 h.section.1)
        (read_int-decimal_4 _ _ _ h.serial _ h.tot_list h.serial_fits)
        (read_part-append 19 _ _ e.group _ k.group.0 k.group.1 h.group.1)
        (read_flag _ _ flag sent _ g)
        (read_name-line_of _ _ e.student_name h.student_name.0 k.name h.student_name.1)
