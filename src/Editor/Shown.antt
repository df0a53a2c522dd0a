-- ===== src/Editor/Shown.antt =====
-- What `load_student_info` shows of the file that `verify_form` writes.
use esif_client_server.Common.{
  ℕ, suc, ◌+◌, ◌<◌, ◌≤◌, ◌≡◌, refl, sym, ap, ◌∙◌, ◌++◌, append_assoc, true, List, [], ◌∷◌, none,
  some, Bytes, codes, c_string, length, line_of, AllDigits, decimal_2, decimal_2-AllDigits,
  length-decimal_2, arith,
}
use esif_client_server.Session.Scan.{skip_space}
use esif_client_server.Session.Upload.Lines.{IsFormLine, has_nul-line_of}
use esif_client_server.Session.Upload.Whole.{AllFormLines}
use esif_client_server.Session.Upload.Stored.{is_one_line}
use esif_client_server.Form.File.{label_lines, sub_lines}
use esif_client_server.Client.Steps.{c_string_lem}
use esif_client_server.Editor.{
  Setting, Settings, and_then, line_settings, sub_settings, scanned_line, scan_value, load_line,
}
use esif_client_server.Editor.Load.{
  and_then_assoc, all_settings, is_word, is_label, scan_value-line,
}

none_before : (s : Settings) → and_then (some []) s ≡ s
none_before none = refl
none_before (some a) = refl

-- The settings of the same lines, whose first number is written in another way.
pub numbered : (i j : ℕ) (ls : List Bytes) → i ≡ j → all_settings i ls ≡ all_settings j ls
numbered i j ls e = ap (λ n. all_settings n ls) e

pub load_line-line :
    (i : ℕ) (label text : Bytes)
    → IsFormLine (label ++ b' ' ∷ text)
    → is_label label ≡ true
    → is_one_line text ≡ true
    → length text ≤ 79
    → load_line i (line_of (label ++ b' ' ∷ text)) ≡ line_settings i (skip_space text)
unfolding load_line scanned_line
load_line-line i label text good w l n =
    let line : c_string (line_of (label ++ b' ' ∷ text)) ≡ label ++ (b' ' ∷ line_of text) =
      c_string_lem _ (has_nul-line_of (label ++ b' ' ∷ text) good.no_nul)
      ∙ append_assoc label (b' ' ∷ text) (b'\n' ∷ []) in
    ap (λ b. scanned_line i (scan_value b)) line
    ∙ ap (scanned_line i) (scan_value-line label text w l n)

-- Labels and texts, as the lines 3 to 21 have them.
abbrev pub AllShown : List (Bytes × Bytes) → Type 0
AllShown [] = Unit
AllShown ((label, text) ∷ more) =
    (is_label label ≡ true) × ((is_one_line text ≡ true) × ((length text ≤ 79) × AllShown more))

abbrev pub fields_from : ℕ → List (Bytes × Bytes) → Settings
fields_from i [] = some []
fields_from i ((label, text) ∷ more) =
    and_then (line_settings i (skip_space text)) (fields_from (i + 1) more)

pub all_settings-label_lines :
    (i : ℕ) (fields : List (Bytes × Bytes)) (more : List Bytes)
    → AllFormLines (label_lines fields ++ more)
    → AllShown fields
    → all_settings i (label_lines fields ++ more)
      ≡ and_then (fields_from i fields) (all_settings (i + length fields) more)
unfolding all_settings label_lines
all_settings-label_lines i [] more goods shown =
    numbered i (i + 0) more (omega arith) ∙ sym (none_before (all_settings (i + 0) more))
all_settings-label_lines i ((label, text) ∷ fields) more (good, goods) (w, (l, (n, shown))) =
    rw (load_line-line i label text good w l n) (
      ap (and_then (line_settings i (skip_space text)))
        (all_settings-label_lines (i + 1) fields more goods shown)
      ∙ sym (and_then_assoc (line_settings i (skip_space text)) (fields_from (i + 1) fields) _)
      ∙ ap (and_then (fields_from i ((label, text) ∷ fields)))
          (numbered (i + 1 + length fields) (i + suc (length fields)) more (omega arith)))

-- The settings of the subjects from that line on.
abbrev pub subs_from : ℕ → List Bytes → List Setting
subs_from i [] = []
subs_from i (sub ∷ subs) = sub_settings i (skip_space sub) ++ subs_from (i + 1) subs

digits-is_word : (t : Bytes) → AllDigits t → is_word t ≡ true
digits-is_word [] h = refl
digits-is_word (c ∷ cs) (d, h) = ground (arith, digits-is_word cs h)

is_label-decimal_2 : (k : ℕ) → k < 99 → is_label (codes "SUB_" ++ decimal_2 (k + 1)) ≡ true
is_label-decimal_2 k h =
    ground (
      arith,
      digits-is_word _ (decimal_2-AllDigits (k + 1)),
      length-decimal_2 (k + 1) (omega arith),
    )

abbrev pub AllLines : List Bytes → Type 0
AllLines [] = Unit
AllLines (t ∷ ts) = (is_one_line t ≡ true) × ((length t ≤ 79) × AllLines ts)

line_settings-sub :
    (i : ℕ) (value : Bytes) → 22 ≤ i → i < 39 → line_settings i value ≡ some (sub_settings i value)
unfolding line_settings
line_settings-sub i value a b = ground arith

pub all_settings-sub_lines :
    (i k : ℕ) (subs more : List Bytes)
    → AllFormLines (sub_lines k subs ++ more)
    → AllLines subs
    → 22 ≤ i
    → i + length subs ≤ 39
    → k + length subs < 99
    → all_settings i (sub_lines k subs ++ more)
      ≡ and_then (some (subs_from i subs)) (all_settings (i + length subs) more)
unfolding all_settings sub_lines
all_settings-sub_lines i k [] more goods lines a b h =
    numbered i (i + 0) more (omega arith) ∙ sym (none_before (all_settings (i + 0) more))
all_settings-sub_lines i k (sub ∷ subs) more (good, goods) (l, (n, lines)) a b h =
    let label = codes "SUB_" ++ decimal_2 (k + 1) in
    rw (load_line-line i label sub good (is_label-decimal_2 k (omega arith)) l n) (
      rw (line_settings-sub i (skip_space sub) a (omega arith)) (
        ap (and_then (some (sub_settings i (skip_space sub)))) (
          all_settings-sub_lines (i + 1) (k + 1) subs more goods lines (omega arith) (omega arith)
            (omega arith))
        ∙ sym (
            and_then_assoc (some (sub_settings i (skip_space sub))) (some (subs_from (i + 1) subs))
              _)
        ∙ ap (and_then (some (subs_from i (sub ∷ subs))))
            (numbered (i + 1 + length subs) (i + suc (length subs)) more (omega arith))))
