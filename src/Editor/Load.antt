-- ===== src/Editor/Load.antt =====
-- The lines of a form's file as `load_student_info` reads them.
use esif_client_server.Common.{
  ℕ, zero, suc, ◌+◌, ◌<◌, ◌≤◌, ◌≡◌, refl, ap, ◌∙◌, ◌++◌, append_assoc, Bool, true, ◌&&◌, List, [],
  ◌∷◌, none, some, Bytes, length, line_of, wire, ltb, is_space, arith, Bool-cases, inl, inr,
}
use esif_client_server.Session.Scan.{span, skip_space, not_space, not_line_end}
use esif_client_server.Session.Upload.Lines.{IsFormLine}
use esif_client_server.Session.Upload.Whole.{AllFormLines}
use esif_client_server.Session.Upload.Stored.{is_one_line}
use esif_client_server.Client.Header.{fgets}
use esif_client_server.Client.Steps.{fgets-line_of}
use esif_client_server.Editor.{Settings, and_then, scan_value, load_line, load_loop}

pub and_then_assoc : (a b c : Settings) → and_then (and_then a b) c ≡ and_then a (and_then b c)
and_then_assoc none b c = refl
and_then_assoc (some a) none c = refl
and_then_assoc (some a) (some b) none = refl
and_then_assoc (some a) (some b) (some c) = ap some (append_assoc a b c)

-- The settings of lines, from that number on.
unfoldable pub all_settings : ℕ → List Bytes → Settings
all_settings i [] = some []
all_settings i (l ∷ ls) = and_then (load_line i (line_of l)) (all_settings (i + 1) ls)

load_loop-cons :
    (fuel i : ℕ) (l rest : Bytes)
    → IsFormLine l
    → load_loop (suc fuel) i (line_of l ++ rest)
      ≡ and_then (load_line i (line_of l)) (load_loop fuel (i + 1) rest)
unfolding load_loop fgets
load_loop-cons fuel i [] rest good = refl
load_loop-cons fuel i (c ∷ cs) rest good =
    rw (fgets-line_of 119 (c ∷ cs) rest good.one_line good.fits) refl

pub load_loop-wire :
    (fuel i : ℕ) (ls : List Bytes)
    → AllFormLines ls
    → length ls < fuel
    → load_loop fuel i (wire ls) ≡ all_settings i ls
unfolding load_loop wire all_settings
load_loop-wire zero i ls goods h = absurd (omega arith)
load_loop-wire (suc fuel) i [] goods h = refl
load_loop-wire (suc fuel) i (l ∷ ls) (good, goods) h =
    load_loop-cons fuel i l (wire ls) good
    ∙ ap (and_then (load_line i (line_of l))) (load_loop-wire fuel (i + 1) ls goods (omega arith))

-- A word of bytes none of which is a space.
abbrev pub is_word : Bytes → Bool
is_word [] = true
is_word (c ∷ cs) = not_space c && is_word cs

-- A label that fits into `name`.
abbrev pub is_label : Bytes → Bool
is_label label = is_word label && (ltb 0 (length label) && ltb (length label) 20)

span-not_space :
    (label rest : Bytes)
    → is_word label ≡ true
    → span not_space (label ++ b' ' ∷ rest) ≡ (label, b' ' ∷ rest)
span-not_space [] rest h = refl
span-not_space (c ∷ cs) rest h = ground (arith, span-not_space cs rest)

skip_space-word :
    (label rest : Bytes)
    → is_word label ≡ true
    → 0 < length label
    → skip_space (label ++ b' ' ∷ rest) ≡ label ++ b' ' ∷ rest
skip_space-word [] rest h n = absurd (omega arith)
skip_space-word (c ∷ cs) rest h n = ground arith

span-line : (t : Bytes) → is_one_line t ≡ true → (span not_line_end (line_of t)).0 ≡ t
span-line [] h = refl
span-line (c ∷ cs) h = ground (arith, span-line cs)

-- The value of a line is its text less the spaces at its start.
value-line_of :
    (t : Bytes)
    → is_one_line t ≡ true
    → (span not_line_end (skip_space (line_of t))).0 ≡ skip_space t
value-line_of [] h = refl
value-line_of (c ∷ cs) h = elim (Bool-cases (is_space c)) [
  | inl e ↦ rw e (value-line_of cs (ground arith))
  | inr e ↦ rw e (span-line (c ∷ cs) h)
]

length-skip_space : (t : Bytes) → length (skip_space t) ≤ length t
length-skip_space [] = omega arith
length-skip_space (c ∷ cs) = ground (arith, length-skip_space cs)

pub scan_value-line :
    (label text : Bytes)
    → is_label label ≡ true
    → is_one_line text ≡ true
    → length text ≤ 79
    → scan_value (label ++ (b' ' ∷ line_of text)) ≡ some (skip_space text)
unfolding scan_value
scan_value-line label text w l n =
    rw (skip_space-word label (line_of text) (ground arith) (ground arith)) (
      rw (span-not_space label (line_of text) (ground arith))
        (rw (value-line_of text l) (ground (arith, length-skip_space text))))
