-- ===== src/Editor/Recycled.antt =====
-- What the buttons of the list of forms do in a directory of saved forms.
use esif_client_server.Common.{
  ℕ, zero, suc, ◌≡◌, refl, sym, ap, ◌∙◌, ◌++◌, Bool-cases, inl, inr, true, List, [], ◌∷◌, Option,
  none, some, Bytes, bytes_eq, bytes_eq_refl, map, get_elem?, if◌then◌else◌,
}
use mathlib.Core.Path.{subst}
use esif_client_server.Editor.Rows.{Row, is_info_name, editor_load_data, taken_names, row_filename}
use esif_client_server.Editor.Listing.{
  Folder, Listing, text_of, without_file, recycle, refresh_editor_list, editor_delete_clicked,
  editor_edit_clicked,
}
use esif_client_server.Editor.Files.{AllForms, editor_load_data-Lists}

-- The list shows the directory, whose files that are taken are saved forms.
pub record IsShown (l : Listing) : Type 0 where
  pub forms : AllForms l.folder.files
  pub shown : editor_load_data (λ name. true) l.folder.files ≡ some l.rows

-- Just the file of that row is gone from the directory, it is in "recycled/" under its name, and the
-- list shows what is left, with nothing selected.
pub record Deleted (l : Listing) (row : Row) (t : Listing) : Type 0 where
  pub text : Bytes
  pub was : text_of (row_filename row) l.folder.files ≡ some text
  pub files : t.folder.files ≡ without_file (row_filename row) l.folder.files
  pub recycled :
      t.folder.recycled
      ≡ (row_filename row, text) ∷ without_file (row_filename row) l.folder.recycled
  pub shown : IsShown t
  pub selected : t.selected ≡ none

AllForms-without_file :
    (name : Bytes) (files : List (Bytes × Bytes))
    → AllForms files
    → AllForms (without_file name files)
unfolding without_file
AllForms-without_file name [] h = h
AllForms-without_file name ((n, text) ∷ files) (f, h) = elim (Bool-cases (bytes_eq n name)) [
  | inl e ↦ rw e (AllForms-without_file name files h)
  | inr e ↦ rw e (f, AllForms-without_file name files h)
]

some_inj : {A : Type 0} {a b : A} → ◌≡◌ {A = Option A} (some a) (some b) → a ≡ b
some_inj e = cc

text_of-∷ :
    (n t name text : Bytes) (files : List (Bytes × Bytes))
    → text_of name files ≡ some text
    → (u : Bytes) × (text_of name ((n, t) ∷ files) ≡ some u)
unfolding text_of
text_of-∷ n t name text files h = elim (Bool-cases (bytes_eq n name)) [
  | inl own ↦ (t, rw own refl)
  | inr other ↦ (text, rw other h)
]

-- A name that is taken has a text.
text_of-get_elem? :
    (files : List (Bytes × Bytes)) (i : ℕ) (name : Bytes)
    → get_elem? (taken_names files) i ≡ some name
    → (text : Bytes) × (text_of name files ≡ some text)
unfolding text_of taken_names
text_of-get_elem? [] i name h = absurd cc
text_of-get_elem? ((n, text) ∷ files) zero name h = elim (Bool-cases (is_info_name n)) [
  | inr skipped ↦
      let (t, e) = text_of-get_elem? files zero name (
        subst
          (λ b. get_elem? (if b then n ∷ taken_names files else taken_names files) zero ≡ some name)
          skipped h) in
      text_of-∷ n text name t files e
  | inl taken ↦
      let e : n ≡ name = some_inj (
        subst
          (λ b. get_elem? (if b then n ∷ taken_names files else taken_names files) zero ≡ some name)
          taken h) in
      let own : bytes_eq n name ≡ true = ap (bytes_eq n) (sym e) ∙ bytes_eq_refl n in
      (text, rw own refl)
]
text_of-get_elem? ((n, text) ∷ files) (suc i) name h = elim (Bool-cases (is_info_name n)) [
  | inr skipped ↦
      let (t, e) = text_of-get_elem? files (suc i) name (
        subst
          (λ b.
            get_elem? (if b then n ∷ taken_names files else taken_names files) (suc i) ≡ some name)
          skipped h) in
      text_of-∷ n text name t files e
  | inl taken ↦
      let (t, e) = text_of-get_elem? files i name (
        subst
          (λ b.
            get_elem? (if b then n ∷ taken_names files else taken_names files) (suc i) ≡ some name)
          taken h) in
      text_of-∷ n text name t files e
]

get_elem?-map :
    (f : Row → Bytes) (rows : List Row) (i : ℕ) (row : Row)
    → get_elem? rows i ≡ some row
    → get_elem? (map f rows) i ≡ some (f row)
get_elem?-map f [] i row h = absurd cc
get_elem?-map f (r ∷ rows) zero row h = let e : r ≡ row = cc in ap (λ x. some (f x)) e
get_elem?-map f (r ∷ rows) (suc i) row h = get_elem?-map f rows i row h

names_shown : (l : Listing) → IsShown l → map row_filename l.rows ≡ taken_names l.folder.files
names_shown l h =
    let k = editor_load_data-Lists l.folder.files h.forms in
    let same : l.rows ≡ k.rows = some_inj (sym h.shown ∙ k.loads) in
    ap (map row_filename) same ∙ k.names

refreshed :
    (l : Listing)
    → AllForms l.folder.files
    → (t : Listing) × (refresh_editor_list (λ name. true) l ≡ some t)
      × IsShown t
      × (t.folder ≡ l.folder)
      × (t.selected ≡ none)
unfolding refresh_editor_list
refreshed l h =
    let k = editor_load_data-Lists l.folder.files h in
    (
      record l { rows = k.rows; selected = none },
      rw k.loads refl,
      record { forms = h; shown = k.loads },
      refl,
      refl,
    )

recycled_lem :
    (name text : Bytes) (f : Folder)
    → text_of name f.files ≡ some text
    → recycle true name f
      ≡ some (record {
        files = without_file name f.files;
        recycled = (name, text) ∷ without_file name f.recycled;
      })
unfolding recycle
recycled_lem name text f h = rw (h, recycle) refl

delete_selected :
    (l : Listing) (row : Row) (f : Folder)
    → l.selected ≡ some row
    → recycle true (row_filename row) l.folder ≡ some f
    → editor_delete_clicked (λ name. true) true l
      ≡ refresh_editor_list (λ name. true) (record l { folder = f })
unfolding editor_delete_clicked
delete_selected l row f s e = rw s (rw e refl)

-- In a list that shows its directory of saved forms, in which other files have names that are not
-- taken, with one of its rows selected, fopen() opening every file, and rename() allowed: "Edit" opens the file from which that row was read, and "Delete" moves just that file to
-- "recycled/", under its name, and shows the rest, so that the list still shows its directory.
pub editor_delete_clicked-Deleted :
    (infodirname : Bytes) (l : Listing) (i : ℕ) (row : Row)
    → IsShown l
    → get_elem? l.rows i ≡ some row
    → l.selected ≡ some row
    → (editor_edit_clicked infodirname l ≡ some (infodirname ++ row_filename row))
      × (get_elem? (taken_names l.folder.files) i ≡ some (row_filename row))
      × ((t : Listing) × (editor_delete_clicked (λ name. true) true l ≡ some t) × Deleted l row t)
unfolding editor_edit_clicked
editor_delete_clicked-Deleted infodirname l i row h at_i s =
    let named : get_elem? (taken_names l.folder.files) i ≡ some (row_filename row) =
      ap (λ names. get_elem? names i) (sym (names_shown l h))
      ∙ get_elem?-map row_filename l.rows i row at_i in
    let (text, was) = text_of-get_elem? l.folder.files i (row_filename row) named in
    let f : Folder = record {
      files = without_file (row_filename row) l.folder.files;
      recycled = (row_filename row, text) ∷ without_file (row_filename row) l.folder.recycled;
    } in
    let (t, runs, shown, same, none_selected) =
      refreshed (record l { folder = f })
        (AllForms-without_file (row_filename row) l.folder.files h.forms) in
    (
      rw s refl,
      named,
      (
        t,
        delete_selected l row f s (recycled_lem (row_filename row) text l.folder was) ∙ runs,
        record {
          text = text;
          was = was;
          files = ap (λ g. g.files) same;
          recycled = ap (λ g. g.recycled) same;
          shown = shown;
          selected = none_selected;
        },
      ),
    )
