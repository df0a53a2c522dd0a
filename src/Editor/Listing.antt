-- ===== src/Editor/Listing.antt =====
-- project2/src/editor.c: the list of the forms, its selection, and the buttons that edit and delete a
-- form. The directory is a list of names with their files' texts.
use esif_client_server.Common.{
  ◌++◌, Bool, List, [], ◌∷◌, Option, none, some, Bytes, bytes_eq, if◌then◌else◌,
}
use esif_client_server.Editor.Rows.{Row, editor_load_data, row_filename}

pub record Folder : Type 0 where
  pub files : List (Bytes × Bytes)
  pub recycled : List (Bytes × Bytes)

-- `current_model`, and the row that is selected by `current_selection`, if there is one.
pub record Listing : Type 0 where
  pub folder : Folder
  pub rows : List Row
  pub selected : Option Row

unfoldable pub text_of : Bytes → List (Bytes × Bytes) → Option Bytes
text_of name [] = none
text_of name ((n, text) ∷ files) =
    let rest = text_of name files in if bytes_eq n name then some text else rest

unfoldable pub without_file : Bytes → List (Bytes × Bytes) → List (Bytes × Bytes)
without_file name [] = []
without_file name ((n, text) ∷ files) =
    let rest = without_file name files in if bytes_eq n name then rest else (n, text) ∷ rest

-- rename() from the directory into "recycled/", where a file of that name is replaced; it fails
-- without the file, and where it is not allowed.
unfoldable pub recycle : Bool → Bytes → Folder → Option Folder
unfolding text_of without_file
recycle allowed name f = elim (text_of name f.files) [
  | none ↦ none
  | some text ↦
      if allowed
      then some (record {
        files = without_file name f.files;
        recycled = (name, text) ∷ without_file name f.recycled;
      })
      else none
]

-- `editor_store_data`, which appends.
unfoldable pub editor_store_data : List Row → List Row → List Row
editor_store_data store rows = store ++ rows

module _ (opens : Bytes → Bool) where
  abbrev stored : Listing → Option (List Row) → Option Listing
  stored l none = none
  stored l (some rows) = some (record l { rows = editor_store_data [] rows; selected = none })

  unfoldable pub refresh_editor_list : Listing → Option Listing
  unfolding editor_load_data editor_store_data
  refresh_editor_list l = stored l (editor_load_data opens l.folder.files)

  abbrev renamed : Listing → Option Folder → Option Listing
  renamed l none = some l
  renamed l (some f) = refresh_editor_list (record l { folder = f })

  unfoldable pub editor_delete_clicked : Bool → Listing → Option Listing
  unfolding refresh_editor_list recycle row_filename
  editor_delete_clicked allowed l = elim l.selected [
    | none ↦ some l
    | some row ↦ renamed l (recycle allowed (row_filename row) l.folder)
  ]

-- The path of the form that `editor_edit_clicked` opens, if a row is selected.
unfoldable pub editor_edit_clicked : Bytes → Listing → Option Bytes
unfolding row_filename
editor_edit_clicked infodirname l = elim l.selected [
  | none ↦ none
  | some row ↦ some (infodirname ++ row_filename row)
]

-- A row that is gone is no longer selected.
unfoldable pub editor_clear_clicked : Listing → Listing
editor_clear_clicked l = record l { rows = []; selected = none }
