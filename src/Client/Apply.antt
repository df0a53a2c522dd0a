-- ===== src/Client/Apply.antt =====
-- project2/src/myfuncs.c: `apply_form`. The user does not cancel in the middle of a form.
use esif_client_server.Common.{
  ℕ, zero, suc, ◌+◌, Bool, true, false, not, [], ◌∷◌, Option, none, some, Bytes, codes, c_string,
  starts_with, length, drop, ltb, if◌then◌else◌, pos, eq_int,
}
use esif_client_server.Socket.{Socket}
use esif_client_server.Support.{Line}
use esif_client_server.Client.{
  Client, Step, going, faults, runs_out, ◌>>=◌, ◌>>◌, return_if, exit, write_all, read_line,
  file_at, regardless,
}
use esif_client_server.Client.Header.{Scanned, found, missing, overflow, fgets, marked}
use esif_client_server.Client.Photo.{send_photo}
use esif_client_server.Session.{set_file}
use esif_client_server.Session.Scan.{scan_line, skip_space}

-- sscanf(buffer, "PHOTO %[^\r\n]", photo) on a line that starts with "PHOTO ".
unfoldable pub photo_of : Bytes → Bytes → Bytes
photo_of photo line =
    if starts_with (codes "PHOTO ") line
    then (elim (scan_line (skip_space (drop 5 line))) [ none ↦ photo | some name ↦ name ])
    else photo

module _ {S : Socket} where
  -- The loop over the file's lines, which gives the photo's name.
  unfoldable pub send_lines : ℕ → Bytes → Bytes → Step (Client S) Bytes
  unfolding photo_of fgets
  send_lines zero photo text s = (runs_out, s)
  send_lines (suc fuel) photo [] s = (going photo, s)
  send_lines (suc fuel) photo (c ∷ cs) s =
      let (line, rest) = fgets 119 (c ∷ cs) in
      (do write_all (c_string line) (pos 3); send_lines fuel (photo_of photo (c_string line)) rest)
        s

  unfoldable pub mark_with : Bytes → Scanned (Bytes × Bytes) → Step (Client S) Bool
  mark_with filename (found (text, st_name)) s =
      (going false, record s { files = set_file filename text s.files; st_name = st_name })
  mark_with filename missing s = (faults, s)
  mark_with filename overflow s = (faults, s)

  unfoldable pub mark_in : Bytes → Option Bytes → Step (Client S) Bool
  unfolding mark_with marked
  mark_in filename none s = (going true, s)
  mark_in filename (some text) s = mark_with filename (marked s.st_name text) s

  -- The update of the sent flag, with `err`: fopen() with "r+" needs a file that is there and can be
  -- written. Where the header lacks a field, a variable is printed that holds nothing.
  unfoldable pub mark_sent : Bytes → Step (Client S) Bool
  unfolding mark_in
  mark_sent filename s =
      if s.can_write filename
      then mark_in filename (file_at filename s.files) s
      else (going true, s)

  -- The picture, where pictures are sent and the form names one; FILENAMELEN is 19.
  unfoldable pub apply_photo : Bool → Bytes → Step (Client S) (Unit {0})
  apply_photo ignore_photo photo s =
      if ignore_photo
      then (going tt, s)
      else if ltb (length photo) 19
      then (going tt, s)
      else (regardless tt (send_photo photo s))

  -- The end of the form and the server's answer to it: `err`.
  unfoldable pub form_answer : Line → Step (Client S) Bool
  form_answer line = do
    return_if (not (eq_int line.ret (pos 4))) (pos 1)
    λ s. (going (not (starts_with (codes "500\n") line.written)), s)

  unfoldable pub end_form : Step (Client S) Bool
  unfolding form_answer
  end_form = do write_all (codes ".\n") (pos 1); line ← read_line 20; form_answer line

  -- `finalize`, with `err`.
  unfoldable pub finish_form : Bool → Bytes → Bytes → Bool → Step (Client S) (Unit {0})
  unfolding mark_sent apply_photo
  finish_form ignore_photo filename photo err = do
    err ← if err then (λ s. (going true, s)) else mark_sent filename
    apply_photo ignore_photo photo
    exit (if err then pos 1 else pos 0)

  unfoldable pub form_from : Bool → Bytes → Option Bytes → Step (Client S) (Unit {0})
  unfolding send_lines end_form finish_form
  form_from ignore_photo filename none = exit (pos 1)
  form_from ignore_photo filename (some text) = do
    photo ← send_lines (length text + 1) [] text
    err ← end_form
    finish_form ignore_photo filename photo err

  -- `apply_form`
  unfoldable pub apply_form : Bool → Bytes → Step (Client S) (Unit {0})
  unfolding form_from
  apply_form ignore_photo filename s = form_from ignore_photo filename (file_at filename s.files) s
