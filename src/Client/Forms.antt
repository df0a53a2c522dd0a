-- ===== src/Client/Forms.antt =====
-- project2/src/myfuncs.c: `apply_forms`, over a connection that is open.
use esif_client_server.Common.{
  ℕ, zero, suc, ◌+◌, ◌-◌, ◌++◌, Bool, false, ◌||◌, List, [], ◌∷◌, Option, none, some, Bytes,
  bytes_eq, codes, c_string, length, drop, ltb, ◌==◌, if◌then◌else◌, ℤ, pos, negsuc, eq_int,
}
use esif_client_server.Socket.{Socket}
use esif_client_server.Client.{
  Client, Step, Done, going, returns, faults, runs_out, ◌>>=◌, ◌>>◌, write_all, file_at, regardless,
}
use esif_client_server.Client.Authenticate.{authenticate}
use esif_client_server.Client.Header.{Scanned, found, missing, overflow, fgets, scan_fields}
use esif_client_server.Client.Apply.{apply_form}

-- A name in the directory that may be a form's: MINFILENAMELEN is 15, MAXFILENAMELEN 25.
unfoldable pub is_form_name : Bytes → Bool
is_form_name [] = false
is_form_name (c ∷ cs) =
    let name = c ∷ cs in
    if c == b'.'
    then false
    else if ltb (length name) 15 || ltb 25 (length name)
    then false
    else (bytes_eq (drop (length name - 4) name) (codes ".txt"))

-- The path of a form, with a '/' where the directory's name has none at its end.
unfoldable pub full_filename : Bytes → Bytes → Bytes
full_filename infodirname name =
    if bytes_eq (drop (length infodirname - 1) infodirname) (codes "/")
    then infodirname ++ name
    else infodirname ++ (codes "/" ++ name)

-- What the loop carries: the counts, and what `sent` holds, if anything.
pub record Sending : Type 0 where
  pub success : ℕ
  pub failure : ℕ
  pub sent : Option ℤ

module _ {S : Socket} (ignore_photo : Bool) where
  -- What `apply_form` returns is counted.
  count_form : Sending → Done (Unit {0}) × Client S → Done Sending × Client S
  count_form w (going t, s) = (going w, s)
  count_form w (returns code, s) = (
    going (
        if eq_int code (pos 0)
        then record w { success = w.success + 1 }
        else record w { failure = w.failure + 1 }),
    s,
  )
  count_form w (faults, s) = (faults, s)
  count_form w (runs_out, s) = (runs_out, s)

  send_unsent : Bytes → Bytes → Sending → Step (Client S) Sending
  unfolding count_form
  send_unsent full name w = do
    write_all (codes "FILENAME " ++ (name ++ codes "\n")) (pos 1)
    λ s. count_form w (apply_form ignore_photo full s)

  form_with : Bytes → Bytes → Option ℤ → Sending → Step (Client S) Sending
  unfolding send_unsent
  form_with full name none w s = (faults, s)
  form_with full name (some sent) w s =
      let v = record w { sent = some sent } in
      let rest = send_unsent full name v s in if eq_int sent (pos 0) then rest else (going v, s)

  -- The header's sent flag: a conversion that does not match leaves that of the file before.
  form_scanned :
      Bytes
      → Bytes
      → {A : Type 0} → Scanned (A × Bytes)
      → (A → ℤ)
      → Sending
      → Step (Client S) Sending
  unfolding form_with
  form_scanned full name (found (fields, rest)) flag w = form_with full name (some (flag fields)) w
  form_scanned full name missing flag w = form_with full name w.sent w
  form_scanned full name overflow flag w = λ s. (faults, s)

  form_of_text : Bytes → Bytes → Option Bytes → Sending → Step (Client S) Sending
  unfolding form_scanned scan_fields fgets
  form_of_text full name none w = λ s. (going w, s)
  form_of_text full name (some text) w =
      form_scanned full name (scan_fields (c_string (fgets 119 text).0)) (λ f. f.sent) w

  -- One round of the loop over the directory.
  unfoldable pub apply_entry : Bytes → Bytes → Sending → Step (Client S) Sending
  unfolding form_of_text is_form_name full_filename
  apply_entry infodirname name w s =
      let full = full_filename infodirname name in
      let rest = form_of_text full name (file_at full s.files) w s in
      if is_form_name name then rest else (going w, s)

  unfoldable pub apply_loop : Bytes → List Bytes → Sending → Step (Client S) Sending
  unfolding apply_entry
  apply_loop infodirname [] w = λ s. (going w, s)
  apply_loop infodirname (name ∷ names) w = do
    w ← apply_entry infodirname name w
    apply_loop infodirname names w

  loop_over : Bytes → Option (List Bytes) → Step (Client S) Sending
  unfolding apply_loop
  loop_over infodirname none = λ s. (going (record { success = 0; failure = 0; sent = none }), s)
  loop_over infodirname (some names) =
      apply_loop infodirname names (record { success = 0; failure = 0; sent = none })

  -- `write_quit`
  quit : Sending → Step (Client S) Sending
  quit w s = regardless w (write_all (codes "QUIT\n") (pos 1) s)

  after_authenticate :
      Bytes → Option (List Bytes) → Done (Unit {0}) × Client S → Done Sending × Client S
  unfolding loop_over quit
  after_authenticate infodirname names (returns (pos zero), s) =
      (do w ← loop_over infodirname names; quit w) s
  after_authenticate infodirname names (returns (pos (suc n)), s) = (returns (pos 1), s)
  after_authenticate infodirname names (returns (negsuc n), s) = (returns (pos 1), s)
  after_authenticate infodirname names (going t, s) = (returns (pos 1), s)
  after_authenticate infodirname names (faults, s) = (faults, s)
  after_authenticate infodirname names (runs_out, s) = (runs_out, s)

  -- `apply_forms` from `authenticate` on, where `names` are those of the directory, in the order of
  -- readdir(), or it cannot be opened.
  unfoldable pub apply_forms :
      Bytes
      → (Bytes → Bytes)
      → Bytes
      → Bytes
      → Bytes
      → Option (List Bytes)
      → Step (Client S) Sending
  unfolding after_authenticate authenticate
  apply_forms magic sha1 username pass infodirname names s =
      after_authenticate infodirname names (authenticate magic sha1 username pass s)
