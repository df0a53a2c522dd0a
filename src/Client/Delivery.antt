-- ===== src/Client/Delivery.antt =====
-- A saved form on its way: `verify_form`'s file, `apply_form`, the server's branch for "FILENAME ",
-- and `reg_getdb`.
use esif_client_server.Common.{
  ◌-◌, ◌≡◌, refl, ap, ◌∙◌, ◌++◌, append_assoc, true, ◌∷◌, some, Bytes, codes, length, take, drop,
  drop-length, line_of, wire, pos, arith,
}
use esif_client_server.Socket.{Socket, IsLawful, IsReliable}
use esif_client_server.Support.Lines.{stream}
use esif_client_server.Database.{Database, IsHealthy}
use esif_client_server.Password.{Password}
use esif_client_server.Regdb.{reg_getdb}
use esif_client_server.Session.{Env, Session, set_file, next}
use esif_client_server.Session.Upload.{file_command}
use esif_client_server.Session.Upload.Stored.{file_command-Stores, file_command-reg_getdb, lines_of}
use esif_client_server.Form.Entries.{Student}
use esif_client_server.Form.File.{form_lines}
use esif_client_server.Form.File.Sendable.{IsText, IsSendable}
use esif_client_server.Form.File.Lines.{
  form_lines-AllFormLines, length-form_lines, block-form_lines,
}
use esif_client_server.Form.Name.{IsWord, form_name-IsFormName}
use esif_client_server.Form.Verify.{form_name}
use esif_client_server.Client.{Client, returns, file_at}
use esif_client_server.Client.Apply.{apply_form}
use esif_client_server.Client.Marking.{HasHeader, marked-form_lines}
use esif_client_server.Client.Sent.{apply_form-Applied}

-- The bytes that a client has sent from `s` on.
abbrev pub sent_since : {S : Socket} → Client S → Client S → Bytes
sent_since {S} s t = drop (length (S.outgoing s.conn.sock)) (S.outgoing t.conn.sock)

module _ {C : Socket} (D : Database Bytes) where
  -- What is true when the form of `e` has come from the client `s` to the session `t`.
  pub record Delivered (path name photo : Bytes) (e : Student) (s after : Client C) (d : D.Db)
      : Type 0 where
    pub marked_sent : after.files ≡ set_file path (wire (form_lines (codes "1") photo e)) s.files
    pub in_database :
        reg_getdb D (take (length name - 4) name) d
        ≡ some (pos 0, lines_of (form_lines (codes "0") photo e))

module _ {C S : Socket} {P : Database Password} {D : Database Bytes} (env : Env P D) where
  -- Over lawful sockets on which no call fails but for interruptions: let a client have the file
  -- that `verify_form` writes, and can change, for a form whose entries have the lengths of the window's and whose
  -- header can be read, and let the server, which has a working database open and can write the
  -- form's file, have read the line "FILENAME " with the form's name. If what is next in the server's
  -- stream is what `apply_form` sends, and what is next in the client's is the server's "500", then
  -- `apply_form` without pictures returns 0, the server's branch goes on having answered "500", the
  -- client's file is marked as sent, and the database gives the form's 39 lines back under its name
  -- less ".txt".
  pub apply_form-Delivered :
      (LC : IsLawful C) (RC : IsReliable C) (LS : IsLawful S) (RS : IsReliable S) (H : IsHealthy D)
      (accepts_all : (path line : Bytes) → env.accepts path line ≡ true) (d : D.Db) (e : Student)
      (path photo txtdir rest more more' : Bytes) (s : Client C) (t : Session S D)
      → IsSendable e
      → HasHeader e
      → IsWord e.section
      → IsText 99 photo
      → file_at path s.files ≡ some (wire (form_lines (codes "0") photo e))
      → s.can_write path ≡ true
      → stream s.conn ≡ codes "500\n" ++ more
      → t.buffer ≡ codes "FILENAME " ++ (line_of (form_name e) ++ 0 ∷ rest)
      → env.opens (txtdir ++ form_name e) ≡ true
      → stream t.conn ≡ sent_since s (apply_form true path s).1 ++ more'
      → t.regdb ≡ some d
      → ((apply_form true path s).0 ≡ returns (pos 0))
        × ((file_command env txtdir t).0 ≡ next tt)
        × (S.outgoing (file_command env txtdir t).1.conn.sock
            ≡ S.outgoing t.conn.sock ++ codes "500\n")
        × ((d' : D.Db) × ((file_command env txtdir t).1.regdb ≡ some d')
            × Delivered D path (form_name e) photo e s (apply_form true path s).1 d')
  apply_form-Delivered LC RC LS RS H acc d e path photo txtdir rest more more' s t h k word p there
        writable answer buffer opens linked db =
      let lines = form_lines (codes "0") photo e in
      let goods = form_lines-AllFormLines (codes "0") photo e h (refl, omega arith) p in
      let room = block-form_lines (codes "0") photo e h (refl, omega arith) p in
      let a =
        apply_form-Applied LC RC path (wire (form_lines (codes "1") photo e)) e.student_name more
          lines s there goods (marked-form_lines s.st_name photo e h k) answer in
      let sent : sent_since s (apply_form true path s).1 ≡ wire lines ++ codes ".\n" =
        ap (drop (length (C.outgoing s.conn.sock))) a.sent
        ∙ drop-length (C.outgoing s.conn.sock) (wire lines ++ codes ".\n") in
      let arrives : stream t.conn ≡ wire lines ++ (codes ".\n" ++ more') =
        linked ∙ ap (λ x. x ++ more') sent ∙ append_assoc (wire lines) (codes ".\n") more' in
      let one : length e.section ≡ 1 = omega (arith, h.section.1, k.section.1) in
      let name = form_name-IsFormName e h word one in
      let r =
        file_command-Stores env LS RS acc d txtdir (form_name e) rest more' lines t buffer name
          opens goods arrives room db in
      let (d', is_db, back) =
        file_command-reg_getdb env LS RS H acc d txtdir (form_name e) rest more' lines t buffer name
          opens goods (length-form_lines (codes "0") photo e h.all_subs) arrives room db in
      (
        a.returned ∙ rw writable refl,
        r.goes_on,
        r.replied,
        (d', is_db, record { marked_sent = a.files_are ∙ rw writable refl; in_database = back }),
      )
