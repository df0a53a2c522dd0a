-- ===== src/Client/Sent.antt =====
-- What `apply_form` does with a form that the server takes.
use esif_client_server.Common.{
  ◌+◌, ◌≡◌, refl, sym, ap, ◌∙◌, ◌++◌, append_cancel_left, length-wire, Bool, Bool-cases, inl, inr,
  if◌then◌else◌, true, false, List, [], ◌∷◌, some, Bytes, codes, starts_with, length, wire, pos,
  arith,
}
use esif_client_server.Socket.{Socket, IsLawful, IsReliable}
use esif_client_server.Support.Lines.{stream}
use esif_client_server.Session.{set_file}
use esif_client_server.Session.Upload.Whole.{AllFormLines}
use esif_client_server.Client.{
  Client, Done, going, returns, ◌>>=◌, proceed-going, write_all, read_line, file_at,
}
use esif_client_server.Client.Header.{found, marked}
use esif_client_server.Client.Apply.{
  send_lines, mark_with, mark_in, mark_sent, apply_photo, form_answer, end_form, finish_form,
  form_from, apply_form,
}
use esif_client_server.Client.Steps.{
  Spoke-none, Spoke-then, Speaks, Speaks-bind, write_all-Speaks, read_line-Speaks,
  send_lines-Speaks, photo_in,
}

module _ {S : Socket} (L : IsLawful S) (R : IsReliable S) where
  form_answer-Speaks :
      (s : Client S)
      → Speaks L R [] [] false s
          (form_answer (record { ret = pos 4; written = codes "500\n" ++ 0 ∷ [] }) s)
  unfolding form_answer starts_with
  form_answer-Speaks s = record { after = s; runs = refl; spoke = Spoke-none L R s }

  end_form-Speaks :
      (more : Bytes) (s : Client S)
      → stream s.conn ≡ codes "500\n" ++ more
      → Speaks L R (codes ".\n") (codes "500\n") false s (end_form s)
  unfolding end_form
  end_form-Speaks more s e =
      let w = write_all-Speaks L R (codes ".\n") (pos 1) s in
      let (r, _) =
        read_line-Speaks L R 20 (codes "500") more w.after (sym w.spoke.took ∙ e) refl
          (omega arith) in
      Speaks-bind L R (write_all (codes ".\n") (pos 1)) (λ _. read_line 20 >>= form_answer) s w
        (Speaks-bind L R (read_line 20) form_answer w.after r (form_answer-Speaks r.after))

  -- What is left of a form that was sent: the bytes on the wire, the answer taken from the stream,
  -- and the file with its sent flag set.
  pub record Applied (path : Bytes) (ls : List Bytes) (text more : Bytes) (s : Client S)
      (r : Done (Unit {0}) × Client S) : Type 0 where
    pub returned : r.0 ≡ returns (if s.can_write path then pos 0 else (pos 1))
    pub sent : S.outgoing r.1.conn.sock ≡ S.outgoing s.conn.sock ++ (wire ls ++ codes ".\n")
    pub stream_is : stream r.1.conn ≡ more
    pub files_are : r.1.files ≡ (if s.can_write path then set_file path text s.files else s.files)

  mark_sent-found :
      (path old text name : Bytes) (s : Client S)
      → file_at path s.files ≡ some old
      → marked s.st_name old ≡ found (text, name)
      → s.can_write path ≡ true
      → mark_sent path s
        ≡ (going false, record s { files = set_file path text s.files; st_name = name })
  unfolding mark_sent mark_in mark_with
  mark_sent-found path old text name s e m w = rw w (rw e (rw m refl))

  mark_sent-shut :
      (path : Bytes) (s : Client S) → s.can_write path ≡ false → mark_sent path s ≡ (going true, s)
  unfolding mark_sent
  mark_sent-shut path s w = rw w refl

  finish_form-found :
      (path photo old text name : Bytes) (s : Client S)
      → file_at path s.files ≡ some old
      → marked s.st_name old ≡ found (text, name)
      → s.can_write path ≡ true
      → finish_form true path photo false s
        ≡ (returns (pos 0), record s { files = set_file path text s.files; st_name = name })
  unfolding finish_form apply_photo
  finish_form-found path photo old text name s e m w =
      rw (mark_sent-found path old text name s e m w) refl

  finish_form-shut :
      (path photo : Bytes) (s : Client S)
      → s.can_write path ≡ false
      → finish_form true path photo false s ≡ (returns (pos 1), s)
  unfolding finish_form apply_photo
  finish_form-shut path photo s w = rw (mark_sent-shut path s w) refl

  form_from-some :
      (path old : Bytes) (s : Client S)
      → file_at path s.files ≡ some old
      → apply_form true path s ≡ form_from true path (some old) s
  unfolding apply_form
  form_from-some path old s e = rw e refl

  -- Over a lawful socket on which no call fails but for interruptions, when the form's file is there,
  -- consists of lines of a form and has a header that can be read, and the server answers "500":
  -- `apply_form` without pictures comes to its end, has sent just the file's lines and the line ".", and
  -- has taken only the answer from the stream; it returns 0 and has left the file with the header
  -- printed again and its sent flag set if the file can be opened to be changed, and else returns 1 and
  -- has left the file as it was.
  pub apply_form-Applied :
      (path text name more : Bytes) (ls : List Bytes) (s : Client S)
      → file_at path s.files ≡ some (wire ls)
      → AllFormLines ls
      → marked s.st_name (wire ls) ≡ found (text, name)
      → stream s.conn ≡ codes "500\n" ++ more
      → Applied path ls text more s (apply_form true path s)
  unfolding form_from
  apply_form-Applied path text name more ls s there goods m e =
      let a =
        send_lines-Speaks L R (length (wire ls) + 1) ls [] s goods
          (omega (arith, length-wire ls)) in
      let b = end_form-Speaks more a.after (sym a.spoke.took ∙ e) in
      let finish = λ (err : Bool). finish_form true path (photo_in [] ls) err in
      let both =
        Spoke-then L R (wire ls) [] (codes ".\n") (codes "500\n") s a.after b.after a.spoke
          b.spoke in
      let all : apply_form true path s ≡ finish false b.after =
        form_from-some path (wire ls) s there
        ∙ proceed-going (send_lines (length (wire ls) + 1) [] (wire ls))
            (λ photo. end_form >>= λ err. finish_form true path photo err) s a.after
            (photo_in [] ls) a.runs
        ∙ proceed-going end_form finish a.after b.after false b.runs in
      let left = append_cancel_left (codes "500\n") _ _ (sym both.took ∙ e) in
      let allowed = ap (λ f. f path) both.writes in
      elim (Bool-cases (s.can_write path)) [
        | inl w ↦
            let end =
              finish_form-found path (photo_in [] ls) (wire ls) text name b.after
                (rw both.files_are there) (rw both.name_is m) (allowed ∙ w) in
            rw (all ∙ end) (record {
              returned = rw w refl;
              sent = both.sent;
              stream_is = left;
              files_are = rw w (ap (set_file path text) both.files_are);
            })
        | inr w ↦ rw (all ∙ finish_form-shut path (photo_in [] ls) b.after (allowed ∙ w)) (record {
          returned = rw w refl;
          sent = both.sent;
          stream_is = left;
          files_are = rw w both.files_are;
        })
      ]
