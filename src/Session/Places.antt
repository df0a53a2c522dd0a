-- ===== src/Session/Places.antt =====
-- The files that `manage_client` as a whole writes, and for whom.
use esif_client_server.Common.{
  ℕ, zero, suc, ◌+◌, ◌≡◌, refl, ◌∙◌, ◌++◌, true, not, ◌||◌, ◌⊎◌, inl, inr, [], ◌∷◌, Bytes, codes,
  c_string, starts_with, length, Option, none, some, drop, ltb, leb, ℤ, pos, negsuc, ltb_int,
  eq_int, strtol, if◌then◌else◌,
}
use esif_client_server.Socket.{Socket, IsLawful, IsReliable, is_ewouldblock}
use esif_client_server.Database.{Database}
use esif_client_server.Password.{Password}
use esif_client_server.Session.{
  M, resume, ◌>>=◌, Env, Session, Outcome, next, stop, fault, spent, set_text, set_file,
}
use esif_client_server.Session.Scan.{is_int, to_size}
use esif_client_server.Session.Runs.{After, Ended}
use esif_client_server.Session.Login.{login}
use esif_client_server.Session.Login.Safe.{Admits, login-Admits}
use esif_client_server.Session.Institute.{
  mkdir, reg_initdb, session_dir, txt_root, bdb_root, institute, reg_path, txt_dir, open_institute,
}
use esif_client_server.Session.Image.{
  max_file_name, Received, binary_done, accept_binary, scan_image, image_command,
}
use esif_client_server.Session.Upload.{supply, get_line}
use esif_client_server.Session.Upload.Confined.{get_line-Leaves, file_command-Leaves}
use esif_client_server.Session.Commands.{command, command_loop}
use esif_client_server.Session.Handler.{manage_client}
use esif_client_server.Session.Confined.{
  AllUnder, set_file-AllUnder, IsConfined, Any, Leaves, Leaves-resume, Leaves-if, Leaves-stop,
  Leaves-next, report-Leaves, stop_if-Leaves, fault_if-Leaves,
}

module _ {S : Socket} {P : Database Password} {D : Database Bytes} (env : Env P D)
    (dir : Bytes) where
  binary_done-Leaves :
      (name : Bytes) (r : Received S) (s : Session S D)
      → IsConfined dir s
      → Leaves dir Any (binary_done env (dir ++ name) r s)
  unfolding binary_done
  binary_done-Leaves name r s h = by_code r.ret
    where
      t : Session S D
      t = record s { conn = r.conn; files = set_file (dir ++ name) r.text s.files }

      by_code :
          (o : Option ℤ)
          → Leaves {S = S} {D = D} dir {A = ℤ} Any
              (elim o [ none ↦ (spent, t) | some ret ↦ (next ret, t) ])
      by_code none = record { value = tt; confined = set_file-AllUnder dir name r.text s.files h }
      by_code (some ret) = record {
        value = tt;
        confined = set_file-AllUnder dir name r.text s.files h;
      }

  accept_binary-Leaves :
      (size : ℕ) (name : Bytes) (s : Session S D)
      → IsConfined dir s
      → Leaves dir Any (accept_binary env size (dir ++ name) s)
  unfolding accept_binary
  accept_binary-Leaves size name s h =
      Leaves-if dir (not (env.opens (dir ++ name))) (Leaves-next dir (negsuc 0) s tt h)
        (binary_done-Leaves name _ s h)

  image_command-Leaves :
      (s : Session S D) → IsConfined dir s → Leaves dir Any (image_command env dir s)
  unfolding image_command
  image_command-Leaves s h =
      let size = (scan_image (drop 7 (c_string s.buffer))).0 in
      let name = (scan_image (drop 7 (c_string s.buffer))).1 in
      let named : Session S D = record s { tmpname = some name } in
      Leaves-if dir (not env.accept_image) (report-Leaves dir (codes "310\n") s h) (
        Leaves-if dir (not (is_int size) || leb max_file_name (length name))
          (Leaves-resume dir _ (report-Leaves dir (codes "500\n") s h)
            (λ _ t _ k. fault_if-Leaves dir true t k))
          (Leaves-if dir (ltb (length name) 1)
            (Leaves-resume dir _ (report-Leaves dir (codes "500\n") named h)
              (λ _ t _ k. report-Leaves dir (codes "300\n") t k))
            (Leaves-resume dir _ (report-Leaves dir (codes "500\n") named h) (λ _ t _ k.
              Leaves-resume dir _ (accept_binary-Leaves (to_size size) name t k) (λ ret u _ l.
                report-Leaves dir (if eq_int ret (pos 0) then codes "500\n" else codes "300\n") u
                  l)))))

  command-Leaves :
      (ret : ℤ) (s : Session S D) → IsConfined dir s → Leaves dir Any (command env dir ret s)
  unfolding command
  command-Leaves ret s h =
      Leaves-if dir
        (is_ewouldblock s.conn.errno
          || (starts_with (codes "QUIT\n") s.buffer || ltb_int ret (pos 9)))
        (Leaves-stop dir s h)
        (Leaves-if dir (starts_with (codes "BINARY ") s.buffer) (image_command-Leaves s h) (
          Leaves-if dir (starts_with (codes "FILENAME ") s.buffer) (file_command-Leaves env dir s h)
            (Leaves-stop dir s h)))

  command_loop-rest :
      (fuel : ℕ) (r : Outcome (Unit {0}) × Session S D)
      → Leaves dir Any r
      → ((t : Session S D) → IsConfined dir t → Leaves dir Any (command_loop env dir fuel t))
      → Leaves {S = S} {D = D} dir {A = Unit {0}} Any (elim r.0 [
        | next _ ↦ command_loop env dir fuel r.1
        | stop ↦ (stop, r.1)
        | fault ↦ (fault, r.1)
        | spent ↦ (spent, r.1)
      ])
  command_loop-rest fuel (next _, t) h k = k t h.confined
  command_loop-rest fuel (stop, t) h k = record { value = tt; confined = h.confined }
  command_loop-rest fuel (fault, t) h k = record { value = tt; confined = h.confined }
  command_loop-rest fuel (spent, t) h k = record { value = tt; confined = h.confined }

  command_loop-Leaves :
      (fuel : ℕ) (s : Session S D) → IsConfined dir s → Leaves dir Any (command_loop env dir fuel s)
  unfolding command_loop
  command_loop-Leaves zero s h = record { value = tt; confined = h }
  command_loop-Leaves (suc fuel) s h =
      command_loop-rest fuel ((get_line >>= command env dir) s)
        (Leaves-resume dir _ (get_line-Leaves env dir s h) (λ ret t _ k. command-Leaves ret t k))
        (command_loop-Leaves fuel)

  reg_initdb-Leaves :
      (path : Bytes) (s : Session S D) → IsConfined dir s → Leaves dir Any (reg_initdb env path s)
  unfolding reg_initdb
  reg_initdb-Leaves path s h = by_answer (env.reg_open path)
    where
      by_answer :
          (o : Option D.Db)
          → Leaves {S = S} {D = D} dir {A = Unit {0}} Any
              (elim o [ none ↦ (stop, s) | some d ↦ (next tt, record s { regdb = some d }) ])
      by_answer none = Leaves-stop dir s h
      by_answer (some d) = record { value = tt; confined = h }

  open_institute-Leaves :
      (user : Bytes) (s : Session S D)
      → IsConfined dir s
      → Leaves dir (λ d. d ≡ txt_dir env.year (strtol user)) (open_institute env user s)
  unfolding open_institute mkdir
  open_institute-Leaves user s h =
      let college = strtol user in
      let made = λ (path : Bytes) (t : Session S D). record t { dirs = path ∷ t.dirs } in
      let t =
        made (session_dir txt_root env.year ++ institute college)
          (made (session_dir txt_root env.year) s) in
      Leaves-resume dir _
        (fault_if-Leaves dir (ltb 50 (length (reg_path env.year college) + 1)) t h)
        (λ _ u _ k.
          Leaves-resume dir _
            (reg_initdb-Leaves (reg_path env.year college)
              (set_text (institute college) (made (session_dir bdb_root env.year) u)).1 k)
            (λ _ v _ l.
              Leaves-resume dir _ (stop_if-Leaves dir (not env.malloc_ok) v l)
                (λ _ w _ m. Leaves-next dir _ w refl m)))

module _ {S : Socket} {P : Database Password} {D : Database Bytes} (env : Env P D) (L : IsLawful S)
    (R : IsReliable S) where
  -- What `manage_client` does after `login`.
  abbrev serve : Bytes → M (Session S D) (Unit {0})
  serve user = open_institute env user >>= λ txtdir s. command_loop env txtdir (supply s + 1) s

  -- A peer was admitted for a user, and the files are in the directory of that user's college.
  pub record Served (s t : Session S D) : Type 0 where
    pub user : Bytes
    pub begun : Session S D
    pub admitted : Admits L R s env user begun
    pub files_under : AllUnder (txt_dir env.year (strtol user)) t.files

  command_loop-at :
      (dir d : Bytes) (t : Session S D)
      → d ≡ dir
      → IsConfined dir t
      → Leaves dir Any (command_loop env d (supply t + 1) t)
  command_loop-at dir d t same h = rw same (command_loop-Leaves env dir (supply t + 1) t h)

  serve-Leaves :
      (user : Bytes) (s : Session S D)
      → s.files ≡ []
      → Leaves (txt_dir env.year (strtol user)) Any (serve user s)
  serve-Leaves user s e =
      let dir = txt_dir env.year (strtol user) in
      Leaves-resume dir _ (open_institute-Leaves env dir user s (rw e tt))
        (λ d t same k. command_loop-at dir d t same k)

  login-Served :
      (s : Session S D) (r : Outcome Bytes × Session S D)
      → s.files ≡ []
      → After (Admits L R s env) (Ended s) r
      → ((resume serve r).1.files ≡ []) ⊎ Served s (resume serve r).1
  login-Served s (next user, t) e h = inr (record {
    user = user;
    begun = t;
    admitted = h;
    files_under = (serve-Leaves user t (h.sent.kept.1 ∙ e)).confined;
  })
  login-Served s (stop, t) e (given, h) = inl (h.kept.1 ∙ e)
  login-Served s (fault, t) e (given, h) = inl (h.kept.1 ∙ e)
  login-Served s (spent, t) e h = absurd h

  -- Over a lawful socket on which no call fails but for interruptions, a session that has no file yet
  -- either writes none, or its peer has shown the magic, the code of an open college and the digest of
  -- its password, and every path to which it writes, whatever names the peer sends and however the
  -- session ends, begins with the directory of that college and of the year. (A name may go up again
  -- by "../": what the path means to the file system is not said.)
  pub manage_client-Served :
      (s : Session S D)
      → s.files ≡ []
      → ((manage_client env s).1.files ≡ []) ⊎ Served s (manage_client env s).1
  unfolding manage_client
  manage_client-Served s e = login-Served s (login env s) e (login-Admits L R s env).holds
