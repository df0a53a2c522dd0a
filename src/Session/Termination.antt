-- ===== src/Session/Termination.antt =====
-- `manage_client` on every lawful socket: it comes to an end.
use esif_client_server.Common.{
  ℕ, zero, suc, ◌+◌, ◌≤◌, ◌<◌, ◌≡◌, refl, sym, ap, ◌∙◌, ◌++◌, Bool-cases, inl, inr, true, false,
  not, ◌||◌, Bytes, codes, starts_with, length, Option, none, some, ltb, ℤ, pos, negsuc, ltb_int,
  strtol, arith,
}
use esif_client_server.Socket.{Socket, IsLawful}
use esif_client_server.Database.{Database}
use esif_client_server.Password.{Password}
use esif_client_server.Session.{◌>>=◌, Env, Session, Outcome, next, stop, fault, spent}
use esif_client_server.Session.Institute.{
  mkdir, reg_initdb, session_dir, txt_root, bdb_root, institute, reg_path, txt_dir, open_institute,
}
use esif_client_server.Socket.{is_ewouldblock}
use esif_client_server.Session.{bind-next}
use esif_client_server.Session.Upload.{supply, get_line}
use esif_client_server.Session.Upload.Ends.{file_command-Halts}
use esif_client_server.Session.Image.Ends.{image_command-Halts}
use esif_client_server.Session.Commands.{command, command_loop}
use esif_client_server.Session.Handler.{manage_client}
use esif_client_server.Session.Login.Ends.{set_text-Halts, login-Halts}
use esif_client_server.Session.Ends.{get_line-GetsLine}
use esif_client_server.Session.Ends.{
  Halts, Halts-from, Halts-resume, Halts-if, Halts-next, Halts-stop, stop_if-Halts, fault_if-Halts,
}

module _ {S : Socket} {P : Database Password} {D : Database Bytes} (env : Env P D)
    (L : IsLawful S) where
  mkdir-Halts : (path : Bytes) (s : Session S D) → Halts s (mkdir env path s)
  unfolding mkdir
  mkdir-Halts path s = record { not_spent = refl; less = omega arith }

  reg_initdb-Halts : (path : Bytes) (s : Session S D) → Halts s (reg_initdb env path s)
  unfolding reg_initdb
  reg_initdb-Halts path s = by_answer (env.reg_open path)
    where
      by_answer :
          (o : Option D.Db)
          → Halts {A = Unit {0}} s
              (elim o [ none ↦ (stop, s) | some d ↦ (next tt, record s { regdb = some d }) ])
      by_answer none = Halts-stop s
      by_answer (some d) = record { not_spent = refl; less = omega arith }

  open_institute-Halts : (user : Bytes) (s : Session S D) → Halts s (open_institute env user s)
  unfolding open_institute
  open_institute-Halts user s =
      let college = strtol user in
      Halts-resume s _ (mkdir-Halts (session_dir txt_root env.year) s) (λ _ t.
        Halts-resume t _ (mkdir-Halts (session_dir txt_root env.year ++ institute college) t)
          (λ _ u.
            Halts-resume u _ (fault_if-Halts (ltb 50 (length (reg_path env.year college) + 1)) u)
              (λ _ v. Halts-resume v _ (mkdir-Halts (session_dir bdb_root env.year) v) (λ _ w.
                Halts-resume w _ (set_text-Halts env L (institute college) w) (λ _ x.
                  Halts-resume x _ (reg_initdb-Halts (reg_path env.year college) x) (λ _ y.
                    Halts-resume y _ (stop_if-Halts (not env.malloc_ok) y)
                      (λ _ z. Halts-next (txt_dir env.year college) z)))))))

  command-Halts : (txtdir : Bytes) (ret : ℤ) (s : Session S D) → Halts s (command env txtdir ret s)
  unfolding command
  command-Halts txtdir ret s =
      Halts-if
        (is_ewouldblock s.conn.errno
          || (starts_with (codes "QUIT\n") s.buffer || ltb_int ret (pos 9)))
        (λ _. Halts-stop s)
        (λ _.
          Halts-if (starts_with (codes "BINARY ") s.buffer)
            (λ _. image_command-Halts env L txtdir s)
            (λ _.
              Halts-if (starts_with (codes "FILENAME ") s.buffer)
                (λ _. file_command-Halts env L txtdir s) (λ _. Halts-stop s)))

  above_zero : (ret : ℤ) → ltb_int ret (pos 9) ≡ false → ltb_int (pos 0) ret ≡ true
  above_zero (pos n) h = ground arith
  above_zero (negsuc n) h = absurd cc

  -- After a command that goes on, a line was read.
  command-next :
      (txtdir : Bytes) (ret : ℤ) (s t : Session S D)
      → command env txtdir ret s ≡ (next tt, t)
      → ltb_int (pos 0) ret ≡ true
  unfolding command
  command-next txtdir ret s t h =
      let over =
        is_ewouldblock s.conn.errno
        || (starts_with (codes "QUIT\n") s.buffer || ltb_int ret (pos 9)) in
      elim (Bool-cases over) [
        | inl e ↦ let r : (stop, s) ≡ (next tt, t) = rw (e, command) at h in absurd cc
        | inr e ↦ above_zero ret (ground arith)
      ]

  command_loop-rest :
      (txtdir : Bytes) (fuel : ℕ) (s : Session S D) (r : Outcome (Unit {0}) × Session S D)
      → Halts s r
      → ((t : Session S D) → r ≡ (next tt, t) → Halts t (command_loop env txtdir fuel t))
      → Halts {A = Unit {0}} s (elim r.0 [
        | next _ ↦ command_loop env txtdir fuel r.1
        | stop ↦ (stop, r.1)
        | fault ↦ (fault, r.1)
        | spent ↦ (spent, r.1)
      ])
  command_loop-rest txtdir fuel s (next tt, t) h k = Halts-from h.less (k t refl)
  command_loop-rest txtdir fuel s (stop, t) h k = record { not_spent = refl; less = h.less }
  command_loop-rest txtdir fuel s (fault, t) h k = record { not_spent = refl; less = h.less }
  command_loop-rest txtdir fuel s (spent, t) h k = absurd (let e = h.not_spent in cc)

  command_loop-Halts :
      (txtdir : Bytes) (fuel : ℕ) (s : Session S D)
      → supply s < fuel
      → Halts s (command_loop env txtdir fuel s)
  unfolding command_loop
  command_loop-Halts txtdir zero s h = absurd (omega arith)
  command_loop-Halts txtdir (suc fuel) s h =
      let g = get_line-GetsLine L s in
      let done = command-Halts txtdir g.ret g.after in
      let is : (get_line >>= command env txtdir) s ≡ command env txtdir g.ret g.after =
        bind-next get_line (command env txtdir) s g.after g.ret g.runs in
      command_loop-rest txtdir fuel s ((get_line >>= command env txtdir) s)
        (rw is (Halts-from g.less done))
        (λ t e.
          let e' = sym is ∙ e in
          let used : supply t ≤ supply g.after = rw (ap (λ p. p.1) e') at done.less in
          command_loop-Halts txtdir fuel t
            (omega (arith, used, g.progress (command-next txtdir g.ret g.after t e'))))

  -- On every lawful socket, whatever the peer sends, however the calls on the socket are cut, are
  -- interrupted or fail, and whatever the databases and the file system answer, `manage_client` comes
  -- to an end within the model's fuel, and never takes more than the peer has sent.
  pub manage_client-Halts : (s : Session S D) → Halts s (manage_client env s)
  unfolding manage_client
  manage_client-Halts s = Halts-resume s _ (login-Halts env L s) (λ user t.
      Halts-resume t _ (open_institute-Halts user t)
        (λ txtdir u. command_loop-Halts txtdir (supply u + 1) u (omega arith)))
