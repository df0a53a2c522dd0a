-- ===== src/Session/Login/Ends.antt =====
-- `login` on every lawful socket: it comes to an end.
use esif_client_server.Common.{
  ◌+◌, refl, ◌++◌, not, Bytes, codes, c_string, bytes_eq, starts_with, Option, none, some, drop,
  take, ltb, ℤ, pos, ltb_int, eq_int, arith, if◌then◌else◌,
}
use esif_client_server.Socket.{Socket, IsLawful}
use esif_client_server.Database.{Database}
use esif_client_server.Password.{Password, sha_digest_length}
use esif_client_server.Session.{refuse, Env, Session, next, fault, set_text}
use esif_client_server.Session.Scan.{scan_word}
use esif_client_server.Session.Login.{
  lookup_user, known_user, magic_stage, user_stage, account_stage, password_stage, login,
  blank_last,
}
use esif_client_server.Session.Ends.{
  Halts, Halts-resume, Halts-if, Halts-next, Halts-fault, stop_if-Halts, fault_if-Halts,
  receive-Halts, send-Halts, refuse-Halts, Halts-choice,
}

module _ {S : Socket} {P : Database Password} {D : Database Bytes} (env : Env P D)
    (L : IsLawful S) where
  pub set_text-Halts : (text : Bytes) (s : Session S D) → Halts s (set_text text s)
  set_text-Halts text s = record { not_spent = refl; less = omega arith }

  magic_stage-Halts : (s : Session S D) → Halts s (magic_stage env s)
  unfolding magic_stage
  magic_stage-Halts s = Halts-resume s _ (receive-Halts L sha_digest_length s) (λ bytes t.
      Halts-resume t _ (stop_if-Halts (not (bytes_eq env.magic bytes)) t)
        (λ _ u. send-Halts L (codes "500\n") u))

  user_stage-Halts : (s : Session S D) → Halts s (user_stage env s)
  unfolding user_stage
  user_stage-Halts s = Halts-resume s _ (receive-Halts L 10 s) (λ bytes t.
      Halts-resume t _ (stop_if-Halts (not (starts_with (codes "USER ") bytes)) t)
        (λ _ u. found (scan_word (c_string (drop 5 bytes))) u))
    where
      found :
          (o : Option Bytes) (u : Session S D)
          → Halts {A = Bytes} u (elim o [ none ↦ (fault, u) | some user ↦ (next user, u) ])
      found none u = Halts-fault u
      found (some user) u = Halts-next user u

  known_user-Halts : (user : Bytes) (s : Session S D) → Halts s (known_user env user s)
  unfolding known_user
  known_user-Halts user s = known (lookup_user P user env.passdb)
    where
      known :
          (l : ℤ × Option Password)
          → Halts s (
              if not (eq_int l.0 (pos 0))
              then refuse (codes "301\n") s
              else (elim l.1 [ none ↦ (fault, s) | some pwd ↦ (next pwd, s) ]))
      known (ret, none) =
          Halts-if (not (eq_int ret (pos 0))) (λ _. refuse-Halts L (codes "301\n") s)
            (λ _. Halts-fault s)
      known (ret, some pwd) =
          Halts-if (not (eq_int ret (pos 0))) (λ _. refuse-Halts L (codes "301\n") s)
            (λ _. Halts-next pwd s)

  account_stage-Halts : (pwd : Password) (s : Session S D) → Halts s (account_stage env pwd s)
  unfolding account_stage
  account_stage-Halts pwd s =
      let text =
        blank_last (codes "500 " ++ env.ctime pwd.start) ++ codes "- " ++ env.ctime pwd.end in
      Halts-choice (eq_int pwd.disabled (pos 1)) s (refuse-Halts L (codes "302\n")) (λ s.
        Halts-choice (ltb_int env.now_at_start pwd.start) s
          (refuse-Halts L (codes "304 " ++ env.ctime pwd.start))
          (λ s.
            Halts-choice (ltb_int pwd.end env.now_at_end) s
              (refuse-Halts L (codes "305 " ++ env.ctime pwd.end))
              (λ s. Halts-resume s _ (set_text-Halts text s) (λ _ t. send-Halts L text t))))

  password_stage-Halts : (pwd : Password) (s : Session S D) → Halts s (password_stage env pwd s)
  unfolding password_stage
  password_stage-Halts pwd s = Halts-resume s _ (fault_if-Halts (ltb 120 (5 + pwd.len)) s) (λ _ t.
      Halts-resume t _ (receive-Halts L (5 + pwd.len) t) (λ bytes u.
        Halts-resume u _ (stop_if-Halts (not (starts_with (codes "PASS ") bytes)) u) (λ _ v.
          Halts-resume v _ (fault_if-Halts (ltb sha_digest_length pwd.len) v) (λ _ w.
            Halts-choice (bytes_eq (drop 5 bytes) (take pwd.len pwd.pass)) w
              (send-Halts L (codes "500\n")) (refuse-Halts L (codes "303\n"))))))

  pub login-Halts : (s : Session S D) → Halts s (login env s)
  unfolding login
  login-Halts s = Halts-resume s _ (magic_stage-Halts s) (λ _ t.
      Halts-resume t _ (user_stage-Halts t) (λ user u.
        Halts-resume u _ (known_user-Halts user u) (λ pwd v.
          Halts-resume v _ (account_stage-Halts pwd v)
            (λ _ w. Halts-resume w _ (password_stage-Halts pwd w) (λ _ x. Halts-next user x)))))
