-- ===== src/Session/Login/Safe.antt =====
-- What a peer must have sent, and what must stand in the password database, for `login` to succeed.
use esif_client_server.Common.{
  ◌+◌, ◌≡◌, refl, ap, ◌∙◌, ◌++◌, Bool, Bool-cases, inl, inr, true, false, not, [], ◌∷◌, Option,
  none, some, Bytes, bytes_eq, bytes_eq→eq, codes, c_string, starts_with, length, length-drop, take,
  drop, ltb, ℤ, pos, negsuc, ltb_int, eq_int, arith, if◌then◌else◌,
}
use esif_client_server.Socket.{Socket, IsLawful, IsReliable}
use esif_client_server.Database.{Database}
use esif_client_server.Password.{Password, sha_digest_length}
use esif_client_server.Session.{return, refuse, send, Env, Session, next, fault}
use esif_client_server.Session.Scan.{scan_word}
use esif_client_server.Session.Login.{
  lookup_user, known_user, magic_stage, user_stage, account_stage, password_stage, login,
}
use esif_client_server.Session.Runs.{
  At, Ended, Runs, Runs-resume, Runs-map, receive-Runs, send-Runs, stop_if-Runs, fault_if-Runs,
  refuse-Runs,
}

eq_int_zero : (z : ℤ) → eq_int z (pos 0) ≡ true → z ≡ pos 0
eq_int_zero (pos n) h = ground arith
eq_int_zero (negsuc n) h = cc

not-false : (b : Bool) → not b ≡ false → b ≡ true
not-false true h = refl
not-false false h = cc

starts_with-split :
    (lit bytes : Bytes) → starts_with lit bytes ≡ true → bytes ≡ lit ++ drop (length lit) bytes
unfolding starts_with
starts_with-split [] bytes h = refl
starts_with-split (c ∷ cs) [] h = cc
starts_with-split (c ∷ cs) (b ∷ bs) h = ground (arith, starts_with-split cs bs)

-- The checks on a college's record pass.
pub record IsOpen {P : Database Password} {D : Database Bytes} (env : Env P D) (pwd : Password)
    : Type 0 where
  pub enabled : eq_int pwd.disabled (pos 1) ≡ false
  pub begun : ltb_int env.now_at_start pwd.start ≡ false
  pub not_over : ltb_int pwd.end env.now_at_end ≡ false

module _ {S : Socket} {D : Database Bytes} (L : IsLawful S) (R : IsReliable S)
    (s0 : Session S D) where
  module _ {P : Database Password} (env : Env P D) where
    magic_stage-Runs :
        (s : Session S D)
        → At s0 [] s
        → Runs (λ _ t. At s0 env.magic t) (Ended s0) (magic_stage env s)
    unfolding magic_stage
    magic_stage-Runs s h = Runs-resume (receive-Runs L R s0 sha_digest_length [] s h) (λ bytes t q.
        Runs-resume (stop_if-Runs L R s0 (not (bytes_eq env.magic bytes)) bytes t q.0) (λ _ u r.
          send-Runs L R s0 (codes "500\n") env.magic u
            (rw (bytes_eq→eq env.magic bytes (not-false _ r.0)) r.1)))

    -- A user's code as it was sent: five bytes behind "USER ".
    abbrev pub Named : Bytes → Bytes → Session S D → Type 0
    Named given user t =
        (field : Bytes) × (length field ≡ 5)
        × (scan_word (c_string field) ≡ some user)
        × At s0 (given ++ (codes "USER " ++ field)) t

    user_stage-Runs :
        (given : Bytes) (s : Session S D)
        → At s0 given s
        → Runs (Named given) (Ended s0) (user_stage env s)
    unfolding user_stage
    user_stage-Runs given s h = Runs-resume (receive-Runs L R s0 10 given s h) (λ bytes t q.
        Runs-resume
          (stop_if-Runs L R s0 (not (starts_with (codes "USER ") bytes)) (given ++ bytes) t q.0)
          (λ _ u r. named bytes q.1 (not-false _ r.0) u r.1))
      where
        named :
            (bytes : Bytes)
            → length bytes ≡ 10
            → starts_with (codes "USER ") bytes ≡ true
            → (u : Session S D) → At s0 (given ++ bytes) u
            → Runs (Named given) (Ended s0) (elim (scan_word (c_string (drop 5 bytes))) [
              | none ↦ (fault, u)
              | some user ↦ (next user, u)
            ])
        named bytes n e u r = found (scan_word (c_string (drop 5 bytes))) refl
          where
            found :
                (o : Option Bytes)
                → scan_word (c_string (drop 5 bytes)) ≡ o
                → Runs
                    (Named given)
                    (Ended s0)
                    (elim o [ none ↦ (fault, u) | some user ↦ (next user, u) ])
            found none f = record { holds = (given ++ bytes, r) }
            found (some user) f = record {
              holds = (
                drop 5 bytes,
                omega (arith, length-drop 5 bytes),
                f,
                rw (← starts_with-split (codes "USER ") bytes e) r,
              );
            }

    known_user-Runs :
        (user given : Bytes) (s : Session S D)
        → At s0 given s
        → Runs
            (λ pwd t. (lookup_user P user env.passdb ≡ (pos 0, some pwd)) × At s0 given t)
            (Ended s0)
            (known_user env user s)
    unfolding known_user
    known_user-Runs user given s h = known (lookup_user P user env.passdb) refl
      where
        known :
            (l : ℤ × Option Password)
            → lookup_user P user env.passdb ≡ l
            → Runs
                (λ pwd t. (lookup_user P user env.passdb ≡ (pos 0, some pwd)) × At s0 given t)
                (Ended s0)
                (if not (eq_int l.0 (pos 0))
                  then refuse (codes "301\n") s
                  else (elim l.1 [ none ↦ (fault, s) | some pwd ↦ (next pwd, s) ]))
        known (ret, none) e = elim (Bool-cases (eq_int ret (pos 0))) [
          | inl z ↦ rw z (record { holds = (given, h) })
          | inr z ↦ rw z (refuse-Runs L R s0 (codes "301\n") given s h)
        ]
        known (ret, some pwd) e = elim (Bool-cases (eq_int ret (pos 0))) [
          | inl z ↦ rw z (record { holds = (e ∙ ap (λ r. (r, some pwd)) (eq_int_zero ret z), h) })
          | inr z ↦ rw z (refuse-Runs L R s0 (codes "301\n") given s h)
        ]

    account_stage-Runs :
        (pwd : Password) (given : Bytes) (s : Session S D)
        → At s0 given s
        → Runs (λ _ t. IsOpen env pwd × At s0 given t) (Ended s0) (account_stage env pwd s)
    unfolding account_stage
    account_stage-Runs pwd given s h = elim (Bool-cases (eq_int pwd.disabled (pos 1))) [
      | inl e ↦ rw e (refuse-Runs L R s0 (codes "302\n") given s h)
      | inr e ↦ elim (Bool-cases (ltb_int env.now_at_start pwd.start)) [
        | inl f ↦ rw (e, f) (refuse-Runs L R s0 (codes "304 " ++ env.ctime pwd.start) given s h)
        | inr f ↦ elim (Bool-cases (ltb_int pwd.end env.now_at_end)) [
          | inl g ↦ rw (e, f, g) (refuse-Runs L R s0 (codes "305 " ++ env.ctime pwd.end) given s h)
          | inr g ↦
              rw (e, f, g)
                (Runs-map (send-Runs L R s0 _ given _ (record { read = h.read; kept = h.kept }))
                  (λ _ t q. (record { enabled = e; begun = f; not_over = g }, q)))
        ]
      ]
    ]

    password_stage-Runs :
        (pwd : Password) (given : Bytes) (s : Session S D)
        → At s0 given s
        → Runs
            (λ _ t. At s0 (given ++ (codes "PASS " ++ take pwd.len pwd.pass)) t)
            (Ended s0)
            (password_stage env pwd s)
    unfolding password_stage
    password_stage-Runs pwd given s h =
        Runs-resume (fault_if-Runs L R s0 (ltb 120 (5 + pwd.len)) given s h) (λ _ t i.
          Runs-resume (receive-Runs L R s0 (5 + pwd.len) given t i) (λ bytes u q.
            Runs-resume
              (stop_if-Runs L R s0 (not (starts_with (codes "PASS ") bytes)) (given ++ bytes) u q.0)
              (λ _ v r.
                Runs-resume
                  (fault_if-Runs L R s0 (ltb sha_digest_length pwd.len) (given ++ bytes) v r.1)
                  (λ _ w k. checked bytes w k (not-false _ r.0)))))
      where
        checked :
            (bytes : Bytes) (w : Session S D)
            → At s0 (given ++ bytes) w
            → starts_with (codes "PASS ") bytes ≡ true
            → Runs
                (λ _ t. At s0 (given ++ (codes "PASS " ++ take pwd.len pwd.pass)) t)
                (Ended s0)
                ((if bytes_eq (drop 5 bytes) (take pwd.len pwd.pass)
                    then send (codes "500\n")
                    else refuse (codes "303\n"))
                  w)
        checked bytes w k e = elim (Bool-cases (bytes_eq (drop 5 bytes) (take pwd.len pwd.pass))) [
          | inl same ↦
              let is : bytes ≡ codes "PASS " ++ take pwd.len pwd.pass =
                starts_with-split (codes "PASS ") bytes e
                ∙ ap (λ b. codes "PASS " ++ b) (bytes_eq→eq _ _ same) in
              rw same (rw (← is) (send-Runs L R s0 (codes "500\n") (given ++ bytes) w k))
          | inr same ↦ rw same (refuse-Runs L R s0 (codes "303\n") (given ++ bytes) w k)
        ]

    -- What the peer of a session has shown that went on from `login` for `user` to the session `t`:
    -- the bytes that it sent, and the college's record that they agree with.
    pub record Admits (user : Bytes) (t : Session S D) : Type 0 where
      pub pwd : Password
      pub field : Bytes
      pub five : length field ≡ 5
      pub named : scan_word (c_string field) ≡ some user
      pub known : lookup_user P user env.passdb ≡ (pos 0, some pwd)
      pub is_open : IsOpen env pwd
      pub sent :
          At s0
            ((env.magic ++ (codes "USER " ++ field)) ++ (codes "PASS " ++ take pwd.len pwd.pass))
            t

    -- Over a lawful socket on which no call fails but for interruptions, `login` comes to an end. If
    -- it goes on for a user, the peer has sent the server's magic, "USER " with five bytes that name
    -- the user, and "PASS " with the digest of the record that `lookup_user` gives for that user,
    -- which is not disabled and whose period has begun and is not over; and however it ends, no
    -- directory, no file and no registration database was touched.
    pub login-Admits : Runs Admits (Ended s0) (login env s0)
    unfolding login
    login-Admits =
        Runs-resume (magic_stage-Runs s0 (record { read = refl; kept = (refl, refl, refl) }))
          (λ _ s h. Runs-resume (user_stage-Runs env.magic s h) (λ user t (field, five, named, h).
            Runs-resume (known_user-Runs user _ t h) (λ pwd u (known, h).
              Runs-resume (account_stage-Runs pwd _ u h) (λ _ v (is_open, h).
                Runs-resume (password_stage-Runs pwd _ v h) (λ _ w h.
                  let ends : Runs Admits (Ended s0) (return user w) = record {
                    holds = record {
                      pwd = pwd;
                      field = field;
                      five = five;
                      named = named;
                      known = known;
                      is_open = is_open;
                      sent = h;
                    };
                  } in
                  ends)))))
