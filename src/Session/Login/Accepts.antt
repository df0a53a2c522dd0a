-- ===== src/Session/Login/Accepts.antt =====
-- `login` with a peer that sends what the server's records ask for, and the client's `authenticate` as
-- that peer.
use esif_client_server.Common.{
  ℕ, ◌≡◌, refl, sym, ap, ◌∙◌, ◌++◌, append-nil, append_assoc, not, [], ◌∷◌, Option, none, some,
  Bytes, bytes_eq, bytes_eq_refl, codes, c_string, overwrite, starts_with, length, length-append,
  take, take-length, drop, drop-length, ltb, pos, arith, if◌then◌else◌,
}
use esif_client_server.Socket.{Socket, IsLawful, IsReliable}
use esif_client_server.Support.{readn, writen}
use esif_client_server.Support.Reading.{readn_lem, readn-quiet}
use esif_client_server.Support.Writing.{writen_lem}
use esif_client_server.Database.{Database}
use esif_client_server.Password.{Password, sha_digest_length}
use esif_client_server.Session.{
  M, ◌>>=◌, ◌>>◌, return, bind-next, send, send-writen, receive, after_readn, stop_if, fault_if,
  Env, Session, Outcome, next, fault, refuse, set_text,
}
use esif_client_server.Session.Scan.{scan_word}
use esif_client_server.Session.Login.{
  lookup_user, known_user, magic_stage, user_stage, account_stage, password_stage, login,
  blank_last,
}
use esif_client_server.Session.Login.Safe.{IsOpen}

-- The answer with the dates of a college's period.
abbrev pub dates_of : {P : Database Password} {D : Database Bytes} → Env P D → Password → Bytes
dates_of env pwd =
    blank_last (codes "500 " ++ env.ctime pwd.start) ++ codes "- " ++ env.ctime pwd.end

module _ {S : Socket} {D : Database Bytes} where
  -- A part of the handler that goes on with `a`, sends just `out` and leaves `more` to be read.
  pub record Takes {A : Type 0} (a : A) (out more : Bytes) (s : Session S D)
      (r : Outcome A × Session S D) : Type 0 where
    pub after : Session S D
    pub runs : r ≡ (next a, after)
    pub rest : S.incoming after.conn.sock ≡ more
    pub sent : S.outgoing after.conn.sock ≡ S.outgoing s.conn.sock ++ out

  Takes-bind :
      {A B : Type 0} {a : A} {b : B} {out out' more more' : Bytes} (m : M (Session S D) A)
      (f : A → M (Session S D) B) (s : Session S D) (q : Takes a out more s (m s))
      → Takes b out' more' q.after (f a q.after)
      → Takes b (out ++ out') more' s ((m >>= f) s)
  Takes-bind {a = a} {out = out} {out' = out'} m f s q r = record {
    after = r.after;
    runs = bind-next m f s q.after a q.runs ∙ r.runs;
    rest = r.rest;
    sent = r.sent ∙ ap (λ x. x ++ out') q.sent ∙ append_assoc (S.outgoing s.conn.sock) out out';
  }

  module _ (L : IsLawful S) (R : IsReliable S) where
    receive-Takes :
        (bytes more : Bytes) (n : ℕ) (s : Session S D)
        → S.incoming s.conn.sock ≡ bytes ++ more
        → length bytes ≡ n
        → Takes bytes [] more s (receive n s)
    unfolding receive after_readn
    receive-Takes bytes more n s e h =
        let (p, q, _) = readn_lem S L R n s.conn in
        let first : take n (S.incoming s.conn.sock) ≡ bytes =
          ap (take n) e ∙ ap (λ k. take k (bytes ++ more)) (sym h) ∙ take-length bytes more in
        let rest : drop n (S.incoming s.conn.sock) ≡ more =
          ap (drop n) e ∙ ap (λ k. drop k (bytes ++ more)) (sym h) ∙ drop-length bytes more in
        record {
          after = record s { conn = (readn n s.conn).1; buffer = overwrite bytes s.buffer };
          runs = rw p (rw first (ground arith));
          rest = q ∙ rest;
          sent = readn-quiet S L R n s.conn ∙ sym (append-nil _);
        }

    send-Takes :
        (bytes more : Bytes) (s : Session S D)
        → S.incoming s.conn.sock ≡ more
        → Takes tt bytes more s (send bytes s)
    send-Takes bytes more s e =
        let (_, p, q, _) = writen_lem S L R bytes s.conn in
        record {
          after = record s { conn = (writen bytes s.conn).1 };
          runs = send-writen L R bytes s;
          rest = q ∙ e;
          sent = p;
        }

    module _ {P : Database Password} (env : Env P D) where
      magic_stage-Takes :
          (more : Bytes) (s : Session S D)
          → length env.magic ≡ sha_digest_length
          → S.incoming s.conn.sock ≡ env.magic ++ more
          → Takes tt (codes "500\n") more s (magic_stage env s)
      unfolding magic_stage
      magic_stage-Takes more s n e =
          let r = receive-Takes env.magic more sha_digest_length s e n in
          let on : Takes tt [] more r.after (stop_if (not (bytes_eq env.magic env.magic)) r.after) =
            record {
              after = r.after;
              runs = rw (bytes_eq_refl env.magic) refl;
              rest = r.rest;
              sent = sym (append-nil _);
            } in
          Takes-bind (receive sha_digest_length)
            (λ bytes. stop_if (not (bytes_eq env.magic bytes)) >> send (codes "500\n")) s r
            (Takes-bind (stop_if (not (bytes_eq env.magic env.magic))) (λ _. send (codes "500\n"))
              r.after on (send-Takes (codes "500\n") more on.after on.rest))

      user_stage-Takes :
          (field user more : Bytes) (s : Session S D)
          → length field ≡ 5
          → scan_word (c_string field) ≡ some user
          → S.incoming s.conn.sock ≡ (codes "USER " ++ field) ++ more
          → Takes user [] more s (user_stage env s)
      unfolding user_stage starts_with
      user_stage-Takes field user more s n f e =
          let r = receive-Takes (codes "USER " ++ field) more 10 s e (omega arith) in
          Takes-bind (receive 10)
            (λ bytes.
              stop_if (not (starts_with (codes "USER ") bytes))
              >> named (scan_word (c_string (drop 5 bytes))))
            s r
            (record { after = r.after; runs = rw f refl; rest = r.rest; sent = sym (append-nil _) })
        where
          named : Option Bytes → M (Session S D) Bytes
          named o s = elim o [ none ↦ (fault, s) | some user ↦ (next user, s) ]

      known_user-Takes :
          (user more : Bytes) (pwd : Password) (s : Session S D)
          → lookup_user P user env.passdb ≡ (pos 0, some pwd)
          → S.incoming s.conn.sock ≡ more
          → Takes pwd [] more s (known_user env user s)
      unfolding known_user
      known_user-Takes user more pwd s e h = record {
        after = s;
        runs = rw e refl;
        rest = h;
        sent = sym (append-nil _);
      }

      account_stage-Takes :
          (pwd : Password) (more : Bytes) (s : Session S D)
          → IsOpen env pwd
          → S.incoming s.conn.sock ≡ more
          → Takes tt (dates_of env pwd) more s (account_stage env pwd s)
      unfolding account_stage
      account_stage-Takes pwd more s h e =
          let sent = send-Takes (dates_of env pwd) more (set_text (dates_of env pwd) s).1 e in
          rw (h.enabled, h.begun, h.not_over)
            (record { after = sent.after; runs = sent.runs; rest = sent.rest; sent = sent.sent })

      password_stage-Takes :
          (pwd : Password) (more : Bytes) (s : Session S D)
          → pwd.len ≡ sha_digest_length
          → length pwd.pass ≡ sha_digest_length
          → S.incoming s.conn.sock ≡ (codes "PASS " ++ pwd.pass) ++ more
          → Takes tt (codes "500\n") more s (password_stage env pwd s)
      unfolding password_stage starts_with
      password_stage-Takes pwd more s len n e =
          let r = receive-Takes (codes "PASS " ++ pwd.pass) more 25 s e (omega (arith, n)) in
          let all : take 20 pwd.pass ≡ pwd.pass =
            ap (λ k. take k pwd.pass) (sym n)
            ∙ ap (take (length pwd.pass)) (sym (append-nil pwd.pass))
            ∙ take-length pwd.pass [] in
          rw len (
            Takes-bind (receive 25) check s r
              (rw (all, bytes_eq_refl pwd.pass) (send-Takes (codes "500\n") more r.after r.rest)))
        where
          check : Bytes → M (Session S D) (Unit {0})
          check bytes =
              stop_if (not (starts_with (codes "PASS ") bytes))
              >> (fault_if (ltb sha_digest_length 20)
                  >> (if bytes_eq (drop 5 bytes) (take 20 pwd.pass)
                      then send (codes "500\n")
                      else refuse (codes "303\n")))

      -- What a peer needs for a user's code: its bytes, and the record of an open college with the
      -- digest of the password.
      pub record IsKnown (user digest : Bytes) : Type 0 where
        pub four : length user ≡ 4
        pub named : scan_word (c_string (user ++ b'\n' ∷ [])) ≡ some user
        pub pwd : Password
        pub found : lookup_user P user env.passdb ≡ (pos 0, some pwd)
        pub is_open : IsOpen env pwd
        pub len : pwd.len ≡ sha_digest_length
        pub digest_is : pwd.pass ≡ digest
        pub full : length pwd.pass ≡ sha_digest_length

      -- Over a lawful socket on which no call fails but for interruptions, a peer that sends the
      -- server's magic, "USER " with the code of four bytes of an open college and a newline, and
      -- "PASS " with the digest of 20 bytes that its record holds, is admitted under that code, and
      -- what it sends behind that is still to be read; and `login` sends just "500", the dates of its
      -- period and "500".
      pub login-Takes :
          (user digest more : Bytes) (s : Session S D)
          → length env.magic ≡ sha_digest_length
          → (k : IsKnown user digest)
          → S.incoming s.conn.sock
            ≡ env.magic
              ++ ((codes "USER " ++ (user ++ b'\n' ∷ [])) ++ ((codes "PASS " ++ digest) ++ more))
          → Takes user (codes "500\n" ++ (dates_of env k.pwd ++ codes "500\n")) more s (login env s)
      unfolding login
      login-Takes user digest more s n k e =
          let field = user ++ b'\n' ∷ [] in
          let last = (codes "PASS " ++ digest) ++ more in
          let a = magic_stage-Takes ((codes "USER " ++ field) ++ last) s n e in
          let b =
            user_stage-Takes field user last a.after
              (omega (arith, length-append user (b'\n' ∷ []), k.four)) k.named a.rest in
          let c = known_user-Takes user last k.pwd b.after k.found b.rest in
          let d = account_stage-Takes k.pwd last c.after k.is_open c.rest in
          let e =
            password_stage-Takes k.pwd more d.after k.len k.full
              (d.rest ∙ ap (λ x. (codes "PASS " ++ x) ++ more) (sym k.digest_is)) in
          Takes-bind (magic_stage env)
            (λ _. user_stage env >>= λ user. known_user env user >>= rest_of user) s a
            (Takes-bind (user_stage env) (λ user. known_user env user >>= rest_of user) a.after b
              (Takes-bind (known_user env user) (rest_of user) b.after c (
                Takes-bind (account_stage env k.pwd) (λ _. password_stage env k.pwd >> return user)
                  c.after d
                  (Takes-bind (password_stage env k.pwd) (λ _. return user) d.after e
                    (record {
                      after = e.after;
                      runs = refl;
                      rest = e.rest;
                      sent = sym (append-nil _);
                    })))))
        where
          rest_of : Bytes → Password → M (Session S D) Bytes
          rest_of user pwd = account_stage env pwd >> (password_stage env pwd >> return user)
