-- ===== src/Session/Ends.antt =====
-- The steps of `manage_client` on every lawful socket: none spends the model's fuel, and none adds to
-- what the peer will still send.
use esif_client_server.Common.{
  ℕ, ◌≤◌, ◌<◌, ◌≡◌, refl, Bool, true, false, Bytes, overwrite, length, length-append, ltb, ℤ, pos,
  ltb_int, arith, if◌then◌else◌,
}
use esif_client_server.Socket.{Socket, IsLawful}
use esif_client_server.Support.{Io, done, error, out_of_fuel, max_line, readn, writen, readline}
use esif_client_server.Support.Ends.{is_out, readn-Ends, writen-Ends}
use esif_client_server.Support.Progress.{readline-ReadsLine}
use esif_client_server.Database.{Database}
use esif_client_server.Session.{
  M, resume, report, refuse, fault_if, stop_if, send, receive, Session, Outcome, next, stop, fault,
  spent, after_readn, after_writen,
}
use esif_client_server.Session.Upload.{get_line, after_readline, supply}

abbrev pub is_spent : {A : Type 0} → Outcome A → Bool
is_spent (next a) = false
is_spent stop = false
is_spent fault = false
is_spent spent = true

module _ {S : Socket} {D : Database Bytes} where
  -- A part of the handler that came to an end, from the session `s`.
  pub record Halts {A : Type 0} (s : Session S D) (r : Outcome A × Session S D) : Type 0 where
    pub not_spent : is_spent r.0 ≡ false
    pub less : supply r.1 ≤ supply s

  pub Halts-from :
      {A : Type 0} {s t : Session S D} {r : Outcome A × Session S D}
      → supply t ≤ supply s
      → Halts t r
      → Halts s r
  Halts-from h k = record { not_spent = k.not_spent; less = omega (arith, h, k.less) }

  pub Halts-resume :
      {A B : Type 0} {f : A → M (Session S D) B} (s : Session S D) (r : Outcome A × Session S D)
      → Halts s r
      → ((a : A) (t : Session S D) → Halts t (f a t))
      → Halts s (resume f r)
  Halts-resume s (next a, t) h k = Halts-from h.less (k a t)
  Halts-resume s (stop, t) h k = record { not_spent = refl; less = h.less }
  Halts-resume s (fault, t) h k = record { not_spent = refl; less = h.less }
  Halts-resume s (spent, t) h k = absurd (let e = h.not_spent in cc)

  pub Halts-if :
      {A : Type 0} {s : Session S D} {x y : Outcome A × Session S D} (b : Bool)
      → (b ≡ true → Halts s x)
      → (b ≡ false → Halts s y)
      → Halts s (if b then x else y)
  Halts-if true h k = h refl
  Halts-if false h k = k refl

  -- A test that chooses between two parts of the handler.
  pub Halts-choice :
      {A : Type 0} {x y : M (Session S D) A} (b : Bool) (s : Session S D)
      → ((t : Session S D) → Halts t (x t))
      → ((t : Session S D) → Halts t (y t))
      → Halts s ((if b then x else y) s)
  Halts-choice true s h k = h s
  Halts-choice false s h k = k s

  pub Halts-next : {A : Type 0} (a : A) (s : Session S D) → Halts s (next a, s)
  Halts-next a s = record { not_spent = refl; less = omega arith }

  pub Halts-stop : {A : Type 0} (s : Session S D) → Halts {A = A} s (stop, s)
  Halts-stop s = record { not_spent = refl; less = omega arith }

  pub Halts-fault : {A : Type 0} (s : Session S D) → Halts {A = A} s (fault, s)
  Halts-fault s = record { not_spent = refl; less = omega arith }

  pub stop_if-Halts : (b : Bool) (s : Session S D) → Halts s (stop_if b s)
  stop_if-Halts b s = Halts-if b (λ _. Halts-stop s) (λ _. Halts-next tt s)

  pub fault_if-Halts : (b : Bool) (s : Session S D) → Halts s (fault_if b s)
  fault_if-Halts b s = Halts-if b (λ _. Halts-fault s) (λ _. Halts-next tt s)

  after_readn-Halts :
      (n : ℕ) (r : Io Bytes) (t : Session S D) → is_out r ≡ false → Halts t (after_readn n r t)
  unfolding after_readn
  after_readn-Halts n (done bytes) t h =
      Halts-if (ltb (length bytes) n) (λ _. record { not_spent = refl; less = omega arith })
        (λ _. record { not_spent = refl; less = omega arith })
  after_readn-Halts n error t h = Halts-stop t
  after_readn-Halts n out_of_fuel t h = absurd cc

  after_writen-Halts :
      (checked : Bool) (r : Io (Unit {0})) (t : Session S D)
      → is_out r ≡ false
      → Halts t (after_writen checked r t)
  unfolding after_writen
  after_writen-Halts checked (done _) t h = Halts-next tt t
  after_writen-Halts checked error t h = Halts-if checked (λ _. Halts-stop t) (λ _. Halts-next tt t)
  after_writen-Halts checked out_of_fuel t h = absurd cc

  module _ (L : IsLawful S) where
    pub receive-Halts : (n : ℕ) (s : Session S D) → Halts s (receive n s)
    unfolding receive
    receive-Halts n s =
        let e = readn-Ends L n s.conn in
        Halts-from e.less (
          after_readn-Halts n (readn n s.conn).0 (record s { conn = (readn n s.conn).1 }) e.not_out)

    pub send-Halts : (bytes : Bytes) (s : Session S D) → Halts s (send bytes s)
    unfolding send
    send-Halts bytes s =
        let e = writen-Ends L bytes s.conn in
        Halts-from e.less (
          after_writen-Halts true (writen bytes s.conn).0
            (record s { conn = (writen bytes s.conn).1 }) e.not_out)

    pub report-Halts : (bytes : Bytes) (s : Session S D) → Halts s (report bytes s)
    unfolding report
    report-Halts bytes s =
        let e = writen-Ends L bytes s.conn in
        Halts-from e.less (
          after_writen-Halts false (writen bytes s.conn).0
            (record s { conn = (writen bytes s.conn).1 }) e.not_out)

    pub refuse-Halts :
        {A : Type 0} (text : Bytes) (s : Session S D) → Halts {A = A} s (refuse text s)
    refuse-Halts text s = Halts-resume s (report text s) (report-Halts text s) (λ _ t. Halts-stop t)

    -- A line that is read, and what it uses up.
    pub record GetsLine (s : Session S D) : Type 0 where
      pub ret : ℤ
      pub after : Session S D
      pub runs : get_line s ≡ (next ret, after)
      pub less : supply after ≤ supply s
      pub progress : ltb_int (pos 0) ret ≡ true → supply after < supply s

    pub get_line-GetsLine : (s : Session S D) → GetsLine s
    unfolding get_line after_readline
    get_line-GetsLine s =
        let r = readline-ReadsLine S L max_line s.conn (omega arith) in
        let c = (readline max_line s.conn).1 in
        let before = length-append s.conn.rl (S.incoming s.conn.sock) in
        let behind = length-append c.rl (S.incoming c.sock) in
        record {
          ret = r.line.ret;
          after = record s { conn = c; buffer = overwrite r.line.written s.buffer };
          runs = rw r.ends refl;
          less = omega (arith, r.uses);
          progress = λ h. omega (arith, r.progress h);
        }
