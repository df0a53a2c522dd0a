-- ===== src/Session/Runs.antt =====
-- Rules for what holds after a part of `manage_client`, on sockets on which no call fails but for
-- interruptions: one for a chain of steps, and one for each step that the stages share.
use esif_client_server.Common.{
  ℕ, ◌≡◌, refl, ◌∙◌, ◌++◌, append_assoc, Bool, Bool-cases, inl, inr, true, false, Bytes, overwrite,
  length, length-take, take, take-append-drop, ltb, arith,
}
use esif_client_server.Socket.{Socket, IsLawful, IsReliable}
use esif_client_server.Support.{readn}
use esif_client_server.Support.Reading.{readn_lem}
use esif_client_server.Support.Writing.{writen_lem}
use esif_client_server.Database.{Database}
use esif_client_server.Session.{
  M, resume, report, refuse, fault_if, stop_if, send, send-writen, receive, Session, Outcome, next,
  stop, fault, spent, after_readn, after_writen,
}

-- What holds after a part of the handler: `Q` where it goes on, `F` where it ends; its fuel is not spent.
abbrev pub After : {St A : Type 0} → (A → St → Type 0) → (St → Type 0) → Outcome A × St → Type 0
After Q F (next a, t) = Q a t
After Q F (stop, t) = F t
After Q F (fault, t) = F t
After Q F (spent, t) = ⊥

pub record Runs {St A : Type 0} (Q : A → St → Type 0) (F : St → Type 0) (r : Outcome A × St)
    : Type 0 where
  pub holds : After Q F r

After-resume :
    {St A B : Type 0} {Q : A → St → Type 0} (R : B → St → Type 0) (F : St → Type 0) (f : A → M St B)
    (r : Outcome A × St)
    → After Q F r
    → ((a : A) (t : St) → Q a t → After R F (f a t))
    → After R F (resume f r)
After-resume R F f (next a, t) q k = k a t q
After-resume R F f (stop, t) q k = q
After-resume R F f (fault, t) q k = q
After-resume R F f (spent, t) q k = q

pub Runs-resume :
    {St A B : Type 0} {Q : A → St → Type 0} {R : B → St → Type 0} {F : St → Type 0} {f : A → M St B}
    {r : Outcome A × St}
    → Runs Q F r
    → ((a : A) (t : St) → Q a t → Runs R F (f a t))
    → Runs R F (resume f r)
Runs-resume {R = R} {F = F} {f = f} {r = r} q k = record {
  holds = After-resume R F f r q.holds (λ a t h. (k a t h).holds);
}

After-map :
    {St A : Type 0} (Q R : A → St → Type 0) (F : St → Type 0) (r : Outcome A × St)
    → After Q F r
    → ((a : A) (t : St) → Q a t → R a t)
    → After R F r
After-map Q R F (next a, t) q k = k a t q
After-map Q R F (stop, t) q k = q
After-map Q R F (fault, t) q k = q
After-map Q R F (spent, t) q k = q

pub Runs-map :
    {St A : Type 0} {Q R : A → St → Type 0} {F : St → Type 0} {r : Outcome A × St}
    → Runs Q F r
    → ((a : A) (t : St) → Q a t → R a t)
    → Runs R F r
Runs-map {Q = Q} {R = R} {F = F} {r = r} q k = record { holds = After-map Q R F r q.holds k }

module _ {S : Socket} {D : Database Bytes} (s0 : Session S D) where
  -- What was read since `s0`, with nothing of what is stored changed.
  pub record At (given : Bytes) (t : Session S D) : Type 0 where
    pub read : S.incoming s0.conn.sock ≡ given ++ S.incoming t.conn.sock
    pub kept : (t.dirs ≡ s0.dirs) × (t.files ≡ s0.files) × (t.regdb ≡ s0.regdb)

  abbrev pub Ended : Session S D → Type 0
  Ended t = (given : Bytes) × At given t

module _ {S : Socket} {D : Database Bytes} (L : IsLawful S) (R : IsReliable S)
    (s0 : Session S D) where
  pub receive-Runs :
      (n : ℕ) (given : Bytes) (s : Session S D)
      → At s0 given s
      → Runs (λ bytes t. At s0 (given ++ bytes) t × (length bytes ≡ n)) (Ended s0) (receive n s)
  unfolding receive after_readn
  receive-Runs n given s h =
      let (p, q, _) = readn_lem S L R n s.conn in
      let size = length-take n (S.incoming s.conn.sock) in
      let all : At s0 (given ++ take n (S.incoming s.conn.sock)) (record s {
        conn = (readn n s.conn).1;
        buffer = overwrite (take n (S.incoming s.conn.sock)) s.buffer;
      }) =
        record { read = h.read ∙ rw (q, append_assoc, take-append-drop) refl; kept = h.kept } in
      rw p (elim (Bool-cases (ltb (length (take n (S.incoming s.conn.sock))) n)) [
        | inl e ↦ rw e (record { holds = (given ++ take n (S.incoming s.conn.sock), all) })
        | inr e ↦ rw e (record { holds = (all, ground arith) })
      ])

  pub send-Runs :
      (bytes given : Bytes) (s : Session S D)
      → At s0 given s
      → Runs (λ _ t. At s0 given t) (Ended s0) (send bytes s)
  send-Runs bytes given s h =
      let (_, _, q, _) = writen_lem S L R bytes s.conn in
      rw (send-writen L R bytes s)
        (record { holds = record { read = h.read ∙ rw q refl; kept = h.kept } })

  pub stop_if-Runs :
      (b : Bool) (given : Bytes) (s : Session S D)
      → At s0 given s
      → Runs (λ _ t. (b ≡ false) × At s0 given t) (Ended s0) (stop_if b s)
  stop_if-Runs true given s h = record { holds = (given, h) }
  stop_if-Runs false given s h = record { holds = (refl, h) }

  pub fault_if-Runs :
      (b : Bool) (given : Bytes) (s : Session S D)
      → At s0 given s
      → Runs (λ _ t. At s0 given t) (Ended s0) (fault_if b s)
  fault_if-Runs true given s h = record { holds = (given, h) }
  fault_if-Runs false given s h = record { holds = h }

  pub refuse-Runs :
      {A : Type 0} {Q : A → Session S D → Type 0} (text given : Bytes) (s : Session S D)
      → At s0 given s
      → Runs Q (Ended s0) (refuse {A = A} text s)
  unfolding report after_writen
  refuse-Runs text given s h =
      let (p, _, q, _) = writen_lem S L R text s.conn in
      rw p (record { holds = (given, record { read = h.read ∙ rw q refl; kept = h.kept }) })
