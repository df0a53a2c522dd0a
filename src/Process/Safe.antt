-- ===== src/Process/Safe.antt =====
-- What is true of the server's process as long as it runs, whatever happens to it.
use esif_client_server.Common.{
  ℕ, ◌≡◌, refl, sym, ap, ◌∙◌, Bool, Bool-cases, leb, ◌==◌, ◌&&◌, ◌||◌, true, false, not, List, [],
  ◌∷◌, Option, none, some, Bytes, if◌then◌else◌, inl, inr, ◌⊎◌, ℤ, pos, arith,
}
use mathlib.Core.Path.{subst}
use esif_client_server.Process.{
  Process, Running, running, exited, Action, reloads, quits, ignored, default_action, action,
  without, close_passdb, handle_signal, init_passdb, reload_passdb, take_signal, accept_round,
  doit_ends, Event, signal, accepts, ends, step, Host, fresh_process, main, accepts_image,
  take_user, open_passdb, early_signals, opens_in,
}

-- The process that comes about by events, the last of them first.
pub data Reaches (p : Process) : Process → Type 0 where
  starts : Reaches p p
  then_step : {q r : Process} (e : Event) → Reaches p q → step e q ≡ running r → Reaches p r

-- The password database is open and no other is, and the threads are those of the connections.
pub record IsSound (image : Bool) (p : Process) : Type 0 where
  pub db : ℕ
  pub has_db : p.passdbp ≡ some db
  pub one_db : p.databases ≡ db ∷ []
  pub served : p.threads ≡ p.connections
  pub image_kept : p.acceptimage ≡ image

-- A result that runs on is sound.
abbrev pub StaysSound : Bool → Running → Type 0
StaysSound image (running p) = IsSound image p
StaysSound image (exited code p) = Unit

close_passdb-IsSound :
    (image : Bool) (p : Process)
    → (h : IsSound image p) → close_passdb p ≡ record p { databases = [] }
unfolding close_passdb without
close_passdb-IsSound image p h = rw (h.has_db) (rw h.one_db (ground arith))

reload_passdb-StaysSound :
    (image : Bool) (result : Option ℕ) (p : Process)
    → IsSound image p
    → StaysSound image (reload_passdb result p)
unfolding reload_passdb init_passdb
reload_passdb-StaysSound image none p h = tt
reload_passdb-StaysSound image (some db) p h =
    rw (close_passdb-IsSound image p h) (record {
      db = db;
      has_db = refl;
      one_db = refl;
      served = h.served;
      image_kept = h.image_kept;
    })

take_signal-StaysSound :
    (image : Bool) (signo : ℕ) (result : Option ℕ) (p : Process)
    → IsSound image p
    → StaysSound image (take_signal signo result p)
unfolding take_signal handle_signal
take_signal-StaysSound image signo result p h = by_action (action signo)
  where
    by_action :
        (a : Action)
        → StaysSound image (elim a [
          | reloads ↦ reload_passdb result p
          | quits ↦ handle_signal signo p
          | ignored ↦ running p
          | default_action ↦ exited (pos signo) p
        ])
    by_action reloads = reload_passdb-StaysSound image result p h
    by_action quits = tt
    by_action ignored = h
    by_action default_action = tt

without-head : (x : ℕ) (xs : List ℕ) → without x (x ∷ xs) ≡ xs
unfolding without
without-head x xs = ground arith

accept_round-StaysSound :
    (image : Bool) (answer : Option ℕ) (created : Bool) (p : Process)
    → IsSound image p
    → StaysSound image (accept_round answer created p)
unfolding accept_round without
accept_round-StaysSound image none created p h = h
accept_round-StaysSound image (some connfd) true p h = record {
  db = h.db;
  has_db = h.has_db;
  one_db = h.one_db;
  served = ap (λ fds. connfd ∷ fds) h.served;
  image_kept = h.image_kept;
}
accept_round-StaysSound image (some connfd) false p h = record {
  db = h.db;
  has_db = h.has_db;
  one_db = h.one_db;
  served = h.served ∙ sym (without-head connfd p.connections);
  image_kept = h.image_kept;
}

step-StaysSound :
    (image : Bool) (e : Event) (p : Process) → IsSound image p → StaysSound image (step e p)
unfolding step doit_ends
step-StaysSound image (signal signo result) p h = take_signal-StaysSound image signo result p h
step-StaysSound image (accepts connfd created) p h =
    accept_round-StaysSound image connfd created p h
step-StaysSound image (ends connfd) p h = record {
  db = h.db;
  has_db = h.has_db;
  one_db = h.one_db;
  served = ap (without connfd) h.served;
  image_kept = h.image_kept;
}

Reaches-IsSound : (image : Bool) (p q : Process) → Reaches p q → IsSound image p → IsSound image q
Reaches-IsSound image p _ starts h = h
Reaches-IsSound image p r (then_step {q = q} e reached runs) h =
    let sound = step-StaysSound image e q (Reaches-IsSound image p q reached h) in rw runs at sound

-- None of the signals is SIGHUP.
abbrev pub NoReload : List (ℕ × Option ℕ) → Type 0
NoReload [] = Unit {0}
NoReload ((signo, result) ∷ signals) = ((signo == 1) ≡ false) × NoReload signals

-- Nothing is left of those signals but the process as it was, or its end.
abbrev IsAs : Process → Running → Type 0
IsAs p (running q) = q ≡ p
IsAs p (exited code q) = Unit {0}

action-kept :
    (signo : ℕ)
    → (signo == 1) ≡ false
    → (action signo ≡ quits) ⊎ ((action signo ≡ ignored) ⊎ (action signo ≡ default_action))
unfolding action
action-kept signo h = elim (Bool-cases (leb 1 signo && (leb signo 30 && not (signo == 9)))) [
  | inr other ↦ inr (inr (rw other refl))
  | inl handled ↦ elim (Bool-cases (signo == 2 || signo == 15)) [
    | inl quit ↦ inl (rw (handled, h, quit) refl)
    | inr kept ↦ inr (inl (rw (handled, h, kept) refl))
  ]
]

take_signal-IsAs :
    (signo : ℕ) (result : Option ℕ) (p : Process)
    → (signo == 1) ≡ false
    → IsAs p (take_signal signo result p)
unfolding take_signal handle_signal
take_signal-IsAs signo result p h = by_action (action signo) (action-kept signo h)
  where
    by_action :
        (a : Action)
        → (a ≡ quits) ⊎ ((a ≡ ignored) ⊎ (a ≡ default_action))
        → IsAs p (elim a [
          | reloads ↦ reload_passdb result p
          | quits ↦ handle_signal signo p
          | ignored ↦ running p
          | default_action ↦ exited (pos signo) p
        ])
    by_action reloads (inl e) = absurd cc
    by_action reloads (inr (inl e)) = absurd cc
    by_action reloads (inr (inr e)) = absurd cc
    by_action quits e = tt
    by_action ignored e = refl
    by_action default_action e = tt

early_signals-IsAs :
    (signals : List (ℕ × Option ℕ)) (p : Process) (r : Running)
    → NoReload signals
    → IsAs p r
    → IsAs p (early_signals signals r)
unfolding early_signals
early_signals-IsAs [] p (running q) h k = k
early_signals-IsAs [] p (exited code q) h k = tt
early_signals-IsAs ((signo, result) ∷ signals) p (exited code q) h k = tt
early_signals-IsAs ((signo, result) ∷ signals) p (running q) (n, h) k =
    early_signals-IsAs signals p (take_signal signo result q) h
      (subst (λ o. IsAs o (take_signal signo result q)) k (take_signal-IsAs signo result q n))

opens_in-StaysSound :
    (args : List Bytes) (h : Host) (r : Running)
    → IsAs (fresh_process args) r
    → StaysSound (accepts_image args) (opens_in h r)
unfolding open_passdb init_passdb
opens_in-StaysSound args h (exited code p) k = tt
opens_in-StaysSound args h (running p) k = rw k (by_passdb h.passdb)
  where
    by_passdb :
        (passdb : Option ℕ)
        → StaysSound (accepts_image args) (elim passdb [
          | none ↦ exited (pos 1) (fresh_process args)
          | some db ↦ running (init_passdb (some db) (fresh_process args))
        ])
    by_passdb none = tt
    by_passdb (some db) = record {
      db = db;
      has_db = refl;
      one_db = refl;
      served = refl;
      image_kept = refl;
    }

main-StaysSound :
    (args : List Bytes) (signals : List (ℕ × Option ℕ)) (h : Host)
    → NoReload signals
    → StaysSound (accepts_image args) (main args signals h)
unfolding main
main-StaysSound args signals h quiet = by_calls (take_user h) h.has_socket h.binds h.listens
  where
    by_calls :
        (code : Option ℤ) (has_socket binds listens : Bool)
        → StaysSound (accepts_image args) (elim code [
          | some code ↦ exited code (fresh_process args)
          | none ↦
              if not has_socket
              then exited (pos 1) (fresh_process args)
              else if not binds
              then exited (pos 1) (fresh_process args)
              else if not listens
              then exited (pos 1) (fresh_process args)
              else opens_in h (early_signals signals (running (fresh_process args)))
        ])
    by_calls (some code) a b c = tt
    by_calls none false b c = tt
    by_calls none true false c = tt
    by_calls none true true false = tt
    by_calls none true true true =
        opens_in-StaysSound args h (early_signals signals (running (fresh_process args))) (
          early_signals-IsAs signals (fresh_process args) (running (fresh_process args)) quiet refl)

-- If no SIGHUP comes between the installation of the handlers and the opening of the password
-- database, then whatever other signals come there, and whatever signals, connections and ends of
-- threads come from the loop of `main` on, in any order: as long as the process runs, `passdbp` is set,
-- the password database that it stands for is the only one that is open, the connections that are open
-- are just those that threads serve, and `acceptimage` is what the arguments made it.
pub main-IsSound :
    (args : List Bytes) (signals : List (ℕ × Option ℕ)) (h : Host) (p q : Process)
    → NoReload signals
    → main args signals h ≡ running p
    → Reaches p q
    → IsSound (accepts_image args) q
main-IsSound args signals h p q quiet e reached =
    Reaches-IsSound (accepts_image args) p q reached
      (rw e at (main-StaysSound args signals h quiet))

action-quits : (signo : ℕ) → (signo ≡ 2) ⊎ (signo ≡ 15) → action signo ≡ quits
unfolding action
action-quits signo (inl e) = ground arith
action-quits signo (inr e) = ground arith

take_signal-quits :
    (signo : ℕ) (result : Option ℕ) (q : Process)
    → action signo ≡ quits
    → take_signal signo result q ≡ handle_signal signo q
unfolding take_signal
take_signal-quits signo result q e = rw (e, take_signal) refl

-- From each of those states SIGTERM and SIGINT end the process, with their number, every password
-- database closed.
pub handle_signal-closes :
    (args : List Bytes) (signals : List (ℕ × Option ℕ)) (h : Host) (p q : Process) (signo : ℕ)
    (result : Option ℕ)
    → NoReload signals
    → main args signals h ≡ running p
    → Reaches p q
    → (signo ≡ 2) ⊎ (signo ≡ 15)
    → (r : Process) × (step (signal signo result) q ≡ exited (pos signo) r)
      × (r.databases ≡ [])
      × (r.passdbp ≡ none)
unfolding step take_signal handle_signal
handle_signal-closes args signals h p q signo result quiet e reached which =
    let sound = main-IsSound args signals h p q quiet e reached in
    let closed = close_passdb-IsSound (accepts_image args) q sound in
    (
      record (close_passdb q) { passdbp = none },
      take_signal-quits signo result q (action-quits signo which),
      ap (λ r. r.databases) closed,
      refl,
    )
