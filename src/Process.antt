-- ===== src/Process.antt =====
-- server/eduserver.c: `main`, `doit` up to and from `manage_client`, and the handlers of the signals. A
-- process is its state and the events that come to it one after the other: what the system's calls
-- return, and signals. Databases and connections are known by what the calls return for them.
pub mod Safe
mod Tests
use esif_client_server.Common.{
  ℕ, ◌+◌, Bool, true, false, not, ◌&&◌, ◌||◌, List, [], ◌∷◌, Option, none, some, Bytes, codes,
  starts_with, ltb, leb, ◌==◌, if◌then◌else◌, ℤ, pos,
}

-- The process: `passdbp`, `acceptimage`, the password databases and the connections that it has open,
-- and the connections that its threads serve. The registration databases that its threads open are
-- left out.
pub record Process : Type 0 where
  pub passdbp : Option ℕ
  pub acceptimage : Bool
  pub databases : List ℕ
  pub connections : List ℕ
  pub threads : List ℕ

pub data Running : Type 0 where
  running : Process → Running
  exited : ℤ → Process → Running

-- What `main` installs for a signal; the signals above 30 keep what the system does.
pub data Action : Type 0 where
  reloads quits ignored default_action : Action

-- The loop over the signals, where SIGHUP is 1, SIGINT 2 and SIGTERM 15. No handler can be set for
-- SIGKILL, 9, and what SIGSTOP stops is left out.
unfoldable pub action : ℕ → Action
action signo =
    if leb 1 signo && (leb signo 30 && not (signo == 9))
    then if signo == 1 then reloads else if signo == 2 || signo == 15 then quits else ignored
    else default_action

-- The end of what is known by that number: of its first occurrence.
unfoldable pub without : ℕ → List ℕ → List ℕ
without x [] = []
without x (y ∷ ys) = let rest = without x ys in if x == y then ys else y ∷ rest

-- `if (passdbp) pass_exitdb(passdbp);`
unfoldable pub close_passdb : Process → Process
unfolding without
close_passdb p = elim p.passdbp [
  | none ↦ p
  | some db ↦ record p { databases = without db p.databases }
]

-- `handle_signal`
unfoldable pub handle_signal : ℕ → Process → Running
unfolding close_passdb
handle_signal signo p = exited (pos signo) (record (close_passdb p) { passdbp = none })

-- `passdbp = pass_initdb(passdb)`, with what it returns.
unfoldable pub init_passdb : Option ℕ → Process → Process
init_passdb none p = record p { passdbp = none }
init_passdb (some db) p = record p { passdbp = some db; databases = db ∷ p.databases }

-- `reload_passdb`; EXIT_FAILURE is 1.
unfoldable pub reload_passdb : Option ℕ → Process → Running
unfolding close_passdb init_passdb
reload_passdb result p =
    let q = init_passdb result (close_passdb p) in
    elim q.passdbp [ none ↦ exited (pos 1) q | some db ↦ running q ]

-- A signal, with what pass_initdb() returns if it is called.
unfoldable pub take_signal : ℕ → Option ℕ → Process → Running
unfolding handle_signal reload_passdb action
take_signal signo result p = elim (action signo) [
  | reloads ↦ reload_passdb result p
  | quits ↦ handle_signal signo p
  | ignored ↦ running p
  | default_action ↦ exited (pos signo) p
]

-- One round of the loop of `main`: what accept() and pthread_create() return.
unfoldable pub accept_round : Option ℕ → Bool → Process → Running
unfolding without
accept_round none created p = running p
accept_round (some connfd) created p =
    let q = record p { connections = connfd ∷ p.connections } in
    if created
    then running (record q { threads = connfd ∷ q.threads })
    else running (record q { connections = without connfd q.connections })

-- The end of `doit`, whether it has served the client or could not learn its address.
unfoldable pub doit_ends : ℕ → Process → Running
unfolding without
doit_ends connfd p =
    running
      (record p { connections = without connfd p.connections; threads = without connfd p.threads })

-- What may happen to the process.
pub data Event : Type 0 where
  signal : ℕ → Option ℕ → Event
  accepts : Option ℕ → Bool → Event
  ends : ℕ → Event

unfoldable pub step : Event → Process → Running
unfolding take_signal accept_round doit_ends
step (signal signo result) p = take_signal signo result p
step (accepts connfd created) p = accept_round connfd created p
step (ends connfd) p = doit_ends connfd p

-- What the calls of `main` before its loop return: $RUNUSER, whether the user is root, is known, and
-- can be taken on, and whether the socket, bind(), listen() and the database come about.
pub record Host : Type 0 where
  pub runuser : Option Bytes
  pub is_root : Bool
  pub is_known : Bool
  pub takes_on : Bool
  pub has_socket : Bool
  pub binds : Bool
  pub listens : Bool
  pub passdb : Option ℕ

-- The code with which `main` ends before the label `nosetid`, if it does.
unfoldable pub take_user : Host → Option ℤ
take_user h = elim h.runuser [
  | none ↦ none
  | some user ↦
      if not h.is_root
      then some (pos 1)
      else if not h.is_known
      then some (pos 1)
      else if not h.takes_on
      then some (pos 2)
      else none
]

-- "--acceptimage" among the arguments, as a first part of one.
unfoldable pub accepts_image : List Bytes → Bool
accepts_image [] = false
accepts_image (arg ∷ args) =
    let rest = accepts_image args in if starts_with (codes "--acceptimage") arg then true else rest

abbrev pub fresh_process : List Bytes → Process
fresh_process args = record {
  passdbp = none;
  acceptimage = accepts_image args;
  databases = [];
  connections = [];
  threads = [];
}

-- From `nosetid` to the loop.
unfoldable pub open_passdb : Host → Process → Running
unfolding init_passdb
open_passdb h p = elim h.passdb [
  | none ↦ exited (pos 1) p
  | some db ↦ running (init_passdb (some db) p)
]

-- The signals that come when their handlers are installed and the database is not open yet.
unfoldable pub early_signals : List (ℕ × Option ℕ) → Running → Running
unfolding take_signal
early_signals signals (exited code p) = exited code p
early_signals [] (running p) = running p
early_signals ((signo, result) ∷ signals) (running p) =
    early_signals signals (take_signal signo result p)

abbrev pub opens_in : Host → Running → Running
opens_in h (running p) = open_passdb h p
opens_in h (exited code p) = exited code p

-- `main` up to its loop; `args` are those behind the program's name, and `signals` those before the
-- database is open, with what pass_initdb() returns for each. A signal before the handlers are
-- installed does what the system does.
unfoldable pub main : List Bytes → List (ℕ × Option ℕ) → Host → Running
unfolding take_user accepts_image open_passdb early_signals
main args signals h =
    let p = fresh_process args in
    elim (take_user h) [
      | some code ↦ exited code p
      | none ↦
          if not h.has_socket
          then exited (pos 1) p
          else if not h.binds
          then exited (pos 1) p
          else if not h.listens
          then exited (pos 1) p
          else opens_in h (early_signals signals (running p))
    ]
