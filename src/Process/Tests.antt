-- ===== src/Process/Tests.antt =====
-- The server's process at concrete events, and the theorems on it there.
use esif_client_server.Common.{
  ℕ, Option, ◌≡◌, refl, true, false, List, [], ◌∷◌, none, some, Bytes, codes, starts_with, inr, pos,
}
use esif_client_server.Process.{
  Process, running, exited, accepts_image, signal, accepts, step, Host, main, action, ignored,
  reload_passdb,
}
use esif_client_server.Process.Safe.{
  Reaches, starts, then_step, IsSound, NoReload, main-IsSound, handle_signal-closes,
}

abbrev host : Host
host = record {
  runuser = none;
  is_root = false;
  is_known = false;
  takes_on = false;
  has_socket = true;
  binds = true;
  listens = true;
  passdb = some 5;
}

abbrev images : List Bytes
images = codes "--acceptimage" ∷ []

abbrev at_start : Process
at_start = record {
  passdbp = some 5;
  acceptimage = true;
  databases = 5 ∷ [];
  connections = [];
  threads = [];
}

abbrev with_client : Process
with_client = record {
  passdbp = some 5;
  acceptimage = true;
  databases = 5 ∷ [];
  connections = 7 ∷ [];
  threads = 7 ∷ [];
}

abbrev reloaded : Process
reloaded = record {
  passdbp = some 6;
  acceptimage = true;
  databases = 6 ∷ [];
  connections = 7 ∷ [];
  threads = 7 ∷ [];
}

-- A user's signal before the database is open.
abbrev early : List (ℕ × Option ℕ)
early = (10, none) ∷ []

early-NoReload : NoReload early
early-NoReload = (refl, tt)

main_run : main images early host ≡ running at_start
unfolding main starts_with
main_run = refl

-- SIGHUP before the database is open leaves a second one open.
early_reload_run :
    main images ((1, some 4) ∷ []) host
    ≡ running (record {
      passdbp = some 5;
      acceptimage = true;
      databases = 5 ∷ 4 ∷ [];
      connections = [];
      threads = [];
    })
unfolding main starts_with
early_reload_run = refl

-- SIGUSR1 and SIGUSR2 do not turn images on or off.
usr_run : (action 10 ≡ ignored) × (action 12 ≡ ignored)
unfolding action
usr_run = (refl, refl)

reload_failure_run :
    reload_passdb none at_start
    ≡ exited (pos 1) (record {
      passdbp = none;
      acceptimage = true;
      databases = [];
      connections = [];
      threads = [];
    })
unfolding reload_passdb
reload_failure_run = refl

accepted_run : step (accepts (some 7) true) at_start ≡ running with_client
unfolding step
accepted_run = refl

reloaded_run : step (signal 1 (some 6)) with_client ≡ running reloaded
unfolding step
reloaded_run = refl

reached : Reaches at_start reloaded
reached =
    then_step (signal 1 (some 6)) (then_step (accepts (some 7) true) starts accepted_run)
      reloaded_run

process_example : IsSound (accepts_image images) reloaded
process_example = main-IsSound images early host at_start reloaded early-NoReload main_run reached

quit_example :
    (r : Process) × (step (signal 15 none) reloaded ≡ exited (pos 15) r)
    × (r.databases ≡ [])
    × (r.passdbp ≡ none)
quit_example =
    handle_signal-closes images early host at_start reloaded 15 none early-NoReload main_run reached
      (inr refl)
