-- ===== src/Session/Handler.antt =====
-- `manage_client` as a whole, from the accepted connection to `free_resource`.
use esif_client_server.Common.{◌+◌, [], none, Bytes, replicate}
use esif_client_server.Socket.{Socket, no_error}
use esif_client_server.Support.{max_line}
use esif_client_server.Database.{Database}
use esif_client_server.Password.{Password}
use esif_client_server.Session.{M, ◌>>=◌, Env, Session}
use esif_client_server.Session.Login.{login}
use esif_client_server.Session.Institute.{open_institute}
use esif_client_server.Session.Upload.{supply}
use esif_client_server.Session.Commands.{command_loop}

-- The state of a thread that was just created for a connection.
abbrev pub fresh : {S : Socket} {D : Database Bytes} → S.State → Session S D
fresh sock = record {
  conn = record { sock = sock; errno = no_error; rl = [] };
  buffer = replicate max_line 0;
  tmpname = none;
  dirs = [];
  files = [];
  regdb = none;
}

module _ {S : Socket} {P : Database Password} {D : Database Bytes} (env : Env P D) where
  -- `manage_client`
  unfoldable pub manage_client : M (Session S D) (Unit {0})
  unfolding login open_institute command_loop
  manage_client = do
    user ← login env
    txtdir ← open_institute env user
    λ s. command_loop env txtdir (supply s + 1) s
