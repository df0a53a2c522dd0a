-- ===== src/Session/Institute.antt =====
-- `manage_client` after the login: the directories of the institute, and its database.
pub mod Bounds
use esif_client_server.Common.{
  ◌+◌, ◌++◌, not, ◌∷◌, none, some, Bytes, codes, length, ltb, ℤ, decimal_4, strtol,
}
use esif_client_server.Socket.{Socket}
use esif_client_server.Database.{Database}
use esif_client_server.Password.{Password}
use esif_client_server.Session.{M, ◌>>◌, stop_if, fault_if, Env, Session, next, stop, set_text}

-- TXTROOT3 and BDBROOT3
abbrev pub txt_root : Bytes
txt_root = codes "var/regform/text/Rajshahi"

abbrev pub bdb_root : Bytes
bdb_root = codes "var/regform/bdb/Rajshahi"

-- `"%s/%04d/"`
unfoldable pub session_dir : Bytes → ℤ → Bytes
session_dir root session = root ++ (codes "/" ++ (decimal_4 session ++ codes "/"))

-- `"INSTITUTE_%04d"`
unfoldable pub institute : ℤ → Bytes
institute college = codes "INSTITUTE_" ++ decimal_4 college

unfoldable pub txt_dir : ℤ → ℤ → Bytes
unfolding session_dir institute
txt_dir session college = session_dir txt_root session ++ (institute college ++ codes "/")

unfoldable pub reg_path : ℤ → ℤ → Bytes
unfolding session_dir institute
reg_path session college = session_dir bdb_root session ++ (institute college ++ codes ".db")

module _ {S : Socket} {P : Database Password} {D : Database Bytes} (env : Env P D) where
  unfoldable pub mkdir : Bytes → M (Session S D) (Unit {0})
  mkdir path s = (next tt, record s { dirs = path ∷ s.dirs })

  unfoldable pub reg_initdb : Bytes → M (Session S D) (Unit {0})
  reg_initdb path s = elim (env.reg_open path) [
    | none ↦ (stop, s)
    | some d ↦ (next tt, record s { regdb = some d })
  ]

  -- The directories, the database and the memory of the session: `txtdir`. `regdb` has 50 bytes.
  unfoldable pub open_institute : Bytes → M (Session S D) Bytes
  unfolding mkdir reg_initdb session_dir txt_dir reg_path institute
  open_institute user = do
    let college = strtol user
    mkdir (session_dir txt_root env.year)
    mkdir (session_dir txt_root env.year ++ institute college)
    fault_if (ltb 50 (length (reg_path env.year college) + 1))
    mkdir (session_dir bdb_root env.year)
    set_text (institute college)
    reg_initdb (reg_path env.year college)
    stop_if (not env.malloc_ok)
    λ s. (next (txt_dir env.year college), s)
