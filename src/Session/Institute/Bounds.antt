-- ===== src/Session/Institute/Bounds.antt =====
-- That the paths of `manage_client` fit their buffers, and how the opening of a college ends.
use esif_client_server.Common.{
  ℕ, ◌+◌, ◌≡◌, ◌≤◌, ◌<◌, refl, ◌++◌, Bool-cases, inl, inr, false, Option, none, some, Bytes, codes,
  length, length-append, ltb, pos, strtol, if◌then◌else◌, decimal_4, length-decimal_4, arith,
}
use esif_client_server.Socket.{Socket}
use esif_client_server.Database.{Database}
use esif_client_server.Password.{Password}
use esif_client_server.Session.{Env, Session, Outcome, next, stop}
use esif_client_server.Session.Institute.{
  txt_root, bdb_root, session_dir, institute, txt_dir, reg_path, mkdir, reg_initdb, open_institute,
}

length-session_dir :
    (root : Bytes) (y : ℕ) → y < 10_000 → length (session_dir root (pos y)) ≡ length root + 6
unfolding session_dir
length-session_dir root y h = omega (
  arith,
  length-append root (codes "/" ++ (decimal_4 (pos y) ++ codes "/")),
  length-append (decimal_4 (pos y)) (codes "/"),
  length-decimal_4 y h,
)

length-institute : (c : ℕ) → c < 10_000 → length (institute (pos c)) ≡ 14
unfolding institute
length-institute c h =
    omega (arith, length-append (codes "INSTITUTE_") (decimal_4 (pos c)), length-decimal_4 c h)

length-reg_path : (y c : ℕ) → y < 10_000 → c < 10_000 → length (reg_path (pos y) (pos c)) ≡ 47
unfolding reg_path
length-reg_path y c h k = omega (
  arith,
  length-append (session_dir bdb_root (pos y)) (institute (pos c) ++ codes ".db"),
  length-append (institute (pos c)) (codes ".db"),
  length-session_dir bdb_root y h,
  length-institute c k,
)

length-txt_dir : (y c : ℕ) → y < 10_000 → c < 10_000 → length (txt_dir (pos y) (pos c)) ≡ 46
unfolding txt_dir
length-txt_dir y c h k = omega (
  arith,
  length-append (session_dir txt_root (pos y)) (institute (pos c) ++ codes "/"),
  length-append (institute (pos c)) (codes "/"),
  length-session_dir txt_root y h,
  length-institute c k,
)

reg_path-fits :
    (y c : ℕ) → y < 10_000 → c < 10_000 → ltb 50 (length (reg_path (pos y) (pos c)) + 1) ≡ false
reg_path-fits y c h k = rw (length-reg_path y c h k) refl

module _ {P : Database Password} {D : Database Bytes} (env : Env P D) where
  -- How the opening of a college ends, by whether its database opens.
  abbrev pub ending_of : Bytes → Option D.Db → Outcome Bytes
  ending_of dir none = stop
  ending_of dir (some d) = if env.malloc_ok then next dir else stop

module _ {S : Socket} {P : Database Password} {D : Database Bytes} (env : Env P D) (y c : ℕ) where
  -- For a year and a college of four digits `open_institute` writes within `regdb`, which has 50 bytes:
  -- it stops if the database does not open or there is no memory, else it goes on with the directory;
  -- and that with a name of 19 bytes and the NUL fits `filename`, which has 220.
  pub open_institute-fits :
      (user : Bytes) (s : Session S D)
      → env.year ≡ pos y
      → strtol user ≡ pos c
      → y < 10_000
      → c < 10_000
      → ((open_institute env user s).0
          ≡ ending_of env (txt_dir (pos y) (pos c)) (env.reg_open (reg_path (pos y) (pos c))))
        × (length (txt_dir (pos y) (pos c)) + 19 + 1 ≤ 220)
  unfolding open_institute mkdir reg_initdb
  open_institute-fits user s e f h k = (
    by_answer (env.reg_open (reg_path (pos y) (pos c))) refl,
    omega (arith, length-txt_dir y c h k),
  )
    where
      by_answer :
          (o : Option D.Db)
          → env.reg_open (reg_path (pos y) (pos c)) ≡ o
          → (open_institute env user s).0 ≡ ending_of env (txt_dir (pos y) (pos c)) o
      by_answer none q = rw (e, f, reg_path-fits y c h k, q) refl
      by_answer (some d) q = elim (Bool-cases env.malloc_ok) [
        | inl m ↦ rw (e, f, reg_path-fits y c h k, q, m) refl
        | inr m ↦ rw (e, f, reg_path-fits y c h k, q, m) refl
      ]
