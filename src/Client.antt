-- ===== src/Client.antt =====
-- project2/src/myfuncs.c: the client's side of the protocol. Its copies of `readn`, `writen` and
-- `readline` are those of Support. Messages on the screen are left out.
pub mod Authenticate
pub mod Header
pub mod Photo
pub mod Apply
pub mod Forms
pub mod Steps
pub mod Sent
pub mod Marking
pub mod Delivery
pub mod Handshake
pub mod Admission
pub mod Example
mod Tests
use esif_client_server.Common.{
  ℕ, ◌+◌, ◌++◌, ◌≡◌, refl, ap, Bool, true, false, List, [], ◌∷◌, Option, none, some, Bytes,
  overwrite, replicate, length, ltb, bytes_eq, if◌then◌else◌, ℤ, pos,
}
use esif_client_server.Socket.{Socket}
use esif_client_server.Support.{Conn, Io, Line, done, error, out_of_fuel, writen, readline}

-- How a part of a routine ends: it goes on, the routine returns, its behaviour is undefined, or the
-- model's fuel is spent.
pub data Done (A : Type 0) : Type 0 where
  going : A → Done A
  returns : ℤ → Done A
  faults : Done A
  runs_out : Done A

abbrev pub Step : Type 0 → Type 0 → Type 0
Step St A = St → Done A × St

abbrev pub proceed : {St A B : Type 0} → (A → Step St B) → Done A × St → Done B × St
proceed f (o, t) = elim o [
  | going a ↦ f a t
  | returns code ↦ (returns code, t)
  | faults ↦ (faults, t)
  | runs_out ↦ (runs_out, t)
]

infixl 5 ◌>>=◌ ◌>>◌
abbrev pub ◌>>=◌ : {St A B : Type 0} → Step St A → (A → Step St B) → Step St B
◌>>=◌ m f s = proceed f (m s)

abbrev pub ◌>>◌ : {St B : Type 0} → Step St (Unit {0}) → Step St B → Step St B
m >> k = m >>= λ _. k

pub proceed-going :
    {St A B : Type 0} (m : Step St A) (f : A → Step St B) (s t : St) (a : A)
    → m s ≡ (going a, t)
    → (m >>= f) s ≡ f a t
proceed-going m f s t a e = ap (proceed f) e

-- `if (...) return code;`, and a check that the code lacks.
abbrev pub return_if : {St : Type 0} → Bool → ℤ → Step St (Unit {0})
return_if b code s = if b then (returns code, s) else (going tt, s)

abbrev pub faults_if : {St : Type 0} → Bool → Step St (Unit {0})
faults_if b s = if b then (faults, s) else (going tt, s)

abbrev pub exit : {St A : Type 0} → ℤ → Step St A
exit code s = (returns code, s)

-- What a routine returns, where its caller does not look at it.
abbrev pub regardless : {St A : Type 0} → A → Done (Unit {0}) × St → Done A × St
regardless a (going t, s) = (going a, s)
regardless a (returns code, s) = (going a, s)
regardless a (faults, s) = (faults, s)
regardless a (runs_out, s) = (runs_out, s)

-- The client's state: the connection to the server, the files that it has, by their path, which of them
-- can be opened to be changed, and `apply_form`'s static `st_name`.
pub record Client (S : Socket) : Type 0 where
  pub conn : Conn S
  pub files : List (Bytes × Bytes)
  pub can_write : Bytes → Bool
  pub st_name : Bytes

unfoldable pub file_at : Bytes → List (Bytes × Bytes) → Option Bytes
file_at path [] = none
file_at path ((p, text) ∷ files) =
    let rest = file_at path files in if bytes_eq p path then some text else rest

module _ {S : Socket} where
  after_write : ℤ → Io (Unit {0}) → Client S → Done (Unit {0}) × Client S
  after_write code (done _) s = (going tt, s)
  after_write code error s = (returns code, s)
  after_write code out_of_fuel s = (runs_out, s)

  -- `if (writen(sockfd, ...) != nwrite) return code;`
  unfoldable pub write_all : Bytes → ℤ → Step (Client S) (Unit {0})
  unfolding after_write
  write_all bytes code s =
      let (r, c) = writen bytes s.conn in after_write code r (record s { conn = c })

  after_read : Io Line → Client S → Done Line × Client S
  after_read (done line) s = (going line, s)
  after_read error s = (faults, s)
  after_read out_of_fuel s = (runs_out, s)

  -- `ret = readline(sockfd, buffer, n)`: what it returns, and the start of the buffer.
  unfoldable pub read_line : ℕ → Step (Client S) Line
  unfolding after_read
  read_line n s = let (r, c) = readline n s.conn in after_read r (record s { conn = c })
