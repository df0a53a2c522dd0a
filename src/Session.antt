-- ===== src/Session.antt =====
-- server/eduserver.c, `manage_client`: the handler of one connection, in the children in the order
-- of its code. Here are its state, its surroundings, and the steps that the stages share.
-- `goto free_resource` ends the handler: `stop`. Messages on the server's terminal are left out.
pub mod Scan
pub mod Tests
pub mod Runs
pub mod Login
pub mod Institute
pub mod Image
pub mod Upload
pub mod Commands
pub mod Handler
pub mod Ends
pub mod Termination
pub mod Confined
pub mod Places
use esif_client_server.Common.{
  ℕ, zero, suc, ◌+◌, ◌++◌, ◌≡◌, refl, ap, Bool, true, false, List, [], ◌∷◌, Option, none, some,
  Bytes, overwrite, length, ltb, bytes_eq, if◌then◌else◌, ℤ, pos, negsuc,
}
use esif_client_server.Socket.{Socket, IsLawful, IsReliable}
use esif_client_server.Support.Writing.{writen_lem}
use esif_client_server.Support.{
  Conn, Io, done, error, out_of_fuel, readn, writen, readline, max_line,
}
use esif_client_server.Database.{Database}
use esif_client_server.Password.{Password}

-- How a part of the handler ends: it goes on, it goes to `free_resource`, its behaviour is undefined,
-- or the model's fuel is spent.
pub data Outcome (A : Type 0) : Type 0 where
  next : A → Outcome A
  stop : Outcome A
  fault : Outcome A
  spent : Outcome A

abbrev pub M : Type 0 → Type 0 → Type 0
M St A = St → Outcome A × St

abbrev pub resume : {St A B : Type 0} → (A → M St B) → Outcome A × St → Outcome B × St
resume f (o, t) = elim o [
  | next a ↦ f a t
  | stop ↦ (stop, t)
  | fault ↦ (fault, t)
  | spent ↦ (spent, t)
]

infixl 5 ◌>>=◌ ◌>>◌
abbrev pub ◌>>=◌ : {St A B : Type 0} → M St A → (A → M St B) → M St B
◌>>=◌ m f s = resume f (m s)

pub bind-next :
    {St A B : Type 0} (m : M St A) (f : A → M St B) (s t : St) (a : A)
    → m s ≡ (next a, t)
    → (m >>= f) s ≡ f a t
bind-next m f s t a e = ap (resume f) e

abbrev pub ◌>>◌ : {St B : Type 0} → M St (Unit {0}) → M St B → M St B
m >> k = m >>= λ _. k

abbrev pub return : {St A : Type 0} → A → M St A
return a s = (next a, s)

-- `if (...) goto free_resource;`, and a check that the code lacks.
abbrev pub stop_if : {St : Type 0} → Bool → M St (Unit {0})
stop_if b s = if b then (stop, s) else (next tt, s)

abbrev pub fault_if : {St : Type 0} → Bool → M St (Unit {0})
fault_if b s = if b then (fault, s) else (next tt, s)

-- What the handler takes from outside: the server's globals (`magic`, `acceptimage`, `passdbp`), the
-- clock at its two readings, the C library's text for a time, the year, and what the system allows:
-- the files that open, the lines that can be written to them, and the database behind a path.
pub record Env (P : Database Password) (D : Database Bytes) : Type 0 where
  pub magic : Bytes
  pub accept_image : Bool
  pub passdb : Option P.Db
  pub now_at_start : ℤ
  pub now_at_end : ℤ
  pub ctime : ℤ → Bytes
  pub year : ℤ
  pub opens : Bytes → Bool
  pub accepts : Bytes → Bytes → Bool
  pub reg_open : Bytes → Option D.Db
  pub malloc_ok : Bool

-- The handler's state: the connection, `buffer`, `tmpname` (`none` while nothing is written to it),
-- the directories made, the files closed, and the college's database.
pub record Session (S : Socket) (D : Database Bytes) : Type 0 where
  pub conn : Conn S
  pub buffer : Bytes
  pub tmpname : Option Bytes
  pub dirs : List Bytes
  pub files : List (Bytes × Bytes)
  pub regdb : Option D.Db

-- The last contents given for a path.
unfoldable pub set_file : Bytes → Bytes → List (Bytes × Bytes) → List (Bytes × Bytes)
set_file path text [] = (path, text) ∷ []
set_file path text ((p, t) ∷ files) =
    if bytes_eq p path then (path, text) ∷ files else (p, t) ∷ set_file path text files

module _ {S : Socket} {D : Database Bytes} where
  -- A text with its NUL, put at the start of `buffer` by sprintf() or strcpy().
  abbrev pub set_text : Bytes → M (Session S D) (Unit {0})
  set_text text s = (next tt, record s { buffer = overwrite (text ++ 0 ∷ []) s.buffer })

  after_readn : ℕ → Io Bytes → Session S D → Outcome Bytes × Session S D
  after_readn n (done bytes) s =
      let t = record s { buffer = overwrite bytes s.buffer } in
      if ltb (length bytes) n then (stop, t) else (next bytes, t)
  after_readn n error s = (stop, s)
  after_readn n out_of_fuel s = (spent, s)

  -- `if ((ret = readn(conn_id, buffer, n)) < n) goto free_resource;`
  unfoldable pub receive : ℕ → M (Session S D) Bytes
  unfolding after_readn
  receive n s = let (r, c) = readn n s.conn in after_readn n r (record s { conn = c })

  after_writen : Bool → Io (Unit {0}) → Session S D → Outcome (Unit {0}) × Session S D
  after_writen checked (done _) s = (next tt, s)
  after_writen checked error s = if checked then (stop, s) else (next tt, s)
  after_writen checked out_of_fuel s = (spent, s)

  -- `writen(conn_id, ...)`, where a failure ends the handler, and where nothing looks at it.
  unfoldable pub send : Bytes → M (Session S D) (Unit {0})
  unfolding after_writen
  send bytes s = let (r, c) = writen bytes s.conn in after_writen true r (record s { conn = c })

  unfoldable pub report : Bytes → M (Session S D) (Unit {0})
  unfolding after_writen
  report bytes s = let (r, c) = writen bytes s.conn in after_writen false r (record s { conn = c })

  -- `writen(...); goto free_resource;`
  abbrev pub refuse : {A : Type 0} → Bytes → M (Session S D) A
  refuse text = report text >> λ s. (stop, s)

  -- What is sent over a lawful socket on which no call fails but for interruptions.
  pub send-writen :
      (L : IsLawful S) (R : IsReliable S) (bytes : Bytes) (s : Session S D)
      → send bytes s ≡ (next tt, record s { conn = (writen bytes s.conn).1 })
  unfolding send after_writen
  send-writen L R bytes s = rw ((writen_lem S L R bytes s.conn).0) refl
