-- ===== src/Session/Confined.antt =====
-- Where `manage_client` writes files.
use esif_client_server.Common.{
  ◌≡◌, refl, ◌++◌, Bool, Bool-cases, inl, inr, true, false, List, [], ◌∷◌, Bytes, bytes_eq,
  if◌then◌else◌,
}
use esif_client_server.Socket.{Socket}
use esif_client_server.Support.{Io, done, error, out_of_fuel, writen}
use esif_client_server.Database.{Database}
use esif_client_server.Session.{
  M, resume, report, fault_if, stop_if, send, Session, Outcome, next, stop, fault, spent, set_file,
  after_writen,
}

-- Every path begins with that directory.
abbrev pub AllUnder : Bytes → List (Bytes × Bytes) → Type 0
AllUnder dir [] = Unit
AllUnder dir ((path, text) ∷ files) = ((name : Bytes) × (path ≡ dir ++ name)) × AllUnder dir files

pub set_file-AllUnder :
    (dir name text : Bytes) (files : List (Bytes × Bytes))
    → AllUnder dir files
    → AllUnder dir (set_file (dir ++ name) text files)
unfolding set_file
set_file-AllUnder dir name text [] h = ((name, refl), tt)
set_file-AllUnder dir name text ((p, t) ∷ files) (under, h) =
    elim (Bool-cases (bytes_eq p (dir ++ name))) [
      | inl e ↦ rw e ((name, refl), h)
      | inr e ↦ rw e (under, set_file-AllUnder dir name text files h)
    ]

abbrev pub Leaving : {A : Type 0} → (A → Type 0) → Outcome A → Type 0
Leaving Q (next a) = Q a
Leaving Q stop = Unit
Leaving Q fault = Unit
Leaving Q spent = Unit

abbrev pub Any : {A : Type 0} → A → Type 0
Any a = Unit

module _ {S : Socket} {D : Database Bytes} (dir : Bytes) where
  abbrev pub IsConfined : Session S D → Type 0
  IsConfined s = AllUnder dir s.files

  -- `Q` of what a part of the handler goes on with, and the files under the directory however it ends.
  pub record Leaves {A : Type 0} (Q : A → Type 0) (r : Outcome A × Session S D) : Type 0 where
    pub value : Leaving Q r.0
    pub confined : IsConfined r.1

  pub Leaves-resume :
      {A B : Type 0} {Q : A → Type 0} {R : B → Type 0} {f : A → M (Session S D) B}
      (r : Outcome A × Session S D)
      → Leaves Q r
      → ((a : A) (t : Session S D) → Q a → IsConfined t → Leaves R (f a t))
      → Leaves R (resume f r)
  Leaves-resume (next a, t) h k = k a t h.value h.confined
  Leaves-resume (stop, t) h k = record { value = tt; confined = h.confined }
  Leaves-resume (fault, t) h k = record { value = tt; confined = h.confined }
  Leaves-resume (spent, t) h k = record { value = tt; confined = h.confined }

  pub Leaves-if :
      {A : Type 0} {Q : A → Type 0} {x y : Outcome A × Session S D} (b : Bool)
      → Leaves Q x
      → Leaves Q y
      → Leaves Q (if b then x else y)
  Leaves-if true h k = h
  Leaves-if false h k = k

  pub Leaves-stop :
      {A : Type 0} {Q : A → Type 0} (s : Session S D) → IsConfined s → Leaves Q (stop, s)
  Leaves-stop s h = record { value = tt; confined = h }

  pub Leaves-fault :
      {A : Type 0} {Q : A → Type 0} (s : Session S D) → IsConfined s → Leaves Q (fault, s)
  Leaves-fault s h = record { value = tt; confined = h }

  pub Leaves-next :
      {A : Type 0} {Q : A → Type 0} (a : A) (s : Session S D)
      → Q a
      → IsConfined s
      → Leaves Q (next a, s)
  Leaves-next a s q h = record { value = q; confined = h }

  after_writen-Leaves :
      (checked : Bool) (r : Io (Unit {0})) (t : Session S D)
      → IsConfined t
      → Leaves Any (after_writen checked r t)
  unfolding after_writen
  after_writen-Leaves checked (done _) t h = Leaves-next tt t tt h
  after_writen-Leaves checked error t h =
      Leaves-if checked (Leaves-stop t h) (Leaves-next tt t tt h)
  after_writen-Leaves checked out_of_fuel t h = record { value = tt; confined = h }

  pub send-Leaves : (bytes : Bytes) (s : Session S D) → IsConfined s → Leaves Any (send bytes s)
  unfolding send
  send-Leaves bytes s h =
      after_writen-Leaves true (writen bytes s.conn).0 (record s { conn = (writen bytes s.conn).1 })
        h

  pub report-Leaves : (bytes : Bytes) (s : Session S D) → IsConfined s → Leaves Any (report bytes s)
  unfolding report
  report-Leaves bytes s h =
      after_writen-Leaves false (writen bytes s.conn).0
        (record s { conn = (writen bytes s.conn).1 }) h

  pub stop_if-Leaves : (b : Bool) (s : Session S D) → IsConfined s → Leaves Any (stop_if b s)
  stop_if-Leaves b s h = Leaves-if b (Leaves-stop s h) (Leaves-next tt s tt h)

  pub fault_if-Leaves : (b : Bool) (s : Session S D) → IsConfined s → Leaves Any (fault_if b s)
  fault_if-Leaves b s h = Leaves-if b (Leaves-fault s h) (Leaves-next tt s tt h)
