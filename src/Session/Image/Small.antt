-- ===== src/Session/Image/Small.antt =====
-- `accept_binary` for an image that fits its buffer.
use esif_client_server.Common.{
  ℕ, zero, suc, ◌+◌, ◌≤◌, ◌<◌, ◌≡◌, refl, ap, Bool, true, false, [], Bytes, length, ltb,
  if◌then◌else◌, some, arith,
}
use esif_client_server.Socket.{Socket, Answer, got}
use esif_client_server.Support.{Conn}
use esif_client_server.Database.{Database}
use esif_client_server.Password.{Password}
use esif_client_server.Session.{Env, Session, next, set_file}
use esif_client_server.Session.Image.{
  max_info_size, to_int, binary_loop, binary_done, accept_binary,
}

-- A read of no byte gives none and changes nothing.
abbrev pub ReadsNothing : (S : Socket) → Type 0
ReadsNothing S = (s : S.State) → Path (Answer × S.State) (S.read 0 s) (got [], s)

binary_loop-small :
    (S : Socket) (writes : Bytes → Bool) (fuel size : ℕ) (c : Conn S)
    → ReadsNothing S
    → 0 < fuel
    → 0 < size
    → size ≤ max_info_size
    → binary_loop writes fuel size 0 [] c ≡ record { ret = some (to_int size); text = []; conn = c }
unfolding binary_loop
binary_loop-small S writes zero size c quiet f h fits = absurd (omega arith)
binary_loop-small S writes (suc fuel) zero c quiet f h fits = absurd (omega arith)
binary_loop-small S writes (suc fuel) (suc n) c quiet f h fits =
    let test : ltb max_info_size (suc n) ≡ false = ground arith in
    let unmoved : (S.read (if ltb max_info_size (suc n) then max_info_size else 0) c.sock).1
        ≡ c.sock =
      rw test (ap (λ p. p.1) (quiet c.sock)) in
    rw (test, binary_loop)
      (rw (ap (λ p. p.0) (quiet c.sock)) (
        ap
          (λ (t : S.State). record {
            ret = some (to_int (suc n));
            text = [];
            conn = record c { sock = t };
          })
          unmoved))

module _ {S : Socket} {P : Database Password} {D : Database Bytes} (env : Env P D) where
  -- On a socket where a read of no byte gives none, `accept_binary` takes nothing of an image of 1 to
  -- 1024 bytes, leaves an empty file, and returns the size of the image, which is not 0, as if the
  -- image had been cut short.
  pub accept_binary-small :
      (size : ℕ) (name : Bytes) (s : Session S D)
      → ReadsNothing S
      → env.opens name ≡ true
      → 0 < size
      → size ≤ max_info_size
      → accept_binary env size name s
        ≡ (next (to_int size), record s { files = set_file name [] s.files })
  unfolding accept_binary binary_done
  accept_binary-small size name s quiet opens h fits =
      rw
        (
          opens,
          binary_loop-small S (env.accepts name)
              (length (S.incoming s.conn.sock) + S.patience s.conn.sock + 1) size s.conn quiet
              (omega arith) h fits,
        )
        refl
