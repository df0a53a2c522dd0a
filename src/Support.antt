-- ===== src/Support.antt =====
-- server/support.c: `readn`, `writen`, `my_read` and `readline`, over any socket. The same routines
-- stand in project2/src/myfuncs.c, benchmark/myfuncs.c and test-client/listen.c.
-- `Rline` keeps `rl_cnt` bytes from `rl_bufptr` on: here the list of those bytes.
pub mod Reading
pub mod Writing
pub mod Lines
pub mod Progress
pub mod Ends
mod Tests
use esif_client_server.Common.{
  ℕ, zero, suc, ◌+◌, ◌-◌, Bool, true, false, List, [], ◌∷◌, ◌++◌, length, drop, Bytes, overwrite,
  if◌then◌else◌, ◌==◌, ltb, ℤ, pos, negsuc, Option, none, some,
}
use esif_client_server.Socket.{
  Socket, Errno, no_error, eintr, ewouldblock, other_errno, is_eintr, Answer, got, failed, Sent,
  wrote, unsent,
}

-- MAXLINE
abbrev pub max_line : ℕ
max_line = 120

module _ (S : Socket) where
  -- A connection as one thread sees it: the socket, the thread's `errno` and its `Rline`.
  pub record Conn : Type 0 where
    pub sock : S.State
    pub errno : Errno
    pub rl : Bytes

-- What a routine that loops on the socket gives: a value, -1, or the end of the model's fuel.
pub data Io {ℓ} (A : Type ℓ) : Type ℓ where
  done : A → Io A
  error : Io A
  out_of_fuel : Io A

module _ {S : Socket} where
  -- `readn` with `nleft` bytes still to read and `bytes` read so far.
  unfoldable pub readn_loop : ℕ → ℕ → Bytes → Conn S → Io Bytes × Conn S
  readn_loop zero nleft bytes c = (out_of_fuel, c)
  readn_loop (suc fuel) zero bytes c = (done bytes, c)
  readn_loop (suc fuel) (suc k) bytes c =
      let (answer, s) = S.read (suc k) c.sock in
      elim answer [
        | got [] ↦ (done bytes, record c { sock = s })
        | got (b ∷ bs) ↦
            readn_loop fuel (suc k - length (b ∷ bs)) (bytes ++ b ∷ bs) (record c { sock = s })
        | failed e ↦
            let d = record c { sock = s; errno = e } in
            elim (is_eintr e) [ true ↦ readn_loop fuel (suc k) bytes d | false ↦ (error, d) ]
      ]

  -- `readn(fd, vptr, n)`: the bytes that it stored, whose number it returns.
  unfoldable pub readn : ℕ → Conn S → Io Bytes × Conn S
  unfolding readn_loop
  readn n c = readn_loop (n + S.patience c.sock + 1) n [] c

  -- `writen` with the bytes still to write. A write of nothing is retried after an interruption.
  unfoldable pub writen_loop : ℕ → Bytes → Conn S → Io (Unit {0}) × Conn S
  writen_loop zero bytes c = (out_of_fuel, c)
  writen_loop (suc fuel) [] c = (done tt, c)
  writen_loop (suc fuel) (b ∷ bs) c =
      let (sent, s) = S.write (b ∷ bs) c.sock in
      let d = record c { sock = s } in
      elim sent [
        | wrote zero ↦ elim (is_eintr c.errno) [
          | true ↦ writen_loop fuel (b ∷ bs) d
          | false ↦ (error, d)
        ]
        | wrote (suc k) ↦ writen_loop fuel (drop k bs) d
        | unsent e ↦ elim (is_eintr e) [
          | true ↦ writen_loop fuel (b ∷ bs) (record d { errno = e })
          | false ↦ (error, record d { errno = e })
        ]
      ]

  -- `writen(fd, vptr, n)`: all of the bytes, or -1.
  unfoldable pub writen : Bytes → Conn S → Io (Unit {0}) × Conn S
  unfolding writen_loop
  writen bytes c = writen_loop (length bytes + S.patience c.sock + 1) bytes c

  -- The refill of `my_read`: `none` is its 0, at the end of the stream.
  unfoldable pub fill_loop : ℕ → Conn S → Io (Option ℕ) × Conn S
  fill_loop zero c = (out_of_fuel, c)
  fill_loop (suc fuel) c =
      let (answer, s) = S.read max_line c.sock in
      elim answer [
        | got [] ↦ (done none, record c { sock = s })
        | got (b ∷ bs) ↦ (done (some b), record c { sock = s; rl = bs })
        | failed e ↦
            let d = record c { sock = s; errno = e } in
            elim (is_eintr e) [ true ↦ fill_loop fuel d | false ↦ (error, d) ]
      ]

  my_read_from : Bytes → Conn S → Io (Option ℕ) × Conn S
  my_read_from [] c = fill_loop (S.patience c.sock + 1) c
  my_read_from (b ∷ bs) c = (done (some b), record c { rl = bs })

  -- `my_read`: the next byte of the stream, through the thread's buffer.
  unfoldable pub my_read : Conn S → Io (Option ℕ) × Conn S
  unfolding my_read_from fill_loop
  my_read c = my_read_from c.rl c

-- What `readline` returns, and what it has written at the start of the caller's buffer.
pub record Line : Type 0 where
  pub ret : ℤ
  pub written : Bytes

abbrev pub newline : ℕ
newline = b'\n'

module _ {S : Socket} where
  -- The loop of `readline` with `rounds` rounds left: its counter is `n`, and `stored` is what it
  -- has written so far.
  unfoldable pub readline_loop : ℕ → ℕ → Bytes → Conn S → Io Line × Conn S
  readline_loop zero n stored c = (done (record { ret = pos n; written = stored ++ 0 ∷ [] }), c)
  readline_loop (suc rounds) n stored c =
      let (rc, d) = my_read c in
      elim rc [
        | done (some ch) ↦ elim (ch == newline) [
          | true ↦ (done (record { ret = pos n; written = (stored ++ ch ∷ []) ++ 0 ∷ [] }), d)
          | false ↦ readline_loop rounds (n + 1) (stored ++ ch ∷ []) d
        ]
        | done none ↦
            if n == 1
            then (done (record { ret = pos 0; written = stored }), d)
            else (done (record { ret = pos n; written = stored ++ 0 ∷ [] }), d)
        | error ↦ (done (record { ret = negsuc 0; written = stored }), d)
        | out_of_fuel ↦ (out_of_fuel, d)
      ]

  -- `readline(fd, vptr, maxlen)`
  unfoldable pub readline : ℕ → Conn S → Io Line × Conn S
  unfolding readline_loop
  readline maxlen c = readline_loop (maxlen - 1) 1 [] c
