-- ===== src/Session/Image.antt =====
-- `accept_binary` of server/eduserver.c, and the part of `manage_client` that calls it.
pub mod Small
pub mod Ends
use esif_client_server.Common.{
  ℕ, zero, suc, ◌+◌, ◌-◌, ◌%◌, ◌^◌, ◌++◌, Bool, true, false, not, ◌||◌, [], ◌∷◌, Option, none, some,
  Bytes, codes, c_string, length, drop, ltb, leb, if◌then◌else◌, ℤ, pos, negsuc, eq_int,
}
use esif_client_server.Socket.{Socket, is_eintr, got, failed}
use esif_client_server.Support.{Conn}
use esif_client_server.Database.{Database}
use esif_client_server.Password.{Password}
use esif_client_server.Session.{
  M, ◌>>=◌, ◌>>◌, fault_if, Env, Session, Outcome, next, spent, report, set_file,
}
use esif_client_server.Session.Scan.{scan_int, scan_line, skip_space, is_int, to_size}

-- MAXINFOSIZE, the size of `regbuf`; MAXFILENAME, the size of `tmpname`.
abbrev pub max_info_size : ℕ
max_info_size = 1024

abbrev pub max_file_name : ℕ
max_file_name = 20

-- A `size_t` cut to the 32 bits of the `int` that `accept_binary` returns.
unfoldable pub to_int : ℕ → ℤ
to_int n = let low = n % 2 ^ 32 in if ltb low (2 ^ 31) then pos low else negsuc (2 ^ 32 - low - 1)

-- What the loop leaves: the return code (`none` if the fuel is spent), and the file's bytes.
pub record Received (S : Socket) : Type 0 where
  pub ret : Option ℤ
  pub text : Bytes
  pub conn : Conn S

module _ {S : Socket} (writes : Bytes → Bool) where
  -- The loop of `accept_binary`, with a buffer of `max_info_size` bytes: `i` is the size of the
  -- next read, and `nleft` wraps as a `size_t` does.
  unfoldable pub binary_loop : ℕ → ℕ → ℕ → Bytes → Conn S → Received S
  binary_loop zero nleft i text c = record { ret = none; text = text; conn = c }
  binary_loop (suc fuel) zero i text c = record { ret = some (pos 0); text = text; conn = c }
  binary_loop (suc fuel) (suc n) i text c =
      let j = if ltb max_info_size (suc n) then max_info_size else i in
      let (answer, s) = S.read j c.sock in
      let finish : Received S = record {
        ret = some (to_int (suc n));
        text = text;
        conn = record c { sock = s };
      } in
      elim answer [
        | got [] ↦ finish
        | got (b ∷ bs) ↦ elim (writes (b ∷ bs)) [
          | false ↦ finish
          | true ↦
              binary_loop fuel ((suc n + 2 ^ 64 - length (b ∷ bs)) % 2 ^ 64) j (text ++ b ∷ bs)
                (record c { sock = s })
        ]
        | failed e ↦
            let d = record c { sock = s; errno = e } in
            elim (is_eintr e) [
              | true ↦ binary_loop fuel (suc n) j text d
              | false ↦ record { ret = some (negsuc 0); text = text; conn = d }
            ]
      ]

-- "%d %[^\r\n]" behind "BINARY ": `imgsize` and `tmpname`, which are zero before.
unfoldable pub scan_image : Bytes → ℤ × Bytes
scan_image text = elim (scan_int text) [
  | none ↦ (pos 0, [])
  | some (size, rest) ↦ elim (scan_line (skip_space rest)) [
    | none ↦ (size, [])
    | some name ↦ (size, name)
  ]
]

module _ {S : Socket} {P : Database Password} {D : Database Bytes} (env : Env P D) where
  unfoldable pub binary_done : Bytes → Received S → Session S D → Outcome ℤ × Session S D
  binary_done name r s =
      let t = record s { conn = r.conn; files = set_file name r.text s.files } in
      elim r.ret [ none ↦ (spent, t) | some ret ↦ (next ret, t) ]

  -- `accept_binary(conn_id, size, name, regbuf, MAXINFOSIZE)`
  unfoldable pub accept_binary : ℕ → Bytes → M (Session S D) ℤ
  unfolding binary_loop binary_done
  accept_binary size name s =
      if not (env.opens name)
      then (next (negsuc 0), s)
      else let fuel = length (S.incoming s.conn.sock) + S.patience s.conn.sock + 1 in
        binary_done name (binary_loop (env.accepts name) fuel size 0 [] s.conn) s

  -- The branch for a line that starts with "BINARY ".
  unfoldable pub image_command : Bytes → M (Session S D) (Unit {0})
  unfolding scan_image accept_binary
  image_command txtdir s =
      let (size, name) = scan_image (drop 7 (c_string s.buffer)) in
      let named = λ (t : Session S D). record t { tmpname = some name } in
      if not env.accept_image
      then report (codes "310\n") s
      else if not (is_int size) || leb max_file_name (length name)
      then (report (codes "500\n") >> fault_if true) s
      else if ltb (length name) 1
      then (report (codes "500\n") >> report (codes "300\n")) (named s)
      else (do
        report (codes "500\n")
        ret ← accept_binary (to_size size) (txtdir ++ name)
        report (if eq_int ret (pos 0) then codes "500\n" else codes "300\n"))
          (named s)
