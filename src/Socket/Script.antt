-- ===== src/Socket/Script.antt =====
-- A socket that plays a script: segments of bytes and interruptions. It shows that the assumptions on
-- sockets can be met, and runs the tests.
use esif_client_server.Common.{
  ℕ, zero, suc, ◌≡◌, refl, sym, ap, true, List, [], ◌∷◌, ◌++◌, append_assoc, length, length-take,
  take, drop, take-append-drop, take-of_le, Bytes, arith,
}
use esif_client_server.Socket.{
  Socket, Errno, eintr, is_eintr, Answer, got, failed, wrote, ReadLaw, IsLawful, IsReliable,
}

-- A segment that is not empty, or an interruption.
pub data Event : Type 0 where
  segment : ℕ → Bytes → Event
  interrupt : Event

pub record Script : Type 0 where
  pub events : List Event
  pub sent : Bytes

abbrev pub bytes_of : List Event → Bytes
bytes_of [] = []
bytes_of (segment b bs ∷ es) = b ∷ (bs ++ bytes_of es)
bytes_of (interrupt ∷ es) = bytes_of es

abbrev pub interrupts : List Event → ℕ
interrupts [] = 0
interrupts (segment b bs ∷ es) = interrupts es
interrupts (interrupt ∷ es) = suc (interrupts es)

abbrev left_over : Bytes → List Event → List Event
left_over [] es = es
left_over (b ∷ bs) es = segment b bs ∷ es

abbrev read_events : ℕ → List Event → Answer × List Event
read_events zero es = (got [], es)
read_events (suc n) [] = (got [], [])
read_events (suc n) (segment b bs ∷ es) = (got (b ∷ take n bs), left_over (drop n bs) es)
read_events (suc n) (interrupt ∷ es) = (failed eintr, es)

-- Every write is taken whole.
abbrev pub script_socket : Socket
script_socket = record {
  State = Script;
  read = λ n s. let (a, es) = read_events n s.events in (a, record s { events = es });
  write = λ bs s. (wrote (length bs), record s { sent = s.sent ++ bs });
  incoming = λ s. bytes_of s.events;
  outgoing = λ s. s.sent;
  patience = λ s. interrupts s.events;
}

bytes_of-left_over : (bs : Bytes) (es : List Event) → bytes_of (left_over bs es) ≡ bs ++ bytes_of es
bytes_of-left_over [] es = refl
bytes_of-left_over (b ∷ bs) es = refl

interrupts-left_over : (bs : Bytes) (es : List Event) → interrupts (left_over bs es) ≡ interrupts es
interrupts-left_over [] es = refl
interrupts-left_over (b ∷ bs) es = refl

read_events-ReadLaw :
    (n : ℕ) (es : List Event) (out : Bytes)
    → ReadLaw script_socket n
        (record { events = es; sent = out })
        (read_events n es).0
        (record { events = (read_events n es).1; sent = out })
read_events-ReadLaw zero es out = (refl, omega arith, omega arith, λ _ h. absurd (omega arith))
read_events-ReadLaw (suc n) [] out = (refl, omega arith, omega arith, λ _ _. refl)
read_events-ReadLaw (suc n) (segment b bs ∷ es) out = (
  ap (◌∷◌ b) (rw (bytes_of-left_over (drop n bs) es, ← append_assoc, take-append-drop n bs) refl),
  omega (arith, length-take n bs),
  omega (arith, interrupts-left_over (drop n bs) es),
  λ e. cc,
)
read_events-ReadLaw (suc n) (interrupt ∷ es) out = (refl, omega arith)

pub script_socket-IsLawful : IsLawful script_socket
script_socket-IsLawful = record {
  read_law = λ n s. read_events-ReadLaw n s.events s.sent;
  write_law = λ bs s. (
    ap (λ t. s.sent ++ t) (sym (take-of_le (length bs) bs (omega arith))),
    λ h. h,
    omega arith,
    refl,
    omega arith,
  );
  read_outgoing = λ n s. refl;
}

read_events-reliable :
    (n : ℕ) (es : List Event) (e : Errno) → (read_events n es).0 ≡ failed e → is_eintr e ≡ true
read_events-reliable zero es e h = cc
read_events-reliable (suc n) [] e h = cc
read_events-reliable (suc n) (segment b bs ∷ es) e h = cc
read_events-reliable (suc n) (interrupt ∷ es) e h = ground arith

pub script_socket-IsReliable : IsReliable script_socket
script_socket-IsReliable = record {
  read_reliable = λ n s. read_events-reliable n s.events;
  write_reliable = λ bs s e h. cc;
}
