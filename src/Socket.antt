-- ===== src/Socket.antt =====
-- The socket calls of the operating system, which the program only calls: an interface with the
-- documented behaviour of read(2) and write(2) as laws.
pub mod Script
use esif_client_server.Common.{
  ℕ, ◌+◌, ◌≤◌, ◌<◌, ◌≡◌, Bool, true, false, [], ◌++◌, length, take, Bytes, if◌then◌else◌, ◌⊎◌, inl,
  inr, refl, ◌∷◌,
}

-- The values of `errno` that the code tells apart.
pub data Errno : Type 0 where
  no_error eintr ewouldblock other_errno : Errno

abbrev pub is_eintr : Errno → Bool
is_eintr eintr = true
is_eintr _ = false

abbrev pub is_ewouldblock : Errno → Bool
is_ewouldblock ewouldblock = true
is_ewouldblock _ = false

-- What read(2) answers: bytes (none at the end of the stream), or -1 with `errno`.
pub data Answer : Type 0 where
  got : Bytes → Answer
  failed : Errno → Answer

-- What write(2) answers: a count, or -1 with `errno`.
pub data Sent : Type 0 where
  wrote : ℕ → Sent
  unsent : Errno → Sent

-- `incoming` is what the peer has sent or will send and no read has returned yet; `patience`
-- bounds the calls that signals will still interrupt. The code sees neither.
pub record Socket : Type 1 where
  pub State : Type 0
  pub read : ℕ → State → Answer × State
  pub write : Bytes → State → Sent × State
  pub incoming : State → Bytes
  pub outgoing : State → Bytes
  pub patience : State → ℕ

module _ (S : Socket) where
  -- A read of at most `n` bytes from `s` takes a first part of the stream, and is empty only at
  -- its end; a read that fails takes nothing.
  abbrev pub ReadLaw : ℕ → S.State → Answer → S.State → Type 0
  ReadLaw n s (got bs) t =
      (S.incoming s ≡ bs ++ S.incoming t)
      × (length bs ≤ n)
      × (S.patience t ≤ S.patience s)
      × (bs ≡ [] → 0 < n → S.incoming s ≡ [])
  ReadLaw n s (failed e) t =
      (S.incoming t ≡ S.incoming s) × ((if is_eintr e then 1 else 0) + S.patience t ≤ S.patience s)

  -- A write hands over a first part of the bytes, not empty if there are any.
  abbrev pub WriteLaw : Bytes → S.State → Sent → S.State → Type 0
  WriteLaw bs s (wrote k) t =
      (S.outgoing t ≡ S.outgoing s ++ take k bs)
      × (0 < length bs → 0 < k)
      × (k ≤ length bs)
      × (S.incoming t ≡ S.incoming s)
      × (S.patience t ≤ S.patience s)
  WriteLaw bs s (unsent e) t =
      (S.outgoing t ≡ S.outgoing s)
      × (S.incoming t ≡ S.incoming s)
      × ((if is_eintr e then 1 else 0) + S.patience t ≤ S.patience s)

pub record IsLawful (S : Socket) : Type 0 where
  pub read_law : (n : ℕ) (s : S.State) → ReadLaw S n s (S.read n s).0 (S.read n s).1
  pub write_law : (bs : Bytes) (s : S.State) → WriteLaw S bs s (S.write bs s).0 (S.write bs s).1
  -- A read changes nothing that is sent.
  pub read_outgoing : (n : ℕ) (s : S.State) → S.outgoing (S.read n s).1 ≡ S.outgoing s

-- No call fails, but for interruptions.
pub record IsReliable (S : Socket) : Type 0 where
  pub read_reliable :
      (n : ℕ) (s : S.State) (e : Errno) → (S.read n s).0 ≡ failed e → is_eintr e ≡ true
  pub write_reliable :
      (bs : Bytes) (s : S.State) (e : Errno) → (S.write bs s).0 ≡ unsent e → is_eintr e ≡ true

-- The shapes of an answer that the loops tell apart.
pub Answer-cases :
    (a : Answer)
    → (a ≡ got []) ⊎ ((b : ℕ) × (bs : Bytes) × (a ≡ got (b ∷ bs))) ⊎ ((e : Errno) × (a ≡ failed e))
Answer-cases (got []) = inl refl
Answer-cases (got (b ∷ bs)) = inr (inl (b, bs, refl))
Answer-cases (failed e) = inr (inr (e, refl))
