-- ===== src/Database/Memory.antt =====
-- A database kept in a list. It shows that the assumptions on databases can be met, and runs the tests.
use esif_client_server.Common.{
  ◌≡◌, ◌≢◌, refl, ap, Bool, true, false, List, [], ◌∷◌, Option, none, some, Bytes, bytes_eq,
  bytes_eq→eq, Bool-cases, inl, inr, if◌then◌else◌, ℤ, pos, negsuc, arith,
}
use esif_client_server.Database.{Database, Got, found, fails, is_some, IsHealthy}

module _ {V : Type 0} where
  abbrev find_in : Bytes → List (Bytes × V) → Option V
  find_in k [] = none
  find_in k ((j, v) ∷ d) = let rest = find_in k d in if bytes_eq j k then some v else rest

  abbrev remove : Bytes → List (Bytes × V) → List (Bytes × V)
  remove k [] = []
  remove k ((j, v) ∷ d) = let rest = remove k d in if bytes_eq k j then rest else (j, v) ∷ rest

  abbrev got_of : Option V → Got V
  got_of none = fails (negsuc 30987)
  got_of (some v) = found v

  abbrev put_in : Bool → Bytes → V → List (Bytes × V) → ℤ × List (Bytes × V)
  put_in false k v d = (pos 0, (k, v) ∷ d)
  put_in true k v d = if is_some (find_in k d) then (negsuc 30994, d) else (pos 0, (k, v) ∷ d)

abbrev pub memory : (V : Type 0) → Database V
memory V = record {
  Db = List (Bytes × V);
  put = put_in;
  get = λ k d. got_of (find_in k d);
  del = λ k d. (if is_some (find_in k d) then pos 0 else negsuc 30987, remove k d);
  key_exist = negsuc 30994;
  not_found = negsuc 30987;
  find = find_in;
}

module _ {V : Type 0} where
  find_in-put_in :
      (b : Bool) (k j : Bytes) (v : V) (d : List (Bytes × V))
      → (put_in b k v d).0 ≡ pos 0
      → find_in j (put_in b k v d).1 ≡ (if bytes_eq k j then some v else find_in j d)
  find_in-put_in false k j v d h = refl
  find_in-put_in true k j v d h = ground arith

  find_in-put_refused :
      (b : Bool) (k j : Bytes) (v : V) (d : List (Bytes × V))
      → (put_in b k v d).0 ≢ pos 0
      → find_in j (put_in b k v d).1 ≡ find_in j d
  find_in-put_refused false k j v d h = absurd (h refl)
  find_in-put_refused true k j v d h = ground arith

  find_in-remove :
      (k j : Bytes) (d : List (Bytes × V))
      → find_in j (remove k d) ≡ (if bytes_eq k j then none else find_in j d)
  find_in-remove k j [] = ground arith
  find_in-remove k j ((i, v) ∷ d) = elim (Bool-cases (bytes_eq k i)) [
    | inl t ↦
        rw (t, ← bytes_eq→eq k i t, find_in-remove k j d)
          (elim (Bool-cases (bytes_eq k j)) [ inl u ↦ rw u refl | inr u ↦ rw u refl ])
    | inr t ↦ elim (Bool-cases (bytes_eq i j)) [
      | inl u ↦
          let apart : bytes_eq k j ≡ false = rw (← bytes_eq→eq i j u) t in rw (t, u, apart) refl
      | inr u ↦ rw (t, u, find_in-remove k j d) refl
    ]
  ]

pub memory-IsHealthy : (V : Type 0) → IsHealthy (memory V)
memory-IsHealthy V = record {
  get_found = λ k d v e. ap got_of e;
  get_missing = λ k d e. ap got_of e;
  put_stores = λ k v d. refl;
  put_new = λ k v d. ground arith;
  find-put = find_in-put_in;
  find-put_refused = find_in-put_refused;
  del_found = λ k d. refl;
  find-del = find_in-remove;
  key_exist_negative = refl;
  not_found_negative = refl;
}
