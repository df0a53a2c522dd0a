-- ===== src/Password/Accounts.antt =====
-- What the tools leave in a healthy password database.
use esif_client_server.Common.{
  ℕ, ◌≡◌, ◌<◌, refl, sym, ap, ◌∙◌, Bool, true, false, ◌||◌, List, [], ◌∷◌, map, Option, none, some,
  Bytes, bytes_eq, bytes_eq→eq, if◌then◌else◌, ℤ, pos, negsuc, ltb_int, decimal_4, length-decimal_4,
  Bool-cases, inl, inr,
}
use esif_client_server.Database.{Database, IsHealthy, is_negative}
use esif_client_server.Password.{Password, db_key, pass_insertdb}
use esif_client_server.Password.Store.{pass_getdb_lem, find-pass_insertdb}
use esif_client_server.Password.Tools.{
  code_string, flag_one, flag_each, dispass, enapass, Account, fits, account_record, inspass,
}

code_string_lem : (c : ℕ) → c < 10_000 → code_string (pos c) ≡ some (decimal_4 (pos c))
unfolding code_string
code_string_lem c h = rw (length-decimal_4 c h) refl

abbrev pub code_key : ℕ → Bytes
code_key c = db_key (decimal_4 (pos c))

abbrev pub set_if : ℤ → Bool → Option Password → Option Password
set_if flag b none = none
set_if flag false (some p) = some p
set_if flag true (some p) = some (record p { disabled = flag })

abbrev pub AllBelow : ℕ → List ℕ → Type 0
AllBelow n [] = Unit {0}
AllBelow n (c ∷ cs) = (c < n) × AllBelow n cs

-- The key of some of the codes.
abbrev pub is_listed : Bytes → List ℕ → Bool
is_listed j [] = false
is_listed j (c ∷ cs) = bytes_eq (code_key c) j || is_listed j cs

set_if_twice :
    (flag : ℤ) (a b : Bool) (o : Option Password)
    → set_if flag b (set_if flag a o) ≡ set_if flag (a || b) o
set_if_twice flag a b none = refl
set_if_twice flag true true (some p) = refl
set_if_twice flag true false (some p) = refl
set_if_twice flag false b (some p) = refl

set_if-false : (flag : ℤ) (o : Option Password) → o ≡ set_if flag false o
set_if-false flag none = refl
set_if-false flag (some p) = refl

pub is_negative→ltb_int : (z : ℤ) → is_negative z ≡ true → ltb_int z (pos 0) ≡ true
is_negative→ltb_int (pos n) h = cc
is_negative→ltb_int (negsuc n) h = refl

module _ (D : Database Password) (H : IsHealthy D) (flag : ℤ) where
  -- What one round leaves.
  record Flagged (c : ℕ) (pwd : Option Password) (d : D.Db) : Type 0 where
    pwd' : Option Password
    d' : D.Db
    runs : flag_one D flag (pos c) pwd d ≡ some (pwd', d')
    finds : (j : Bytes) → D.find j d' ≡ set_if flag (bytes_eq (code_key c) j) (D.find j d)

  none_kept :
      (c : ℕ) (d : D.Db) (j : Bytes)
      → D.find (code_key c) d ≡ none
      → D.find j d ≡ set_if flag (bytes_eq (code_key c) j) (D.find j d)
  none_kept c d j e = elim (Bool-cases (bytes_eq (code_key c) j)) [
    | inl t ↦
        let absent : D.find j d ≡ none = ap (λ k. D.find k d) (sym (bytes_eq→eq _ _ t)) ∙ e in
        rw (t, absent) refl
    | inr f ↦ rw f (set_if-false flag (D.find j d))
  ]

  some_set :
      (c : ℕ) (d : D.Db) (j : Bytes) (p : Password)
      → D.find (code_key c) d ≡ some p
      → (if bytes_eq (code_key c) j then some (record p { disabled = flag }) else D.find j d)
        ≡ set_if flag (bytes_eq (code_key c) j) (D.find j d)
  some_set c d j p e = elim (Bool-cases (bytes_eq (code_key c) j)) [
    | inl t ↦
        let present : D.find j d ≡ some p = ap (λ k. D.find k d) (sym (bytes_eq→eq _ _ t)) ∙ e in
        rw (t, present) refl
    | inr f ↦ rw f (set_if-false flag (D.find j d))
  ]

  flag_one_lem : (c : ℕ) (pwd : Option Password) (d : D.Db) → c < 10_000 → Flagged c pwd d
  flag_one_lem c pwd d h = go (D.find (code_key c) d) refl
    where
      go : (o : Option Password) → D.find (code_key c) d ≡ o → Flagged c pwd d
      go none e = record {
        pwd' = pwd;
        d' = d;
        runs =
            unfold flag_one in
            rw (code_string_lem c h, flag_one)
              (rw (pass_getdb_lem D H, e)
                (rw (is_negative→ltb_int D.not_found H.not_found_negative) refl));
        finds = λ j. none_kept c d j e;
      }
      go (some p) e = record {
        pwd' = some (record p { disabled = flag });
        d' = (pass_insertdb D (decimal_4 (pos c)) (record p { disabled = flag }) true d).1;
        runs =
            unfold flag_one in rw (code_string_lem c h, flag_one) (rw (pass_getdb_lem D H, e) refl);
        finds = λ j.
            (find-pass_insertdb D H (decimal_4 (pos c)) j (record p { disabled = flag }) d).1
            ∙ some_set c d j p e;
      }

  flag_each_lem :
      (codes : List ℕ) (pwd : Option Password) (d : D.Db)
      → AllBelow 10_000 codes
      → (d' : D.Db) × (flag_each D flag (map pos codes) pwd d ≡ some d')
        × ((j : Bytes) → D.find j d' ≡ set_if flag (is_listed j codes) (D.find j d))
  unfolding flag_each
  flag_each_lem [] pwd d h = (d, refl, λ j. set_if-false flag (D.find j d))
  flag_each_lem (c ∷ codes) pwd d (h, hs) =
      let one = flag_one_lem c pwd d h in
      let (d', runs, finds) = flag_each_lem codes one.pwd' one.d' hs in
      (
        d',
        rw (one.runs, flag_each) runs,
        λ j.
            finds j
            ∙ ap (set_if flag (is_listed j codes)) (one.finds j)
            ∙ set_if_twice flag _ _ (D.find j d),
      )

module _ (D : Database Password) (H : IsHealthy D) where
  -- On a healthy database and codes below 10000 dispass runs to its end. It sets `disabled` to 1 in
  -- the record of each listed college that has one, and changes no other field and no other record.
  pub dispass_lem :
      (codes : List ℕ) (d : D.Db)
      → AllBelow 10_000 codes
      → (d' : D.Db) × (dispass D (map pos codes) d ≡ some d')
        × ((j : Bytes) → D.find j d' ≡ set_if (pos 1) (is_listed j codes) (D.find j d))
  unfolding dispass
  dispass_lem codes d h = flag_each_lem D H (pos 1) codes none d h

  -- The same of enapass, which sets `disabled` to 0.
  pub enapass_lem :
      (codes : List ℕ) (d : D.Db)
      → AllBelow 10_000 codes
      → (d' : D.Db) × (enapass D (map pos codes) d ≡ some d')
        × ((j : Bytes) → D.find j d' ≡ set_if (pos 0) (is_listed j codes) (D.find j d))
  unfolding enapass
  enapass_lem codes d h = flag_each_lem D H (pos 0) codes none d h

-- An account that inspass reads without overrunning its buffers.
pub record IsReadable (a : Account) : Type 0 where
  pub number : ℕ
  pub code_is : a.code ≡ pos number
  pub below : number < 10_000
  pub fits_buffers : fits a ≡ true

abbrev pub AllReadable : List Account → Type 0
AllReadable [] = Unit {0}
AllReadable (a ∷ more) = IsReadable a × AllReadable more

module _ (D : Database Password) (sha1 : Bytes → Bytes) (to_time : Bytes → ℤ) where
  -- The record of key `j` after the accounts: the last one given for it.
  abbrev pub after_accounts : Bytes → List Account → Option Password → Option Password
  after_accounts j [] old = old
  after_accounts j (a ∷ more) old = after_accounts j more (
      if bytes_eq (db_key (decimal_4 a.code)) j
      then some (account_record D sha1 to_time a)
      else old)

  -- On a healthy database and accounts that fit its buffers inspass stores the digest of each
  -- password with the account's flag and times under the college's key, a later account replacing an
  -- earlier one; no other record changes. With `--print` it changes nothing.
  pub inspass_lem :
      IsHealthy D
      → (accounts : List Account) (d : D.Db) → AllReadable accounts
      → ((d' : D.Db) × (inspass D sha1 to_time false accounts d ≡ some d')
          × ((j : Bytes) → D.find j d' ≡ after_accounts j accounts (D.find j d)))
        × (inspass D sha1 to_time true accounts d ≡ some d)
  unfolding inspass
  inspass_lem H [] d h = ((d, refl, λ j. refl), refl)
  inspass_lem H (a ∷ more) d (r, rs) =
      let stored =
        (pass_insertdb D (decimal_4 a.code) (account_record D sha1 to_time a) true d).1 in
      let ((d', runs, finds), _) = inspass_lem H more stored rs in
      let (_, prints) = inspass_lem H more d rs in
      let key : code_string a.code ≡ some (decimal_4 a.code) =
        rw r.code_is (code_string_lem r.number r.below) in
      (
        (
          d',
          rw (key, inspass) (rw r.fits_buffers runs),
          λ j.
              finds j
              ∙ ap (after_accounts j more)
                  (find-pass_insertdb D H (decimal_4 a.code) j (account_record D sha1 to_time a)
                    d).1,
        ),
        rw (key, inspass) (rw r.fits_buffers prints),
      )
