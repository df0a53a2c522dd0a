-- ===== src/Password/Tools.antt =====
-- The tools of the password database: server/dispass.c, enapass.c, delpass.c, inspass.c, getpass.c
-- and genpass.c. What fscanf() reads is a list; `none` is undefined behaviour, a write past a buffer
-- or the use of a record that nothing was written to. strptime() and mktime() are a parameter.
use esif_client_server.Common.{
  ℕ, zero, suc, ◌+◌, ◌++◌, Bool, true, false, not, ◌&&◌, List, [], ◌∷◌, Option, none, some, Bytes,
  codes, c_string, length, take, leb, ltb, ◌==◌, if◌then◌else◌, ℤ, pos, ltb_int, decimal_4,
}
use esif_client_server.Database.{Database}
use esif_client_server.Password.{
  Password, encrypt_password, pass_insertdb, pass_deletedb, pass_getdb,
}

-- `sprintf(codestr, "%04d", codeval)` into `char codestr[5]`.
unfoldable pub code_string : ℤ → Option Bytes
code_string code = if leb (length (decimal_4 code)) 4 then some (decimal_4 code) else none

module _ (D : Database Password) where
  -- `pwd.disabled = flag; pass_insertdb(dbp, codestr, &pwd, 1)`
  store_flag : ℤ → Bytes → Option Password → D.Db → Option (Password × D.Db)
  store_flag flag code none d = none
  store_flag flag code (some pwd) d =
      let pwd' = record pwd { disabled = flag } in some (pwd', (pass_insertdb D code pwd' true d).1)

  -- One round of the loop of dispass.c and of enapass.c: `pwd` is the local record.
  unfoldable pub flag_one : ℤ → ℤ → Option Password → D.Db → Option (Option Password × D.Db)
  unfolding store_flag code_string
  flag_one flag code pwd d = elim (code_string code) [
    | none ↦ none
    | some key ↦
        let (ret, pwd') = pass_getdb D key pwd d in
        if ltb_int ret (pos 0)
        then some (pwd', d)
        else elim (store_flag flag key pwd' d) [ none ↦ none | some (q, d') ↦ some (some q, d') ]
  ]

  unfoldable pub flag_each : ℤ → List ℤ → Option Password → D.Db → Option D.Db
  flag_each flag [] pwd d = some d
  flag_each flag (code ∷ more) pwd d = elim (flag_one flag code pwd d) [
    | none ↦ none
    | some (pwd', d') ↦ flag_each flag more pwd' d'
  ]

  -- The loop of dispass.c, and that of enapass.c.
  unfoldable pub dispass : List ℤ → D.Db → Option D.Db
  unfolding flag_each flag_one
  dispass input d = flag_each (pos 1) input none d

  unfoldable pub enapass : List ℤ → D.Db → Option D.Db
  unfolding flag_each flag_one
  enapass input d = flag_each (pos 0) input none d

  -- The loop of delpass.c.
  unfoldable pub delpass : List ℤ → D.Db → Option D.Db
  unfolding code_string
  delpass [] d = some d
  delpass (code ∷ more) d = elim (code_string code) [
    | none ↦ none
    | some key ↦ delpass more (pass_deletedb D key d).1
  ]

  -- getpass.c on the line that fgets() reads: the exit status of the tool.
  unfoldable pub getpass : Bytes → D.Db → ℤ
  getpass line d =
      let name = take 4 (c_string line) in
      if not (length name == 4)
      then pos 10
      else let ret = (pass_getdb D name none d).0 in if ltb_int ret (pos 0) then pos 6 else ret

-- What one fscanf() of inspass.c reads.
pub record Account : Type 0 where
  pub disabled : ℤ
  pub code : ℤ
  pub pass : Bytes
  pub start : Bytes
  pub end : Bytes

-- The texts fit `char pass[15]`, `start[20]` and `end[20]`.
abbrev pub fits : Account → Bool
fits a = ltb (length a.pass) 15 && (ltb (length a.start) 20 && ltb (length a.end) 20)

-- `to_time` is strptime() with DATE_FORMAT followed by mktime().
module _ (D : Database Password) (sha1 : Bytes → Bytes) (to_time : Bytes → ℤ) where
  -- The record that inspass.c builds.
  abbrev pub account_record : Account → Password
  account_record a = record (encrypt_password sha1 a.pass) {
    disabled = a.disabled;
    start = to_time a.start;
    end = to_time a.end;
  }

  -- The loop of inspass.c; the flag is `printonly`.
  unfoldable pub inspass : Bool → List Account → D.Db → Option D.Db
  unfolding code_string encrypt_password
  inspass printonly [] d = some d
  inspass printonly (a ∷ more) d = elim (code_string a.code) [
    | none ↦ none
    | some key ↦ elim (fits a) [
      | false ↦ none
      | true ↦
          inspass printonly more
            (if printonly then d else (pass_insertdb D key (account_record a) true d).1)
    ]
  ]

-- The line that genpass.c prints in round `i`, as the account that inspass.c reads from it.
unfoldable pub genpass_account : ℕ → Account
genpass_account i =
    let session = decimal_4 (pos 2005) in
    record {
      disabled = pos 0;
      code = pos (1000 + i);
      pass = session ++ decimal_4 (pos (1000 + i));
      start = session ++ codes "-03-12.18:31:01";
      end = session ++ codes "-04-15.18:31:01";
    }

abbrev genpass_from : ℕ → ℕ → List Account
genpass_from zero i = []
genpass_from (suc rounds) i = genpass_account i ∷ genpass_from rounds (i + 1)

-- The accounts of all 8000 rounds.
unfoldable pub genpass : List Account
unfolding genpass_account
genpass = genpass_from 8000 0
