-- ===== src/Password/Showing.antt =====
-- server/showpassdb.c: what `main` and `showdata` print of the password database. `none` is undefined
-- behaviour: a code that fills `char name[5]`, or a record that nothing was written to. ctime() is a
-- parameter, and the cursor's records are a list.
use esif_client_server.Common.{
  ℕ, zero, suc, ◌≡◌, refl, sym, ap, ◌∙◌, ◌++◌, append-nil, append_assoc, Bool, false, List, [], ◌∷◌,
  Option, none, some, Bytes, codes, c_string, length, get_elem?, leb, if◌then◌else◌, ℤ, pos, eq_int,
  ltb_int,
}
use esif_client_server.Database.{Database, IsHealthy}
use esif_client_server.Password.{Password, db_key, pass_getdb}
use esif_client_server.Password.Store.{pass_getdb_lem}
use esif_client_server.Password.Accounts.{is_negative→ltb_int}

-- What printf() adds in front of the rest of the output.
abbrev pub in_front : Bytes → Option Bytes → Option Bytes
in_front row none = none
in_front row (some more) = some (row ++ more)

unfoldable pub state_name : Password → Bytes
state_name pwd = if eq_int pwd.disabled (pos 0) then codes "enabled" else codes "disabled"

module _ (ctime : ℤ → Bytes) where
  -- The printf() of `main`. Both calls of ctime() are made before it prints and they share one buffer,
  -- so both times are that of the call that is made last; C leaves open which.
  unfoldable pub account_row : Bool → Bytes → Password → Bytes
  unfolding state_name
  account_row start_last name pwd =
      let time = ctime (if start_last then pwd.start else pwd.end) in
      name
      ++ codes " ("
      ++ state_name pwd
      ++ codes ")\n\tstart: "
      ++ time
      ++ codes "\tend  : "
      ++ time
      ++ codes "\n"

  -- `showdata`, where each time has a printf() of its own.
  unfoldable pub show_record : Password → Bytes
  unfolding state_name
  show_record pwd =
      codes "\t"
      ++ state_name pwd
      ++ codes "\n\tStart : "
      ++ ctime pwd.start
      ++ codes "\tEnd   : "
      ++ ctime pwd.end

  -- The loop of `display_database` over the records that the cursor gives.
  unfoldable pub display_records : List (Bytes × Password) → Bytes
  unfolding show_record
  display_records [] = []
  display_records ((key, pwd) ∷ more) =
      c_string key ++ codes " :\r\n" ++ show_record pwd ++ codes "\r\n" ++ display_records more

  module _ (start_last : Bool) (D : Database Password) where
    -- A round of the loop of `main`: what it prints, and the local record.
    unfoldable pub show_one : Bytes → Option Password → D.Db → Option (Bytes × Option Password)
    unfolding account_row
    show_one arg pwd d =
        if leb 5 (length (c_string arg))
        then none
        else let (ret, pwd') = pass_getdb D (c_string arg) pwd d in
          if ltb_int ret (pos 0) then some ([], pwd') else elim pwd' [
            | none ↦ none
            | some p ↦ some (account_row start_last (c_string arg) p, some p)
          ]

    -- The loop, with `argc` arguments left; they are taken from the last one down.
    unfoldable pub show_args : ℕ → List Bytes → Option Password → D.Db → Option Bytes
    unfolding show_one
    show_args zero argv pwd d = some []
    show_args (suc argc) argv pwd d = elim (get_elem? argv argc) [
      | none ↦ none
      | some arg ↦ elim (show_one arg pwd d) [
        | none ↦ none
        | some (row, pwd') ↦ in_front row (show_args argc argv pwd' d)
      ]
    ]

    -- What is printed for a code by what is stored under it.
    abbrev pub row_of : Bytes → Option Password → Bytes
    row_of name none = []
    row_of name (some p) = account_row start_last name p

    -- The rows of the codes, the last one first.
    abbrev pub rows_of : List Bytes → D.Db → Bytes
    rows_of [] d = []
    rows_of (arg ∷ args) d =
        rows_of args d ++ row_of (c_string arg) (D.find (db_key (c_string arg)) d)

    -- Each code fits the buffer.
    abbrev pub AllFit : List Bytes → Type 0
    AllFit [] = Unit {0}
    AllFit (arg ∷ args) = (leb 5 (length (c_string arg)) ≡ false) × AllFit args

    -- `row` after the rest of the output.
    abbrev ending : Bytes → Option Bytes → Option Bytes
    ending row none = none
    ending row (some x) = some (x ++ row)

    in_front-ending :
        (a b : Bytes) (o : Option Bytes) → in_front a (ending b o) ≡ ending b (in_front a o)
    in_front-ending a b none = refl
    in_front-ending a b (some x) = ap some (sym (append_assoc a x b))

    module _ (H : IsHealthy D) where
      record Shows (arg : Bytes) (pwd : Option Password) (d : D.Db) : Type 0 where
        pwd' : Option Password
        runs :
            show_one arg pwd d
            ≡ some (row_of (c_string arg) (D.find (db_key (c_string arg)) d), pwd')

      show_one-Shows :
          (arg : Bytes) (pwd : Option Password) (d : D.Db)
          → leb 5 (length (c_string arg)) ≡ false
          → Shows arg pwd d
      unfolding show_one
      show_one-Shows arg pwd d h = by_find (D.find (db_key (c_string arg)) d) refl
        where
          by_find : (o : Option Password) → D.find (db_key (c_string arg)) d ≡ o → Shows arg pwd d
          by_find none e = record {
            pwd' = pwd;
            runs =
                rw
                  (
                    h,
                    pass_getdb_lem D H (c_string arg) pwd d,
                    e,
                    is_negative→ltb_int D.not_found H.not_found_negative,
                  )
                  refl;
          }
          by_find (some p) e = record {
            pwd' = some p;
            runs = rw (h, pass_getdb_lem D H (c_string arg) pwd d, e) refl;
          }

      show_args-cons :
          (arg : Bytes) (args : List Bytes) (argc : ℕ) (pwd : Option Password) (d : D.Db)
          → leb 5 (length (c_string arg)) ≡ false
          → show_args (suc argc) (arg ∷ args) pwd d
            ≡ ending
                (row_of (c_string arg) (D.find (db_key (c_string arg)) d))
                (show_args argc args pwd d)
      unfolding show_args
      show_args-cons arg args zero pwd d h =
          let s = show_one-Shows arg pwd d h in
          rw
            (
              s.runs,
              show_args,
              append-nil (row_of (c_string arg) (D.find (db_key (c_string arg)) d)),
            )
            refl
      show_args-cons arg args (suc argc) pwd d h =
          by_arg (get_elem? args argc) (λ q. show_args-cons arg args argc q d h)
        where
          row : Bytes
          row = row_of (c_string arg) (D.find (db_key (c_string arg)) d)

          Rest : Type 0
          Rest =
              (q : Option Password)
              → show_args (suc argc) (arg ∷ args) q d ≡ ending row (show_args argc args q d)

          by_round :
              (r : Option (Bytes × Option Password))
              → Rest
              → elim r [
                | none ↦ none
                | some (b, q) ↦ in_front b (show_args (suc argc) (arg ∷ args) q d)
              ]
                ≡ ending row
                    (elim r [ none ↦ none | some (b, q) ↦ in_front b (show_args argc args q d) ])
          by_round none k = refl
          by_round (some (b, q)) k =
              ap (in_front b) (k q) ∙ in_front-ending b row (show_args argc args q d)

          by_arg :
              (o : Option Bytes)
              → Rest
              → elim o [
                | none ↦ none
                | some a ↦ elim (show_one a pwd d) [
                  | none ↦ none
                  | some (b, q) ↦ in_front b (show_args (suc argc) (arg ∷ args) q d)
                ]
              ]
                ≡ ending row (elim o [
                  | none ↦ none
                  | some a ↦ elim (show_one a pwd d) [
                    | none ↦ none
                    | some (b, q) ↦ in_front b (show_args argc args q d)
                  ]
                ])
          by_arg none k = refl
          by_arg (some a) k = by_round (show_one a pwd d) k

      -- On a healthy database and for codes of at most four bytes the loop of `main` comes to its end and
      -- prints for each code of the arguments, from the last to the first, the row of the record that is
      -- stored under it, and nothing for a code that has none, whatever a round left in the local record.
      pub show_args-rows :
          (args : List Bytes) (pwd : Option Password) (d : D.Db)
          → AllFit args
          → show_args (length args) args pwd d ≡ some (rows_of args d)
      unfolding show_args
      show_args-rows [] pwd d h = refl
      show_args-rows (arg ∷ args) pwd d (h, hs) =
          show_args-cons arg args (length args) pwd d h
          ∙ ap (ending (row_of (c_string arg) (D.find (db_key (c_string arg)) d)))
              (show_args-rows args pwd d hs)
