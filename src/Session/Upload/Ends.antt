-- ===== src/Session/Upload/Ends.antt =====
-- The branch for "FILENAME " on every lawful socket: it comes to an end.
use esif_client_server.Common.{
  ℕ, zero, suc, ◌+◌, ◌≤◌, ◌<◌, ◌≡◌, refl, sym, ap, ◌∙◌, ◌++◌, Bool-cases, inl, inr, true, not, ◌||◌,
  Bytes, codes, c_string, starts_with, length, Option, none, some, drop, ltb, leb, ℤ, arith,
}
use esif_client_server.Socket.{Socket, IsLawful}
use esif_client_server.Support.{max_line}
use esif_client_server.Database.{Database}
use esif_client_server.Password.{Password}
use esif_client_server.Regdb.{reg_insertdb}
use esif_client_server.Session.{
  ◌>>=◌, bind-next, Env, Session, Outcome, next, stop, fault, spent, set_text,
}
use esif_client_server.Session.Scan.{scan_line}
use esif_client_server.Session.Image.{max_info_size, max_file_name}
use esif_client_server.Session.Upload.{
  supply, get_line, Form, Round, again, leave, is_positive, to_nat, name_of, close_form, store_form,
  form_line, form_round, form_loop, begin_form, file_command,
}
use esif_client_server.Session.Ends.{
  Halts, Halts-from, Halts-resume, Halts-if, Halts-next, Halts-stop, Halts-fault, send-Halts,
  get_line-GetsLine,
}

module _ {S : Socket} {P : Database Password} {D : Database Bytes} (env : Env P D)
    (L : IsLawful S) where
  close_form-Halts : (f : Form) (s : Session S D) → Halts s (close_form env f s)
  unfolding close_form
  close_form-Halts f s = record { not_spent = refl; less = omega arith }

  store_form-Halts : (f : Form) (s : Session S D) → Halts s (store_form env f s)
  unfolding store_form
  store_form-Halts f s = stored s.regdb
    where
      stored :
          (o : Option D.Db)
          → Halts {A = Unit {0}} s (elim o [
            | none ↦ (fault, s)
            | some d ↦ (next tt, record s { regdb = some (reg_insertdb D f.key f.regbuf true d).1 })
          ])
      stored none = Halts-fault s
      stored (some d) = record { not_spent = refl; less = omega arith }

  form_line-Halts : (f : Form) (ret : ℕ) (s : Session S D) → Halts s (form_line env f ret s)
  unfolding form_line
  form_line-Halts f ret s =
      Halts-if (not (env.accepts f.path (c_string s.buffer)))
        (λ _. Halts-resume s _ (close_form-Halts f s) (λ _ t. Halts-next leave t))
        (λ _.
          Halts-if (leb max_info_size (length f.regbuf)) (λ _. Halts-next leave s)
            (λ _.
              Halts-if (ltb max_line (ret + 1) || ltb max_info_size (length f.regbuf + (ret + 1)))
                (λ _. Halts-fault s) (λ _. Halts-next _ s)))

  form_round-Halts : (f : Form) (ret : ℤ) (s : Session S D) → Halts s (form_round env f ret s)
  unfolding form_round
  form_round-Halts f ret s =
      Halts-if (not (is_positive ret))
        (λ _. Halts-resume s _ (close_form-Halts f s) (λ _ t. Halts-stop t))
        (λ _.
          Halts-if (starts_with (codes ".\n") s.buffer)
            (λ _. Halts-resume s _ (close_form-Halts f s) (λ _ t.
              Halts-resume t _ (store_form-Halts f t) (λ _ u.
                Halts-from {t = (set_text (codes "500\n") u).1} (omega arith)
                  (Halts-resume _ _ (send-Halts L (codes "500\n") _) (λ _ v. Halts-next leave v)))))
            (λ _.
              Halts-if (starts_with (codes "QUIT\n") s.buffer)
                (λ _. Halts-resume s _ (close_form-Halts f s) (λ _ t. Halts-stop t))
                (λ _. form_line-Halts f (to_nat ret) s)))

  form_round-again :
      (f g : Form) (ret : ℤ) (s t : Session S D)
      → form_round env f ret s ≡ (next (again g), t)
      → is_positive ret ≡ true
  unfolding form_round close_form
  form_round-again f g ret s t h = elim (Bool-cases (is_positive ret)) [
    | inl e ↦ e
    | inr e ↦ let r : (stop, _) ≡ (next (again g), t) = rw (e, form_round) at h in absurd cc
  ]

  form_loop-rest :
      (fuel : ℕ) (s : Session S D) (r : Outcome Round × Session S D)
      → Halts s r
      → ((g : Form) (t : Session S D) → r ≡ (next (again g), t) → Halts t (form_loop env fuel g t))
      → Halts {A = Unit {0}} s (elim r.0 [
        | next leave ↦ (next tt, r.1)
        | next (again g) ↦ form_loop env fuel g r.1
        | stop ↦ (stop, r.1)
        | fault ↦ (fault, r.1)
        | spent ↦ (spent, r.1)
      ])
  form_loop-rest fuel s (next leave, t) h k = record { not_spent = refl; less = h.less }
  form_loop-rest fuel s (next (again g), t) h k = Halts-from h.less (k g t refl)
  form_loop-rest fuel s (stop, t) h k = record { not_spent = refl; less = h.less }
  form_loop-rest fuel s (fault, t) h k = record { not_spent = refl; less = h.less }
  form_loop-rest fuel s (spent, t) h k = absurd (let e = h.not_spent in cc)

  form_loop-Halts :
      (fuel : ℕ) (f : Form) (s : Session S D) → supply s < fuel → Halts s (form_loop env fuel f s)
  unfolding form_loop
  form_loop-Halts zero f s h = absurd (omega arith)
  form_loop-Halts (suc fuel) f s h =
      let g = get_line-GetsLine L s in
      let round = form_round-Halts f g.ret g.after in
      let is : (get_line >>= form_round env f) s ≡ form_round env f g.ret g.after =
        bind-next get_line (form_round env f) s g.after g.ret g.runs in
      form_loop-rest fuel s ((get_line >>= form_round env f) s) (rw is (Halts-from g.less round))
        (λ f' t e.
          let e' = sym is ∙ e in
          let used : supply t ≤ supply g.after = rw (ap (λ p. p.1) e') at round.less in
          form_loop-Halts fuel f' t
            (omega (arith, used, g.progress (form_round-again f f' g.ret g.after t e'))))

  begin_form-Halts :
      (txtdir : Bytes) (o : Option Bytes) (s : Session S D) → Halts s (begin_form env txtdir o s)
  unfolding begin_form
  begin_form-Halts txtdir none s = Halts-fault s
  begin_form-Halts txtdir (some name) s =
      Halts-if (leb max_file_name (length name) || ltb (length name) 4) (λ _. Halts-fault s)
        (λ _.
          Halts-if (not (env.opens (txtdir ++ name)))
            (λ _. record { not_spent = refl; less = omega arith })
            (λ _. record { not_spent = refl; less = omega arith }))

  pub file_command-Halts : (txtdir : Bytes) (s : Session S D) → Halts s (file_command env txtdir s)
  unfolding file_command
  file_command-Halts txtdir s =
      Halts-resume s _
        (begin_form-Halts txtdir (name_of (scan_line (c_string (drop 9 s.buffer))) s.tmpname) s)
        (λ f t. form_loop-Halts (supply t + 1) f t (omega arith))
