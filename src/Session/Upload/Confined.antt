-- ===== src/Session/Upload/Confined.antt =====
-- The files that the branch for "FILENAME " writes.
use esif_client_server.Common.{
  ℕ, zero, suc, ◌+◌, ◌≡◌, refl, ◌++◌, true, not, ◌||◌, [], Bytes, codes, c_string, starts_with,
  length, Option, none, some, drop, ltb, leb, ℤ,
}
use esif_client_server.Socket.{Socket}
use esif_client_server.Support.{Io, done, error, out_of_fuel, Line, max_line, readline}
use esif_client_server.Database.{Database}
use esif_client_server.Password.{Password}
use esif_client_server.Regdb.{reg_insertdb}
use esif_client_server.Session.{◌>>=◌, Env, Session, Outcome, next, stop, fault, spent, set_text}
use esif_client_server.Session.Scan.{scan_line}
use esif_client_server.Session.Image.{max_info_size, max_file_name}
use esif_client_server.Session.Upload.{
  supply, after_readline, get_line, Form, Round, again, leave, is_positive, to_nat, name_of,
  close_form, store_form, form_line, form_round, form_loop, begin_form, file_command,
}
use esif_client_server.Session.Confined.{
  set_file-AllUnder, IsConfined, Any, Leaves, Leaves-resume, Leaves-if, Leaves-stop, Leaves-fault,
  Leaves-next, send-Leaves,
}

-- The form's file is in the directory.
abbrev IsIn : Bytes → Form → Type 0
IsIn dir f = (name : Bytes) × (f.path ≡ dir ++ name)

abbrev StaysIn : Bytes → Round → Type 0
StaysIn dir (again f) = IsIn dir f
StaysIn dir leave = Unit

module _ {S : Socket} {P : Database Password} {D : Database Bytes} (env : Env P D)
    (dir : Bytes) where
  pub get_line-Leaves : (s : Session S D) → IsConfined dir s → Leaves dir Any (get_line s)
  unfolding get_line after_readline
  get_line-Leaves s h = by_result (readline max_line s.conn).0
    where
      by_result :
          (r : Io Line)
          → Leaves dir Any (after_readline r (record s { conn = (readline max_line s.conn).1 }))
      by_result (done line) = record { value = tt; confined = h }
      by_result error = record { value = tt; confined = h }
      by_result out_of_fuel = record { value = tt; confined = h }

  close_form-Leaves :
      (f : Form) (s : Session S D)
      → IsIn dir f
      → IsConfined dir s
      → Leaves dir Any (close_form env f s)
  unfolding close_form
  close_form-Leaves f s (name, e) h = record {
    value = tt;
    confined = rw e (set_file-AllUnder dir name f.text s.files h);
  }

  store_form-Leaves :
      (f : Form) (s : Session S D) → IsConfined dir s → Leaves dir Any (store_form env f s)
  unfolding store_form
  store_form-Leaves f s h = stored s.regdb
    where
      stored :
          (o : Option D.Db)
          → Leaves {S = S} {D = D} dir {A = Unit {0}} Any (elim o [
            | none ↦ (fault, s)
            | some d ↦ (next tt, record s { regdb = some (reg_insertdb D f.key f.regbuf true d).1 })
          ])
      stored none = Leaves-fault dir s h
      stored (some d) = record { value = tt; confined = h }

  form_line-Leaves :
      (f : Form) (ret : ℕ) (s : Session S D)
      → IsIn dir f
      → IsConfined dir s
      → Leaves dir (StaysIn dir) (form_line env f ret s)
  unfolding form_line
  form_line-Leaves f ret s i h =
      Leaves-if dir (not (env.accepts f.path (c_string s.buffer)))
        (Leaves-resume dir _ (close_form-Leaves f s i h) (λ _ t _ k. Leaves-next dir leave t tt k))
        (Leaves-if dir (leb max_info_size (length f.regbuf)) (Leaves-next dir leave s tt h) (
          Leaves-if dir (ltb max_line (ret + 1) || ltb max_info_size (length f.regbuf + (ret + 1)))
            (Leaves-fault dir s h) (Leaves-next dir _ s i h)))

  form_round-Leaves :
      (f : Form) (ret : ℤ) (s : Session S D)
      → IsIn dir f
      → IsConfined dir s
      → Leaves dir (StaysIn dir) (form_round env f ret s)
  unfolding form_round
  form_round-Leaves f ret s i h =
      let closed = close_form-Leaves f s i h in
      Leaves-if dir (not (is_positive ret))
        (Leaves-resume dir _ closed (λ _ t _ k. Leaves-stop dir t k))
        (Leaves-if dir (starts_with (codes ".\n") s.buffer)
          (Leaves-resume dir _ closed (λ _ t _ k.
            Leaves-resume dir _ (store_form-Leaves f t k) (λ _ u _ l.
              Leaves-resume dir _ (send-Leaves dir (codes "500\n") (set_text (codes "500\n") u).1 l)
                (λ _ v _ m. Leaves-next dir leave v tt m))))
          (Leaves-if dir (starts_with (codes "QUIT\n") s.buffer)
            (Leaves-resume dir _ closed (λ _ t _ k. Leaves-stop dir t k))
            (form_line-Leaves f (to_nat ret) s i h)))

  form_loop-rest :
      (fuel : ℕ) (r : Outcome Round × Session S D)
      → Leaves dir (StaysIn dir) r
      → ((g : Form) (t : Session S D)
          → IsIn dir g
          → IsConfined dir t
          → Leaves dir Any (form_loop env fuel g t))
      → Leaves {S = S} {D = D} dir {A = Unit {0}} Any (elim r.0 [
        | next leave ↦ (next tt, r.1)
        | next (again g) ↦ form_loop env fuel g r.1
        | stop ↦ (stop, r.1)
        | fault ↦ (fault, r.1)
        | spent ↦ (spent, r.1)
      ])
  form_loop-rest fuel (next leave, t) h k = record { value = tt; confined = h.confined }
  form_loop-rest fuel (next (again g), t) h k = k g t h.value h.confined
  form_loop-rest fuel (stop, t) h k = record { value = tt; confined = h.confined }
  form_loop-rest fuel (fault, t) h k = record { value = tt; confined = h.confined }
  form_loop-rest fuel (spent, t) h k = record { value = tt; confined = h.confined }

  form_loop-Leaves :
      (fuel : ℕ) (f : Form) (s : Session S D)
      → IsIn dir f
      → IsConfined dir s
      → Leaves dir Any (form_loop env fuel f s)
  unfolding form_loop
  form_loop-Leaves zero f s i h = record { value = tt; confined = h }
  form_loop-Leaves (suc fuel) f s i h =
      form_loop-rest fuel ((get_line >>= form_round env f) s)
        (Leaves-resume dir _ (get_line-Leaves s h) (λ ret t _ k. form_round-Leaves f ret t i k))
        (form_loop-Leaves fuel)

  begin_form-Leaves :
      (o : Option Bytes) (s : Session S D)
      → IsConfined dir s
      → Leaves dir (IsIn dir) (begin_form env dir o s)
  unfolding begin_form
  begin_form-Leaves none s h = Leaves-fault dir s h
  begin_form-Leaves (some name) s h =
      Leaves-if dir (leb max_file_name (length name) || ltb (length name) 4) (Leaves-fault dir s h)
        (Leaves-if dir (not (env.opens (dir ++ name))) (record { value = tt; confined = h })
          (record { value = (name, refl); confined = set_file-AllUnder dir name [] s.files h }))

  pub file_command-Leaves :
      (s : Session S D) → IsConfined dir s → Leaves dir Any (file_command env dir s)
  unfolding file_command
  file_command-Leaves s h =
      Leaves-resume dir _
        (begin_form-Leaves (name_of (scan_line (c_string (drop 9 s.buffer))) s.tmpname) s h)
        (λ f t i k. form_loop-Leaves (supply t + 1) f t i k)
