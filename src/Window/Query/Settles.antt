-- ===== src/Window/Query/Settles.antt =====
-- What the handler of the session does in the query window.
use esif_client_server.Common.{
  ℕ, suc, ◌≡◌, ◌≤◌, ◌⊎◌, refl, sym, ap, ◌∙◌, Bool-cases, inl, inr, true, false, ◌&&◌, List, [],
  Bytes, length, ltb, leb, ◌==◌, ℤ, strtol, arith,
}
use mathlib.Core.Path.{subst}
use esif_client_server.Session.{M, return}
use esif_client_server.Window.Chars.{first_chars-of_le}
use esif_client_server.Window.{Toolkit}
use esif_client_server.Window.Handlers.{valid_part}
use esif_client_server.Window.Clean.{all_of, Ends, Ends-resume}
use esif_client_server.Window.Settles.Leaf.{valid_part-all_of, valid_part_self}
use esif_client_server.Window.Query.{
  Ask, session_entry, Query, put_in, is_session, set_text_in, two_years, complete_session, longer,
  open_code, after_session, q_sess_entry_changed, q_changed,
}
use esif_client_server.Window.Query.Texts.{set_text_in_self, set_text_in-Ends}
use esif_client_server.Window.Query.Years.{
  all_of_session-two_years, two_years-long, Asked, HoldsSession, OpensCode, open_code-OpensCode,
}

module _ (G : Toolkit) (markup : Bytes → Bytes → Bytes) (table : List (ℤ × Bytes))
    (c n : Bytes) where
  abbrev Completes : (Ask → M Query (Unit {0})) → Bytes → Type 0
  Completes emit u =
      (x : Query)
      → leb 4 (length u) ≡ true
      → HoldsSession table c n u x
      → Ends (HoldsSession table c n u) (complete_session G markup table emit u x)

  after_session-OpensCode :
      (emit : Ask → M Query (Unit {0})) (u : Bytes) (s : Query)
      → Completes emit u
      → HoldsSession table c n u s
      → Ends (OpensCode table c n u) (after_session G markup table emit u s)
  unfolding after_session
  after_session-OpensCode emit u s k h = elim (Bool-cases (ltb (length u) 4)) [
    | inl e ↦
        let few : leb 4 (length u) ≡ false = ground arith in
        rw e (record {
          holds = record {
            asked = record { code = h.asked.code; name = h.asked.name; known = λ shown. absurd cc };
            valid = h.valid;
            fits = h.fits;
            enough = h.enough;
          };
          editable = sym few;
          ok = rw few refl;
        })
    | inr e ↦
        let enough : leb 4 (length u) ≡ true = ground arith in
        rw e (
          Ends-resume (HoldsSession table c n u) (OpensCode table c n u) (open_code table)
            (complete_session G markup table emit u s) (k s enough h)
            (λ i x g. open_code-OpensCode table c n u i x enough g))
  ]

  q_sess_entry_changed-OpensCode :
      (emit : Ask → M Query (Unit {0})) (s : Query)
      → Completes emit (valid_part is_session s.session)
      → Ends
          (HoldsSession table c n (valid_part is_session s.session))
          (set_text_in G emit session_entry (valid_part is_session s.session) s)
      → Ends
          (OpensCode table c n (valid_part is_session s.session))
          (q_sess_entry_changed G markup table emit s)
  unfolding q_sess_entry_changed
  q_sess_entry_changed-OpensCode emit s k h =
      let u = valid_part is_session s.session in
      Ends-resume (HoldsSession table c n u) (OpensCode table c n u)
        (λ _ x. after_session G markup table emit u (longer u x))
        (set_text_in G emit session_entry u s) h
        (λ _ x g. after_session-OpensCode emit u (longer u x) k (record {
          asked = record { code = g.asked.code; name = g.asked.name; known = g.asked.known };
          valid = g.valid;
          fits = g.fits;
          enough = g.enough;
        }))

  -- A session of its bytes, of another length than four.
  leaf-OpensCode :
      (k : ℕ) (s : Query)
      → all_of is_session s.session ≡ true
      → length s.session ≤ 9
      → (length s.session == 4) ≡ false
      → Asked table c n s
      → Ends (OpensCode table c n s.session) (q_changed G markup table (suc k) session_entry s)
  unfolding q_changed complete_session
  leaf-OpensCode k s v f other a =
      let emit = q_changed G markup table k in
      let own = valid_part_self is_session s.session v in
      let done : Completes emit s.session = λ x e h. rw other h in
      subst (λ u. Ends (OpensCode table c n u) (q_sess_entry_changed G markup table emit s)) own
        (q_sess_entry_changed-OpensCode emit s (subst (Completes emit) (sym own) done) (
          subst (λ u. Ends (HoldsSession table c n u) (set_text_in G emit session_entry u s))
            (sym own)
            (subst (Ends (HoldsSession table c n s.session))
              (sym (
                set_text_in_self G emit session_entry s.session s refl
                  (first_chars-of_le 9 s.session f)))
              (record { asked = a; valid = v; fits = f; enough = refl }))))

  asked_of : (u : Bytes) (x : Query) → OpensCode table c n u x → Asked table c n x
  asked_of u x h = h.holds.asked

  set_years-HoldsSession :
      (k : ℕ) (years : Bytes) (s : Query)
      → all_of is_session years ≡ true
      → length years ≤ 9
      → (length years == 4) ≡ false
      → Asked table c n s
      → Ends
          (HoldsSession table c n years)
          (set_text_in G (q_changed G markup table (suc k)) session_entry years s)
  set_years-HoldsSession k years s v f other a =
      set_text_in-Ends G (q_changed G markup table (suc k)) session_entry years (Asked table c n)
        (OpensCode table c n)
        (λ u x g b.
          leaf-OpensCode k (put_in session_entry u x) (each u g).0 (each u g).1.0 (each u g).1.1
            (record { code = b.code; name = b.name; known = b.known }))
        asked_of (HoldsSession table c n years) s (first_chars-of_le 9 years f)
        (λ e. record {
          asked = a;
          valid = rw e v;
          fits = rw e f;
          enough = ap (λ x. leb 4 (length x)) e;
        })
        (λ x h. h.holds) a
    where
      each :
          (u : Bytes)
          → (u ≡ []) ⊎ (u ≡ years)
          → (all_of is_session u ≡ true) × ((length u ≤ 9) × ((length u == 4) ≡ false))
      each u (inl g) = rw g (refl, (omega arith, refl))
      each u (inr g) = rw g (v, (f, other))

  completes_lem : (k : ℕ) (u : Bytes) → Completes (q_changed G markup table (suc k)) u
  unfolding complete_session
  completes_lem k u x e h = elim (Bool-cases (length u == 4 && leb x.prevlen 4)) [
    | inr stays ↦ rw stays h
    | inl goes ↦ elim (Bool-cases (ltb 9 (length (two_years (strtol u))))) [
      | inl over ↦ rw goes (rw over tt)
      | inr fits ↦
          let years = two_years (strtol u) in
          let long = two_years-long (strtol u) in
          let four : leb 4 (length years) ≡ true = ground arith in
          rw goes (
            rw fits (
              Ends-resume (HoldsSession table c n years) (HoldsSession table c n u) (λ _. return 9)
                (set_text_in G (q_changed G markup table (suc k)) session_entry years x)
                (set_years-HoldsSession k years x (all_of_session-two_years (strtol u))
                  (ground arith) (ground arith) h.asked)
                (λ _ y g. record {
                  asked = g.asked;
                  valid = g.valid;
                  fits = g.fits;
                  enough = g.enough ∙ (four ∙ sym e);
                })))
    ]
  ]

  -- A session of its bytes.
  valid-OpensCode :
      (k : ℕ) (s : Query)
      → all_of is_session s.session ≡ true
      → length s.session ≤ 9
      → Asked table c n s
      → Ends
          (OpensCode table c n s.session)
          (q_changed G markup table (suc (suc k)) session_entry s)
  unfolding q_changed
  valid-OpensCode k s v f a =
      let emit = q_changed G markup table (suc k) in
      let own = valid_part_self is_session s.session v in
      subst (λ u. Ends (OpensCode table c n u) (q_sess_entry_changed G markup table emit s)) own
        (q_sess_entry_changed-OpensCode emit s (completes_lem k (valid_part is_session s.session)) (
          subst (λ u. Ends (HoldsSession table c n u) (set_text_in G emit session_entry u s))
            (sym own)
            (subst (Ends (HoldsSession table c n s.session))
              (sym (
                set_text_in_self G emit session_entry s.session s refl
                  (first_chars-of_le 9 s.session f)))
              (record { asked = a; valid = v; fits = f; enough = refl }))))

  pub session_changed-OpensCode :
      (k : ℕ) (s : Query)
      → length (valid_part is_session s.session) ≤ 9
      → Asked table c n s
      → Ends
          (OpensCode table c n (valid_part is_session s.session))
          (q_changed G markup table (suc (suc (suc k))) session_entry s)
  unfolding q_changed
  session_changed-OpensCode k s f a =
      let emit = q_changed G markup table (suc (suc k)) in
      let u = valid_part is_session s.session in
      let v = valid_part-all_of is_session s.session in
      q_sess_entry_changed-OpensCode emit s (completes_lem (suc k) u) (
        set_text_in-Ends G emit session_entry u (Asked table c n) (OpensCode table c n)
          (λ w x g b.
            valid-OpensCode k (put_in session_entry w x) (each w g).0 (each w g).1
              (record { code = b.code; name = b.name; known = b.known }))
          asked_of (HoldsSession table c n u) s (first_chars-of_le 9 u f)
          (λ e. record {
            asked = a;
            valid = rw e v;
            fits = rw e f;
            enough = ap (λ x. leb 4 (length x)) e;
          })
          (λ x h. h.holds) a)
    where
      each :
          (w : Bytes)
          → (w ≡ []) ⊎ (w ≡ valid_part is_session s.session)
          → (all_of is_session w ≡ true) × (length w ≤ 9)
      each w (inl g) = rw g (refl, omega arith)
      each w (inr g) = rw g (valid_part-all_of is_session s.session, f)
