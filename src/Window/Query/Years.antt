-- ===== src/Window/Query/Years.antt =====
-- What a session holds in the query window, and when it opens the entry of the code.
use esif_client_server.Common.{
  ℕ, ◌≡◌, ◌≤◌, refl, sym, ap, ◌∙◌, ◌++◌, Bool, true, false, ◌&&◌, ◌||◌, List, [], ◌∷◌, Bytes,
  length, length-append, leb, ℤ, pos, negsuc, decimal_4, decimal_4-AllDigits, decimal_4-long,
  decimal_4-negsuc, AllDigits, arith,
}
use esif_client_server.Window.Handlers.{plus_one}
use esif_client_server.Window.Clean.{all_of, Ends}
use esif_client_server.Window.Query.{
  Query, is_session, is_some, lookup_college_by_code, two_years, open_code,
}

all_of_session-append :
    (a b : Bytes)
    → all_of is_session a ≡ true
    → all_of is_session b ≡ true
    → all_of is_session (a ++ b) ≡ true
all_of_session-append [] b h k = k
all_of_session-append (c ∷ cs) b h k = ground (arith, all_of_session-append cs b)

all_of_session-AllDigits : (a : Bytes) → AllDigits a → all_of is_session a ≡ true
all_of_session-AllDigits [] h = refl
all_of_session-AllDigits (c ∷ cs) (d, h) = ground (arith, all_of_session-AllDigits cs h)

all_of_session-decimal_4 : (n : ℤ) → all_of is_session (decimal_4 n) ≡ true
all_of_session-decimal_4 (pos n) = all_of_session-AllDigits _ (decimal_4-AllDigits n)
all_of_session-decimal_4 (negsuc n) =
    let (t, e, h) = decimal_4-negsuc n in rw e (all_of_session-AllDigits t h)

pub all_of_session-two_years : (n : ℤ) → all_of is_session (two_years n) ≡ true
unfolding two_years
all_of_session-two_years n =
    all_of_session-append (decimal_4 n) _ (all_of_session-decimal_4 n)
      (all_of_session-decimal_4 (plus_one n))

pub two_years-long : (n : ℤ) → 9 ≤ length (two_years n)
unfolding two_years
two_years-long n =
    let a = decimal_4-long n in
    let b = decimal_4-long (plus_one n) in
    omega (arith, length-append (decimal_4 n) (b'-' ∷ decimal_4 (plus_one n)))

-- The code and its name, which the handler of the session leaves alone; the button only for a known code.
pub record Asked (table : List (ℤ × Bytes)) (c n : Bytes) (s : Query) : Type 0 where
  pub code : s.code ≡ c
  pub name : s.name ≡ n
  pub known : s.ok_shown ≡ true → is_some (lookup_college_by_code table c) ≡ true

-- The text is a session, and it is as good as `u`: it has four bytes just if `u` has.
pub record HoldsSession (table : List (ℤ × Bytes)) (c n u : Bytes) (s : Query) : Type 0 where
  pub asked : Asked table c n s
  pub valid : all_of is_session s.session ≡ true
  pub fits : length s.session ≤ 9
  pub enough : leb 4 (length s.session) ≡ leb 4 (length u)

pub record OpensCode (table : List (ℤ × Bytes)) (c n u : Bytes) (s : Query) : Type 0 where
  pub holds : HoldsSession table c n u s
  pub editable : s.code_editable ≡ leb 4 (length u)
  pub ok : s.ok_shown ≡ (leb 4 (length u) && is_some (lookup_college_by_code table c))

pub open_code-OpensCode :
    (table : List (ℤ × Bytes)) (c n u : Bytes) (i : ℕ) (s : Query)
    → leb 4 (length u) ≡ true
    → HoldsSession table c n u s
    → Ends (OpensCode table c n u) (open_code table i s)
unfolding open_code
open_code-OpensCode table c n u i s e h =
    let k = h.asked.known in
    let own : is_some (lookup_college_by_code table s.code)
        ≡ is_some (lookup_college_by_code table c) =
      ap (λ d. is_some (lookup_college_by_code table d)) h.asked.code in
    let ok : (is_some (lookup_college_by_code table s.code) || s.ok_shown)
        ≡ is_some (lookup_college_by_code table c) =
      ap (λ b. b || s.ok_shown) own
      ∙ either (is_some (lookup_college_by_code table c)) s.ok_shown k in
    record {
      holds = record {
        asked = record {
          code = h.asked.code;
          name = h.asked.name;
          known = λ shown. sym ok ∙ shown;
        };
        valid = h.valid;
        fits = h.fits;
        enough = h.enough;
      };
      editable = sym e;
      ok = rw e ok;
    }
  where
    either : (a b : Bool) → (b ≡ true → a ≡ true) → (a || b) ≡ a
    either true b k = refl
    either false true k = sym (k refl)
    either false false k = refl
