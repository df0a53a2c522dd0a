-- ===== src/Client/Admission.antt =====
-- The client's `authenticate` and the server's `login` against each other.
use esif_client_server.Common.{
  ◌≡◌, arith, false, length-append, refl, ap, ◌∙◌, ◌++◌, append_assoc, [], ◌∷◌, Bytes, codes,
  length, drop, drop-length, line_of, strtol, c_string, pos,
}
use esif_client_server.Socket.{Socket, IsLawful, IsReliable}
use esif_client_server.Support.{newline}
use esif_client_server.Support.Lines.{stream, is_terminated}
use esif_client_server.Database.{Database}
use esif_client_server.Password.{Password, sha_digest_length}
use esif_client_server.Session.{Env, Session}
use esif_client_server.Session.Login.{blank_last, login}
use esif_client_server.Session.Login.Accepts.{Takes, IsKnown, dates_of, login-Takes}
use esif_client_server.Client.{Client, returns}
use esif_client_server.Client.Authenticate.{authenticate}
use esif_client_server.Client.Delivery.{sent_since}
use esif_client_server.Client.Handshake.{IsAnswer, reply_code, pass_code, authenticate-Shakes}

-- A text of ctime(): 24 bytes and a newline.
pub record IsTime (text : Bytes) : Type 0 where
  pub body : Bytes
  pub text_is : text ≡ line_of body
  pub size : length body ≡ 24
  pub one_line : is_terminated body ≡ false

is_terminated-++ :
    (a b : Bytes)
    → is_terminated a ≡ false
    → is_terminated b ≡ false
    → is_terminated (a ++ b) ≡ false
is_terminated-++ [] b h k = k
is_terminated-++ (c ∷ cs) b h k = ground (arith, is_terminated-++ cs b)

blank_last-line_of : (a : Bytes) → blank_last (line_of a) ≡ a ++ b' ' ∷ []
blank_last-line_of [] = refl
blank_last-line_of (c ∷ []) = refl
blank_last-line_of (c ∷ (d ∷ cs)) = ap (λ x. c ∷ x) (blank_last-line_of (d ∷ cs))

-- The answer of a server to the code of an open college, without its newline.
abbrev dates_between : Bytes → Bytes → Bytes
dates_between start end = codes "500 " ++ (start ++ (codes " - " ++ end))

dates_between-IsAnswer :
    (start end : Bytes)
    → length start ≡ 24
    → length end ≡ 24
    → is_terminated start ≡ false
    → is_terminated end ≡ false
    → IsAnswer (dates_between start end)
dates_between-IsAnswer start end n m h k = record {
  one_line = is_terminated-++ start (codes " - " ++ end) h k;
  long = omega arith;
  fits = omega (arith, length-append start (codes " - " ++ end));
}

reply_code-dates_between : (start end : Bytes) → reply_code (dates_between start end) ≡ pos 500
unfolding strtol c_string
reply_code-dates_between start end = refl

pass_code-500 : pass_code (codes "500") ≡ pos 0
unfolding strtol c_string
pass_code-500 = refl

-- What a client sends to be admitted.
abbrev pub requests : Bytes → Bytes → Bytes → Bytes
requests magic username digest =
    magic ++ ((codes "USER " ++ (username ++ newline ∷ [])) ++ (codes "PASS " ++ digest))

abbrev pub answered_since : {S : Socket} {D : Database Bytes} → Session S D → Session S D → Bytes
answered_since {S} s t = drop (length (S.outgoing s.conn.sock)) (S.outgoing t.conn.sock)

dates_of-dates_between :
    {P : Database Password} {D : Database Bytes} (env : Env P D) (pwd : Password)
    (a : IsTime (env.ctime pwd.start)) (b : IsTime (env.ctime pwd.end))
    → dates_of env pwd ≡ line_of (dates_between a.body b.body)
dates_of-dates_between env pwd a b =
    ap (λ x. blank_last (codes "500 " ++ x) ++ codes "- " ++ env.ctime pwd.end) a.text_is
    ∙ ap (λ x. blank_last (codes "500 " ++ line_of a.body) ++ codes "- " ++ x) b.text_is
    ∙ ap (λ x. x ++ codes "- " ++ line_of b.body) (blank_last-line_of (codes "500 " ++ a.body))
    ∙ simp append_assoc refl

module _ {C S : Socket} {P : Database Password} {D : Database Bytes} (env : Env P D)
    (sha1 : Bytes → Bytes) where
  -- Over lawful sockets on which no call fails but for interruptions: let the server's magic have 20
  -- bytes, and its record of the client's college, which is open, hold the digest of the client's
  -- password, and let ctime() give 24 bytes and a newline for the ends of its period. If what is next in
  -- the server's stream is the magic, "USER " with the code and a newline, and "PASS " with the digest,
  -- and what is next in the client's stream is what `login` sends on that, then `authenticate` sends just
  -- those bytes and returns 0, and `login` admits the client under its code, has sent just "500", the
  -- dates and "500", and leaves what follows to be read.
  pub authenticate-Takes :
      (LC : IsLawful C) (RC : IsReliable C) (LS : IsLawful S) (RS : IsReliable S)
      (username pass more more' : Bytes) (s : Client C) (t : Session S D)
      → length env.magic ≡ sha_digest_length
      → (k : IsKnown LS RS env username (sha1 pass)) → IsTime (env.ctime k.pwd.start)
      → IsTime (env.ctime k.pwd.end)
      → S.incoming t.conn.sock ≡ requests env.magic username (sha1 pass) ++ more'
      → stream s.conn ≡ answered_since t (login env t).1 ++ more
      → ((authenticate env.magic sha1 username pass s).0 ≡ returns (pos 0))
        × (sent_since s (authenticate env.magic sha1 username pass s).1
            ≡ requests env.magic username (sha1 pass))
        × Takes username
            (codes "500\n" ++ (dates_of env k.pwd ++ codes "500\n"))
            more'
            t
            (login env t)
  authenticate-Takes LC RC LS RS username pass more more' s t n k start end heard answers =
      let user = codes "USER " ++ (username ++ newline ∷ []) in
      let word = codes "PASS " ++ sha1 pass in
      let arrives : S.incoming t.conn.sock ≡ env.magic ++ (user ++ (word ++ more')) =
        heard
        ∙ append_assoc env.magic (user ++ word) more'
        ∙ ap (λ x. env.magic ++ x) (append_assoc user word more') in
      let taken = login-Takes LS RS env username (sha1 pass) more' t n k arrives in
      let reply = codes "500\n" ++ (dates_of env k.pwd ++ codes "500\n") in
      let replied : answered_since t (login env t).1 ≡ reply =
        ap (λ r. answered_since t r.1) taken.runs
        ∙ ap (drop (length (S.outgoing t.conn.sock))) taken.sent
        ∙ drop-length (S.outgoing t.conn.sock) reply in
      let dates = dates_between start.body end.body in
      let comes : stream s.conn ≡ codes "500\n" ++ (line_of dates ++ (codes "500\n" ++ more)) =
        answers
        ∙ ap (λ x. x ++ more) replied
        ∙ ap (λ x. codes "500\n" ++ x)
            (append_assoc (dates_of env k.pwd) (codes "500\n") more
              ∙ ap (λ x. x ++ (codes "500\n" ++ more))
                  (dates_of-dates_between env k.pwd start end)) in
      let a =
        authenticate-Shakes LC RC env.magic sha1 username pass dates (codes "500") more s k.four
          (dates_between-IsAnswer start.body end.body start.size end.size start.one_line
            end.one_line)
          (reply_code-dates_between start.body end.body) refl (omega arith) comes in
      (
        a.returned ∙ ap returns pass_code-500,
        ap (drop (length (C.outgoing s.conn.sock))) a.sent ∙ drop-length (C.outgoing s.conn.sock) _,
        taken,
      )
