-- ===== src/Client/Steps.antt =====
-- The steps of the client's routines on sockets on which no call fails but for interruptions.
use esif_client_server.Common.{
  ℕ, zero, suc, ◌+◌, ◌-◌, ◌<◌, ◌≡◌, refl, sym, ap, ◌∙◌, ◌++◌, append_assoc, append-nil, false, List,
  [], ◌∷◌, Bytes, c_string, length, drop, drop-length, line_of, wire, pos, arith,
}
use esif_client_server.Socket.{Socket, IsLawful, IsReliable}
use esif_client_server.Support.{done, newline, writen, readline}
use esif_client_server.Support.Lines.{
  stream, take_line, is_terminated, readline_lem, take_line-append, is_terminated-append,
}
use esif_client_server.Support.Writing.{writen_lem}
use esif_client_server.Support.Progress.{readline-ReadsLine}
use esif_client_server.Regdb.Records.{has_nul}
use esif_client_server.Session.Upload.Lines.{IsFormLine, has_nul-line_of, line_report-terminated}
use esif_client_server.Session.Upload.Whole.{AllFormLines}
use esif_client_server.Client.{
  Client, Step, Done, going, ◌>>=◌, proceed-going, write_all, read_line,
}
use esif_client_server.Client.Header.{fgets}
use esif_client_server.Client.Apply.{photo_of, send_lines}

module _ {S : Socket} (L : IsLawful S) (R : IsReliable S) where
  -- What has changed when `bytes` were sent and `taken` was read.
  pub record Spoke (bytes taken : Bytes) (s t : Client S) : Type 0 where
    pub sent : S.outgoing t.conn.sock ≡ S.outgoing s.conn.sock ++ bytes
    pub took : stream s.conn ≡ taken ++ stream t.conn
    pub files_are : t.files ≡ s.files
    pub name_is : t.st_name ≡ s.st_name
    pub writes : t.can_write ≡ s.can_write

  pub Spoke-none : (s : Client S) → Spoke [] [] s s
  Spoke-none s = record {
    sent = sym (append-nil _);
    took = refl;
    files_are = refl;
    name_is = refl;
    writes = refl;
  }

  pub Spoke-then :
      (a b c d : Bytes) (s t u : Client S)
      → Spoke a b s t
      → Spoke c d t u
      → Spoke (a ++ c) (b ++ d) s u
  Spoke-then a b c d s t u p q = record {
    sent = q.sent ∙ ap (λ x. x ++ c) p.sent ∙ append_assoc (S.outgoing s.conn.sock) a c;
    took = p.took ∙ ap (λ x. b ++ x) q.took ∙ sym (append_assoc b d (stream u.conn));
    files_are = q.files_are ∙ p.files_are;
    name_is = q.name_is ∙ p.name_is;
    writes = q.writes ∙ p.writes;
  }

  -- A step that goes on with `a`.
  pub record Speaks {A : Type 0} (bytes taken : Bytes) (a : A) (s : Client S)
      (r : Done A × Client S) : Type 0 where
    pub after : Client S
    pub runs : r ≡ (going a, after)
    pub spoke : Spoke bytes taken s after

  -- Two steps, one after the other.
  pub Speaks-bind :
      {A B : Type 0} {b₁ t₁ b₂ t₂ : Bytes} {a : A} {b : B} (m : Step (Client S) A)
      (f : A → Step (Client S) B) (s : Client S)
      → (q : Speaks b₁ t₁ a s (m s)) → Speaks b₂ t₂ b q.after (f a q.after)
      → Speaks (b₁ ++ b₂) (t₁ ++ t₂) b s ((m >>= f) s)
  Speaks-bind {b₁ = b₁} {t₁ = t₁} {b₂ = b₂} {t₂ = t₂} {a = a} m f s q r = record {
    after = r.after;
    runs = proceed-going m f s q.after a q.runs ∙ r.runs;
    spoke = Spoke-then b₁ t₁ b₂ t₂ s q.after r.after q.spoke r.spoke;
  }

  pub write_all-Speaks :
      (bytes : Bytes) (code : _) (s : Client S) → Speaks bytes [] tt s (write_all bytes code s)
  unfolding write_all
  write_all-Speaks bytes code s =
      let (p, q, i, b) = writen_lem S L R bytes s.conn in
      record {
        after = record s { conn = (writen bytes s.conn).1 };
        runs = rw p refl;
        spoke = record {
          sent = q;
          took = rw (i, b) refl;
          files_are = refl;
          name_is = refl;
          writes = refl;
        };
      }

  -- A line for which there is room is read whole, with its newline.
  pub read_line-Speaks :
      (n : ℕ) (l more : Bytes) (s : Client S)
      → stream s.conn ≡ l ++ newline ∷ more
      → is_terminated l ≡ false
      → length l + 1 < n
      → Speaks []
          (line_of l)
          (record { ret = pos (length (line_of l)); written = line_of l ++ 0 ∷ [] })
          s
          (read_line n s)
        × (stream (read_line n s).1.conn ≡ more)
  unfolding read_line
  read_line-Speaks n l more s e t h =
      let taken : take_line (n - 1) (stream s.conn) ≡ line_of l =
        rw e (take_line-append l more (n - 1) t (omega arith)) in
      let (p, q) = rw taken at (readline_lem S L R n s.conn (omega arith)) in
      let report = p ∙ ap done (line_report-terminated (line_of l) (is_terminated-append l)) in
      let quiet = (readline-ReadsLine S L n s.conn (omega arith)).quiet in
      let whole = e ∙ sym (append_assoc l (newline ∷ []) more) in
      let left = q ∙ ap (drop (length (line_of l))) whole ∙ drop-length (line_of l) more in
      (
        record {
          after = record s { conn = (readline n s.conn).1 };
          runs = rw report refl;
          spoke = record {
            sent = quiet ∙ sym (append-nil _);
            took = whole ∙ ap (λ x. line_of l ++ x) (sym left);
            files_are = refl;
            name_is = refl;
            writes = refl;
          };
        },
        rw report left,
      )

pub fgets-line_of :
    (n : ℕ) (l rest : Bytes)
    → is_terminated l ≡ false
    → length l < n
    → fgets n (line_of l ++ rest) ≡ (line_of l, rest)
unfolding fgets
fgets-line_of zero l rest t h = absurd (omega arith)
fgets-line_of (suc n) [] rest t h = refl
fgets-line_of (suc n) (c ∷ cs) rest t h = ground (arith, fgets-line_of n cs rest)

pub c_string_lem : (s : Bytes) → has_nul s ≡ false → c_string s ≡ s
unfolding c_string
c_string_lem [] h = refl
c_string_lem (c ∷ cs) h = ground (arith, c_string_lem cs)

-- The photo's name after the lines.
abbrev pub photo_in : Bytes → List Bytes → Bytes
photo_in photo [] = photo
photo_in photo (l ∷ ls) = photo_in (photo_of photo (line_of l)) ls

module _ {S : Socket} (L : IsLawful S) (R : IsReliable S) where
  send_lines-cons :
      (fuel : ℕ) (photo l rest : Bytes) (s : Client S)
      → IsFormLine l
      → send_lines (suc fuel) photo (line_of l ++ rest) s
        ≡ (write_all (line_of l) (pos 3) >>= λ _. send_lines fuel (photo_of photo (line_of l)) rest)
            s
  unfolding send_lines fgets c_string
  send_lines-cons fuel photo [] rest s good = refl
  send_lines-cons fuel photo (c ∷ cs) rest s good =
      rw (fgets-line_of 119 (c ∷ cs) rest good.one_line good.fits)
        (rw (c_string_lem (line_of (c ∷ cs)) (has_nul-line_of (c ∷ cs) good.no_nul)) refl)

  -- The loop sends the file's lines as they are.
  pub send_lines-Speaks :
      (fuel : ℕ) (ls : List Bytes) (photo : Bytes) (s : Client S)
      → AllFormLines ls
      → length ls < fuel
      → Speaks L R (wire ls) [] (photo_in photo ls) s (send_lines fuel photo (wire ls) s)
  unfolding send_lines wire
  send_lines-Speaks zero ls photo s goods h = absurd (omega arith)
  send_lines-Speaks (suc fuel) [] photo s goods h = record {
    after = s;
    runs = refl;
    spoke = Spoke-none L R s;
  }
  send_lines-Speaks (suc fuel) (l ∷ ls) photo s (good, goods) h =
      let w = write_all-Speaks L R (line_of l) (pos 3) s in
      let r = send_lines-Speaks fuel ls (photo_of photo (line_of l)) w.after goods (omega arith) in
      let next = λ (_ : Unit {0}). send_lines fuel (photo_of photo (line_of l)) (wire ls) in
      let both = Speaks-bind L R (write_all (line_of l) (pos 3)) next s w r in
      record {
        after = both.after;
        runs = send_lines-cons fuel photo l (wire ls) s good ∙ both.runs;
        spoke = both.spoke;
      }
