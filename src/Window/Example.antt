-- ===== src/Window/Example.antt =====
-- A toolkit for the tests.
use esif_client_server.Common.{
  ◌≡◌, refl, false, List, [], ◌∷◌, Bytes, bytes_eq, bytes_eq_refl, inl, if◌then◌else◌,
}
use esif_client_server.Window.{Toolkit, LeadsTo}

-- A toolkit that deletes the old text first.
pub replaced_lem :
    (old new : Bytes)
    → bytes_eq old new ≡ false
    → LeadsTo new (if bytes_eq old new then [] else [] ∷ (new ∷ []))
replaced_lem old new h = rw h (inl refl, refl)

pub unchanged_lem :
    (t : Bytes) → ◌≡◌ {A = List Bytes} (if bytes_eq t t then [] else [] ∷ (t ∷ [])) []
unchanged_lem t = rw (bytes_eq_refl t) refl

abbrev pub toolkit : Toolkit
toolkit = record {
  signals = λ old new. if bytes_eq old new then [] else [] ∷ (new ∷ []);
  unchanged = unchanged_lem;
  replaced = replaced_lem;
}
