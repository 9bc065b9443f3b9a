-- ===== src/Common/LikePattern/Trigrams.antt =====
-- The trigram index loses no row: a text that contains a literal of three bytes or more has every
-- trigram of the literal.
use vertex_db.Base.{ℕ, Text, ◌≡◌, ◌≤◌, Bool, true, List, [], ◌∷◌, ◌++◌, arith, length, any, text_eq}
use vertex_db.Common.LikePattern.{windows, extract_trigrams}
use vertex_db.Common.LikePattern.Suffixes.{starts_with, contains, any-suffixes}

-- The list of grams has the gram.
abbrev pub has_gram : Text → List Text → Bool
has_gram gram = any (text_eq gram)

-- A window of the front part of a text is a window of the text.
starts_with-windows :
    (text literal gram : Text)
    → starts_with text literal ≡ true
    → has_gram gram (windows literal) ≡ true
    → has_gram gram (windows text) ≡ true
unfolding starts_with windows
starts_with-windows text [] gram h k = cc
starts_with-windows text (a ∷ []) gram h k = cc
starts_with-windows text (a ∷ b ∷ []) gram h k = cc
starts_with-windows [] (a ∷ b ∷ c ∷ literal) gram h k = cc
starts_with-windows (x ∷ []) (a ∷ b ∷ c ∷ literal) gram h k = ground arith
starts_with-windows (x ∷ y ∷ []) (a ∷ b ∷ c ∷ literal) gram h k = ground arith
starts_with-windows (x ∷ y ∷ z ∷ text) (a ∷ b ∷ c ∷ literal) gram h k =
    ground (arith, starts_with-windows (y ∷ z ∷ text) (b ∷ c ∷ literal) gram)

windows-cons :
    (a : ℕ) (text gram : Text)
    → has_gram gram (windows text) ≡ true
    → has_gram gram (windows (a ∷ text)) ≡ true
unfolding windows
windows-cons a [] gram h = cc
windows-cons a (b ∷ []) gram h = cc
windows-cons a (b ∷ c ∷ text) gram h = ground arith

windows-append :
    (skipped text gram : Text)
    → has_gram gram (windows text) ≡ true
    → has_gram gram (windows (skipped ++ text)) ≡ true
windows-append [] text gram h = h
windows-append (a ∷ skipped) text gram h =
    windows-cons a (skipped ++ text) gram (windows-append skipped text gram h)

windows_long :
    (text gram : Text) → has_gram gram (windows text) ≡ true → extract_trigrams text ≡ windows text
unfolding windows extract_trigrams
windows_long [] gram h = cc
windows_long (a ∷ []) gram h = cc
windows_long (a ∷ b ∷ []) gram h = cc
windows_long (a ∷ b ∷ c ∷ text) gram h = ground arith

-- Every trigram of a literal of three bytes or more is a trigram of each text that contains it.
pub extract_trigrams-contains :
    (text literal gram : Text)
    → 3 ≤ length literal
    → contains text literal ≡ true
    → has_gram gram (extract_trigrams literal) ≡ true
    → has_gram gram (extract_trigrams text) ≡ true
unfolding contains
extract_trigrams-contains text literal gram long h k =
    let (skipped, rest, e, m) = any-suffixes (λ s. starts_with s literal) text h in
    let front = starts_with-windows rest literal gram m (unfold extract_trigrams in ground arith) in
    let whole = windows-append skipped rest gram front in
    rw (e, windows_long (skipped ++ rest) gram whole) whole
