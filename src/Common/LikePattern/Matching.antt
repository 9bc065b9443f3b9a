-- ===== src/Common/LikePattern/Matching.antt =====
-- The matcher decides what LIKE means: an inductive relation between texts and patterns.
use native.Mathlib.Decide.{ℕ_discrete}
use vertex_db.Base.{
  ◌⊎◌, ℕ, Text, ◌≡◌, ◌≢◌, ◌↔◌, refl, true, false, [], ◌∷◌, ◌++◌, arith, inl, inr, append-nil, sym,
}
use vertex_db.Common.LikePattern.{match_like_rec, match_like_pattern}
use vertex_db.Common.LikePattern.Suffixes.{any-suffixes, any-suffixes_of}

-- `%` stands for any run of bytes, `_` for one byte, and any other byte for itself.
pub data Matches : Text → Text → Type 0 where
  finish : Matches [] []
  percent :
      {c : ℕ} {t p : Text} (skipped rest : Text)
      → c ≡ b'%'
      → t ≡ skipped ++ rest
      → Matches rest p
      → Matches t (c ∷ p)
  underscore : {c a : ℕ} {t p : Text} → c ≡ b'_' → Matches t p → Matches (a ∷ t) (c ∷ p)
  literal : {c a : ℕ} {t p : Text} → c ≢ b'%' → c ≡ a → Matches t p → Matches (a ∷ t) (c ∷ p)

-- A match of a pattern that begins with `%` leaves a suffix for the rest of the pattern.
percent_split :
    (c : ℕ) (t p : Text)
    → c ≡ b'%'
    → match_like_rec t (c ∷ p) ≡ true
    → (skipped : Text) × (rest : Text) × (t ≡ skipped ++ rest) × (match_like_rec rest p ≡ true)
unfolding match_like_rec
percent_split c t [] e h = (t, [], sym (append-nil t), refl)
percent_split c t (d ∷ p) e h = any-suffixes (λ s. match_like_rec s (d ∷ p)) t (ground arith)

percent_join :
    (c : ℕ) (skipped rest p : Text)
    → c ≡ b'%'
    → match_like_rec rest p ≡ true
    → match_like_rec (skipped ++ rest) (c ∷ p) ≡ true
unfolding match_like_rec
percent_join c skipped rest [] e h = ground arith
percent_join c skipped rest (d ∷ p) e h =
    ground (arith, any-suffixes_of (λ s. match_like_rec s (d ∷ p)) skipped rest h)

-- Any other byte of the pattern takes one byte of the text.
one_split :
    (c a : ℕ) (t p : Text)
    → c ≢ b'%'
    → match_like_rec (a ∷ t) (c ∷ p) ≡ true
    → ((c ≡ b'_') ⊎ (c ≡ a)) × (match_like_rec t p ≡ true)
unfolding match_like_rec
one_split c a t p n h = ground arith

none_left : (c : ℕ) (p : Text) → c ≢ b'%' → match_like_rec [] (c ∷ p) ≡ false
unfolding match_like_rec
none_left c p n = ground arith

sound : (t p : Text) → match_like_rec t p ≡ true → Matches t p
sound [] [] h = finish
sound (a ∷ t) [] h = absurd (unfold match_like_rec in cc)
sound t (c ∷ p) h = elim (ℕ_discrete c b'%') [
  | yes e ↦
      let (skipped, rest, k, m) = percent_split c t p e h in
      percent skipped rest e k (sound rest p m)
  | no n ↦ one_byte t h n (λ s. sound s p)
]
  where
    one_byte :
        (u : Text)
        → match_like_rec u (c ∷ p) ≡ true
        → c ≢ b'%'
        → ((s : Text) → match_like_rec s p ≡ true → Matches s p)
        → Matches u (c ∷ p)
    one_byte [] k n ih = cc (none_left c p n)
    one_byte (a ∷ s) k n ih =
        let (byte, m) = one_split c a s p n k in
        elim byte [ inl e ↦ underscore e (ih s m) | inr e ↦ literal n e (ih s m) ]

complete : {t p : Text} → Matches t p → match_like_rec t p ≡ true
unfolding match_like_rec
complete finish = refl
complete (percent {c = c} {p = p} skipped rest e k m) =
    rw k (percent_join c skipped rest p e (complete m))
complete (underscore e m) = ground (arith, complete m)
complete (literal n e m) = ground (arith, complete m)

-- The matcher answers true exactly for the texts that the pattern stands for.
pub match_like_pattern-Matches : (t p : Text) → (match_like_pattern t p ≡ true) ↔ Matches t p
unfolding match_like_pattern
match_like_pattern-Matches t p = (sound t p, complete)
