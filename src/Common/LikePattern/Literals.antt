-- ===== src/Common/LikePattern/Literals.antt =====
-- What the literals of `like_prefix_literal` and `like_contains_literal` say of the pattern.
use vertex_db.Base.{
  ℕ, Text, ◌≡◌, refl, ap, ◌∙◌, Bool, true, false, some, [], ◌∷◌, ◌++◌, arith, any, List,
}
use vertex_db.Common.LikePattern.{
  match_like_rec, match_like_pattern, is_empty, suffixes, is_wildcard_free, ends_with, drop_back,
  like_prefix_literal, like_contains_literal,
}
use vertex_db.Common.LikePattern.Suffixes.{starts_with, contains}

drop_back-append : (s : Text) (c : ℕ) → ends_with s c ≡ true → s ≡ drop_back s ++ c ∷ []
unfolding ends_with drop_back
drop_back-append [] c h = cc
drop_back-append (a ∷ []) c h = ground arith
drop_back-append (a ∷ b ∷ s) c h = ap (◌∷◌ a) (drop_back-append (b ∷ s) c h)

-- A literal followed by `%` is a prefix test.
match-literal_percent :
    (literal text : Text)
    → is_wildcard_free literal ≡ true
    → match_like_rec text (literal ++ b'%' ∷ []) ≡ starts_with text literal
unfolding match_like_rec starts_with is_wildcard_free
match-literal_percent [] text h = ground arith
match-literal_percent (c ∷ literal) [] h = ground arith
match-literal_percent (c ∷ literal) (a ∷ text) h =
    ground (arith, match-literal_percent literal text)

-- What `like_prefix_literal` returns is not empty, has no wildcard, and makes up the pattern.
prefix_inversion :
    (pattern literal : Text)
    → like_prefix_literal pattern ≡ some literal
    → (pattern ≡ literal ++ b'%' ∷ []) × (is_wildcard_free literal ≡ true)
unfolding like_prefix_literal
prefix_inversion pattern literal h = ground (arith, drop_back-append pattern b'%')

-- A row matches a LIKE with a prefix literal exactly if its text begins with the literal.
pub like_prefix_literal-starts_with :
    (pattern literal text : Text)
    → like_prefix_literal pattern ≡ some literal
    → match_like_pattern text pattern ≡ starts_with text literal
unfolding match_like_pattern
like_prefix_literal-starts_with pattern literal text h =
    let (e, free) = prefix_inversion pattern literal h in
    rw e (match-literal_percent literal text free)

contains_inversion :
    (c : ℕ) (rest literal : Text)
    → like_contains_literal (c ∷ rest) ≡ some literal
    → (c ≡ b'%')
      × (rest ≡ literal ++ b'%' ∷ [])
      × (is_wildcard_free literal ≡ true)
      × (is_empty rest ≡ false)
unfolding like_contains_literal ends_with
contains_inversion c [] literal h = ground arith
contains_inversion c (b ∷ rest) literal h = ground (arith, drop_back-append (b ∷ rest) b'%')

match-percent :
    (c : ℕ) (pattern text : Text)
    → c ≡ b'%'
    → is_empty pattern ≡ false
    → match_like_rec text (c ∷ pattern) ≡ any (λ s. match_like_rec s pattern) (suffixes text)
unfolding match_like_rec
match-percent c pattern text e n = ground arith

any-pointwise {ℓ} :
    {A : Type ℓ} (p q : A → Bool) (xs : List A) → ((a : A) → p a ≡ q a) → any p xs ≡ any q xs
any-pointwise p q [] h = refl
any-pointwise p q (x ∷ xs) h = ground (arith, h x, any-pointwise p q xs h)

-- A row matches a LIKE with a literal between two `%` exactly if its text contains the literal.
pub like_contains_literal-contains :
    (pattern literal text : Text)
    → like_contains_literal pattern ≡ some literal
    → match_like_pattern text pattern ≡ contains text literal
unfolding match_like_pattern contains
like_contains_literal-contains [] literal text h = absurd (unfold like_contains_literal in cc)
like_contains_literal-contains (c ∷ rest) literal text h =
    let (e, r, free, full) = contains_inversion c rest literal h in
    match-percent c rest text e full
    ∙ any-pointwise (λ s. match_like_rec s rest) (λ s. starts_with s literal) (suffixes text)
        λ s. rw r (match-literal_percent literal s free)
