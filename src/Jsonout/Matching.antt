-- ===== src/Jsonout/Matching.antt =====
-- internal/jsonout/search.go: that the patterns of `likeContains` match the texts that contain a needle,
-- whatever wildcards are in it.
use ardvark.Prelude.{
  ℕ, ◌==◌, ◌≡◌, refl, ap, ◌∙◌, inl, inr, Bool, true, false, ◌||◌, [], ◌∷◌, ◌++◌, map, Text,
  has_prefix, contains, Bool-cases, arith, append_assoc,
}
use ardvark.Jsonout.{
  byte, any_text, tokens, on_suffixes, fits, like, escape, escape_byte, like_contains,
}

special : ℕ → Bool
special b = (b == 33) || (b == 37) || (b == 95)

-- An escaped byte stands for itself.
tokens-escape_byte :
    (b : ℕ) (p : Text) → tokens false (escape_byte b ++ p) ≡ byte b ∷ tokens false p
unfolding tokens special
tokens-escape_byte b p = elim (Bool-cases (special b)) [
  | inl y ↦ rw y refl
  | inr n ↦ rw n (plain n)
]
  where
    plain : special b ≡ false → tokens false (b ∷ p) ≡ byte b ∷ tokens false p
    plain n = ground (arith, n)

tokens-escape : (s p : Text) → tokens false (escape s ++ p) ≡ map byte s ++ tokens false p
unfolding escape
tokens-escape [] p = refl
tokens-escape (b ∷ s) p =
    ap (tokens false) (append_assoc (escape_byte b) (escape s) p)
    ∙ (tokens-escape_byte b (escape s ++ p) ∙ ap (λ ts. byte b ∷ ts) (tokens-escape s p))

-- After the needle anything may follow.
anything : (s : Text) → fits (any_text ∷ []) s ≡ true
unfolding fits on_suffixes
anything [] = refl
anything (b ∷ s) = anything s

fits-prefix : (needle s : Text) → fits (map byte needle ++ any_text ∷ []) s ≡ has_prefix s needle
unfolding fits has_prefix
fits-prefix [] s = anything s
fits-prefix (a ∷ needle) [] = refl
fits-prefix (a ∷ needle) (b ∷ s) = rw (fits-prefix needle s) (ground arith)

on_suffixes-contains :
    (f : Text → Bool) (needle s : Text)
    → ((u : Text) → f u ≡ has_prefix u needle)
    → on_suffixes f s ≡ contains s needle
unfolding on_suffixes contains
on_suffixes-contains f needle [] h = h []
on_suffixes-contains f needle (b ∷ s) h = rw (h (b ∷ s), on_suffixes-contains f needle s h) refl

-- A text is like the pattern of a needle exactly if it contains the needle, in which `%`, `_` and `!`
-- stand for themselves.
pub like-like_contains : (needle s : Text) → like s (like_contains needle) ≡ contains s needle
unfolding like like_contains tokens fits
like-like_contains needle s =
    rw (tokens-escape needle (37 ∷ []))
      (on_suffixes-contains (fits (map byte needle ++ any_text ∷ [])) needle s (fits-prefix needle))
