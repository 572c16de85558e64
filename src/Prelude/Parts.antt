-- ===== src/Prelude/Parts.antt =====
-- More of the package `strings`: case, trimming, cutting, splitting and joining. What the package
-- does to letters and spaces that are not ASCII is the argument `Unicode`, with what it documents.
use Prim.Native.Nat.{ℕ, ◌+◌, ◌<◌}
use mathlib.Core.Path.{◌≡◌, refl, ap, ◌∙◌}
use mathlib.Core.Logic.{◌≢◌, inl, inr}
use mathlib.Core.Bool.{Bool, true, ◌&&◌}
use mathlib.Core.List.{List, [], ◌∷◌, ◌++◌}
use mathlib.Core.Option.{Option, none, some}
use native.Mathlib.Omega.{arith}
use ardvark.Prelude.Tests.{ltb, leb, ◌==◌, if◌then◌else◌, Bool-cases}
use ardvark.Prelude.Lists.{All}
use ardvark.Prelude.Strings.{Text, is_empty}

abbrev pub lower_byte : ℕ → ℕ
lower_byte b = if leb 65 b && leb b 90 then b + 32 else b

pub lower_byte_twice : (b : ℕ) → lower_byte (lower_byte b) ≡ lower_byte b
lower_byte_twice b = ground arith

-- Printable ASCII, and no space.
abbrev pub is_graphic : ℕ → Bool
is_graphic b = ltb 32 b && ltb b 127

pub record Unicode : Type 0 where
  pub to_lower : Text → Text
  pub trim_space : Text → Text
  pub equal_fold : Text → Text → Bool
  pub to_lower_nil : to_lower [] ≡ []
  pub to_lower_ascii : (b : ℕ) (s : Text) → b < 128 → to_lower (b ∷ s) ≡ lower_byte b ∷ to_lower s
  pub to_lower_twice : (s : Text) → to_lower (to_lower s) ≡ to_lower s
  pub trim_graphic : (s : Text) → All (λ b. is_graphic b ≡ true) s → trim_space s ≡ s

-- `strings.Cut(s, sep)` for one byte: what stands before and after its first occurrence.
unfoldable pub cut : ℕ → Text → Option (Text × Text)
cut c [] = none
cut c (a ∷ s) = if a == c then some ([], s) else in_front a (cut c s)
  where
    in_front : ℕ → Option (Text × Text) → Option (Text × Text)
    in_front a none = none
    in_front a (some (before, after)) = some (a ∷ before, after)

abbrev pub prepend : ℕ → List Text → List Text
prepend a [] = (a ∷ []) ∷ []
prepend a (part ∷ parts) = (a ∷ part) ∷ parts

-- The same at the last occurrence, as `strings.LastIndexByte` finds it.
unfoldable pub cut_last : ℕ → Text → Option (Text × Text)
cut_last c [] = none
cut_last c (a ∷ s) = at_front c a s (cut_last c s)
  where
    at_front : ℕ → ℕ → Text → Option (Text × Text) → Option (Text × Text)
    at_front c a s (some (before, after)) = some (a ∷ before, after)
    at_front c a s none = if a == c then some ([], s) else none

-- `strings.Trim(s, cutset)` for a cutset of one byte.
unfoldable pub trim_left : ℕ → Text → Text
trim_left c [] = []
trim_left c (a ∷ s) = let rest = trim_left c s in if a == c then rest else a ∷ s

unfoldable pub trim_right : ℕ → Text → Text
trim_right c [] = []
trim_right c (a ∷ s) =
    let rest = trim_right c s in if is_empty rest && (a == c) then [] else a ∷ rest

-- `strings.Split(s, sep)` for one byte.
unfoldable pub split : ℕ → Text → List Text
split c [] = [] ∷ []
split c (a ∷ s) = let rest = split c s in if a == c then [] ∷ rest else prepend a rest

-- `strings.Join(parts, sep)` for one byte.
unfoldable pub join : ℕ → List Text → Text
join c [] = []
join c (part ∷ []) = part
join c (part ∷ next ∷ parts) = part ++ c ∷ join c (next ∷ parts)

abbrev pub Lacks : ℕ → Text → Type 0
Lacks c s = All (λ b. b ≢ c) s

split-single : (c : ℕ) (s : Text) → Lacks c s → split c s ≡ s ∷ []
unfolding split
split-single c [] h = refl
split-single c (a ∷ s) h = rw (split-single c s h.1) (ground (arith, h.0))

split-step : (c : ℕ) (s t : Text) → Lacks c s → split c (s ++ c ∷ t) ≡ s ∷ split c t
unfolding split
split-step c [] t h = ground arith
split-step c (a ∷ s) t h = rw (split-step c s t h.1) (ground (arith, h.0))

-- Parts without the separator are read back.
pub split-join :
    (c : ℕ) (part : Text) (parts : List Text)
    → All (Lacks c) (part ∷ parts)
    → split c (join c (part ∷ parts)) ≡ part ∷ parts
unfolding join
split-join c part [] h = split-single c part h.0
split-join c part (next ∷ parts) h =
    split-step c part (join c (next ∷ parts)) h.0 ∙ ap (λ l. part ∷ l) (split-join c next parts h.1)

All-prepend :
    (c a : ℕ) (parts : List Text) → a ≢ c → All (Lacks c) parts → All (Lacks c) (prepend a parts)
All-prepend c a [] ne h = ((ne, tt), tt)
All-prepend c a (part ∷ parts) ne h = ((ne, h.0), h.1)

pub All-split : (c : ℕ) (s : Text) → All (Lacks c) (split c s)
unfolding split
All-split c [] = (tt, tt)
All-split c (a ∷ s) = elim (Bool-cases (a == c)) [
  | inl e ↦ rw e (tt, All-split c s)
  | inr e ↦ rw e (All-prepend c a (split c s) (ground arith) (All-split c s))
]

pub cut-append : (c : ℕ) (s t : Text) → Lacks c s → cut c (s ++ c ∷ t) ≡ some (s, t)
unfolding cut
cut-append c [] t h = ground arith
cut-append c (a ∷ s) t h = rw (cut-append c s t h.1) (ground (arith, h.0))

pub cut-none : (c : ℕ) (s : Text) → Lacks c s → cut c s ≡ none
unfolding cut
cut-none c [] h = refl
cut-none c (a ∷ s) h = rw (cut-none c s h.1) (ground (arith, h.0))

pub cut_last-none : (c : ℕ) (s : Text) → Lacks c s → cut_last c s ≡ none
unfolding cut_last
cut_last-none c [] h = refl
cut_last-none c (a ∷ s) h = rw (cut_last-none c s h.1) (ground (arith, h.0))

pub cut_last-append : (c : ℕ) (s t : Text) → Lacks c t → cut_last c (s ++ c ∷ t) ≡ some (s, t)
unfolding cut_last
cut_last-append c [] t h = rw (cut_last-none c t h) (ground arith)
cut_last-append c (a ∷ s) t h = rw (cut_last-append c s t h) refl
