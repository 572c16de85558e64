-- ===== src/Prelude/Ascii.antt =====
-- What the package `strings` does to texts of ASCII, as an instance of `Unicode`.
use Prim.Native.Nat.{ℕ}
use mathlib.Core.Path.{◌≡◌, refl, ap, ◌∙◌}
use mathlib.Core.Bool.{Bool, true, false, ◌&&◌, ◌||◌}
use mathlib.Core.List.{[], ◌∷◌, map}
use native.Mathlib.Omega.{arith}
use ardvark.Prelude.Tests.{leb, ◌==◌, if◌then◌else◌}
use ardvark.Prelude.Lists.{All}
use ardvark.Prelude.Strings.{Text, is_empty, text_eq}
use ardvark.Prelude.Parts.{Unicode, lower_byte, lower_byte_twice, is_graphic}

abbrev is_space : ℕ → Bool
is_space b = (b == 32) || (leb 9 b && leb b 13)

abbrev strip_left : Text → Text
strip_left [] = []
strip_left (b ∷ s) = let rest = strip_left s in if is_space b then rest else b ∷ s

abbrev strip_right : Text → Text
strip_right [] = []
strip_right (b ∷ s) =
    let rest = strip_right s in if is_empty rest && is_space b then [] else b ∷ rest

graphic_no_space : (b : ℕ) → is_graphic b ≡ true → is_space b ≡ false
graphic_no_space b h = ground (arith, h)

pub strip_left_graphic : (s : Text) → All (λ b. is_graphic b ≡ true) s → strip_left s ≡ s
strip_left_graphic [] h = refl
strip_left_graphic (b ∷ s) h = rw (graphic_no_space b h.0) refl

pub strip_right_graphic : (s : Text) → All (λ b. is_graphic b ≡ true) s → strip_right s ≡ s
strip_right_graphic [] h = refl
strip_right_graphic (b ∷ s) h =
    rw (strip_right_graphic s h.1, graphic_no_space b h.0) (ground arith)

pub map_lower_twice : (s : Text) → map lower_byte (map lower_byte s) ≡ map lower_byte s
map_lower_twice [] = refl
map_lower_twice (b ∷ s) = rw (lower_byte_twice b, map_lower_twice s) refl

abbrev pub ascii_text : Unicode
ascii_text = record {
  to_lower = map lower_byte;
  trim_space = λ s. strip_right (strip_left s);
  equal_fold = λ s t. text_eq (map lower_byte s) (map lower_byte t);
  to_lower_nil = refl;
  to_lower_ascii = λ b s h. refl;
  to_lower_twice = map_lower_twice;
  trim_graphic = λ s h. ap strip_right (strip_left_graphic s h) ∙ strip_right_graphic s h;
}
