-- ===== src/Mediatype/Examples.antt =====
-- Tests of internal/mediatype, and its theorems at concrete inputs.
use ardvark.Prelude.{
  ◌≡◌, refl, true, Bool, [], ◌∷◌, some, Text, codes, ascii_text, arith, is_graphic, lower_byte,
  text_eq, cut, cut_last, split, trim_left, trim_right, ◌==◌, ◌&&◌, not,
}
use ardvark.Mediatype.{MediaType, parse, kind_of, kind_in, catalog, skill, format_of, markdown}
use ardvark.Mediatype.Variants.{written, Reads, IsName, parse-written}

unfoldable is_name : Text → Bool
is_name [] = true
is_name (b ∷ s) =
    is_graphic b
    && (lower_byte b == b)
    && not (b == 59)
    && not (b == 47)
    && not (b == 43)
    && is_name s

is_name-IsName : (s : Text) → is_name s ≡ true → IsName s
unfolding is_name
is_name-IsName [] h = tt
is_name-IsName (b ∷ s) h = (
  (ground arith, ground arith, (ground arith, ground arith, ground arith)),
  is_name-IsName s (ground arith),
)

parse-written_example : Reads (codes "application") (codes "ai-catalog") (some (codes "json")) (
    parse ascii_text (
      written
        (codes "application")
        (codes "ai-catalog")
        (some (codes "json"))
        (some (codes "charset=utf-8"))))
unfolding is_name
parse-written_example =
    parse-written ascii_text (codes "application") (codes "ai-catalog") (some (codes "json"))
      (some (codes "charset=utf-8")) (is_name-IsName (codes "application") refl)
      (is_name-IsName (codes "ai-catalog") refl) (is_name-IsName (codes "json") refl)
      (
        refl,
        (
          refl,
          (
            refl,
            (refl, (refl, (refl, (refl, (refl, (refl, (refl, (refl, (refl, (refl, tt)))))))))),
          ),
        ),
      )

abbrev shouted : MediaType
shouted = parse ascii_text (codes "APPLICATION/AI-Catalog+JSON")

-- The profile of a skill marks a text, and not a catalog.
skill_profile :
    (kind_of (parse ascii_text (codes "text/markdown; profile=\"urn:air:agent-skills\"")) ≡ skill)
    × (kind_of
          (parse ascii_text (codes "application/ai-catalog+json; profile=\"urn:air:agent-skills\""))
        ≡ catalog)
unfolding kind_of parse kind_in text_eq cut cut_last split trim_left trim_right
skill_profile = (refl, refl)

markdown_format : format_of (parse ascii_text (codes " text/markdown ")) ≡ markdown
unfolding format_of parse text_eq cut cut_last split
markdown_format = refl
