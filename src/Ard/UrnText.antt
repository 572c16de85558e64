-- ===== src/Ard/UrnText.antt =====
-- Identifiers that `URN.String` writes are read back by `ParseURN`.
use ardvark.Prelude.{
  ltb, ◌&&◌, ◌≡◌, refl, ap, ◌∙◌, Bool, true, false, List, [], ◌∷◌, ◌++◌, Option, none, some, Text,
  any, All, length, is_empty, has_prefix, ◌==◌, arith, Unicode, lower_byte, join, Lacks, split-join,
}
use ardvark.Ard.Urn.{
  Nid, air, ai, Urn, parsed, prefix_of, tail_segments, urn_string, drop, match_nid, unsnoc,
  validate_publisher, to_ascii_or, assemble, from_segments, from_rest, with_nid, parse_urn,
}

-- The identifiers that `ParseURN` makes: the publisher is normalized and valid, no segment is empty
-- and none has a colon.
pub record IsCanonical (unicode : Unicode) (to_ascii : Text → Option Text) (u : Urn) : Type 0 where
  pub lowered : unicode.to_lower u.publisher ≡ u.publisher
  pub ascii : to_ascii_or to_ascii u.publisher ≡ u.publisher
  pub valid : validate_publisher u.publisher ≡ none
  pub plain : All (Lacks 58) (u.publisher ∷ tail_segments u.namespace u.name)
  pub filled : any is_empty (u.publisher ∷ tail_segments u.namespace u.name) ≡ false

drop_zero : (s : Text) → drop 0 s ≡ s
drop_zero [] = refl
drop_zero (b ∷ s) = refl

drop-prefix_of : (nid : Nid) (s : Text) → drop (length (prefix_of nid)) (prefix_of nid ++ s) ≡ s
drop-prefix_of air s = drop_zero s
drop-prefix_of ai s = drop_zero s

unsnoc-append :
    (first : Text) (front : List Text) (last : Text)
    → unsnoc first (front ++ last ∷ []) ≡ (first ∷ front, last)
unfolding unsnoc
unsnoc-append first [] last = refl
unsnoc-append first (next ∷ front) last = rw (unsnoc-append next front last) refl

filled_join :
    (first : Text) (rest : List Text)
    → is_empty first ≡ false
    → is_empty (join 58 (first ∷ rest)) ≡ false
unfolding join
filled_join first [] h = h
filled_join (b ∷ first) (next ∷ rest) h = refl
filled_join [] (next ∷ rest) h = refl

first_filled :
    (first : Text) (rest : List Text) → any is_empty (first ∷ rest) ≡ false → is_empty first ≡ false
unfolding any
first_filled first rest h = ground arith

-- Every byte of a text is ASCII and no capital letter.
unfoldable is_low : Text → Bool
is_low [] = true
is_low (b ∷ s) = ltb b 128 && (lower_byte b == b) && is_low s

module _ (unicode : Unicode) (to_ascii : Text → Option Text) where
  lower-prefix :
      (p s : Text) → is_low p ≡ true → unicode.to_lower (p ++ s) ≡ p ++ unicode.to_lower s
  unfolding is_low
  lower-prefix [] s h = refl
  lower-prefix (b ∷ p) s h =
      let same : lower_byte b ≡ b = ground arith in
      unicode.to_lower_ascii b (p ++ s) (ground arith)
      ∙ (ap (λ c. c ∷ unicode.to_lower (p ++ s)) same
          ∙ ap (λ t. b ∷ t) (lower-prefix p s (ground arith)))

  match-prefix_of :
      (nid : Nid) (s : Text) → match_nid (unicode.to_lower (prefix_of nid ++ s)) ≡ some nid
  unfolding match_nid has_prefix is_low
  match-prefix_of air s = ap match_nid (lower-prefix (prefix_of air) s refl)
  match-prefix_of ai s = ap match_nid (lower-prefix (prefix_of ai) s refl)

  segments_lem :
      (nid : Nid) (publisher : Text) (namespace : List Text) (name : Text)
      → from_segments unicode to_ascii nid (publisher ∷ tail_segments namespace name) ≡ (
          let p = to_ascii_or to_ascii (unicode.to_lower publisher) in
          assemble nid p (namespace, name) (validate_publisher p))
  unfolding unsnoc
  segments_lem nid publisher [] name = refl
  segments_lem nid publisher (n ∷ namespace) name = rw (unsnoc-append n namespace name) refl

  rest_lem :
      (u : Urn)
      → IsCanonical unicode to_ascii u
      → from_rest unicode to_ascii u.nid (join 58 (u.publisher ∷ tail_segments u.namespace u.name))
        ≡ parsed u
  rest_lem u c =
      let tail = tail_segments u.namespace u.name in
      rw
        (
          filled_join u.publisher tail (first_filled u.publisher tail c.filled),
          split-join 58 u.publisher tail c.plain,
          c.filled,
          segments_lem u.nid u.publisher u.namespace u.name,
          c.lowered,
          c.ascii,
          c.valid,
        )
        refl

  -- An identifier with a normalized, valid publisher, without empty segments or colons in them, is
  -- what `ParseURN` makes of the text that `URN.String` writes for it.
  pub parse_urn-urn_string :
      (u : Urn)
      → IsCanonical unicode to_ascii u
      → parse_urn unicode to_ascii (urn_string u) ≡ parsed u
  unfolding parse_urn urn_string
  parse_urn-urn_string u c =
      let rest = join 58 (u.publisher ∷ tail_segments u.namespace u.name) in
      let segments = split-join 58 u.publisher (tail_segments u.namespace u.name) c.plain in
      ap (with_nid unicode to_ascii (prefix_of u.nid ++ rest)) (match-prefix_of u.nid rest)
      ∙ (ap (from_rest unicode to_ascii u.nid) (drop-prefix_of u.nid rest) ∙ rest_lem u c)
