-- ===== src/Ard/Urn.antt =====
-- internal/ard/types.go: `ParseURN`, `URN.String`, and the rewriting of identifiers for the schema.
-- `idna.ToASCII` is the argument `to_ascii`, which is none on an error.
use ardvark.Prelude.{
  ℕ, zero, suc, take, Bool, ◌||◌, not, List, [], ◌∷◌, ◌++◌, Option, none, some, Text, codes, any,
  length, text_eq, is_empty, has_prefix, ◌==◌, Unicode, cut, split, join, if◌then◌else◌,
}

pub data Nid : Type 0 where
  air ai : Nid

pub record Urn : Type 0 where
  pub nid : Nid
  pub publisher : Text
  pub namespace : List Text
  pub name : Text

-- The errors of `ParseURN`, in the order of its tests.
pub data UrnError : Type 0 where
  bad_prefix missing_parts empty_segment too_few_segments : UrnError
  not_qualified has_whitespace : Text → UrnError

pub data Parsed : Type 0 where
  parsed : Urn → Parsed
  refused : UrnError → Parsed

abbrev pub prefix_of : Nid → Text
prefix_of air = codes "urn:air:"
prefix_of ai = codes "urn:ai:"

-- The segments after the publisher: `namespace` and `name`.
abbrev pub tail_segments : List Text → Text → List Text
tail_segments namespace name = namespace ++ name ∷ []

unfoldable pub urn_string : Urn → Text
unfolding join
urn_string u = prefix_of u.nid ++ join 58 (u.publisher ∷ tail_segments u.namespace u.name)

-- `s[n:]`.
abbrev pub drop : ℕ → Text → Text
drop n [] = []
drop zero (b ∷ s) = b ∷ s
drop (suc n) (b ∷ s) = drop n s

-- The loop over `urnNIDs`.
unfoldable pub match_nid : Text → Option Nid
unfolding has_prefix
match_nid lower =
    if has_prefix lower (prefix_of air)
    then some air
    else if has_prefix lower (prefix_of ai)
    then some ai
    else none

-- All but the last element, and the last, of a list that starts with `first`.
unfoldable pub unsnoc : Text → List Text → List Text × Text
unsnoc first [] = ([], first)
unsnoc first (next ∷ rest) = let (front, last) = unsnoc next rest in (first ∷ front, last)

abbrev pub is_space_tab_newline : ℕ → Bool
is_space_tab_newline b = (b == 32) || (b == 9) || (b == 10)

-- `validatePublisher`: none if the publisher passes.
unfoldable pub validate_publisher : Text → Option UrnError
unfolding any
validate_publisher publisher =
    if not (any (λ b. b == 46) publisher)
    then some (not_qualified publisher)
    else if any is_space_tab_newline publisher
    then some (has_whitespace publisher)
    else none

abbrev pub to_ascii_or : (Text → Option Text) → Text → Text
to_ascii_or to_ascii s = elim (to_ascii s) [ none ↦ s | some ascii ↦ ascii ]

abbrev pub assemble : Nid → Text → List Text × Text → Option UrnError → Parsed
assemble nid publisher (namespace, name) none =
    parsed (record { nid = nid; publisher = publisher; namespace = namespace; name = name })
assemble nid publisher parts (some e) = refused e

abbrev pub from_segments : Unicode → (Text → Option Text) → Nid → List Text → Parsed
from_segments unicode to_ascii nid [] = refused too_few_segments
from_segments unicode to_ascii nid (first ∷ []) = refused too_few_segments
from_segments unicode to_ascii nid (first ∷ second ∷ rest) =
    let publisher = to_ascii_or to_ascii (unicode.to_lower first) in
    assemble nid publisher (unsnoc second rest) (validate_publisher publisher)

abbrev pub from_rest : Unicode → (Text → Option Text) → Nid → Text → Parsed
from_rest unicode to_ascii nid rest =
    if is_empty rest
    then refused missing_parts
    else if any is_empty (split 58 rest)
    then refused empty_segment
    else from_segments unicode to_ascii nid (split 58 rest)

abbrev pub with_nid : Unicode → (Text → Option Text) → Text → Option Nid → Parsed
with_nid unicode to_ascii s none = refused bad_prefix
with_nid unicode to_ascii s (some nid) =
    from_rest unicode to_ascii nid (drop (length (prefix_of nid)) s)

unfoldable pub parse_urn : Unicode → (Text → Option Text) → Text → Parsed
unfolding match_nid split any validate_publisher unsnoc
parse_urn unicode to_ascii s = with_nid unicode to_ascii s (match_nid (unicode.to_lower s))

abbrev pub until_colon : Text → Option (Text × Text) → Text × Text
until_colon rest none = (rest, [])
until_colon rest (some (before, after)) = (before, 58 ∷ after)

abbrev pub rewrite_publisher : Text → Text → Text → Text → Option Text → Text
rewrite_publisher s prefix publisher remainder none = s
rewrite_publisher s prefix publisher remainder (some ascii) =
    if text_eq ascii publisher then s else prefix ++ ascii ++ remainder

abbrev pub normalize_at : Unicode → (Text → Option Text) → Text → Text → Text × Text → Text
normalize_at unicode to_ascii s prefix (publisher, remainder) =
    if is_empty publisher
    then s
    else rewrite_publisher s prefix publisher remainder (to_ascii (unicode.to_lower publisher))

abbrev pub normalize_publisher : Unicode → (Text → Option Text) → Text → Option Nid → Text
normalize_publisher unicode to_ascii s none = s
normalize_publisher unicode to_ascii s (some nid) =
    let n = length (prefix_of nid) in
    normalize_at unicode to_ascii s (take n s) (until_colon (drop n s) (cut 58 (drop n s)))

-- `normalizeIdentifierPublisherASCII`.
unfoldable pub normalize_identifier_publisher_ascii : Unicode → (Text → Option Text) → Text → Text
unfolding match_nid cut text_eq
normalize_identifier_publisher_ascii unicode to_ascii s =
    normalize_publisher unicode to_ascii s (match_nid (unicode.to_lower s))

abbrev pub normalized : Unicode → (Text → Option Text) → Text → Option Nid → Text
normalized unicode to_ascii s none = s
normalized unicode to_ascii s (some nid) =
    normalize_identifier_publisher_ascii unicode to_ascii
      (prefix_of air ++ drop (length (prefix_of nid)) s)

-- `normalizeIdentifierForSchema`.
unfoldable pub normalize_identifier_for_schema : Unicode → (Text → Option Text) → Text → Text
unfolding match_nid normalize_identifier_publisher_ascii
normalize_identifier_for_schema unicode to_ascii s =
    normalized unicode to_ascii s (match_nid (unicode.to_lower s))
