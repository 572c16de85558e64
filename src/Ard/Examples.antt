-- ===== src/Ard/Examples.antt =====
-- Concrete catalogs, tests of internal/ard on them, and its theorems at these inputs.
use ardvark.Prelude.{
  ℕ, ◌≡◌, ◌↔◌, ◌==◌, false, refl, true, [], ◌∷◌, List, Option, some, Text, codes, ascii_text, arith,
  any, text_eq, Lacks, has_prefix, cut,
}
use ardvark.Frontier.Picked.{Contains}
use ardvark.Ard.Document.{Check, warning, pos, entry_index_none, subject_catalog}
use ardvark.Ard.Checks.{partition_checks, note_entries, entry_index_of}
use ardvark.Ard.Attribution.{Describes, attributed-Describes}
use ardvark.Ard.Inline.{
  Json, Members, object, array, string, item, no_items, member, no_members, inline_catalogs, lookup,
  is_catalog_document, collect,
}
use ardvark.Ard.Embedded.{Leads, inline_catalogs-Leads}
use ardvark.Ard.Urn.{
  Urn, ai, parse_urn, parsed, urn_string, match_nid, validate_publisher,
  normalize_identifier_for_schema,
}
use ardvark.Ard.Samples.{entries, plain_ascii}
use ardvark.Ard.UrnText.{IsCanonical, parse_urn-urn_string}

abbrev about : Text → ℕ → Check
about s i = record {
  check_id = codes "queries.count";
  severity = warning;
  passed = true;
  message = [];
  subject = s;
  entry_index = pos i;
}

abbrev report : List Check
report =
    record (about subject_catalog 0) { entry_index = entry_index_none }
    ∷ about (codes "b") 3
    ∷ about (codes "a") 2
    ∷ about (codes "b") 1
    ∷ []

attributed-Describes_example : Describes entries (about (codes "b") 3) 3
unfolding entry_index_of note_entries text_eq
attributed-Describes_example = attributed-Describes (about (codes "b") 3) entries 3 refl

-- A check whose subject two entries share goes to its index, whatever entry stands there.
misplaced :
    (partition_checks (about (codes "b") 0 ∷ []) entries).entry_checks 0 ≡ about (codes "b") 0 ∷ []
unfolding partition_checks entry_index_of note_entries text_eq
misplaced = refl

abbrev catalog_members : Members
catalog_members =
    member (codes "specVersion") (string (codes "1.0"))
      (member (codes "entries") (array no_items) no_members)

abbrev block : Json
block = object (member (codes "@graph") (array (item (object catalog_members) no_items)) no_members)

abbrev short : Members → Option Text
short _ = some (codes "{}")

inline_catalogs-Leads_example :
    Contains (codes "{}") (inline_catalogs short (some block))
    ↔ ((doc : Members) × (Leads 0 block doc) × (short doc ≡ some (codes "{}")))
inline_catalogs-Leads_example = inline_catalogs-Leads short block (codes "{}")

found_in_graph : inline_catalogs short (some block) ≡ codes "{}" ∷ []
unfolding collect is_catalog_document lookup text_eq
found_in_graph = refl

abbrev urn : Urn
urn = record {
  nid = ai;
  publisher = codes "a.example";
  namespace = codes "tools" ∷ [];
  name = codes "t";
}

Lacks-colon : (s : Text) → any (λ b. b == 58) s ≡ false → Lacks 58 s
unfolding any
Lacks-colon [] h = tt
Lacks-colon (b ∷ s) h = (ground arith, Lacks-colon s (ground arith))

urn-IsCanonical : IsCanonical ascii_text plain_ascii urn
unfolding any validate_publisher
urn-IsCanonical = record {
  lowered = refl;
  ascii = refl;
  valid = refl;
  plain = (
    Lacks-colon (codes "a.example") refl,
    (Lacks-colon (codes "tools") refl, (Lacks-colon (codes "t") refl, tt)),
  );
  filled = refl;
}

parse_urn-urn_string_example : parse_urn ascii_text plain_ascii (urn_string urn) ≡ parsed urn
parse_urn-urn_string_example = parse_urn-urn_string ascii_text plain_ascii urn urn-IsCanonical

legacy_prefix :
    normalize_identifier_for_schema ascii_text plain_ascii (codes "URN:AI:a.example:t")
    ≡ codes "urn:air:a.example:t"
unfolding normalize_identifier_for_schema match_nid has_prefix text_eq cut
legacy_prefix = refl
