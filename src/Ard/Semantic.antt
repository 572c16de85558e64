-- ===== src/Ard/Semantic.antt =====
-- internal/ard/verify.go: `semanticChecks` and the checks that it makes. What `idna` and
-- `publicsuffix` compute, which are not the repository's, are arguments.
use ardvark.Prelude.{
  ℕ, suc, leb, Bool, true, false, ◌&&◌, ◌||◌, not, List, [], ◌∷◌, ◌++◌, map, Option, none, some,
  Text, codes, length, text_eq, is_empty, ◌==◌, Unicode, if◌then◌else◌,
}
use ardvark.Crawler.Digits.{decimal}
use ardvark.Mediatype.{
  MediaType, parse, kind_of, kind_string, format_of, format_string, is_pointer, is_known,
}
use ardvark.Ard.Document.{Entry, Check, error, warning, pos, subject_catalog}
use ardvark.Ard.Report.{new_check, quote}
use ardvark.Ard.Urn.{
  Urn, UrnError, bad_prefix, missing_parts, empty_segment, too_few_segments, not_qualified,
  has_whitespace, Parsed, parsed, refused, parse_urn, urn_string,
}

-- The packages `strings`, `idna` (none on an error) and `publicsuffix` (none on an error).
pub record Names : Type 0 where
  pub unicode : Unicode
  pub to_ascii : Text → Option Text
  pub registrable : Text → Option Text

pub record Catalog : Type 0 where
  pub spec_version : Text
  pub entries : List Entry

abbrev pub entry_subject : Entry → Text
entry_subject e = if is_empty e.identifier then subject_catalog else e.identifier

unfoldable pub check_spec_version : Catalog → Check
unfolding text_eq
check_spec_version c =
    new_check (codes "catalog.spec_version") error subject_catalog
      (text_eq c.spec_version (codes "1.0")) (codes "specVersion is " ++ quote c.spec_version)
      (codes "specVersion must be \"1.0\", got " ++ quote c.spec_version)

abbrev pub key_from : Entry → Parsed → Text
key_from e (parsed u) = urn_string u
key_from e (refused why) = e.identifier

-- What `checkIdentifierUnique` compares.
abbrev pub entry_key : Names → Entry → Text
entry_key names e = key_from e (parse_urn names.unicode names.to_ascii e.identifier)

-- `seen[key]++`.
abbrev pub count_key : Text → (Text → ℕ) → Text → ℕ
count_key key seen s = if text_eq key s then suc (seen s) else seen s

-- The loop of `checkIdentifierUnique`: the identifiers met for the second time.
unfoldable pub duplicates : Names → (Text → ℕ) → List Entry → List Text
unfolding parse_urn urn_string text_eq
duplicates names seen [] = []
duplicates names seen (e ∷ entries) =
    let key = entry_key names e in
    let rest = duplicates names (count_key key seen) entries in
    if suc (seen key) == 2 then e.identifier ∷ rest else rest

abbrev pub join_commas : List Text → Text
join_commas [] = []
join_commas (s ∷ []) = s
join_commas (s ∷ t ∷ rest) = s ++ codes ", " ++ join_commas (t ∷ rest)

unfoldable pub check_identifier_unique : Names → Catalog → Check
unfolding duplicates
check_identifier_unique names c =
    let dups = duplicates names (λ s. 0) c.entries in
    new_check (codes "identifier.unique") error subject_catalog (is_empty dups)
      (codes "all entry identifiers are unique")
      (codes "duplicate identifiers found: " ++ join_commas dups)

abbrev pub has_embedded_data : Text → Bool
has_embedded_data data_json = not (is_empty data_json) && not (text_eq data_json (codes "null"))

abbrev pub differs : Bool → Bool → Bool
differs true b = not b
differs false b = b

unfoldable pub check_value_or_reference : Entry → Text → Check
unfolding text_eq
check_value_or_reference e subject =
    let has_url = not (is_empty e.url) in
    let has_data = has_embedded_data e.data_json in
    new_check (codes "entry.value_or_reference") error subject (differs has_url has_data)
      (codes "exactly one of url or data is present")
      (if has_url
        then codes "both url and data are present; exactly one is required"
        else codes "neither url nor data is present; exactly one is required")

abbrev pub urn_error_text : Text → UrnError → Text
urn_error_text s bad_prefix =
    codes "ard: invalid urn " ++ quote s ++ codes ": must start with \"urn:air:\" or \"urn:ai:\""
urn_error_text s missing_parts =
    codes "ard: invalid urn " ++ quote s ++ codes ": missing publisher and name"
urn_error_text s empty_segment =
    codes "ard: invalid urn " ++ quote s ++ codes ": empty segment not allowed"
urn_error_text s too_few_segments =
    codes "ard: invalid urn " ++ quote s ++ codes ": requires at least publisher and name"
urn_error_text s (not_qualified publisher) =
    codes "ard: invalid urn "
    ++ quote s
    ++ codes ": publisher "
    ++ quote publisher
    ++ codes " must be a fully-qualified domain name"
urn_error_text s (has_whitespace publisher) =
    codes "ard: invalid urn "
    ++ quote s
    ++ codes ": publisher "
    ++ quote publisher
    ++ codes " must not contain whitespace"

abbrev pub is_parsed : Parsed → Bool
is_parsed (parsed u) = true
is_parsed (refused why) = false

abbrev pub refusal_text : Text → Parsed → Text
refusal_text s (parsed u) = []
refusal_text s (refused why) = urn_error_text s why

unfoldable pub check_urn_format : Text → Parsed → Text → Check
check_urn_format identifier p subject =
    new_check (codes "urn.format") error subject (is_parsed p)
      (codes "identifier is a well-formed ARD URN") (refusal_text identifier p)

abbrev pub same_registrable : Names → Option Text → Option Text → Bool
same_registrable names (some a) (some b) = names.unicode.equal_fold a b
same_registrable names _ _ = false

abbrev pub ascii_domain : Names → Text → Text
ascii_domain names s = elim (names.to_ascii (names.unicode.to_lower s)) [
  | none ↦ s
  | some ascii ↦ ascii
]

unfoldable pub registrable_domain_equal : Names → Text → Text → Bool
registrable_domain_equal names a b =
    let a' = ascii_domain names a in
    let b' = ascii_domain names b in
    names.unicode.equal_fold a' b'
    || same_registrable names (names.registrable (names.unicode.to_lower a'))
        (names.registrable (names.unicode.to_lower b'))

unfoldable pub check_publisher_matches : Names → Urn → Text → Text → Check
unfolding registrable_domain_equal
check_publisher_matches names u serving_domain subject =
    new_check (codes "urn.publisher_matches") warning subject
      (registrable_domain_equal names u.publisher serving_domain)
      (codes "URN publisher "
        ++ quote u.publisher
        ++ codes " matches serving domain "
        ++ quote serving_domain)
      (codes "URN publisher "
        ++ quote u.publisher
        ++ codes " does not match serving domain "
        ++ quote serving_domain
        ++ codes " (may be legitimate for aggregators)")

unfoldable pub check_queries_count : Entry → Text → Check
unfolding decimal
check_queries_count e subject =
    let n = length e.representative_queries in
    let message = decimal n ++ codes " representativeQueries present (recommended: 2-5)" in
    new_check (codes "queries.count") warning subject (leb 2 n && leb n 5) message message

unfoldable pub check_media_type : Entry → MediaType → Text → Check
unfolding kind_of kind_string format_of format_string
check_media_type e mt subject =
    new_check (codes "entry.media_type") warning subject (is_known mt)
      (codes "type "
        ++ quote e.entry_type
        ++ codes " recognized as "
        ++ kind_string (kind_of mt)
        ++ codes " (format: "
        ++ format_string (format_of mt)
        ++ codes ")")
      (codes "type "
        ++ quote e.entry_type
        ++ codes " is not a recognized ARD media type (spec does not enforce this strictly)")

abbrev pub publisher_checks : Names → Text → Text → Parsed → List Check
publisher_checks names serving_domain subject (parsed u) =
    if is_empty serving_domain
    then []
    else check_publisher_matches names u serving_domain subject ∷ []
publisher_checks names serving_domain subject (refused why) = []

-- What the loop of `semanticChecks` appends for one entry, before the index is stamped on it.
unfoldable pub entry_checks : Names → Text → Bool → Entry → List Check
unfolding check_value_or_reference check_urn_format check_publisher_matches check_queries_count
    check_media_type parse_urn parse
entry_checks names serving_domain schema_failed e =
    let subject = entry_subject e in
    let urn = parse_urn names.unicode names.to_ascii e.identifier in
    let mt = parse names.unicode e.entry_type in
    (if schema_failed then [] else check_value_or_reference e subject ∷ [])
    ++ (if schema_failed then [] else check_urn_format e.identifier urn subject ∷ [])
    ++ publisher_checks names serving_domain subject urn
    ++ (if is_pointer mt then [] else check_queries_count e subject ∷ [])
    ++ check_media_type e mt subject ∷ []

abbrev pub stamp_index : ℕ → Check → Check
stamp_index i c = record c { entry_index = pos i }

-- The loop over the entries, from position `i`.
unfoldable pub checks_from : Names → Text → Bool → ℕ → List Entry → List Check
unfolding entry_checks
checks_from names serving_domain schema_failed i [] = []
checks_from names serving_domain schema_failed i (e ∷ entries) =
    map (stamp_index i) (entry_checks names serving_domain schema_failed e)
    ++ checks_from names serving_domain schema_failed (suc i) entries

abbrev pub catalog_level : Names → Bool → Catalog → List Check
catalog_level names schema_failed c =
    check_identifier_unique names c ∷ (if schema_failed then [] else check_spec_version c ∷ [])

unfoldable pub semantic_checks : Names → Catalog → Text → Bool → List Check
unfolding check_identifier_unique check_spec_version checks_from
semantic_checks names c serving_domain schema_failed =
    catalog_level names schema_failed c
    ++ checks_from names serving_domain schema_failed 0 c.entries
