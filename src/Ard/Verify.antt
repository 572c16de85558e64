-- ===== src/Ard/Verify.antt =====
-- internal/ard/verify.go: `Verify` and `VerifyStrict`, with the validation against the schema.
-- Encoding and decoding of JSON and the validator of JSON Schemas, none of which is the
-- repository's, are the argument `Formats`.
use ardvark.Prelude.{
  ℕ, leb, ◌==◌, ◌+◌, ◌-◌, ◌*◌, Bool, true, false, ◌&&◌, ◌||◌, not, List, [], ◌∷◌, ◌++◌, Option,
  none, some, Text, codes, text_eq, is_empty, has_prefix, get_elem?, cut, if◌then◌else◌,
}
use ardvark.Frontier.Db.{Result, ok, err}
use ardvark.Ard.Document.{
  Check, Severity, error, warning, ℤ, pos, entry_index_none, subject_catalog,
}
use ardvark.Ard.Inline.{
  Json, null, string, array, object, boolean, number, Items, no_items, item, Members, no_members,
  member, lookup, key_entries,
}
use ardvark.Ard.Urn.{drop, normalize_identifier_for_schema}
use ardvark.Ard.Report.{Report, invalid, roll_up, schema_failed}
use ardvark.Ard.Semantic.{Names, Catalog, semantic_checks}

-- The kind of a leaf's error, as far as the code tells them apart.
pub data ErrorKind : Type 0 where
  format min_items max_items other : ErrorKind

pub record LeafError : Type 0 where
  pub kind : ErrorKind
  pub text : Text

-- `jsonschema.OutputUnit`: the location, the error, and the units below.
mutual
  pub data OutputUnit : Type 0 where
    unit : Text → Option LeafError → Units → OutputUnit

  pub data Units : Type 0 where
    no_units : Units
    units : OutputUnit → Units → Units

-- What `UnmarshalJSON`, `Validate` and `DetailedOutput` make of a document.
pub data Validation : Type 0 where
  unreadable : Text → Validation
  passes : Validation
  fails : OutputUnit → Validation
  fails_otherwise : Text → Validation

-- `validate` is none, with the text of the error, where the schema does not compile.
pub record Formats : Type 0 where
  pub decode : Text → Result Text Json
  pub encode : Members → Option Text
  pub decode_catalog : Text → Option Catalog
  pub decode_identifiers : Text → Option (List Text)
  pub validate : Result Text (Text → Validation)

-- A check that failed; `SpecRef` is left out.
abbrev pub failure : Text → Severity → Text → Text → ℤ → Check
failure id severity message subject index = record {
  check_id = id;
  severity = severity;
  passed = false;
  message = message;
  subject = subject;
  entry_index = index;
}

abbrev pub parse_failure : Text → Check
parse_failure message =
    failure (codes "schema.parse") error message subject_catalog entry_index_none

-- `delete(entry, key)`.
unfoldable pub remove : Text → Members → Members
unfolding text_eq
remove key no_members = no_members
remove key (member name value members) =
    if text_eq name key then remove key members else member name value (remove key members)

abbrev pub key_identifier : Text
key_identifier = codes "identifier"

abbrev pub key_data : Text
key_data = codes "data"

-- An entry, and whether it was changed.
abbrev pub Normalized : Type 0
Normalized = Members × Bool

abbrev pub with_identifier : Names → Members → Option Json → Normalized
with_identifier names entry (some (string id)) =
    let n = normalize_identifier_for_schema names.unicode names.to_ascii id in
    if text_eq n id
    then (entry, false)
    else (member key_identifier (string n) (remove key_identifier entry), true)
with_identifier names entry _ = (entry, false)

abbrev pub without_null : Members → Option Json → Normalized
without_null entry (some null) = (remove key_data entry, true)
without_null entry _ = (entry, false)

abbrev pub both_changed : Bool → Normalized → Normalized
both_changed changed (entry, more) = (entry, changed || more)

abbrev pub then_without_null : Normalized → Normalized
then_without_null (entry, changed) =
    both_changed changed (without_null entry (lookup key_data entry))

-- One round of the loop of `normalizeForLenientSchema`.
unfoldable pub normalize_entry : Names → Members → Normalized
unfolding lookup remove normalize_identifier_for_schema text_eq
normalize_entry names entry =
    then_without_null (with_identifier names entry (lookup key_identifier entry))

abbrev pub normalize_item : Names → Json → Json × Bool
normalize_item names (object entry) =
    let (e, changed) = normalize_entry names entry in (object e, changed)
normalize_item names null = (null, false)
normalize_item names (boolean b) = (boolean b, false)
normalize_item names (number n) = (number n, false)
normalize_item names (string s) = (string s, false)
normalize_item names (array items) = (array items, false)

unfoldable pub normalize_items : Names → Items → Items × Bool
unfolding normalize_entry
normalize_items names no_items = (no_items, false)
normalize_items names (item node items) =
    let (n, changed) = normalize_item names node in
    let (ns, more) = normalize_items names items in (item n ns, changed || more)

abbrev pub text_or : Text → Option Text → Text
text_or raw (some text) = text
text_or raw none = raw

abbrev pub with_entries : Formats → Text → Members → Items × Bool → Text
with_entries f raw doc (items, changed) =
    if changed
    then text_or raw (f.encode (member key_entries (array items) (remove key_entries doc)))
    else raw

abbrev pub normalize_entries_of : Formats → Names → Text → Members → Option Json → Text
normalize_entries_of f names raw doc (some (array items)) =
    with_entries f raw doc (normalize_items names items)
normalize_entries_of f names raw doc _ = raw

abbrev pub normalize_document : Formats → Names → Text → Result Text Json → Text
normalize_document f names raw (ok (object doc)) =
    normalize_entries_of f names raw doc (lookup key_entries doc)
normalize_document f names raw _ = raw

-- `normalizeForLenientSchema`.
unfoldable pub normalize_for_lenient_schema : Formats → Names → Text → Text
unfolding normalize_items lookup remove
normalize_for_lenient_schema f names raw = normalize_document f names raw (f.decode raw)

pub record Leaf : Type 0 where
  pub location : Text
  pub cause : LeafError

abbrev pub own_leaf : Text → Option LeafError → List Leaf
own_leaf location none = []
own_leaf location (some e) = record { location = location; cause = e } ∷ []

-- `collectLeaves`.
unfoldable mutual
  pub collect_leaves : OutputUnit → List Leaf
  collect_leaves (unit location cause no_units) = own_leaf location cause
  collect_leaves (unit location cause (units u us)) = collect_leaves u ++ collect_all us

  pub collect_all : Units → List Leaf
  collect_all no_units = []
  collect_all (units u us) = collect_leaves u ++ collect_all us

abbrev pub is_format : ErrorKind → Bool
is_format format = true
is_format _ = false

abbrev pub is_count : ErrorKind → Bool
is_count min_items = true
is_count max_items = true
is_count _ = false

abbrev pub is_format_failure : Leaf → Bool
is_format_failure leaf = is_format leaf.cause.kind

-- `strings.HasSuffix(s, p)`.
unfoldable pub ends_in : Text → Text → Bool
unfolding text_eq
ends_in p [] = text_eq [] p
ends_in p (b ∷ s) = text_eq (b ∷ s) p || ends_in p s

unfoldable pub is_representative_queries_count_failure : Leaf → Bool
unfolding ends_in
is_representative_queries_count_failure leaf =
    ends_in (codes "/representativeQueries") leaf.location && is_count leaf.cause.kind

abbrev pub add_digit : ℕ → Option ℕ → Option ℕ
add_digit b none = none
add_digit b (some n) = if leb 48 b && leb b 57 then some (n * 10 + (b - 48)) else none

unfoldable pub digits_value : Option ℕ → Text → Option ℕ
digits_value n [] = n
digits_value n (b ∷ s) = digits_value (add_digit b n) s

-- `strconv.Atoi`, for an index that is in a list: none also for a negative number, and the numbers
-- that an `int` does not hold are beyond every list.
unfoldable pub atoi : Text → Option ℕ
unfolding digits_value
atoi [] = none
atoi (b ∷ s) =
    if b == 43
    then (if is_empty s then none else digits_value (some 0) s)
    else digits_value (some 0) (b ∷ s)

abbrev pub before_slash : Text → Option (Text × Text) → Text
before_slash rest none = rest
before_slash rest (some (before, after)) = before

abbrev pub nowhere : Text × ℤ
nowhere = (subject_catalog, entry_index_none)

abbrev pub entry_ref : ℕ → Option Text → Text × ℤ
entry_ref i none = nowhere
entry_ref i (some id) = (if is_empty id then subject_catalog else id, pos i)

abbrev pub ref_in : ℕ → Option (List Text) → Text × ℤ
ref_in i none = nowhere
ref_in i (some ids) = entry_ref i (get_elem? ids i)

abbrev pub ref_at : Option (List Text) → Option ℕ → Text × ℤ
ref_at ids none = nowhere
ref_at ids (some i) = ref_in i ids

abbrev pub entries_prefix : Text
entries_prefix = codes "/entries/"

-- `schemaEntryRef`.
unfoldable pub schema_entry_ref : Formats → Text → Text → Text × ℤ
unfolding has_prefix cut atoi
schema_entry_ref f location raw =
    if not (has_prefix location entries_prefix)
    then nowhere
    else let rest = drop 9 location in
      ref_at (f.decode_identifiers raw) (atoi (before_slash rest (cut 47 rest)))

abbrev pub shown : Text → Text
shown location = if is_empty location then codes "(root)" else location

abbrev pub leaf_check : Formats → Text → Severity → Leaf → Check
leaf_check f raw severity leaf =
    let (subject, index) = schema_entry_ref f leaf.location raw in
    failure (codes "schema.validation") severity
      (codes "at " ++ shown leaf.location ++ codes ": " ++ leaf.cause.text) subject index

-- The loop of `validateSchema`.
unfoldable pub leaf_checks : Formats → Bool → Text → List Leaf → List Check
unfolding is_representative_queries_count_failure schema_entry_ref
leaf_checks f strict raw [] = []
leaf_checks f strict raw (leaf ∷ leaves) =
    let rest = leaf_checks f strict raw leaves in
    let severity : Severity = if not strict && is_format_failure leaf then warning else error in
    if not strict && is_representative_queries_count_failure leaf
    then rest
    else leaf_check f raw severity leaf ∷ rest

abbrev pub checks_of : Formats → Bool → Text → Validation → List Check
checks_of f strict raw (unreadable why) =
    parse_failure (codes "catalog is not valid JSON: " ++ why) ∷ []
checks_of f strict raw passes = []
checks_of f strict raw (fails_otherwise why) =
    failure (codes "schema.validation") error why subject_catalog entry_index_none ∷ []
checks_of f strict raw (fails tree) = leaf_checks f strict raw (collect_leaves tree)

abbrev pub with_schema :
    Formats → Names → Bool → Text → Result Text (Text → Validation) → List Check
with_schema f names strict raw (err why) =
    parse_failure (codes "internal error compiling vendored schema: " ++ why) ∷ []
with_schema f names strict raw (ok validate) =
    checks_of f strict raw
      (validate (if strict then raw else normalize_for_lenient_schema f names raw))

-- `validateSchema`.
unfoldable pub validate_schema : Formats → Names → Bool → Text → List Check
unfolding normalize_for_lenient_schema leaf_checks collect_leaves
validate_schema f names strict raw = with_schema f names strict raw f.validate

abbrev pub semantic_part : Names → Text → Bool → Option Catalog → List Check
semantic_part names serving_domain failed none = []
semantic_part names serving_domain failed (some c) = semantic_checks names c serving_domain failed

abbrev pub reported : List Check → Report
reported checks = record { checks = checks; verdict = roll_up checks }

abbrev pub verified : Formats → Names → Text → Text → List Check → Report
verified f names raw serving_domain schema =
    reported
      (schema ++ semantic_part names serving_domain (schema_failed schema) (f.decode_catalog raw))

abbrev pub verify_decoded : Formats → Names → Text → Text → Bool → Result Text Json → Report
verify_decoded f names raw serving_domain strict (err why) = record {
  checks = parse_failure (codes "catalog is not valid JSON: " ++ why) ∷ [];
  verdict = invalid;
}
verify_decoded f names raw serving_domain strict (ok generic) =
    verified f names raw serving_domain (validate_schema f names strict raw)

-- `verify`.
unfoldable pub verify_with : Formats → Names → Text → Text → Bool → Report
unfolding validate_schema roll_up schema_failed semantic_checks
verify_with f names raw serving_domain strict =
    verify_decoded f names raw serving_domain strict (f.decode raw)

-- `Verify`.
unfoldable pub verify : Formats → Names → Text → Text → Report
unfolding verify_with
verify f names raw serving_domain = verify_with f names raw serving_domain false

-- `VerifyStrict`.
unfoldable pub verify_strict : Formats → Names → Text → Text → Report
unfolding verify_with
verify_strict f names raw serving_domain = verify_with f names raw serving_domain true
