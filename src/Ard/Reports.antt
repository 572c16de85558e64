-- ===== src/Ard/Reports.antt =====
-- A catalog, tests of its report, and the theorems on reports at this catalog.
use ardvark.Prelude.{
  ℕ, ◌≡◌, ◌≤◌, ◌↔◌, refl, true, false, [], ◌∷◌, none, some, Text, codes, ascii_text, map, get_elem?,
  contains, text_eq, split,
}
use ardvark.Ard.Document.{Entry}
use ardvark.Ard.Checks.{partition_checks}
use ardvark.Ard.Report.{is_json_content_type, starts_json, utf8_valid, looks_like_json}
use ardvark.Ard.Semantic.{
  Names, Catalog, entry_checks, stamp_index, catalog_level, semantic_checks,
  check_identifier_unique,
}
use ardvark.Ard.Stored.{partition_checks-semantic_checks}
use ardvark.Ard.Unique.{times, check_identifier_unique_lem}
use ardvark.Ard.Samples.{titled, plain_ascii}

abbrev names : Names
names = record { unicode = ascii_text; to_ascii = plain_ascii; registrable = λ s. none }

-- Both entries have one identifier, in two spellings.
abbrev repeated : Catalog
repeated = record {
  spec_version = codes "1.0";
  entries = titled (codes "urn:air:a.example:t") ∷ titled (codes "URN:AIR:A.example:t") ∷ [];
}

partition_checks-semantic_checks_example :
    ((partition_checks
        (semantic_checks names repeated (codes "a.example") false)
        repeated.entries).catalog_checks
      ≡ catalog_level names false repeated)
    × ((i : ℕ) (e : Entry)
        → get_elem? repeated.entries i ≡ some e
        → (partition_checks
              (semantic_checks names repeated (codes "a.example") false)
              repeated.entries).entry_checks
            i
          ≡ map (stamp_index i) (entry_checks names (codes "a.example") false e))
unfolding text_eq
partition_checks-semantic_checks_example =
    partition_checks-semantic_checks names repeated (codes "a.example") false
      ((refl, refl), ((refl, refl), tt))

check_identifier_unique_lem_example :
    ((check_identifier_unique names repeated).passed ≡ true)
    ↔ ((s : Text) → times names s repeated.entries ≤ 1)
check_identifier_unique_lem_example = check_identifier_unique_lem names repeated

spellings_clash : (check_identifier_unique names repeated).passed ≡ false
unfolding check_identifier_unique text_eq split
spellings_clash = refl

valid_bytes :
    (utf8_valid (104 ∷ 195 ∷ 169 ∷ 240 ∷ 159 ∷ 146 ∷ 169 ∷ []) ≡ true)
    × (utf8_valid (237 ∷ 160 ∷ 128 ∷ []) ≡ false)
    × (utf8_valid (192 ∷ 128 ∷ []) ≡ false)
unfolding utf8_valid
valid_bytes = (refl, refl, refl)

sniffed :
    (looks_like_json ascii_text (codes "text/html") (codes " {}") ≡ true)
    × (looks_like_json ascii_text [] (codes "<html>") ≡ false)
unfolding looks_like_json is_json_content_type starts_json contains
sniffed = (refl, refl)
