-- ===== src/Ard/Checks.antt =====
-- internal/ard/checks.go: `PartitionChecks`. A Go map is a function from its keys.
use ardvark.Prelude.{
  ℕ, suc, ltb, Bool, true, false, ◌||◌, List, [], ◌∷◌, ◌++◌, Option, none, some, Text, text_eq,
  is_empty, length, ◌==◌, if◌then◌else◌,
}
use ardvark.Ard.Document.{Entry, Check, ℤ, pos, negsuc, subject_catalog}

-- `idxByIdentifier` and `ambiguous`.
pub record Identifiers : Type 0 where
  pub index : Text → Option ℕ
  pub ambiguous : Text → Bool

-- `m[key] = value`, and `delete(m, key)` for none.
abbrev pub put : {A : Type 0} → (Text → A) → Text → A → Text → A
put m key value s = if text_eq key s then value else m s

abbrev pub noted : ℕ → Text → Identifiers → Option ℕ → Bool → Identifiers
noted i key ids (some j) known = record {
  index = put ids.index key none;
  ambiguous = put ids.ambiguous key true;
}
noted i key ids none true = ids
noted i key ids none false = record ids { index = put ids.index key (some i) }

-- One round of the first loop, for the entry at position `i`.
unfoldable pub note_entry : ℕ → Entry → Identifiers → Identifiers
unfolding text_eq
note_entry i entry ids =
    let key = entry.identifier in
    if is_empty key then ids else noted i key ids (ids.index key) (ids.ambiguous key)

unfoldable pub note_entries : ℕ → List Entry → Identifiers → Identifiers
unfolding note_entry
note_entries i [] ids = ids
note_entries i (entry ∷ entries) ids = note_entries (suc i) entries (note_entry i entry ids)

abbrev pub no_identifiers : Identifiers
no_identifiers = record { index = λ s. none; ambiguous = λ s. false }

abbrev pub within : ℤ → ℕ → Option ℕ
within (pos i) count = if ltb i count then some i else none
within (negsuc i) count = none

abbrev pub by_index : Check → Identifiers → ℕ → Option ℕ → Option ℕ
by_index check ids count (some i) = some i
by_index check ids count none =
    if ids.ambiguous check.subject then within check.entry_index count else none

unfoldable pub entry_index_of : Check → Identifiers → ℕ → Option ℕ
unfolding text_eq
entry_index_of check ids count =
    if is_empty check.subject || text_eq check.subject subject_catalog
    then none
    else by_index check ids count (ids.index check.subject)

-- `catalogChecks` and `entryChecks`.
pub record Parts : Type 0 where
  pub catalog_checks : List Check
  pub entry_checks : ℕ → List Check

abbrev pub filed : Check → Parts → Option ℕ → Parts
filed check parts none = record parts { catalog_checks = parts.catalog_checks ++ check ∷ [] }
filed check parts (some i) = record parts {
  entry_checks = λ j. if i == j then parts.entry_checks j ++ check ∷ [] else parts.entry_checks j;
}

-- The second loop.
unfoldable pub file_checks : List Check → Identifiers → ℕ → Parts → Parts
unfolding entry_index_of
file_checks [] ids count parts = parts
file_checks (check ∷ checks) ids count parts =
    file_checks checks ids count (filed check parts (entry_index_of check ids count))

unfoldable pub partition_checks : List Check → List Entry → Parts
unfolding note_entries file_checks
partition_checks checks entries =
    file_checks checks (note_entries 0 entries no_identifiers) (length entries)
      (record { catalog_checks = []; entry_checks = λ i. [] })
