-- ===== src/Ard/Partition.antt =====
-- What `PartitionChecks` computes, described without its maps.
use ardvark.Prelude.{
  ℕ, suc, ◌≡◌, refl, sym, ◌∙◌, inl, inr, leb, Bool, true, false, ◌||◌, List, [], ◌∷◌, Option, none,
  some, Text, subst, text_eq, text_eq-eq, text_eq_refl, is_empty, length, ◌==◌, Bool-cases,
  Option-cases, arith, count_where, if◌then◌else◌,
}
use ardvark.Ard.Document.{Entry, Check, subject_catalog}
use ardvark.Ard.Checks.{
  Identifiers, noted, note_entry, note_entries, no_identifiers, within, entry_index_of,
}

-- How often an identifier has been met, and where if once.
data Seen : Type 0 where
  unseen many : Seen
  once : ℕ → Seen

abbrev meet : ℕ → Seen → Seen
meet i unseen = once i
meet i many = many
meet i (once j) = many

unfoldable seen_in : Text → ℕ → List Entry → Seen → Seen
seen_in s i [] seen = seen
seen_in s i (entry ∷ entries) seen =
    seen_in s (suc i) entries (if text_eq entry.identifier s then meet i seen else seen)

abbrev index_for : Seen → Option ℕ
index_for unseen = none
index_for many = none
index_for (once i) = some i

abbrev is_many : Seen → Bool
is_many many = true
is_many _ = false

-- The two maps at a key.
abbrev Records : Identifiers → Text → Seen → Type 0
Records ids s seen = (ids.index s ≡ index_for seen) × (ids.ambiguous s ≡ is_many seen)

noted-other :
    (i : ℕ) (key s : Text) (ids : Identifiers) (o : Option ℕ) (b : Bool)
    → text_eq key s ≡ false
    → ((noted i key ids o b).index s ≡ ids.index s)
      × ((noted i key ids o b).ambiguous s ≡ ids.ambiguous s)
noted-other i key s ids (some j) b e = (rw e refl, rw e refl)
noted-other i key s ids none true e = (refl, refl)
noted-other i key s ids none false e = (rw e refl, refl)

noted_same :
    (i : ℕ) (key : Text) (ids : Identifiers) (seen : Seen)
    → Records ids key seen
    → Records (noted i key ids (index_for seen) (is_many seen)) key (meet i seen)
noted_same i key ids unseen h = (rw (text_eq_refl key) refl, h.1)
noted_same i key ids many h = h
noted_same i key ids (once j) h = (rw (text_eq_refl key) refl, rw (text_eq_refl key) refl)

note_entry-Records :
    (i : ℕ) (entry : Entry) (ids : Identifiers) (s : Text) (seen : Seen)
    → is_empty s ≡ false
    → Records ids s seen
    → Records (note_entry i entry ids) s (if text_eq entry.identifier s then meet i seen else seen)
unfolding note_entry
note_entry-Records i entry ids s seen filled h = elim (Bool-cases (text_eq entry.identifier s)) [
  | inr other ↦ elim (Bool-cases (is_empty entry.identifier)) [
    | inl e ↦ rw (e, other) h
    | inr e ↦
        let kept =
          noted-other i entry.identifier s ids (ids.index entry.identifier)
            (ids.ambiguous entry.identifier) other in
        rw (e, other) (kept.0 ∙ h.0, kept.1 ∙ h.1)
  ]
  | inl same ↦
      let key : s ≡ entry.identifier = sym (text_eq-eq entry.identifier s same) in
      let here : Records ids entry.identifier seen = subst (λ k. Records ids k seen) key h in
      let met : Records (noted i entry.identifier ids (index_for seen) (is_many seen))
          entry.identifier (meet i seen) =
        noted_same i entry.identifier ids seen here in
      let noted_here : Records
          (noted i entry.identifier ids (ids.index entry.identifier)
            (ids.ambiguous entry.identifier))
          s (meet i seen) =
        rw (here.0, here.1, key) met in
      rw (subst (λ k. is_empty k ≡ false) key filled, same) noted_here
]

note_entries-Records :
    (i : ℕ) (entries : List Entry) (ids : Identifiers) (s : Text) (seen : Seen)
    → is_empty s ≡ false
    → Records ids s seen
    → Records (note_entries i entries ids) s (seen_in s i entries seen)
unfolding note_entries seen_in
note_entries-Records i [] ids s seen filled h = h
note_entries-Records i (entry ∷ entries) ids s seen filled h =
    note_entries-Records (suc i) entries (note_entry i entry ids) s
      (if text_eq entry.identifier s then meet i seen else seen) filled
      (note_entry-Records i entry ids s seen filled h)

abbrev pub named : Text → Entry → Bool
named s entry = text_eq entry.identifier s

abbrev pub occurrences : Text → List Entry → ℕ
occurrences s entries = count_where (named s) entries

-- The position of the first entry with an identifier, counted from `i`.
unfoldable pub position : Text → ℕ → List Entry → Option ℕ
position s i [] = none
position s i (entry ∷ entries) = if named s entry then some i else position s (suc i) entries

-- The entry that a check is about, by the document: none for a check on the catalog; the entry that
-- the subject names, if it names one entry; the check's index, in bounds, if it names several.
abbrev pub attributed : List Entry → Check → Option ℕ
attributed entries check =
    if is_empty check.subject || text_eq check.subject subject_catalog
    then none
    else if occurrences check.subject entries == 1
    then position check.subject 0 entries
    else if leb 2 (occurrences check.subject entries)
    then within check.entry_index (length entries)
    else none

seen_in-many : (s : Text) (i : ℕ) (entries : List Entry) → seen_in s i entries many ≡ many
unfolding seen_in
seen_in-many s i [] = refl
seen_in-many s i (entry ∷ entries) = elim (Bool-cases (named s entry)) [
  | inl e ↦ rw e (seen_in-many s (suc i) entries)
  | inr e ↦ rw e (seen_in-many s (suc i) entries)
]

seen_in-once :
    (s : Text) (i j : ℕ) (entries : List Entry)
    → seen_in s i entries (once j) ≡ (if occurrences s entries == 0 then once j else many)
unfolding seen_in count_where
seen_in-once s i j [] = refl
seen_in-once s i j (entry ∷ entries) = elim (Bool-cases (named s entry)) [
  | inl e ↦ rw (e, seen_in-many s (suc i) entries) (ground arith)
  | inr e ↦ rw (e, seen_in-once s (suc i) j entries) (ground arith)
]

seen_in-unseen :
    (s : Text) (i : ℕ) (entries : List Entry)
    → (index_for (seen_in s i entries unseen)
        ≡ (if occurrences s entries == 1 then position s i entries else none))
      × (is_many (seen_in s i entries unseen) ≡ leb 2 (occurrences s entries))
unfolding seen_in count_where position
seen_in-unseen s i [] = (refl, refl)
seen_in-unseen s i (entry ∷ entries) = elim (Bool-cases (named s entry)) [
  | inl e ↦ elim (Bool-cases (occurrences s entries == 0)) [
    | inl z ↦ rw (e, seen_in-once s (suc i) i entries, z) (ground arith, ground arith)
    | inr z ↦ rw (e, seen_in-once s (suc i) i entries, z) (ground arith, ground arith)
  ]
  | inr e ↦
      let (at_one, at_two) = seen_in-unseen s (suc i) entries in
      rw e (at_one ∙ ground arith, at_two ∙ ground arith)
]

pub entry_index_of-attributed :
    (check : Check) (entries : List Entry)
    → entry_index_of check (note_entries 0 entries no_identifiers) (length entries)
      ≡ attributed entries check
unfolding entry_index_of
entry_index_of-attributed check entries = elim (Bool-cases (is_empty check.subject)) [
  | inl e ↦ rw e refl
  | inr e ↦
      let recorded =
        note_entries-Records 0 entries no_identifiers check.subject unseen e (refl, refl) in
      let (at_one, at_two) = seen_in-unseen check.subject 0 entries in
      let index = recorded.0 ∙ at_one in
      let several = recorded.1 ∙ at_two in
      elim (Bool-cases (text_eq check.subject subject_catalog)) [
        | inl c ↦ rw (e, c) refl
        | inr c ↦ elim (Bool-cases (occurrences check.subject entries == 1)) [
          | inl one ↦ elim (Option-cases (position check.subject 0 entries)) [
            | inl p ↦ rw (e, c, index, one, p, several) (ground arith)
            | inr (j, p) ↦ rw (e, c, index, one, p) refl
          ]
          | inr more ↦ rw (e, c, index, more, several) refl
        ]
      ]
]
