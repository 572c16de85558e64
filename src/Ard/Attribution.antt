-- ===== src/Ard/Attribution.antt =====
-- Where each check goes, and that it describes the entry it is attached to.
use ardvark.Prelude.{
  append_nil, append_assoc, ℕ, zero, suc, ◌+◌, ◌<◌, ◌≤◌, ◌≡◌, ◌⊎◌, refl, sym, ap, ◌∙◌, inl, inr,
  ltb, leb, Bool, true, false, ◌||◌, List, [], ◌∷◌, ◌++◌, Option, none, some, Text, text_eq,
  text_eq-eq, is_empty, length, ◌==◌, Bool-cases, arith, select, get_elem?, if◌then◌else◌, subst,
}
use ardvark.Ard.Document.{Entry, Check, ℤ, pos, negsuc, subject_catalog}
use ardvark.Ard.Checks.{
  Identifiers, note_entries, no_identifiers, within, entry_index_of, Parts, filed, file_checks,
  partition_checks,
}
use ardvark.Ard.Partition.{named, occurrences, position, attributed, entry_index_of-attributed}

abbrev pub on_catalog : Option ℕ → Bool
on_catalog none = true
on_catalog (some i) = false

abbrev pub on_entry : ℕ → Option ℕ → Bool
on_entry j none = false
on_entry j (some i) = i == j

select-same :
    {A : Type 0} (p q : A → Bool) (xs : List A) → ((x : A) → p x ≡ q x) → select p xs ≡ select q xs
unfolding select
select-same p q [] h = refl
select-same p q (x ∷ xs) h = rw (h x, select-same p q xs h) refl

filed-catalog :
    (check : Check) (parts : Parts) (o : Option ℕ)
    → (filed check parts o).catalog_checks
      ≡ parts.catalog_checks ++ (if on_catalog o then check ∷ [] else [])
filed-catalog check parts none = refl
filed-catalog check parts (some i) = sym (append_nil parts.catalog_checks)

filed-entry :
    (check : Check) (parts : Parts) (j : ℕ) (o : Option ℕ)
    → (filed check parts o).entry_checks j
      ≡ parts.entry_checks j ++ (if on_entry j o then check ∷ [] else [])
filed-entry check parts j none = sym (append_nil (parts.entry_checks j))
filed-entry check parts j (some i) = elim (Bool-cases (i == j)) [
  | inl e ↦ rw e refl
  | inr e ↦ rw e (sym (append_nil (parts.entry_checks j)))
]

select-step :
    {A : Type 0} (p : A → Bool) (x : A) (xs : List A)
    → (if p x then x ∷ [] else []) ++ select p xs ≡ select p (x ∷ xs)
unfolding select
select-step p x xs = elim (Bool-cases (p x)) [ inl e ↦ rw e refl | inr e ↦ rw e refl ]

file_checks-catalog :
    (checks : List Check) (ids : Identifiers) (count : ℕ) (parts : Parts)
    → (file_checks checks ids count parts).catalog_checks
      ≡ parts.catalog_checks ++ select (λ c. on_catalog (entry_index_of c ids count)) checks
unfolding file_checks select
file_checks-catalog [] ids count parts = sym (append_nil parts.catalog_checks)
file_checks-catalog (check ∷ checks) ids count parts =
    let o = entry_index_of check ids count in
    let p : Check → Bool = λ c. on_catalog (entry_index_of c ids count) in
    file_checks-catalog checks ids count (filed check parts o)
    ∙ (ap (λ l. l ++ select p checks) (filed-catalog check parts o)
        ∙ (append_assoc parts.catalog_checks (if on_catalog o then check ∷ [] else [])
              (select p checks)
            ∙ ap (λ l. parts.catalog_checks ++ l) (select-step p check checks)))

file_checks-entry :
    (checks : List Check) (ids : Identifiers) (count : ℕ) (parts : Parts) (j : ℕ)
    → (file_checks checks ids count parts).entry_checks j
      ≡ parts.entry_checks j ++ select (λ c. on_entry j (entry_index_of c ids count)) checks
unfolding file_checks select
file_checks-entry [] ids count parts j = sym (append_nil (parts.entry_checks j))
file_checks-entry (check ∷ checks) ids count parts j =
    let o = entry_index_of check ids count in
    let p : Check → Bool = λ c. on_entry j (entry_index_of c ids count) in
    file_checks-entry checks ids count (filed check parts o) j
    ∙ (ap (λ l. l ++ select p checks) (filed-entry check parts j o)
        ∙ (append_assoc (parts.entry_checks j) (if on_entry j o then check ∷ [] else [])
              (select p checks)
            ∙ ap (λ l. parts.entry_checks j ++ l) (select-step p check checks)))

-- `PartitionChecks` splits a report by `attributed`, in the report's order and losing nothing: the
-- catalog's checks are those that are attributed to no entry, and the checks of the entry at
-- position i are those attributed to i.
pub partition_checks_lem :
    (checks : List Check) (entries : List Entry)
    → ((partition_checks checks entries).catalog_checks
        ≡ select (λ c. on_catalog (attributed entries c)) checks)
      × ((i : ℕ)
          → (partition_checks checks entries).entry_checks i
            ≡ select (λ c. on_entry i (attributed entries c)) checks)
unfolding partition_checks
partition_checks_lem checks entries =
    let ids = note_entries 0 entries no_identifiers in
    let empty : Parts = record { catalog_checks = []; entry_checks = λ i. [] } in
    (
      file_checks-catalog checks ids (length entries) empty
          ∙ select-same (λ c. on_catalog (entry_index_of c ids (length entries)))
              (λ c. on_catalog (attributed entries c)) checks
              (λ c. ap on_catalog (entry_index_of-attributed c entries)),
      λ i.
          file_checks-entry checks ids (length entries) empty i
          ∙ select-same (λ c. on_entry i (entry_index_of c ids (length entries)))
              (λ c. on_entry i (attributed entries c)) checks
              (λ c. ap (on_entry i) (entry_index_of-attributed c entries)),
    )

-- The subject names one entry, which is the one at position i; or it names several, and i is the
-- check's index.
abbrev pub Describes : List Entry → Check → ℕ → Type 0
Describes entries check i =
    (entry : Entry) × (get_elem? entries i ≡ some entry)
    × ((occurrences check.subject entries ≡ 1) × (entry.identifier ≡ check.subject)
        ⊎ (2 ≤ occurrences check.subject entries) × (check.entry_index ≡ pos i))

position-found :
    (s : Text) (i j : ℕ) (entries : List Entry)
    → position s i entries ≡ some j
    → (k : ℕ) × (entry : Entry) × (j ≡ i + k)
      × (get_elem? entries k ≡ some entry)
      × (entry.identifier ≡ s)
unfolding position
position-found s i j [] e = cc
position-found s i j (entry ∷ entries) e = elim (Bool-cases (named s entry)) [
  | inl h ↦ (0, entry, ground arith, refl, text_eq-eq entry.identifier s h)
  | inr h ↦
      let (k, found, at, here, same) = position-found s (suc i) j entries (ground arith) in
      (suc k, found, omega arith, here, same)
]

get_elem-exists :
    (entries : List Entry) (i : ℕ)
    → i < length entries
    → (entry : Entry) × (get_elem? entries i ≡ some entry)
get_elem-exists [] i h = absurd (omega arith)
get_elem-exists (entry ∷ entries) zero h = (entry, refl)
get_elem-exists (entry ∷ entries) (suc i) h = get_elem-exists entries i (omega arith)

within-some : (z : ℤ) (count i : ℕ) → within z count ≡ some i → (z ≡ pos i) × (i < count)
within-some (pos j) count i e = elim (Bool-cases (ltb j count)) [
  | inl h ↦ let same : j ≡ i = ground arith in (ap pos same, ground arith)
  | inr h ↦ absurd (ground arith)
]
within-some (negsuc j) count i e = cc

-- A check that `PartitionChecks` attaches to an entry is attached to one of the catalog's: where one
-- entry alone has the check's subject for its identifier, to that entry, and where several have it, to
-- the entry at the check's own index, whatever its identifier; a check whose subject no entry has for its
-- identifier is attached to none.
pub attributed-Describes :
    (check : Check) (entries : List Entry) (i : ℕ)
    → entry_index_of check (note_entries 0 entries no_identifiers) (length entries) ≡ some i
    → Describes entries check i
attributed-Describes check entries i e =
    describe (sym (entry_index_of-attributed check entries) ∙ e)
  where
    describe : attributed entries check ≡ some i → Describes entries check i
    describe a =
        elim (Bool-cases (is_empty check.subject || text_eq check.subject subject_catalog)) [
          | inl h ↦ absurd (ground arith)
          | inr h ↦ elim (Bool-cases (occurrences check.subject entries == 1)) [
            | inl one ↦
                let (k, entry, at, here, same) =
                  position-found check.subject 0 i entries (ground arith) in
                let index : k ≡ i = omega arith in
                (
                  entry,
                  subst (λ j. get_elem? entries j ≡ some entry) index here,
                  inl (ground (arith, one), same),
                )
            | inr more ↦ elim (Bool-cases (leb 2 (occurrences check.subject entries))) [
              | inl several ↦
                  let (index, bound) =
                    within-some check.entry_index (length entries) i (ground arith) in
                  let (entry, here) = get_elem-exists entries i bound in
                  (entry, here, inr (ground arith, index))
              | inr few ↦ absurd (ground arith)
            ]
          ]
        ]
