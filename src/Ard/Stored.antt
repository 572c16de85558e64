-- ===== src/Ard/Stored.antt =====
-- The checks that `semanticChecks` makes for an entry are those that `PartitionChecks` files for it.
use ardvark.Prelude.{
  select-append, select-All, select_none, append_nil, ℕ, zero, suc, ◌+◌, ◌<◌, ◌≡◌, refl, sym, ap,
  ◌∙◌, inl, inr, Bool, true, false, List, [], ◌∷◌, ◌++◌, map, Option, none, some, Text, All, select,
  get_elem?, text_eq, Bool-cases, arith, ◌==◌, if◌then◌else◌,
}
use ardvark.Ard.Document.{Entry, Check, subject_catalog}
use ardvark.Ard.Checks.{partition_checks}
use ardvark.Ard.Partition.{attributed}
use ardvark.Ard.Attribution.{on_catalog, on_entry, partition_checks_lem}
use ardvark.Ard.Semantic.{
  Names, Catalog, entry_subject, entry_checks, stamp_index, checks_from, catalog_level,
  semantic_checks, check_identifier_unique, check_spec_version,
}
use ardvark.Ard.Subjects.{IsNamed, HasSubject, entry_checks-HasSubject, stamped-attributed}

-- The part of a report that one entry gives.
abbrev block_of : Names → Text → Bool → ℕ → Entry → List Check
block_of names serving schema_failed i e =
    map (stamp_index i) (entry_checks names serving schema_failed e)

module _ (names : Names) (serving : Text) (schema_failed : Bool) (all : List Entry) where
  block-attributed :
      (i : ℕ) (e : Entry)
      → get_elem? all i ≡ some e
      → IsNamed e
      → All (λ c. attributed all c ≡ some i) (block_of names serving schema_failed i e)
  block-attributed i e at h =
      stamped (entry_checks names serving schema_failed e)
        (entry_checks-HasSubject names serving schema_failed e)
    where
      stamped :
          (checks : List Check)
          → All (HasSubject (entry_subject e)) checks
          → All (λ c. attributed all c ≡ some i) (map (stamp_index i) checks)
      stamped [] s = tt
      stamped (c ∷ checks) s =
          let subject : entry_subject e ≡ e.identifier = rw h.0 refl in
          (stamped-attributed all i e c at h (s.0 ∙ subject), stamped checks s.1)

  block_select :
      (p : Option ℕ → Bool) (i : ℕ) (checks : List Check)
      → All (λ c. attributed all c ≡ some i) checks
      → select (λ c. p (attributed all c)) checks ≡ (if p (some i) then checks else [])
  block_select p i checks h = elim (Bool-cases (p (some i))) [
    | inl y ↦ rw y (select-All (λ c. p (attributed all c)) checks (each true y checks h))
    | inr n ↦ rw n (select_none (λ c. p (attributed all c)) checks (each false n checks h))
  ]
    where
      each :
          (b : Bool)
          → p (some i) ≡ b
          → (checks : List Check) → All (λ c. attributed all c ≡ some i) checks
          → All (λ c. p (attributed all c) ≡ b) checks
      each b e [] h = tt
      each b e (c ∷ checks) h = (ap p h.0 ∙ e, each b e checks h.1)

  gathered : (Option ℕ → Bool) → ℕ → List Entry → List Check
  gathered p k [] = []
  gathered p k (e ∷ entries) =
      (if p (some k) then block_of names serving schema_failed k e else [])
      ++ gathered p (suc k) entries

  gathered_lem :
      (p : Option ℕ → Bool) (k : ℕ) (entries : List Entry)
      → ((j : ℕ) (e : Entry) → get_elem? entries j ≡ some e → get_elem? all (k + j) ≡ some e)
      → All IsNamed entries
      → select (λ c. p (attributed all c)) (checks_from names serving schema_failed k entries)
        ≡ gathered p k entries
  unfolding checks_from gathered select
  gathered_lem p k [] h n = refl
  gathered_lem p k (e ∷ entries) h n =
      let block = block_of names serving schema_failed k e in
      let first : k + 0 ≡ k = omega arith in
      let at : get_elem? all k ≡ some e = sym (ap (get_elem? all) first) ∙ h 0 e refl in
      select-append (λ c. p (attributed all c)) block
        (checks_from names serving schema_failed (suc k) entries)
      ∙ rw
          (
            block_select p k block (block-attributed k e at n.0),
            gathered_lem p (suc k) entries
                (λ j e' e''.
                  let next : k + suc j ≡ suc k + j = omega arith in
                  sym (ap (get_elem? all) next) ∙ h (suc j) e' e'')
                n.1,
          )
          refl

  gathered_catalog : (k : ℕ) (entries : List Entry) → gathered on_catalog k entries ≡ []
  unfolding gathered
  gathered_catalog k [] = refl
  gathered_catalog k (e ∷ entries) = gathered_catalog (suc k) entries

  gathered_before : (i k : ℕ) (entries : List Entry) → i < k → gathered (on_entry i) k entries ≡ []
  unfolding gathered
  gathered_before i k [] h = refl
  gathered_before i k (e ∷ entries) h =
      let other : (k == i) ≡ false = ground arith in
      rw (other, gathered_before i (suc k) entries (omega arith)) refl

  gathered_at :
      (i j k : ℕ) (entries : List Entry) (e : Entry)
      → i ≡ k + j
      → get_elem? entries j ≡ some e
      → gathered (on_entry i) k entries ≡ block_of names serving schema_failed i e
  unfolding gathered
  gathered_at i j k [] e is at = cc
  gathered_at i zero k (x ∷ entries) e is at =
      let reached : (k == i) ≡ true = ground (arith, is) in
      let index : k ≡ i = omega (arith, is) in
      let same : x ≡ e = cc in
      rw (reached, gathered_before i (suc k) entries (omega (arith, is)))
        (append_nil (block_of names serving schema_failed k x)
          ∙ (ap (λ m. block_of names serving schema_failed m x) index
              ∙ ap (block_of names serving schema_failed i) same))
  gathered_at i (suc j) k (x ∷ entries) e is at =
      let other : (k == i) ≡ false = ground (arith, is) in
      rw other (gathered_at i j (suc k) entries e (omega (arith, is)) at)

on_whole :
    (entries : List Entry) (c : Check) → c.subject ≡ subject_catalog → attributed entries c ≡ none
unfolding text_eq
on_whole entries c e = rw e refl

head-attributed :
    (names : Names) (schema_failed : Bool) (c : Catalog)
    → All (λ x. attributed c.entries x ≡ none) (catalog_level names schema_failed c)
unfolding check_identifier_unique check_spec_version
head-attributed names true c = (on_whole c.entries (check_identifier_unique names c) refl, tt)
head-attributed names false c = (
  on_whole c.entries (check_identifier_unique names c) refl,
  (on_whole c.entries (check_spec_version c) refl, tt),
)

head_select :
    (entries : List Entry) (p : Option ℕ → Bool) (checks : List Check)
    → All (λ x. attributed entries x ≡ none) checks
    → select (λ x. p (attributed entries x)) checks ≡ (if p none then checks else [])
unfolding select
head_select entries p [] h = elim (Bool-cases (p none)) [ inl e ↦ rw e refl | inr e ↦ rw e refl ]
head_select entries p (c ∷ checks) h = rw (h.0, head_select entries p checks h.1) (keep (p none))
  where
    keep :
        (b : Bool)
        → (if b then c ∷ (if b then checks else []) else if b then checks else [])
          ≡ (if b then c ∷ checks else [])
    keep true = refl
    keep false = refl

selected :
    (names : Names) (c : Catalog) (serving : Text) (schema_failed : Bool) (p : Option ℕ → Bool)
    → All IsNamed c.entries
    → select (λ x. p (attributed c.entries x)) (semantic_checks names c serving schema_failed)
      ≡ (if p none then catalog_level names schema_failed c else [])
        ++ gathered names serving schema_failed c.entries p 0 c.entries
unfolding semantic_checks
selected names c serving schema_failed p h =
    select-append (λ x. p (attributed c.entries x)) (catalog_level names schema_failed c)
      (checks_from names serving schema_failed 0 c.entries)
    ∙ rw
        (
          head_select c.entries p (catalog_level names schema_failed c)
              (head-attributed names schema_failed c),
          gathered_lem names serving schema_failed c.entries p 0 c.entries
              (λ j e at.
                let index : j ≡ 0 + j = omega arith in sym (ap (get_elem? c.entries) index) ∙ at)
              h,
        )
        refl

-- Of a report that `semanticChecks` makes for a catalog whose entries all have identifiers, other
-- than the word for the catalog, and these repeated or not, `PartitionChecks` files for each entry
-- exactly the checks that were made for it, in their order, and for the catalog exactly the checks
-- of the whole.
pub partition_checks-semantic_checks :
    (names : Names) (c : Catalog) (serving : Text) (schema_failed : Bool)
    → All IsNamed c.entries
    → let parts = partition_checks (semantic_checks names c serving schema_failed) c.entries in
      (parts.catalog_checks ≡ catalog_level names schema_failed c)
      × ((i : ℕ) (e : Entry)
          → get_elem? c.entries i ≡ some e
          → parts.entry_checks i ≡ map (stamp_index i) (entry_checks names serving schema_failed e))
partition_checks-semantic_checks names c serving schema_failed h =
    let (on_catalogs, on_entries) =
      partition_checks_lem (semantic_checks names c serving schema_failed) c.entries in
    (
      on_catalogs
          ∙ (selected names c serving schema_failed on_catalog h
              ∙ rw (gathered_catalog names serving schema_failed c.entries 0 c.entries)
                  (append_nil (catalog_level names schema_failed c))),
      λ i e at.
          on_entries i
          ∙ (selected names c serving schema_failed (on_entry i) h
              ∙ gathered_at names serving schema_failed c.entries i i 0 c.entries e (omega arith)
                  at),
    )
