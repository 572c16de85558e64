-- ===== src/Ard/Subjects.antt =====
-- What a check of an entry names as its subject, and that it is traced back to the entry.
use ardvark.Prelude.{
  ℕ, zero, suc, ◌+◌, ◌<◌, ◌≤◌, ◌≡◌, refl, ap, ◌∙◌, inl, inr, leb, ltb, Bool, true, false, List, [],
  ◌∷◌, some, Text, All, All-append, count_where, get_elem?, length, text_eq, text_eq_refl, is_empty,
  Bool-cases, arith, ◌==◌, if◌then◌else◌,
}
use ardvark.Mediatype.{parse, is_pointer}
use ardvark.Ard.Document.{Entry, Check, subject_catalog}
use ardvark.Ard.Partition.{named, occurrences, position, attributed}
use ardvark.Ard.Urn.{Parsed, parsed, refused, parse_urn}
use ardvark.Ard.Semantic.{
  Names, entry_subject, entry_checks, stamp_index, publisher_checks, check_value_or_reference,
  check_urn_format, check_publisher_matches, check_queries_count, check_media_type,
}

-- An entry with an identifier, which is not the word for the catalog itself.
abbrev pub IsNamed : Entry → Type 0
IsNamed e = (is_empty e.identifier ≡ false) × (text_eq e.identifier subject_catalog ≡ false)

abbrev pub HasSubject : Text → Check → Type 0
HasSubject s c = c.subject ≡ s

All-unless :
    {A : Type 0} (P : A → Type 0) (b : Bool) (x : A) → P x → All P (if b then [] else x ∷ [])
All-unless P true x h = tt
All-unless P false x h = (h, tt)

publisher_subject :
    (names : Names) (serving subject : Text) (p : Parsed)
    → All (HasSubject subject) (publisher_checks names serving subject p)
unfolding check_publisher_matches
publisher_subject names serving subject (refused why) = tt
publisher_subject names serving subject (parsed u) =
    All-unless (HasSubject subject) (is_empty serving)
      (check_publisher_matches names u serving subject) refl

pub entry_checks-HasSubject :
    (names : Names) (serving : Text) (schema_failed : Bool) (e : Entry)
    → All (HasSubject (entry_subject e)) (entry_checks names serving schema_failed e)
unfolding entry_checks check_value_or_reference check_urn_format check_queries_count
    check_media_type
entry_checks-HasSubject names serving schema_failed e =
    let s = entry_subject e in
    let P = HasSubject s in
    let urn = parse_urn names.unicode names.to_ascii e.identifier in
    let mt = parse names.unicode e.entry_type in
    All-append P _ _
      (All-append P _ _
        (All-append P _ _
          (All-append P _ _ (All-unless P schema_failed (check_value_or_reference e s) refl)
            (All-unless P schema_failed (check_urn_format e.identifier urn s) refl))
          (publisher_subject names serving s urn))
        (All-unless P (is_pointer mt) (check_queries_count e s) refl))
      (refl, tt)

occurs :
    (s : Text) (entries : List Entry) (i : ℕ) (e : Entry)
    → get_elem? entries i ≡ some e
    → named s e ≡ true
    → 1 ≤ occurrences s entries
unfolding count_where
occurs s [] i e at h = cc
occurs s (x ∷ entries) zero e at h = let same : named s x ≡ true = cc in rw same (omega arith)
occurs s (x ∷ entries) (suc i) e at h = omega (arith, occurs s entries i e at h)

position_sole :
    (s : Text) (k : ℕ) (entries : List Entry) (i : ℕ) (e : Entry)
    → get_elem? entries i ≡ some e
    → named s e ≡ true
    → occurrences s entries ≡ 1
    → position s k entries ≡ some (k + i)
unfolding count_where position
position_sole s k [] i e at h one = cc
position_sole s k (x ∷ entries) zero e at h one =
    let same : named s x ≡ true = cc in let here : k ≡ k + 0 = omega arith in rw same (ap some here)
position_sole s k (x ∷ entries) (suc i) e at h one = elim (Bool-cases (named s x)) [
  | inl y ↦ absurd (ground (arith, occurs s entries i e at h))
  | inr n ↦
      let there : suc k + i ≡ k + suc i = omega arith in
      rw n (position_sole s (suc k) entries i e at h (ground arith) ∙ ap some there)
]

in_bounds :
    (entries : List Entry) (i : ℕ) (e : Entry) → get_elem? entries i ≡ some e → i < length entries
in_bounds [] i e at = cc
in_bounds (x ∷ entries) zero e at = omega arith
in_bounds (x ∷ entries) (suc i) e at = omega (arith, in_bounds entries i e at)

pub stamped-attributed :
    (entries : List Entry) (i : ℕ) (e : Entry) (c : Check)
    → get_elem? entries i ≡ some e
    → IsNamed e
    → c.subject ≡ e.identifier
    → attributed entries (stamp_index i c) ≡ some i
stamped-attributed entries i e c at h same =
    let met : named e.identifier e ≡ true = text_eq_refl e.identifier in
    let least = occurs e.identifier entries i e at met in
    rw (same, h.0, h.1)
      (elim (Bool-cases (occurrences e.identifier entries == 1)) [
        | inl one ↦
            rw one (
              position_sole e.identifier 0 entries i e at met (ground arith)
              ∙ ap some (omega arith))
        | inr more ↦
            let several : leb 2 (occurrences e.identifier entries) ≡ true = ground (arith, least) in
            let inside : ltb i (length entries) ≡ true = ground (arith, in_bounds entries i e at) in
            rw (more, several, inside) refl
      ])
