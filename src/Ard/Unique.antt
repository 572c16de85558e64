-- ===== src/Ard/Unique.antt =====
-- What `checkIdentifierUnique` decides.
use ardvark.Prelude.{
  ℕ, suc, ◌+◌, ◌<◌, ◌≤◌, ◌≡◌, ◌↔◌, refl, inl, inr, true, false, List, [], ◌∷◌, Text, text_eq,
  text_eq-eq, text_eq_refl, is_empty, count_where, Bool-cases, arith, ◌==◌, subst,
}
use ardvark.Ard.Document.{Entry}
use ardvark.Ard.Semantic.{Names, Catalog, entry_key, count_key, duplicates, check_identifier_unique}

abbrev pub times : Names → Text → List Entry → ℕ
times names s entries = count_where (λ e. text_eq (entry_key names e) s) entries

-- No key that was met less than twice is met twice at the end.
abbrev NoneTwice : Names → (Text → ℕ) → List Entry → Type 0
NoneTwice names seen entries = (s : Text) → seen s < 2 → seen s + times names s entries < 2

module _ (names : Names) (seen : Text → ℕ) (e : Entry) (entries : List Entry) where
  abbrev key : Text
  key = entry_key names e

  keep_counting :
      ((seen key == 1) ≡ false)
      → NoneTwice names (count_key key seen) entries
      → NoneTwice names seen (e ∷ entries)
  unfolding count_where
  keep_counting new h s low = elim (Bool-cases (text_eq key s)) [
    | inl same ↦
        let here : key ≡ s = text_eq-eq key s same in
        let fresh : (seen s == 1) ≡ false = subst (λ k. (seen k == 1) ≡ false) here new in
        let counted : count_key key seen s ≡ suc (seen s) = rw same refl in
        ground (arith, same, fresh, counted, h s)
    | inr other ↦
        let counted : count_key key seen s ≡ seen s = rw other refl in
        ground (arith, other, counted, h s)
  ]

  count_back : NoneTwice names seen (e ∷ entries) → NoneTwice names (count_key key seen) entries
  unfolding count_where
  count_back h s low = elim (Bool-cases (text_eq key s)) [
    | inl same ↦
        let counted : count_key key seen s ≡ suc (seen s) = rw same refl in
        ground (arith, same, counted, low, h s)
    | inr other ↦
        let counted : count_key key seen s ≡ seen s = rw other refl in
        ground (arith, other, counted, low, h s)
  ]

  second_time : (seen key == 1) ≡ true → NoneTwice names seen (e ∷ entries) → ⊥
  unfolding count_where
  second_time once h =
      let met : text_eq key key ≡ true = text_eq_refl key in ground (arith, once, met, h key)

duplicates-NoneTwice :
    (names : Names) (seen : Text → ℕ) (entries : List Entry)
    → (is_empty (duplicates names seen entries) ≡ true) ↔ NoneTwice names seen entries
unfolding duplicates count_where
duplicates-NoneTwice names seen [] = (λ h s low. omega (arith, low), λ h. refl)
duplicates-NoneTwice names seen (e ∷ entries) =
    let k = entry_key names e in
    let (to, from) = duplicates-NoneTwice names (count_key k seen) entries in
    elim (Bool-cases (seen k == 1)) [
      | inl once ↦
          let second : (suc (seen k) == 2) ≡ true = ground arith in
          (rw second (λ h. absurd (cc h)), λ h. absurd (second_time names seen e entries once h))
      | inr new ↦
          let first : (suc (seen k) == 2) ≡ false = ground arith in
          (
            rw first (λ h. keep_counting names seen e entries new (to h)),
            rw first (λ h. from (count_back names seen e entries h)),
          )
    ]

-- The check on identifiers passes exactly when no key stands for two entries, where the key of an
-- entry is the normalized form of its identifier if that is well-formed, and else the identifier.
pub check_identifier_unique_lem :
    (names : Names) (c : Catalog)
    → ((check_identifier_unique names c).passed ≡ true) ↔ ((s : Text) → times names s c.entries ≤ 1)
unfolding check_identifier_unique
check_identifier_unique_lem names c =
    let (to, from) = duplicates-NoneTwice names (λ s. 0) c.entries in
    (
      λ h s. let low = to h s (omega arith) in omega (arith, low),
      λ h. from (λ s low. let once = h s in omega (arith, once)),
    )
