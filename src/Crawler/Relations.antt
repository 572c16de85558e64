-- ===== src/Crawler/Relations.antt =====
-- The relationship that an item serves, which the suffix of its key text tells.
use ardvark.Prelude.{
  Lacks, ℕ, ◌≡◌, ◌⊎◌, refl, sym, ap, ◌∙◌, inl, inr, true, false, [], ◌∷◌, ◌++◌, Option, none, some,
  Text, text_eq, has_prefix, Bool-cases, arith, if◌then◌else◌,
}
use ardvark.Store.Models.{kind_catalog_fetch, kind_artifact_fetch, kind_registry_harvest}
use ardvark.Crawler.Digits.{decimal, decimal-injective}
use ardvark.Crawler.Keys.{
  Provenance, tagged, tagged_if, parent_catalog_label, artifact_entry_label, registry_row_label,
  registry_entry_label, registry_suffix, suffix,
}

-- The relationship that an item serves.
pub data Relation : Type 0 where
  unrelated : Relation
  of_catalog of_artifact of_row of_entry : ℕ → Relation

abbrev pub optional : (ℕ → Relation) → Option ℕ → Relation
optional c none = unrelated
optional c (some id) = c id

abbrev pub registry_relation : Option ℕ → Option ℕ → Relation
registry_relation (some id) entry = of_row id
registry_relation none entry = optional of_entry entry

abbrev pub relation : Text → Provenance → Relation
relation kind prov =
    if text_eq kind kind_catalog_fetch
    then optional of_catalog prov.parent_catalog_id
    else if text_eq kind kind_artifact_fetch
    then optional of_artifact prov.artifact_entry_id
    else if text_eq kind kind_registry_harvest
    then registry_relation prov.registry_row_id prov.registry_entry_id
    else unrelated

tail_eq : (a b : ℕ) (s t : Text) → (a ∷ s) ≡ (b ∷ t) → s ≡ t
tail_eq a b s t e = cc

head_eq : (a b : ℕ) (s t : Text) → (a ∷ s) ≡ (b ∷ t) → a ≡ b
head_eq a b s t e = cc

append_cancel : (p s t : Text) → p ++ s ≡ p ++ t → s ≡ t
append_cancel [] s t e = e
append_cancel (a ∷ p) s t e = append_cancel p s t (tail_eq a a _ _ e)

-- A text splits in one way at the first separator.
pub split_once :
    (c : ℕ) (s s' t t' : Text)
    → Lacks c s
    → Lacks c s'
    → s ++ c ∷ t ≡ s' ++ c ∷ t'
    → (s ≡ s') × (t ≡ t')
split_once c [] [] t t' h h' e = (refl, tail_eq c c t t' e)
split_once c [] (b ∷ s') t t' h h' e = absurd (h'.0 (sym (head_eq c b t (s' ++ c ∷ t') e)))
split_once c (a ∷ s) [] t t' h h' e = absurd (h.0 (head_eq a c (s ++ c ∷ t) t' e))
split_once c (a ∷ s) (b ∷ s') t t' h h' e =
    let (p, q) = split_once c s s' t t' h.1 h'.1 (tail_eq a b (s ++ c ∷ t) (s' ++ c ∷ t') e) in
    let first : a ≡ b = head_eq a b (s ++ c ∷ t) (s' ++ c ∷ t') e in (cc, q)

pub not_split : (c : ℕ) (s s' t' : Text) → Lacks c s → s ≡ s' ++ c ∷ t' → ⊥
not_split c [] [] t' h e = cc
not_split c [] (b ∷ s') t' h e = cc
not_split c (a ∷ s) [] t' h e = h.0 (head_eq a c s t' e)
not_split c (a ∷ s) (b ∷ s') t' h e = not_split c s s' t' h.1 (tail_eq a b s (s' ++ c ∷ t') e)

abbrev pub text_of : Relation → Text
text_of unrelated = []
text_of (of_catalog id) = tagged parent_catalog_label id
text_of (of_artifact id) = tagged artifact_entry_label id
text_of (of_row id) = tagged registry_row_label id
text_of (of_entry id) = tagged registry_entry_label id

tagged_if_lem :
    (label : Text) (c : ℕ → Relation) (o : Option ℕ)
    → ((id : ℕ) → text_of (c id) ≡ tagged label id)
    → tagged_if label o ≡ text_of (optional c o)
tagged_if_lem label c none h = refl
tagged_if_lem label c (some id) h = sym (h id)

registry_lem :
    (row entry : Option ℕ) → registry_suffix row entry ≡ text_of (registry_relation row entry)
registry_lem (some id) entry = refl
registry_lem none entry = tagged_if_lem registry_entry_label of_entry entry (λ id. refl)

pub suffix_lem : (kind : Text) (prov : Provenance) → suffix kind prov ≡ text_of (relation kind prov)
unfolding suffix
suffix_lem kind prov = elim (Bool-cases (text_eq kind kind_catalog_fetch)) [
  | inl e ↦ rw e (tagged_if_lem parent_catalog_label of_catalog prov.parent_catalog_id (λ id. refl))
  | inr e ↦ elim (Bool-cases (text_eq kind kind_artifact_fetch)) [
    | inl e' ↦
        rw (e, e')
          (tagged_if_lem artifact_entry_label of_artifact prov.artifact_entry_id (λ id. refl))
    | inr e' ↦ elim (Bool-cases (text_eq kind kind_registry_harvest)) [
      | inl e'' ↦ rw (e, e', e'') (registry_lem prov.registry_row_id prov.registry_entry_id)
      | inr e'' ↦ rw (e, e', e'') refl
    ]
  ]
]

abbrev label_of : Relation → Text
label_of unrelated = []
label_of (of_catalog id) = parent_catalog_label
label_of (of_artifact id) = artifact_entry_label
label_of (of_row id) = registry_row_label
label_of (of_entry id) = registry_entry_label

has_prefix-append : (p s : Text) → has_prefix (p ++ s) p ≡ true
unfolding has_prefix
has_prefix-append [] s = refl
has_prefix-append (a ∷ p) s = ground (arith, has_prefix-append p s)

-- Two labels of which neither starts the other.
apart : (p q s t : Text) → has_prefix (q ++ t) p ≡ false → p ++ s ≡ q ++ t → ⊥
apart p q s t differ e =
    let yes : has_prefix (q ++ t) p ≡ true =
      sym (ap (λ u. has_prefix u p) e) ∙ has_prefix-append p s in
    cc

same_id : (p : Text) (m n : ℕ) → p ++ decimal m ≡ p ++ decimal n → m ≡ n
same_id p m n e = decimal-injective m n (append_cancel p (decimal m) (decimal n) e)

pub text_of-injective : (a b : Relation) → text_of a ≡ text_of b → a ≡ b
unfolding has_prefix
text_of-injective unrelated unrelated e = refl
text_of-injective unrelated (of_catalog n) e = cc
text_of-injective (of_catalog m) unrelated e = cc
text_of-injective unrelated (of_artifact n) e = cc
text_of-injective (of_artifact m) unrelated e = cc
text_of-injective unrelated (of_row n) e = cc
text_of-injective (of_row m) unrelated e = cc
text_of-injective unrelated (of_entry n) e = cc
text_of-injective (of_entry m) unrelated e = cc
text_of-injective (of_catalog m) (of_catalog n) e =
    ap of_catalog (same_id parent_catalog_label m n (tail_eq 0 0 _ _ e))
text_of-injective (of_catalog m) (of_artifact n) e = absurd (
    apart parent_catalog_label artifact_entry_label (decimal m) (decimal n) refl
      (tail_eq 0 0 _ _ e))
text_of-injective (of_catalog m) (of_row n) e =
    absurd (
      apart parent_catalog_label registry_row_label (decimal m) (decimal n) refl
        (tail_eq 0 0 _ _ e))
text_of-injective (of_catalog m) (of_entry n) e = absurd (
    apart parent_catalog_label registry_entry_label (decimal m) (decimal n) refl
      (tail_eq 0 0 _ _ e))
text_of-injective (of_artifact m) (of_catalog n) e = absurd (
    apart artifact_entry_label parent_catalog_label (decimal m) (decimal n) refl
      (tail_eq 0 0 _ _ e))
text_of-injective (of_artifact m) (of_artifact n) e =
    ap of_artifact (same_id artifact_entry_label m n (tail_eq 0 0 _ _ e))
text_of-injective (of_artifact m) (of_row n) e =
    absurd (
      apart artifact_entry_label registry_row_label (decimal m) (decimal n) refl
        (tail_eq 0 0 _ _ e))
text_of-injective (of_artifact m) (of_entry n) e = absurd (
    apart artifact_entry_label registry_entry_label (decimal m) (decimal n) refl
      (tail_eq 0 0 _ _ e))
text_of-injective (of_row m) (of_catalog n) e =
    absurd (
      apart registry_row_label parent_catalog_label (decimal m) (decimal n) refl
        (tail_eq 0 0 _ _ e))
text_of-injective (of_row m) (of_artifact n) e =
    absurd (
      apart registry_row_label artifact_entry_label (decimal m) (decimal n) refl
        (tail_eq 0 0 _ _ e))
text_of-injective (of_row m) (of_row n) e =
    ap of_row (same_id registry_row_label m n (tail_eq 0 0 _ _ e))
text_of-injective (of_row m) (of_entry n) e =
    absurd (
      apart registry_row_label registry_entry_label (decimal m) (decimal n) refl
        (tail_eq 0 0 _ _ e))
text_of-injective (of_entry m) (of_catalog n) e = absurd (
    apart registry_entry_label parent_catalog_label (decimal m) (decimal n) refl
      (tail_eq 0 0 _ _ e))
text_of-injective (of_entry m) (of_artifact n) e = absurd (
    apart registry_entry_label artifact_entry_label (decimal m) (decimal n) refl
      (tail_eq 0 0 _ _ e))
text_of-injective (of_entry m) (of_row n) e =
    absurd (
      apart registry_entry_label registry_row_label (decimal m) (decimal n) refl
        (tail_eq 0 0 _ _ e))
text_of-injective (of_entry m) (of_entry n) e =
    ap of_entry (same_id registry_entry_label m n (tail_eq 0 0 _ _ e))

pub starts : (a : Relation) → (text_of a ≡ []) ⊎ ((t : Text) × (text_of a ≡ 0 ∷ t))
starts unrelated = inl refl
starts (of_catalog n) = inr (parent_catalog_label ++ decimal n, refl)
starts (of_artifact n) = inr (artifact_entry_label ++ decimal n, refl)
starts (of_row n) = inr (registry_row_label ++ decimal n, refl)
starts (of_entry n) = inr (registry_entry_label ++ decimal n, refl)
