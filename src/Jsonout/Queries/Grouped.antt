-- ===== src/Jsonout/Queries/Grouped.antt =====
-- internal/jsonout/search.go: that the checks which `GetCatalog` loads for all entries of a page are,
-- entry by entry, those that `GetEntry` loads.
use ardvark.Prelude.{
  ℕ, leb, ◌==◌, ◌≡◌, refl, sym, ◌∙◌, append_assoc, append_nil, inl, inr, Bool, true, false, ◌&&◌,
  List, [], ◌∷◌, ◌++◌, select, any, Bool-cases, arith, if◌then◌else◌,
}
use ardvark.Store.Tables.{Tables, VerificationCheck}
use ardvark.Jsonout.Queries.{
  ChecksByEntry, is_entry_check, insert_check, by_subject, grouped, entry_checks,
  entry_checks_by_id,
}

abbrev is_about : ℕ → VerificationCheck → Bool
is_about i k = i == k.subject_id

abbrev is_check_of : ℕ → VerificationCheck → Bool
is_check_of i k = is_entry_check k && (k.subject_id == i)

passed : (i k j : ℕ) → leb k j ≡ false → (i == j) ≡ true → (i == k) ≡ false
passed i k j h y = ground (arith, h, y)

flipped : (i j : ℕ) → (i == j) ≡ (j == i)
flipped i j = ground arith

select-insert_check :
    (i : ℕ) (k : VerificationCheck) (js : List VerificationCheck)
    → select (is_about i) (insert_check k js) ≡ select (is_about i) (k ∷ js)
unfolding select insert_check
select-insert_check i k [] = refl
select-insert_check i k (j ∷ js) = elim (Bool-cases (leb k.subject_id j.subject_id)) [
  | inl y ↦ rw y refl
  | inr n ↦
      rw (n, select-insert_check i k js)
        elim (Bool-cases (is_about i j)) [
          | inl y ↦ rw (y, passed i k.subject_id j.subject_id n y) refl
          | inr m ↦ rw m refl
        ]
]

select-by_subject :
    (i : ℕ) (ks : List VerificationCheck)
    → select (is_about i) (by_subject ks) ≡ select (is_about i) ks
unfolding select by_subject
select-by_subject i [] = refl
select-by_subject i (k ∷ ks) =
    rw (select-insert_check i k (by_subject ks), select-by_subject i ks) refl

grouped-select :
    (ks : List VerificationCheck) (m : ChecksByEntry) (i : ℕ)
    → grouped ks m i ≡ m i ++ select (is_about i) ks
unfolding grouped select
grouped-select [] m i = sym (append_nil (m i))
grouped-select (k ∷ ks) m i =
    rw (grouped-select ks (λ id. if id == k.subject_id then m id ++ k ∷ [] else m id) i)
      elim (Bool-cases (is_about i k)) [
        | inl y ↦ rw y (append_assoc (m i) (k ∷ []) (select (is_about i) ks))
        | inr n ↦ rw n refl
      ]

narrowed_step :
    (i : ℕ) (k : VerificationCheck) (e a s : Bool) (xs ys : List VerificationCheck)
    → is_about i k ≡ s
    → (s ≡ true → a ≡ true)
    → select (is_about i) xs ≡ ys
    → select (is_about i) (if e && a then k ∷ xs else xs) ≡ (if e && s then k ∷ ys else ys)
unfolding select
narrowed_step i k false a s xs ys q f h = h
narrowed_step i k true true true xs ys q f h = rw (q, h) refl
narrowed_step i k true true false xs ys q f h = rw q h
narrowed_step i k true false true xs ys q f h = absurd (apart (f refl))
  where
    apart : false ≡ true → ⊥
    apart u = cc
narrowed_step i k true false false xs ys q f h = h

same_any :
    (ids : List ℕ) (i j : ℕ)
    → any (λ id. i == id) ids ≡ true
    → (j == i) ≡ true
    → any (λ id. j == id) ids ≡ true
same_any ids i j h y = rw (equal) h
  where
    equal : j ≡ i
    equal = ground (arith, y)

select-narrowed :
    (ids : List ℕ) (i : ℕ) (ks : List VerificationCheck)
    → any (λ id. i == id) ids ≡ true
    → select (is_about i) (select (λ k. is_entry_check k && any (λ id. k.subject_id == id) ids) ks)
      ≡ select (is_check_of i) ks
unfolding select
select-narrowed ids i [] h = refl
select-narrowed ids i (k ∷ ks) h =
    narrowed_step i k (is_entry_check k) (any (λ id. k.subject_id == id) ids) (k.subject_id == i)
      (select (λ q. is_entry_check q && any (λ id. q.subject_id == id) ids) ks)
      (select (is_check_of i) ks) (flipped i k.subject_id) (same_any ids i k.subject_id h)
      (select-narrowed ids i ks h)

insert_check-first :
    (i : ℕ) (k : VerificationCheck) (ks : List VerificationCheck)
    → (k.subject_id == i) ≡ true
    → insert_check k (select (is_check_of i) ks) ≡ k ∷ select (is_check_of i) ks
unfolding select insert_check
insert_check-first i k [] h = refl
insert_check-first i k (j ∷ ks) h = elim (Bool-cases (is_check_of i j)) [
  | inl y ↦ rw (y, up_to (is_entry_check j) k.subject_id j.subject_id h y) refl
  | inr n ↦ rw n (insert_check-first i k ks h)
]
  where
    up_to : (e : Bool) (a b : ℕ) → (a == i) ≡ true → (e && (b == i)) ≡ true → leb a b ≡ true
    up_to e a b u v = ground (arith, u, v)

by_subject-one :
    (i : ℕ) (ks : List VerificationCheck)
    → by_subject (select (is_check_of i) ks) ≡ select (is_check_of i) ks
unfolding select by_subject
by_subject-one i [] = refl
by_subject-one i (k ∷ ks) = elim (Bool-cases (is_check_of i k)) [
  | inl y ↦
      rw (y, by_subject-one i ks)
        (insert_check-first i k ks (own (is_entry_check k) k.subject_id y))
  | inr n ↦ rw n (by_subject-one i ks)
]
  where
    own : (e : Bool) (a : ℕ) → (e && (a == i)) ≡ true → (a == i) ≡ true
    own e a v = ground (arith, v)

-- The checks that one query for all entries of a page gives for an entry of the page are the checks
-- that the query for this entry alone gives, in the same order.
pub entry_checks_by_id_lem :
    (ids : List ℕ) (i : ℕ) (t : Tables)
    → any (λ id. i == id) ids ≡ true
    → entry_checks_by_id ids t i ≡ entry_checks i t
unfolding entry_checks_by_id entry_checks
entry_checks_by_id_lem ids i t h =
    let asked =
      select (λ k. is_entry_check k && any (λ id. k.subject_id == id) ids) t.checks.rows in
    grouped-select (by_subject asked) (λ id. []) i
    ∙ select-by_subject i asked
    ∙ select-narrowed ids i t.checks.rows h
    ∙ sym (by_subject-one i t.checks.rows)
