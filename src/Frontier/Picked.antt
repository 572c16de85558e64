-- ===== src/Frontier/Picked.antt =====
-- What the SELECT of `Dequeue` returns: rows of the table that pass its conditions.
use ardvark.Prelude.{
  ℕ, zero, suc, ◌≤◌, ◌≡◌, ◌⊎◌, inl, inr, refl, ap, Bool, true, false, List, [], ◌∷◌, All, All-map,
  Bool-cases, select, take, any, arith, ◌==◌, ==_iff,
}
use ardvark.Store.Models.{FrontierItem, is_pending}
use ardvark.Frontier.Db.{Table}
use ardvark.Frontier.Config.{Dialect, Frontier}
use ardvark.Frontier.Dequeue.{precedes, place, order, is_candidate, pick, one_of}
use ardvark.Frontier.Invariant.{Ascending}

abbrev pub Contains : {A : Type 0} → A → List A → Type 0
Contains a [] = ⊥
Contains a (x ∷ xs) = (x ≡ a) ⊎ Contains a xs

All-select :
    {A : Type 0} (P : A → Type 0) (p : A → Bool) (xs : List A) → All P xs → All P (select p xs)
unfolding select
All-select P p [] h = tt
All-select P p (x ∷ xs) h = elim (Bool-cases (p x)) [
  | inl e ↦ rw e (h.0, All-select P p xs h.1)
  | inr e ↦ rw e (All-select P p xs h.1)
]

All-select_passes : {A : Type 0} (p : A → Bool) (xs : List A) → All (λ x. p x ≡ true) (select p xs)
unfolding select
All-select_passes p [] = tt
All-select_passes p (x ∷ xs) = elim (Bool-cases (p x)) [
  | inl e ↦ rw e (e, All-select_passes p xs)
  | inr e ↦ rw e (All-select_passes p xs)
]

pub All-take : {A : Type 0} (P : A → Type 0) (n : ℕ) (xs : List A) → All P xs → All P (take n xs)
All-take P zero xs h = tt
All-take P (suc n) [] h = tt
All-take P (suc n) (x ∷ xs) h = (h.0, All-take P n xs h.1)

module _ (P : FrontierItem → Type 0) where
  pub All-place : (r : FrontierItem) (xs : List FrontierItem) → P r → All P xs → All P (place r xs)
  unfolding place
  All-place r [] p h = (p, tt)
  All-place r (x ∷ xs) p h = elim (Bool-cases (precedes r x)) [
    | inl e ↦ rw e (p, h)
    | inr e ↦ rw e (h.0, All-place r xs p h.1)
  ]

  pub All-order : (xs : List FrontierItem) → All P xs → All P (order xs)
  unfolding order
  All-order [] h = tt
  All-order (x ∷ xs) h = All-place x (order xs) h.0 (All-order xs h.1)

  pub All-pick :
      (d : Dialect) (f : Frontier) (n : ℕ) (locked : FrontierItem → Bool) (t : Table)
      → All P (select (is_candidate d f locked) t.rows)
      → All P (pick d f n locked t)
  unfolding pick
  All-pick d f n locked t h =
      All-take P n (order (select (is_candidate d f locked) t.rows))
        (All-order (select (is_candidate d f locked) t.rows) h)

All-Contains_self : {A : Type 0} (xs : List A) → All (λ x. Contains x xs) xs
All-Contains_self [] = tt
All-Contains_self {A} (x ∷ xs) = (
  inl refl,
  All-map (λ y. Contains y xs) (λ y. Contains y (x ∷ xs)) xs (λ y h. inr h) (All-Contains_self xs),
)

-- Every picked row is a row of the table and passes the conditions of the SELECT.
pub pick-Contains :
    (d : Dialect) (f : Frontier) (n : ℕ) (locked : FrontierItem → Bool) (t : Table)
    → All (λ r. Contains r t.rows) (pick d f n locked t)
pick-Contains d f n locked t =
    All-pick (λ r. Contains r t.rows) d f n locked t
      (All-select (λ r. Contains r t.rows) (is_candidate d f locked) t.rows
        (All-Contains_self t.rows))

pub pick_passes :
    (d : Dialect) (f : Frontier) (n : ℕ) (locked : FrontierItem → Bool) (t : Table)
    → All (λ r. is_candidate d f locked r ≡ true) (pick d f n locked t)
pick_passes d f n locked t =
    All-pick (λ r. is_candidate d f locked r ≡ true) d f n locked t
      (All-select_passes (is_candidate d f locked) t.rows)

pub Contains-id_ge :
    (lo : ℕ) (rows : List FrontierItem) (hi : ℕ) (r : FrontierItem)
    → Ascending lo rows hi
    → Contains r rows
    → lo ≤ r.id
Contains-id_ge lo [] hi r h c = absurd c
Contains-id_ge lo (x ∷ rows) hi r h (inl e) = rw (← e) h.0
Contains-id_ge lo (x ∷ rows) hi r h (inr c) =
    omega (arith, Contains-id_ge (suc x.id) rows hi r h.1 c)

-- The id is a primary key.
pub Contains-unique :
    (lo : ℕ) (rows : List FrontierItem) (hi : ℕ) (a b : FrontierItem)
    → Ascending lo rows hi
    → Contains a rows
    → Contains b rows
    → a.id ≡ b.id
    → a ≡ b
Contains-unique lo [] hi a b h ca cb e = absurd ca
Contains-unique lo (x ∷ rows) hi a b h (inl ea) (inl eb) e = cc
Contains-unique lo (x ∷ rows) hi a b h (inl ea) (inr cb) e =
    absurd (
      omega (arith, Contains-id_ge (suc x.id) rows hi b h.1 cb, ap (λ (r : FrontierItem). r.id) ea))
Contains-unique lo (x ∷ rows) hi a b h (inr ca) (inl eb) e =
    absurd (
      omega (arith, Contains-id_ge (suc x.id) rows hi a h.1 ca, ap (λ (r : FrontierItem). r.id) eb))
Contains-unique lo (x ∷ rows) hi a b h (inr ca) (inr cb) e =
    Contains-unique (suc x.id) rows hi a b h.1 ca cb e

-- A row that is not pending is not among those picked.
one_of-false :
    (rows items : List FrontierItem) (hi : ℕ) (r : FrontierItem)
    → Ascending 0 rows hi
    → Contains r rows
    → is_pending r.status ≡ false
    → All (λ i. Contains i rows) items
    → All (λ i. is_pending i.status ≡ true) items
    → one_of items r ≡ false
unfolding any
one_of-false rows [] hi r a c s h p = refl
one_of-false rows (i ∷ is) hi r a c s h p = elim (Bool-cases (i.id == r.id)) [
  | inl e ↦ absurd (
      cc (
        ap (λ (r : FrontierItem). is_pending r.status)
          (Contains-unique 0 rows hi i r a h.0 c ((==_iff i.id r.id).0 e))))
  | inr e ↦ rw e (one_of-false rows is hi r a c s h.1 p.1)
]

pub candidate_is_pending :
    (d : Dialect) (f : Frontier) (locked : FrontierItem → Bool) (r : FrontierItem)
    → is_candidate d f locked r ≡ true
    → is_pending r.status ≡ true
candidate_is_pending d f locked r h = ground arith

pub one_of-pick :
    (d : Dialect) (f : Frontier) (n : ℕ) (locked : FrontierItem → Bool) (t : Table)
    (r : FrontierItem)
    → Ascending 0 t.rows t.next_id
    → Contains r t.rows
    → is_pending r.status ≡ false
    → one_of (pick d f n locked t) r ≡ false
one_of-pick d f n locked t r a c s =
    one_of-false t.rows (pick d f n locked t) t.next_id r a c s (pick-Contains d f n locked t) (
      All-map (λ i. is_candidate d f locked i ≡ true) (λ i. is_pending i.status ≡ true)
        (pick d f n locked t) (candidate_is_pending d f locked) (pick_passes d f n locked t))
