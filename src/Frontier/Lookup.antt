-- ===== src/Frontier/Lookup.antt =====
-- The table seen as a map from ids to rows, and what an UPDATE of one row does to that map.
use ardvark.Prelude.{
  ℕ, suc, ◌<◌, ◌≡◌, refl, inl, inr, Bool, true, false, List, [], ◌∷◌, Option, none, some, All,
  Bool-cases, arith, ◌==◌, ==_iff, any, find, count_where, update_where, if◌then◌else◌,
  count_where-none,
}
use ardvark.Store.Models.{FrontierItem}
use ardvark.Frontier.Db.{Table, Db}
use ardvark.Frontier.Release.{has_id}
use ardvark.Frontier.Invariant.{Ascending}
use ardvark.Frontier.Picked.{Contains, Contains-id_ge}

-- A database that no peer shares and whose driver reports no fault.
abbrev pub quiet : Table → Db
quiet t = record { table = t; world = [] }

abbrev pub row_at : ℕ → Table → Option FrontierItem
row_at id t = find (has_id id) t.rows

abbrev pub changed_by :
    (FrontierItem → Bool)
    → (FrontierItem → FrontierItem)
    → Option FrontierItem
    → Option FrontierItem
changed_by p f none = none
changed_by p f (some r) = some (if p r then f r else r)

pub find-update_where :
    (p : FrontierItem → Bool) (f : FrontierItem → FrontierItem) (rows : List FrontierItem) (id : ℕ)
    → ((r : FrontierItem) → (f r).id ≡ r.id)
    → find (has_id id) (update_where p f rows) ≡ changed_by p f (find (has_id id) rows)
unfolding find update_where
find-update_where p f [] id h = refl
find-update_where p f (r ∷ rows) id h = ground (arith, h r, find-update_where p f rows id h)

-- A condition that fixes the id selects at most the row with that id.
module _ (p : FrontierItem → Bool) (id : ℕ)
    (pins : (r : FrontierItem) → p r ≡ true → r.id ≡ id) where
  above_unselected :
      (lo : ℕ) (rows : List FrontierItem) (hi : ℕ)
      → Ascending lo rows hi
      → id < lo
      → All (λ r. p r ≡ false) rows
  above_unselected lo [] hi h l = tt
  above_unselected lo (r ∷ rows) hi h l =
      (ground (arith, pins r), above_unselected (suc r.id) rows hi h.1 (omega arith))

  pub count-pinned :
      (lo : ℕ) (rows : List FrontierItem) (hi : ℕ)
      → Ascending lo rows hi
      → count_where p rows
        ≡ elim (find (has_id id) rows) [ none ↦ 0 | some r ↦ if p r then 1 else 0 ]
  unfolding count_where find
  count-pinned lo [] hi h = refl
  count-pinned lo (r ∷ rows) hi h = elim (Bool-cases (r.id == id)) [
    | inl e ↦
        rw
          (
            e,
            count_where-none p rows
                (above_unselected (suc r.id) rows hi h.1 (omega (arith, (==_iff r.id id).0 e))),
          )
          (ground arith)
    | inr e ↦ rw e (ground (arith, pins r, count-pinned (suc r.id) rows hi h.1))
  ]

  -- Every other id keeps its row.
  pub find-update_pinned :
      (f : FrontierItem → FrontierItem) (rows : List FrontierItem) (j : ℕ)
      → ((r : FrontierItem) → (f r).id ≡ r.id)
      → (j ≡ id → ⊥)
      → find (has_id j) (update_where p f rows) ≡ find (has_id j) rows
  unfolding find update_where
  find-update_pinned f [] j h ne = refl
  find-update_pinned f (r ∷ rows) j h ne =
      ground (arith, h r, pins r, find-update_pinned f rows j h ne)

pub any-find :
    {A : Type 0} (p : A → Bool) (xs : List A)
    → any p xs ≡ elim (find p xs) [ none ↦ false | some x ↦ true ]
unfolding any find
any-find p [] = refl
any-find p (x ∷ xs) = ground (arith, any-find p xs)

pub find-Contains :
    {A : Type 0} (p : A → Bool) (xs : List A) (x : A) → find p xs ≡ some x → Contains x xs
unfolding find
find-Contains p [] x e = cc
find-Contains p (y ∷ xs) x e = elim (Bool-cases (p y)) [
  | inl h ↦ inl (ground arith)
  | inr h ↦ inr (find-Contains p xs x (ground arith))
]

pub find-has_id :
    (lo : ℕ) (rows : List FrontierItem) (hi : ℕ) (r : FrontierItem)
    → Ascending lo rows hi
    → Contains r rows
    → find (has_id r.id) rows ≡ some r
unfolding find
find-has_id lo [] hi r h c = absurd c
find-has_id lo (x ∷ rows) hi r h (inl e) = rw e (ground arith)
find-has_id lo (x ∷ rows) hi r h (inr c) =
    ground
      (arith, Contains-id_ge (suc x.id) rows hi r h.1 c, find-has_id (suc x.id) rows hi r h.1 c)
