-- ===== src/Frontier/Selection.antt =====
-- Which items a `Dequeue` hands out, in which order, and what it does to their rows.
use ardvark.Prelude.{
  ℕ, zero, suc, ◌≤◌, ◌≡◌, ◌⊎◌, inl, inr, refl, ap, Bool, true, false, List, [], ◌∷◌, map, All,
  All-map, Bool-cases, select, take, length, length-take-le, arith, any, update_where-none, ◌==◌,
}
use ardvark.Store.Models.{FrontierItem}
use ardvark.Frontier.Db.{Table, Db, ok}
use ardvark.Frontier.Config.{Dialect, Frontier}
use ardvark.Frontier.Dequeue.{
  precedes, place, order, is_candidate, pick, one_of, mark, leased, commit, dequeue,
}
use ardvark.Frontier.Picked.{Contains, pick-Contains, pick_passes, All-take, All-place}
use ardvark.Frontier.Lookup.{quiet, row_at, changed_by, find-update_where}

abbrev pub IsOrdered : List FrontierItem → Type 0
IsOrdered [] = Unit {0}
IsOrdered (x ∷ xs) = All (λ y. precedes x y ≡ true) xs × IsOrdered xs

precedes_trans :
    (a b c : FrontierItem) → precedes a b ≡ true → precedes b c ≡ true → precedes a c ≡ true
precedes_trans a b c p q = ground arith

precedes_total : (a b : FrontierItem) → precedes a b ≡ false → precedes b a ≡ true
precedes_total a b p = ground arith

place-IsOrdered :
    (r : FrontierItem) (xs : List FrontierItem) → IsOrdered xs → IsOrdered (place r xs)
unfolding place
place-IsOrdered r [] h = (tt, tt)
place-IsOrdered r (x ∷ xs) h = elim (Bool-cases (precedes r x)) [
  | inl e ↦ rw e (
    (
      e,
      All-map (λ y. precedes x y ≡ true) (λ y. precedes r y ≡ true) xs
          (λ y p. precedes_trans r x y e p) h.0,
    ),
    h,
  )
  | inr e ↦ rw e (
    All-place (λ y. precedes x y ≡ true) r xs (precedes_total r x e) h.0,
    place-IsOrdered r xs h.1,
  )
]

order-IsOrdered : (xs : List FrontierItem) → IsOrdered (order xs)
unfolding order
order-IsOrdered [] = tt
order-IsOrdered (x ∷ xs) = place-IsOrdered x (order xs) (order-IsOrdered xs)

place-Contains_self : (r : FrontierItem) (xs : List FrontierItem) → Contains r (place r xs)
unfolding place
place-Contains_self r [] = inl refl
place-Contains_self r (x ∷ xs) = elim (Bool-cases (precedes r x)) [
  | inl e ↦ rw e (inl refl)
  | inr e ↦ rw e (inr (place-Contains_self r xs))
]

place-Contains :
    (r q : FrontierItem) (xs : List FrontierItem) → Contains q xs → Contains q (place r xs)
unfolding place
place-Contains r q [] c = absurd c
place-Contains r q (x ∷ xs) c = elim (Bool-cases (precedes r x)) [
  | inl e ↦ rw e (inr c)
  | inr e ↦ rw e (elim c [ inl h ↦ inl h | inr h ↦ inr (place-Contains r q xs h) ])
]

order-Contains : (q : FrontierItem) (xs : List FrontierItem) → Contains q xs → Contains q (order xs)
unfolding order
order-Contains q [] c = c
order-Contains q (x ∷ xs) (inl e) = rw e (place-Contains_self q (order xs))
order-Contains q (x ∷ xs) (inr c) = place-Contains x q (order xs) (order-Contains q xs c)

select-Contains :
    (p : FrontierItem → Bool) (q : FrontierItem) (xs : List FrontierItem)
    → p q ≡ true
    → Contains q xs
    → Contains q (select p xs)
unfolding select
select-Contains p q [] h c = c
select-Contains p q (x ∷ xs) h (inl e) = rw (e, h) (inl refl)
select-Contains p q (x ∷ xs) h (inr c) = elim (Bool-cases (p x)) [
  | inl e ↦ rw e (inr (select-Contains p q xs h c))
  | inr e ↦ rw e (select-Contains p q xs h c)
]

-- A member of an ordered list is among the first `n`, or these are `n` and precede it.
take-best :
    (n : ℕ) (q : FrontierItem) (xs : List FrontierItem)
    → IsOrdered xs
    → Contains q xs
    → Contains q (take n xs) ⊎ (length (take n xs) ≡ n) × All (λ i. precedes i q ≡ true) (take n xs)
take-best zero q xs o c = inr (refl, tt)
take-best (suc n) q [] o c = absurd c
take-best (suc n) q (x ∷ xs) o (inl e) = inl (inl e)
take-best (suc n) q (x ∷ xs) o (inr c) = elim (take-best n q xs o.1 c) [
  | inl h ↦ inl (inr h)
  | inr h ↦ inr (ap suc h.0, (all_at q xs o.0 c, h.1))
]
  where
    all_at :
        (q : FrontierItem) (xs : List FrontierItem)
        → All (λ y. precedes x y ≡ true) xs
        → Contains q xs
        → precedes x q ≡ true
    all_at q [] a c = absurd c
    all_at q (y ∷ ys) a (inl e) = rw (← e) a.0
    all_at q (y ∷ ys) a (inr c) = all_at q ys a.1 c

take-IsOrdered : (n : ℕ) (xs : List FrontierItem) → IsOrdered xs → IsOrdered (take n xs)
take-IsOrdered zero xs o = tt
take-IsOrdered (suc n) [] o = tt
take-IsOrdered (suc n) (x ∷ xs) o =
    (All-take (λ y. precedes x y ≡ true) n xs o.0, take-IsOrdered n xs o.1)

pick-IsOrdered :
    (d : Dialect) (f : Frontier) (n : ℕ) (locked : FrontierItem → Bool) (t : Table)
    → IsOrdered (pick d f n locked t)
unfolding pick
pick-IsOrdered d f n locked t =
    take-IsOrdered n (order (select (is_candidate d f locked) t.rows))
      (order-IsOrdered (select (is_candidate d f locked) t.rows))

-- No candidate is passed over for one that comes after it.
pick-best :
    (d : Dialect) (f : Frontier) (n : ℕ) (locked : FrontierItem → Bool) (t : Table)
    (q : FrontierItem)
    → Contains q t.rows
    → is_candidate d f locked q ≡ true
    → Contains q (pick d f n locked t)
      ⊎ (length (pick d f n locked t) ≡ n) × All (λ i. precedes i q ≡ true) (pick d f n locked t)
unfolding pick
pick-best d f n locked t q c h =
    take-best n q (order (select (is_candidate d f locked) t.rows))
      (order-IsOrdered (select (is_candidate d f locked) t.rows))
      (order-Contains q (select (is_candidate d f locked) t.rows)
        (select-Contains (is_candidate d f locked) q t.rows h c))

length-pick-le :
    (d : Dialect) (f : Frontier) (n : ℕ) (locked : FrontierItem → Bool) (t : Table)
    → length (pick d f n locked t) ≤ n
unfolding pick
length-pick-le d f n locked t = length-take-le n (order (select (is_candidate d f locked) t.rows))

pub mark_none : (f : Frontier) (now : ℕ) (t : Table) → mark f now [] t ≡ t
unfolding mark any
mark_none f now t =
    rw (update_where-none (λ r. false) (leased f now) t.rows (none_marked t.rows)) refl
  where
    none_marked : (rows : List FrontierItem) → All (λ r. ◌≡◌ {A = Bool} false false) rows
    none_marked [] = tt
    none_marked (r ∷ rows) = (refl, none_marked rows)

pick_zero :
    (d : Dialect) (f : Frontier) (locked : FrontierItem → Bool) (t : Table)
    → pick d f 0 locked t ≡ []
unfolding pick
pick_zero d f locked t = refl

suc_not_zero : (n : ℕ) → (suc n == 0) ≡ false
suc_not_zero n = ground arith

commit_lem :
    (f : Frontier) (now : ℕ) (items : List FrontierItem) (t : Table)
    → commit f now items [] t ≡ (ok (map (leased f now) items), quiet (mark f now items t))
unfolding commit
commit_lem f now [] t = rw (mark_none f now t) refl
commit_lem f now (i ∷ is) t = refl

pub dequeue_lem :
    (d : Dialect) (f : Frontier) (now n : ℕ) (t : Table)
    → let items = pick d f n (λ r. false) t in
      dequeue d f now n (quiet t) ≡ (ok (map (leased f now) items), quiet (mark f now items t))
unfolding dequeue
dequeue_lem d f now zero t = rw (pick_zero d f (λ r. false) t, mark_none f now t) refl
dequeue_lem d f now (suc n) t =
    rw (suc_not_zero n) (commit_lem f now (pick d f (suc n) (λ r. false) t) t)

-- What the items of a dequeue are, for the rows of the table that they come from.
pub record IsBest (d : Dialect) (f : Frontier) (n : ℕ) (t : Table) (items : List FrontierItem)
    : Type 0 where
  pub from_table : All (λ r. Contains r t.rows) items
  pub candidates : All (λ r. is_candidate d f (λ r. false) r ≡ true) items
  pub ordered : IsOrdered items
  pub bounded : length items ≤ n
  pub best :
      (q : FrontierItem)
      → Contains q t.rows
      → is_candidate d f (λ r. false) q ≡ true
      → Contains q items ⊎ (length items ≡ n) × All (λ i. precedes i q ≡ true) items

leased-id : (f : Frontier) (now : ℕ) (r : FrontierItem) → (leased f now r).id ≡ r.id
unfolding leased
leased-id f now r = refl

mark-row_at :
    (f : Frontier) (now : ℕ) (items : List FrontierItem) (t : Table) (j : ℕ)
    → row_at j (mark f now items t) ≡ changed_by (one_of items) (leased f now) (row_at j t)
unfolding mark
mark-row_at f now items t j =
    find-update_where (one_of items) (leased f now) t.rows j (leased-id f now)

pub dequeue-IsBest :
    (d : Dialect) (f : Frontier) (now n : ℕ) (t : Table)
    → (items : List FrontierItem) × (db : Db) × (dequeue d f now n (quiet t)
        ≡ (ok (map (leased f now) items), db))
      × IsBest d f n t items
      × ((j : ℕ) → row_at j db.table ≡ changed_by (one_of items) (leased f now) (row_at j t))
dequeue-IsBest d f now n t =
    let items = pick d f n (λ r. false) t in
    (
      items,
      quiet (mark f now items t),
      dequeue_lem d f now n t,
      record {
        from_table = pick-Contains d f n (λ r. false) t;
        candidates = pick_passes d f n (λ r. false) t;
        ordered = pick-IsOrdered d f n (λ r. false) t;
        bounded = length-pick-le d f n (λ r. false) t;
        best = pick-best d f n (λ r. false) t;
      },
      mark-row_at f now items t,
    )
