-- ===== src/Frontier/Handout.antt =====
-- internal/frontier/frontier.go: what `Dequeue` hands out, stated by the columns of the rows: the
-- conditions of its SELECT, the order, and what its UPDATE writes.
use ardvark.Prelude.{
  ℕ, ◌+◌, ◌%◌, ◌<◌, ◌≤◌, ◌≡◌, ◌⊎◌, refl, sym, subst, ◌∙◌, inl, inr, Bool, true, false, List, [],
  ◌∷◌, map, All, All-map, any, find_passes, ltb, Option, none, some, length, Bool-cases, arith,
  ◌==◌, ==_iff,
}
use ardvark.Store.Models.{FrontierItem, Status, unset, pending, in_flight, done, failed, is_pending}
use ardvark.Frontier.Db.{Table, Db, ok}
use ardvark.Frontier.Config.{Dialect, Frontier}
use ardvark.Frontier.Dequeue.{precedes, is_candidate, one_of, leased, dequeue}
use ardvark.Frontier.Picked.{Contains}
use ardvark.Frontier.Lookup.{quiet, row_at, changed_by}
use ardvark.Frontier.Selection.{IsOrdered, IsBest, dequeue-IsBest}

-- A pending row of the worker's shard; with one worker at most, every row is in it.
abbrev pub IsReady : Frontier → FrontierItem → Type 0
IsReady f r =
    (r.status ≡ pending) × ((f.shard_count ≤ 1) ⊎ (r.host_shard % f.shard_count ≡ f.shard_index))

-- By falling priority, and then by rising id.
abbrev pub Comes : FrontierItem → FrontierItem → Type 0
Comes a b = (b.priority < a.priority) ⊎ (a.priority ≡ b.priority) × (a.id ≤ b.id)

abbrev pub InOrder : List FrontierItem → Type 0
InOrder [] = Unit {0}
InOrder (x ∷ xs) = All (Comes x) xs × InOrder xs

-- The row with a lease of the worker, from now.
abbrev pub lent : Frontier → ℕ → FrontierItem → FrontierItem
lent f now r = record r {
  status = in_flight;
  leased_until = some (now + f.lease_duration);
  worker_id = f.worker_id;
}

abbrev pub HasId : ℕ → List FrontierItem → Type 0
HasId j [] = ⊥
HasId j (x ∷ xs) = (x.id ≡ j) ⊎ HasId j xs

-- The rows that a dequeue of at most `n` takes.
pub record IsHandout (f : Frontier) (n : ℕ) (t : Table) (items : List FrontierItem) : Type 0 where
  pub from_table : All (λ r. Contains r t.rows) items
  pub ready : All (IsReady f) items
  pub ordered : InOrder items
  pub bounded : length items ≤ n
  pub best :
      (q : FrontierItem)
      → Contains q t.rows
      → IsReady f q
      → Contains q items ⊎ (length items ≡ n) × All (λ i. Comes i q) items

-- The rows taken are lent, and they alone.
abbrev pub Lends : Frontier → ℕ → List FrontierItem → Table → Table → Type 0
Lends f now items t t' =
    (j : ℕ)
    → ((r : FrontierItem) → row_at j t ≡ some r → HasId j items → row_at j t' ≡ some (lent f now r))
      × ((HasId j items → ⊥) → row_at j t' ≡ row_at j t)

is_pending-eq : (s : Status) → is_pending s ≡ true → s ≡ pending
is_pending-eq pending h = refl
is_pending-eq unset h = cc
is_pending-eq in_flight h = cc
is_pending-eq done h = cc
is_pending-eq failed h = cc

module _ (d : Dialect) (f : Frontier) where
  abbrev candidate : FrontierItem → Bool
  candidate = is_candidate d f (λ r. false)

  candidate-IsReady : (r : FrontierItem) → candidate r ≡ true → IsReady f r
  candidate-IsReady r h = (is_pending-eq r.status (ground (arith, h)), shard r h)
    where
      shard :
          (r : FrontierItem)
          → candidate r ≡ true
          → (f.shard_count ≤ 1) ⊎ (r.host_shard % f.shard_count ≡ f.shard_index)
      shard r h = elim (Bool-cases (ltb 1 f.shard_count)) [
        | inr n ↦ inl (ground (arith, n))
        | inl y ↦ inr (ground (arith, y, h))
      ]

  IsReady-candidate : (r : FrontierItem) → IsReady f r → candidate r ≡ true
  IsReady-candidate r h =
      rw h.0 (elim h.1 [ inl small ↦ ground (arith, small) | inr own ↦ ground (arith, own) ])

precedes-Comes : (a b : FrontierItem) → precedes a b ≡ true → Comes a b
precedes-Comes a b h = elim (Bool-cases (ltb b.priority a.priority)) [
  | inl y ↦ inl (ground (arith, y))
  | inr n ↦ inr (ground (arith, n, h), ground (arith, n, h))
]

IsOrdered-InOrder : (xs : List FrontierItem) → IsOrdered xs → InOrder xs
IsOrdered-InOrder [] h = tt
IsOrdered-InOrder (x ∷ xs) h = (
  All-map (λ y. precedes x y ≡ true) (Comes x) xs (precedes-Comes x) h.0,
  IsOrdered-InOrder xs h.1,
)

one_of-HasId :
    (items : List FrontierItem) (r : FrontierItem) → one_of items r ≡ true → HasId r.id items
unfolding any
one_of-HasId [] r h = cc
one_of-HasId (x ∷ xs) r h = elim (Bool-cases (x.id == r.id)) [
  | inl y ↦ inl ((==_iff x.id r.id).0 y)
  | inr n ↦ inr (one_of-HasId xs r (ground (arith, h, n)))
]

pub HasId-one_of :
    (items : List FrontierItem) (r : FrontierItem) → HasId r.id items → one_of items r ≡ true
unfolding any
HasId-one_of [] r h = absurd h
HasId-one_of (x ∷ xs) r (inl e) = rw ((==_iff x.id r.id).1 e) refl
HasId-one_of (x ∷ xs) r (inr h) = rw (HasId-one_of xs r h) (ground arith)

changed-Lends :
    (f : Frontier) (now : ℕ) (items : List FrontierItem) (t t' : Table)
    → ((j : ℕ) → row_at j t' ≡ changed_by (one_of items) (leased f now) (row_at j t))
    → Lends f now items t t'
unfolding leased
changed-Lends f now items t t' h j = (taken, left (row_at j t) refl)
  where
    id_of : (r : FrontierItem) → row_at j t ≡ some r → r.id ≡ j
    id_of r e = (==_iff r.id j).0 (find_passes (λ q. q.id == j) t.rows r e)

    taken :
        (r : FrontierItem) → row_at j t ≡ some r → HasId j items → row_at j t' ≡ some (lent f now r)
    taken r e in_items =
        h j
        ∙ rw (e, HasId-one_of items r (subst (λ i. HasId i items) (sym (id_of r e)) in_items)) refl

    left :
        (o : Option FrontierItem) → row_at j t ≡ o → (HasId j items → ⊥) → row_at j t' ≡ row_at j t
    left none e out = h j ∙ rw e refl
    left (some r) e out = elim (Bool-cases (one_of items r)) [
      | inl y ↦ absurd (out (subst (λ i. HasId i items) (id_of r e) (one_of-HasId items r y)))
      | inr n ↦ h j ∙ rw (e, n) refl
    ]

best-Handout :
    (d : Dialect) (f : Frontier) (n : ℕ) (t : Table) (items : List FrontierItem)
    → IsBest d f n t items
    → IsHandout f n t items
best-Handout d f n t items b = record {
  from_table = b.from_table;
  ready =
      All-map (λ r. is_candidate d f (λ q. false) r ≡ true) (IsReady f) items
        (candidate-IsReady d f) b.candidates;
  ordered = IsOrdered-InOrder items b.ordered;
  bounded = b.bounded;
  best = λ q c ready. elim (b.best q c (IsReady-candidate d f q ready)) [
    | inl here ↦ inl here
    | inr full ↦ inr (
      full.0,
      All-map (λ i. precedes i q ≡ true) (λ i. Comes i q) items (λ i. precedes-Comes i q) full.1,
    )
  ];
}

-- `Dequeue`, where no peer and no fault interferes: it returns at most `n` rows of the table, each
-- pending and, where there are several workers, of the worker's shard, by falling priority and then
-- rising id; no pending row of the shard is left out unless `n` rows that come before it are
-- returned. Exactly the rows returned are put in flight under the worker's name with a lease that
-- runs from now, both in the result and in the table, and the row of every other id stays as it is.
pub dequeue_outcome :
    (d : Dialect) (f : Frontier) (now n : ℕ) (t : Table)
    → (items : List FrontierItem) × (db : Db) × (dequeue d f now n (quiet t)
        ≡ (ok (map (lent f now) items), db))
      × IsHandout f n t items
      × Lends f now items t db.table
unfolding leased
dequeue_outcome d f now n t =
    let (items, db, result, best, rows) = dequeue-IsBest d f now n t in
    (items, db, result, best-Handout d f n t items best, changed-Lends f now items t db.table rows)
