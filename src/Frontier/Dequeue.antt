-- ===== src/Frontier/Dequeue.antt =====
-- internal/frontier/frontier.go: `Dequeue`.
use ardvark.Prelude.{
  ℕ, ◌+◌, ◌%◌, ltb, leb, ◌==◌, Bool, ◌&&◌, ◌||◌, not, List, [], ◌∷◌, map, none, some, any, select,
  update_where, take, if◌then◌else◌,
}
use ardvark.Store.Models.{FrontierItem, in_flight, is_pending}
use ardvark.Frontier.Db.{
  Table, Event, Db, M, Result, ok, err, message, fault_of, peers_of, locked_of, later,
}
use ardvark.Frontier.Config.{Frontier, Dialect, FrontierError, driver, locking_supported}

-- `ORDER BY priority DESC, id ASC`.
abbrev pub precedes : FrontierItem → FrontierItem → Bool
precedes a b = ltb b.priority a.priority || ((a.priority == b.priority) && leb a.id b.id)

unfoldable pub place : FrontierItem → List FrontierItem → List FrontierItem
place r [] = r ∷ []
place r (x ∷ xs) = if precedes r x then r ∷ x ∷ xs else x ∷ place r xs

unfoldable pub order : List FrontierItem → List FrontierItem
unfolding place
order [] = []
order (r ∷ rs) = place r (order rs)

-- `host_shard % shardCount = shardIndex`, where sharding is on.
abbrev pub in_shard : Frontier → FrontierItem → Bool
in_shard f r = not (ltb 1 f.shard_count) || (r.host_shard % f.shard_count == f.shard_index)

-- The rows that the SELECT may return; with row locks, those that peers hold locked are skipped.
abbrev pub is_candidate : Dialect → Frontier → (FrontierItem → Bool) → FrontierItem → Bool
is_candidate d f locked r =
    is_pending r.status && in_shard f r && not (locking_supported d && locked r)

unfoldable pub pick : Dialect → Frontier → ℕ → (FrontierItem → Bool) → Table → List FrontierItem
unfolding order locking_supported
pick d f n locked t = take n (order (select (is_candidate d f locked) t.rows))

-- A row under a new lease of the worker.
unfoldable pub leased : Frontier → ℕ → FrontierItem → FrontierItem
leased f now r = record r {
  status = in_flight;
  leased_until = some (now + f.lease_duration);
  worker_id = f.worker_id;
}

-- `id IN ?`.
abbrev pub one_of : List FrontierItem → FrontierItem → Bool
one_of items r = any (λ i. i.id == r.id) items

unfoldable pub mark : Frontier → ℕ → List FrontierItem → Table → Table
mark f now items t = record t { rows = update_where (one_of items) (leased f now) t.rows }

-- The UPDATE and the commit. Peers wait for the transaction: their changes come after it.
unfoldable pub commit :
    Frontier
    → ℕ
    → List FrontierItem
    → List Event
    → Table
    → Result FrontierError (List FrontierItem) × Db
commit f now [] world t = (ok [], record { table = t; world = world })
commit f now (i ∷ is) world t = elim (fault_of world) [
  | none ↦ (
    ok (map (leased f now) (i ∷ is)),
    record { table = peers_of world (mark f now (i ∷ is) t); world = later world },
  )
  | some text ↦
      (err (driver (message text)), record { table = peers_of world t; world = later world })
]

unfoldable pub dequeue : Dialect → Frontier → ℕ → ℕ → M FrontierError (List FrontierItem)
unfolding commit pick
dequeue d f now n db =
    let t = peers_of db.world db.table in
    let items = pick d f n (locked_of db.world) t in
    let selected : Result FrontierError (List FrontierItem) × Db = elim (fault_of db.world) [
      | none ↦ commit f now items (later db.world) t
      | some text ↦ (err (driver (message text)), record { table = t; world = later db.world })
    ] in
    if n == 0 then (ok [], db) else selected
