-- ===== src/Frontier/Invariant.antt =====
-- What holds of the table `frontier_items` between any two statements, and that each operation of
-- internal/frontier keeps it, whatever faults occur and whatever peers that keep it do in between.
use ardvark.Prelude.{
  ℕ, suc, ◌≤◌, ◌<◌, ◌≡◌, ◌≢◌, refl, sym, inl, inr, Bool, true, false, List, [], ◌∷◌, ◌++◌, none,
  Text, All, All-append, All-update_where, Bool-cases, arith, text_eq, text_eq_iff, any,
  update_where,
}
use ardvark.Store.Models.{FrontierItem, is_in_flight, host_shard_count}
use ardvark.Frontier.Db.{Table, insert_row}

abbrev pub IsReleased : FrontierItem → Type 0
IsReleased r = (r.leased_until ≡ none) × (r.worker_id ≡ [])

-- A row in flight has a lease, and any other row has neither a lease nor a worker.
pub record IsLeaseOk (r : FrontierItem) : Type 0 where
  pub held : is_in_flight r.status ≡ true → r.leased_until ≢ none
  pub released : is_in_flight r.status ≡ false → IsReleased r

-- The ids rise from `lo` and stay under `hi`.
abbrev pub Ascending : ℕ → List FrontierItem → ℕ → Type 0
Ascending lo [] hi = lo ≤ hi
Ascending lo (r ∷ rs) hi = (lo ≤ r.id) × Ascending (suc r.id) rs hi

abbrev pub LacksKey : Text → List FrontierItem → Type 0
LacksKey key = All (λ r. r.dedup_key ≢ key)

-- The unique index on `dedup_key`.
abbrev pub KeysDistinct : List FrontierItem → Type 0
KeysDistinct [] = Unit {0}
KeysDistinct (r ∷ rs) = LacksKey r.dedup_key rs × KeysDistinct rs

pub record IsValid (t : Table) : Type 0 where
  pub ids : Ascending 0 t.rows t.next_id
  pub keys : KeysDistinct t.rows
  pub leases : All IsLeaseOk t.rows
  pub shards : All (λ r. r.host_shard < host_shard_count) t.rows

-- A change of a row that leaves its identity alone.
pub record IsIdentityKept (f : FrontierItem → FrontierItem) : Type 0 where
  pub id_kept : (r : FrontierItem) → (f r).id ≡ r.id
  pub key_kept : (r : FrontierItem) → (f r).dedup_key ≡ r.dedup_key
  pub shard_kept : (r : FrontierItem) → (f r).host_shard ≡ r.host_shard

module _ (p : FrontierItem → Bool) (f : FrontierItem → FrontierItem) (same : IsIdentityKept f) where
  pub Ascending-update :
      (lo : ℕ) (rows : List FrontierItem) (hi : ℕ)
      → Ascending lo rows hi
      → Ascending lo (update_where p f rows) hi
  unfolding update_where
  Ascending-update lo [] hi h = h
  Ascending-update lo (r ∷ rows) hi h =
      ground (arith, same.id_kept r, Ascending-update (suc r.id) rows hi h.1)

  LacksKey-update :
      (key : Text) (rows : List FrontierItem)
      → LacksKey key rows
      → LacksKey key (update_where p f rows)
  unfolding update_where
  LacksKey-update key [] h = tt
  LacksKey-update key (r ∷ rows) h = ground (arith, same.key_kept r, LacksKey-update key rows h.1)

  KeysDistinct-update :
      (rows : List FrontierItem) → KeysDistinct rows → KeysDistinct (update_where p f rows)
  unfolding update_where
  KeysDistinct-update [] h = tt
  KeysDistinct-update (r ∷ rows) h = elim (Bool-cases (p r)) [
    | inl e ↦
        rw (e, same.key_kept r) (LacksKey-update r.dedup_key rows h.0, KeysDistinct-update rows h.1)
    | inr e ↦ rw e (LacksKey-update r.dedup_key rows h.0, KeysDistinct-update rows h.1)
  ]

  pub IsValid-update :
      ((r : FrontierItem) → p r ≡ true → IsLeaseOk r → IsLeaseOk (f r))
      → (t : Table) → IsValid t
      → IsValid (record t { rows = update_where p f t.rows })
  IsValid-update lease t v = record {
    ids = Ascending-update 0 t.rows t.next_id v.ids;
    keys = KeysDistinct-update t.rows v.keys;
    leases = All-update_where IsLeaseOk p f t.rows lease v.leases;
    shards =
        All-update_where (λ r. r.host_shard < host_shard_count) p f t.rows
          (λ r _ h. rw (same.shard_kept r) h) v.shards;
  }

Ascending-append :
    (lo : ℕ) (rows : List FrontierItem) (hi : ℕ) (r : FrontierItem)
    → r.id ≡ hi
    → Ascending lo rows hi
    → Ascending lo (rows ++ r ∷ []) (suc hi)
Ascending-append lo [] hi r e h = omega arith
Ascending-append lo (x ∷ rows) hi r e h = (h.0, Ascending-append (suc x.id) rows hi r e h.1)

any-LacksKey :
    (key : Text) (rows : List FrontierItem)
    → any (λ r. text_eq r.dedup_key key) rows ≡ false
    → LacksKey key rows
unfolding any
any-LacksKey key [] h = tt
any-LacksKey key (r ∷ rows) h = ground (arith, text_eq_iff r.dedup_key key, any-LacksKey key rows)

KeysDistinct-append :
    (rows : List FrontierItem) (r : FrontierItem)
    → LacksKey r.dedup_key rows
    → KeysDistinct rows
    → KeysDistinct (rows ++ r ∷ [])
KeysDistinct-append [] r l h = (tt, tt)
KeysDistinct-append (x ∷ rows) r l h = (
  All-append (λ q. q.dedup_key ≢ x.dedup_key) rows (r ∷ []) h.0 ((λ e. l.0 (sym e)), tt),
  KeysDistinct-append rows r l.1 h.1,
)

-- An item that may be stored: not yet in flight, and with no lease.
pub record IsStorable (item : FrontierItem) : Type 0 where
  pub idle : is_in_flight item.status ≡ false
  pub no_lease : IsReleased item
  pub in_range : item.host_shard < host_shard_count

pub IsValid-insert :
    (conflict : Text) (item : FrontierItem)
    → IsStorable item
    → (t : Table) → IsValid t
    → IsValid (insert_row conflict item t).1
IsValid-insert conflict item s t v =
    elim (Bool-cases (any (λ r. text_eq r.dedup_key item.dedup_key) t.rows)) [
      | inl e ↦ rw e v
      | inr e ↦
          let row = record item { id = t.next_id } in
          rw e (record {
            ids = Ascending-append 0 t.rows t.next_id row refl v.ids;
            keys = KeysDistinct-append t.rows row (any-LacksKey item.dedup_key t.rows e) v.keys;
            leases =
                All-append IsLeaseOk t.rows (row ∷ []) v.leases
                  (record { held = λ h. cc; released = λ _. s.no_lease }, tt);
            shards =
                All-append (λ r. r.host_shard < host_shard_count) t.rows (row ∷ []) v.shards
                  (s.in_range, tt);
          })
    ]
