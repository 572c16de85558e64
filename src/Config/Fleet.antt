-- ===== src/Config/Fleet.antt =====
-- internal/config/config.go and internal/frontier: that a worker whose configuration loads has a part of
-- the shards.
use ardvark.Prelude.{
  ℕ, ◌%◌, ◌<◌, ◌≤◌, ◌≡◌, subst, inl, inr, true, Text, leb, ltb, Bool-cases, arith,
}
use ardvark.Frontier.Db.{Result, ok, err}
use ardvark.Frontier.Config.{Frontier}
use ardvark.Frontier.Dequeue.{in_shard}
use ardvark.Store.Models.{FrontierItem, host_shard_count}
use ardvark.Config.{Config, defaults}
use ardvark.Config.Loading.{
  Outside, FileRead, absent, unreadable_file, contents, validate, validate_semantics, checked,
  decoded, normalized, past_schema, load_bytes, loaded_from, anchor_paths, opened, load,
}

abbrev IsPlaced : Config → Type 0
IsPlaced cfg =
    (cfg.crawler.worker.index < cfg.crawler.worker.count)
    × (cfg.crawler.worker.count ≤ host_shard_count)

abbrev Placed : Result Text Config → Type 0
Placed (err why) = Unit {0}
Placed (ok cfg) = IsPlaced cfg

module _ (outside : Outside) where
  checked-Placed : (cfg : Config) → Placed (checked outside cfg (validate_semantics cfg))
  unfolding validate_semantics
  checked-Placed cfg =
      let w = cfg.crawler.worker in
      elim (Bool-cases (leb w.count w.index)) [
        | inl y ↦ rw y tt
        | inr n ↦ rw n elim (Bool-cases (ltb host_shard_count w.count)) [
          | inl y ↦ rw y tt
          | inr m ↦ rw m (ground (arith, n), ground (arith, m))
        ]
      ]

  decoded-Placed : (r : Result Text Config) → Placed (decoded outside r)
  decoded-Placed (err why) = tt
  decoded-Placed (ok cfg) = checked-Placed cfg

  normalized-Placed : (r : Result Text Text) → Placed (normalized outside r)
  normalized-Placed (err why) = tt
  normalized-Placed (ok text) = decoded-Placed (outside.decode_over defaults text)

  past_schema-Placed :
      (raw : Text) (r : Result Text (Unit {0})) → Placed (past_schema outside raw r)
  past_schema-Placed raw (err why) = tt
  past_schema-Placed raw (ok u) = normalized-Placed (outside.renormalize raw)

  loaded_from-Placed :
      (path : Text) (r : Result Text Config) → Placed r → Placed (loaded_from outside path r)
  unfolding anchor_paths
  loaded_from-Placed path (err why) h = tt
  loaded_from-Placed path (ok cfg) h = h

  opened-Placed : (path : Text) (r : FileRead) → Placed (opened outside path r)
  unfolding load_bytes defaults
  opened-Placed path absent = (omega arith, omega arith)
  opened-Placed path (unreadable_file why) = tt
  opened-Placed path (contents raw) =
      loaded_from-Placed path (load_bytes outside raw)
        (past_schema-Placed raw (validate outside raw))

  load-Placed : (path : Text) → Placed (load outside path)
  unfolding load
  load-Placed path = opened-Placed path (outside.read_file path)

  own_shard : (count index shard : ℕ) → index < count → shard ≡ index → shard % count ≡ index
  own_shard count index shard h e = grind (arith, h, e)

  -- A worker whose configuration `Load` accepts, whether it comes from a file or there is none, has a
  -- shard in the range of the shards of hosts, all rows of which it may dequeue.
  pub load_lem :
      (path : Text) (cfg : Config) (f : Frontier)
      → load outside path ≡ ok cfg
      → f.shard_index ≡ cfg.crawler.worker.index
      → f.shard_count ≡ cfg.crawler.worker.count
      → (shard : ℕ) × (shard < host_shard_count)
        × ((r : FrontierItem) → r.host_shard ≡ shard → in_shard f r ≡ true)
  load_lem path cfg f h i c =
      let placed = subst Placed h (load-Placed path) in
      let w = cfg.crawler.worker in
      (
        w.index,
        omega (arith, placed.0, placed.1),
        λ r e. rw (i, c, own_shard w.count w.index r.host_shard placed.0 e) (ground arith),
      )
