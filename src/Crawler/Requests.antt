-- ===== src/Crawler/Requests.antt =====
-- internal/crawler: what the handlers of internal/crawler/handlers.go share: the calls of `enqueue` and
-- `resume`, and of `processCatalog` with enough fuel.
use ardvark.Prelude.{ℕ, suc, ◌-◌, Bool, Text, codes}
use ardvark.Failure.{Failure}
use ardvark.Crawler.Keys.{Provenance, no_provenance}
use ardvark.Crawler.Fanout.{enqueue_item, resume_item}
use ardvark.Crawler.World.{H, Crawl, plain_failure, on_frontier}
use ardvark.Crawler.Catalogs.{Found, process_catalog}

abbrev pub with_method : Text → Provenance
with_method method = let p = no_provenance in record p { probe_method = method }

abbrev pub no_host : Failure
no_host = plain_failure (codes "crawler: url has no host")

module _ (c : Crawl) where
  unfoldable pub enqueue_for : Text → Text → Text → ℕ → Provenance → H Bool
  unfolding enqueue_item
  enqueue_for kind url host depth prov =
      on_frontier (enqueue_item c.producer kind url host depth prov)

  unfoldable pub resume_for : Text → Text → Text → ℕ → Provenance → H Bool
  unfolding resume_item
  resume_for kind url host depth prov =
      on_frontier (resume_item c.producer kind url host depth prov)

  -- Enough fuel for the catalogs that `processCatalog` follows from a depth.
  abbrev pub levels : ℕ → ℕ
  levels depth = suc (c.max_catalog_depth - depth)

  abbrev pub process_found : Found → H (Unit {0})
  process_found f = process_catalog c (levels f.depth) f
