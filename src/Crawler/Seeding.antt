-- ===== src/Crawler/Seeding.antt =====
-- internal/crawler/engine.go: `EnqueueSeedURL` and `EnqueueSeedHost`, where a crawl starts.
use ardvark.Prelude.{[], Bool, Option, none, some, Text}
use ardvark.Effects.{throw, ◌>>◌}
use ardvark.Store.Models.{kind_page_fetch, kind_host_probe}
use ardvark.Store.Tables.{DiscoverySource}
use ardvark.Store.Domains.{upsert_domain}
use ardvark.Crawler.Keys.{no_provenance}
use ardvark.Crawler.World.{H, Crawl, on_store}
use ardvark.Crawler.Requests.{no_host, enqueue_for}

module _ (c : Crawl) where
  abbrev pub seed_on : Text → Option Text → H Bool
  seed_on url none = throw no_host
  seed_on url (some host) = enqueue_for c kind_page_fetch url host 0 no_provenance

  -- `EnqueueSeedURL`.
  unfoldable pub enqueue_seed_url : Text → H Bool
  unfolding enqueue_for
  enqueue_seed_url url = seed_on url (c.producer.host_of url)

  -- `EnqueueSeedHost`.
  unfoldable pub enqueue_seed_host : Text → DiscoverySource → H Bool
  unfolding enqueue_for upsert_domain
  enqueue_seed_host host source =
      on_store (upsert_domain c.now host source)
      >> enqueue_for c kind_host_probe [] host 0 no_provenance
