-- ===== src/Crawler/Fanout.antt =====
-- internal/crawler/engine.go: how the engine enqueues; internal/crawler/handlers.go: the loop of
-- `handlePageFetch` over the links of a page. A failed enqueue is logged, which is left out.
use ardvark.Prelude.{ℕ, suc, ltb, List, [], ◌∷◌, Option, none, some, Text, Bool, if◌then◌else◌}
use ardvark.Store.Models.{kind_page_fetch}
use ardvark.Frontier.Db.{Db, M}
use ardvark.Frontier.Config.{Dialect, FrontierError}
use ardvark.Frontier.Enqueue.{enqueue, ensure, resume, enqueue_budgeted}
use ardvark.Crawler.Keys.{Provenance, no_provenance, build_item}

-- What an engine enqueues with: the driver, the host of a URL as the frontier and as `hostOf` find
-- it, the digest of keys, the run, and the limits of the configuration.
pub record Producer : Type 0 where
  pub dialect : Dialect
  pub hostname : Text → Option Text
  pub host_of : Text → Option Text
  pub digest : Text → Text
  pub run_id : ℕ
  pub max_pages_per_domain : ℕ
  pub max_depth : ℕ

module _ (p : Producer) where
  -- `Engine.enqueue`.
  unfoldable pub enqueue_item : Text → Text → Text → ℕ → Provenance → M FrontierError Bool
  unfolding enqueue build_item
  enqueue_item kind url host depth prov =
      enqueue p.dialect p.hostname (build_item p.digest p.run_id kind url host depth prov)

  -- `Engine.ensure`.
  unfoldable pub ensure_item : Text → Text → Text → ℕ → Provenance → M FrontierError Bool
  unfolding ensure build_item
  ensure_item kind url host depth prov =
      ensure p.dialect p.hostname (build_item p.digest p.run_id kind url host depth prov)

  -- `Engine.resume`.
  unfoldable pub resume_item : Text → Text → Text → ℕ → Provenance → M FrontierError Bool
  unfolding resume build_item
  resume_item kind url host depth prov =
      resume p.dialect p.hostname (build_item p.digest p.run_id kind url host depth prov)

  unfoldable pub enqueue_page_fetch : Text → Text → ℕ → M FrontierError Bool
  unfolding enqueue_budgeted build_item
  enqueue_page_fetch url host depth =
      enqueue_budgeted p.dialect p.hostname
        (build_item p.digest p.run_id kind_page_fetch url host depth no_provenance)
        (some p.max_pages_per_domain)

  abbrev pub enqueue_link : Text → ℕ → Option Text → Db → Db
  enqueue_link link depth none db = db
  enqueue_link link depth (some host) db = (enqueue_page_fetch link host depth db).1

  -- The loop over `result.Links`, in which an error of one link goes on to the next.
  unfoldable pub enqueue_links : ℕ → List Text → Db → Db
  unfolding enqueue_page_fetch
  enqueue_links depth [] db = db
  enqueue_links depth (link ∷ links) db =
      enqueue_links depth links (enqueue_link link depth (p.host_of link) db)

  -- `if item.Depth < e.maxDepth() { … }`.
  unfoldable pub follow_links : ℕ → List Text → Db → Db
  unfolding enqueue_links
  follow_links depth links db =
      let followed = enqueue_links (suc depth) links db in
      if ltb depth p.max_depth then followed else db
