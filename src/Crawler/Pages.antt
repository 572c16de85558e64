-- ===== src/Crawler/Pages.antt =====
-- internal/crawler/handlers.go: `handlePageFetch`.
use ardvark.Prelude.{
  ℕ, suc, List, [], ◌∷◌, ◌++◌, Option, none, some, Text, codes, contains, if◌then◌else◌,
}
use ardvark.Frontier.Db.{Result, ok, err}
use ardvark.Effects.{return, throw, try, ◌>>=◌, ◌>>◌, logged, for_each}
use ardvark.Store.Models.{FrontierItem, kind_host_probe, kind_catalog_fetch}
use ardvark.Store.Tables.{
  Domain, anchor, Probe, probe_outcome_hit, probe_method_link_tag, probe_method_in_page,
}
use ardvark.Store.Statements.{StoreError}
use ardvark.Store.Domains.{upsert_domain, record_probe}
use ardvark.Ard.Inline.{inline_catalogs}
use ardvark.Crawler.Digits.{decimal}
use ardvark.Crawler.Keys.{no_provenance}
use ardvark.Crawler.Fanout.{follow_links}
use ardvark.Harvest.{Links, extract_links}
use ardvark.Crawler.World.{H, Crawl, Got, got, skip, failed, ask_store, on_store}
use ardvark.Crawler.Catalogs.{Found, done, process_catalog}
use ardvark.Crawler.Requests.{with_method, enqueue_for, process_found}

module _ (c : Crawl) where
  -- The loop over `result.Hosts`.
  abbrev pub host_upserted : Text → Result StoreError Domain → H (Unit {0})
  host_upserted host (err e) = return tt
  host_upserted host (ok d) = enqueue_for c kind_host_probe [] host 0 no_provenance >>= done c

  abbrev pub follow_host : Text → H (Unit {0})
  follow_host host = try (ask_store (upsert_domain c.now host anchor)) (host_upserted host)

  abbrev pub link_tag_probe : Text → ℕ → Probe
  link_tag_probe url domain_id = record {
    id = 0;
    domain_id = domain_id;
    method = probe_method_link_tag;
    url = url;
    http_status = 0;
    content_type = [];
    outcome = probe_outcome_hit;
    error_detail = [];
    probed_at = c.now;
  }

  abbrev pub hint_upserted : Text → Text → Result StoreError Domain → H (Unit {0})
  hint_upserted url host (err e) = return tt
  hint_upserted url host (ok d) =
      logged (on_store (record_probe (link_tag_probe url d.id)))
      >> (enqueue_for c kind_catalog_fetch url host 0 (with_method probe_method_link_tag)
          >>= done c)

  abbrev pub hint_at : Text → Option Text → H (Unit {0})
  hint_at url none = return tt
  hint_at url (some host) =
      try (ask_store (upsert_domain c.now host anchor)) (hint_upserted url host)

  -- The loop over `result.AICatalogHints`.
  abbrev pub follow_hint : Text → H (Unit {0})
  follow_hint url = hint_at url (c.producer.host_of url)

  abbrev pub inline_found : Text → Text → ℕ → ℕ → Text → Found
  inline_found page_url host block node raw = record {
    raw = raw;
    content_hash = c.sha256 raw;
    host = host;
    source_url = page_url ++ codes "#ld+json=" ++ decimal block ++ 46 ∷ decimal node;
    parent_catalog_id = none;
    probe_method = probe_method_in_page;
    depth = 0;
    transport_checks = [];
  }

  -- The inner loop of `processInlineCatalogs`, from node `i` on.
  unfoldable pub process_nodes : Text → Text → ℕ → ℕ → List Text → H (Unit {0})
  unfolding process_catalog decimal
  process_nodes page_url host block i [] = return tt
  process_nodes page_url host block i (raw ∷ raws) =
      process_found c (inline_found page_url host block i raw)
      >> process_nodes page_url host block (suc i) raws

  -- `processInlineCatalogs`, from block `i` on.
  unfoldable pub process_inline_catalogs : Text → Text → ℕ → List Text → H (Unit {0})
  unfolding process_nodes
  process_inline_catalogs page_url host i [] = return tt
  process_inline_catalogs page_url host i (block ∷ blocks) =
      process_nodes page_url host i 0 (inline_catalogs c.encode (c.decode_block block))
      >> process_inline_catalogs page_url host (suc i) blocks

  abbrev pub follow_page_links : FrontierItem → List Text → H (Unit {0})
  follow_page_links item links w =
      (ok tt, record w { frontier = follow_links c.producer item.depth links w.frontier })

  abbrev pub page_links : FrontierItem → Text → Option Links → H (Unit {0})
  page_links item page_url none = return tt
  page_links item page_url (some r) =
      for_each follow_host r.hosts
      >> for_each follow_hint r.ai_catalog_hints
      >> process_inline_catalogs page_url item.host 0 r.json_ld
      >> follow_page_links item r.links

  abbrev pub page_got : FrontierItem → Got → H (Unit {0})
  page_got item skip = return tt
  page_got item (failed e) = throw e.failure
  page_got item (got f) =
      if contains (c.names.unicode.to_lower f.content_type) (codes "html")
      then page_links item f.url
          (extract_links c.names.unicode c.urls c.fields f.url (c.parse_html f.body))
      else return tt

  -- `handlePageFetch`.
  unfoldable pub handle_page_fetch : FrontierItem → H (Unit {0})
  unfolding for_each process_inline_catalogs follow_links extract_links contains enqueue_for
      upsert_domain record_probe
  handle_page_fetch item = page_got item (c.get item.url)
