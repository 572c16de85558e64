-- ===== src/Crawler/Steps.antt =====
-- internal/crawler: that an item's handling, with the settlement that follows, keeps the table of the
-- frontier valid.
use ardvark.Prelude.{
  ℕ, suc, ltb, ◌==◌, Bool, true, false, ◌&&◌, not, List, [], ◌∷◌, Option, none, some, Text, codes,
  contains, if◌then◌else◌,
}
use ardvark.Failure.{Failure, transient}
use ardvark.Frontier.Db.{Table, Db, Result, ok, err}
use ardvark.Frontier.Enqueue.{enqueue_budgeted}
use ardvark.Frontier.Rely.{Holds}
use ardvark.Effects.{return, throw, try, ◌>>=◌, ◌>>◌, for_each, logged}
use ardvark.Store.Models.{FrontierItem, kind_page_fetch, kind_host_probe, kind_catalog_fetch}
use ardvark.Store.Tables.{Domain, anchor, seed, probe_method_link_tag}
use ardvark.Store.Statements.{StoreError}
use ardvark.Store.Domains.{
  upsert_domain, domain_by_host, recently_probed, record_probe, restore_domain_last_probed_at,
}
use ardvark.Store.Catalogs.{save_artifact}
use ardvark.Ard.Inline.{inline_catalogs}
use ardvark.Harvest.{Links, extract_links}
use ardvark.Probe.{Fetched, FetchFailure, Response, fetched, broken, Attempt, hit}
use ardvark.Probe
use ardvark.Crawler.Keys.{no_provenance, build_item}
use ardvark.Crawler.Fanout.{enqueue_page_fetch, enqueue_link, enqueue_links, follow_links}
use ardvark.Crawler.World.{Crawl, Got, got, skip, failed, on_store, ask_store}
use ardvark.Crawler.Rows.{method_text}
use ardvark.Crawler.Catalogs.{done}
use ardvark.Crawler.Requests.{with_method, enqueue_for, resume_for, process_found}
use ardvark.Crawler.Pages.{
  host_upserted, follow_host, link_tag_probe, hint_upserted, hint_at, follow_hint, inline_found,
  process_nodes, process_inline_catalogs, follow_page_links, page_links, page_got,
  handle_page_fetch,
}
use ardvark.Crawler.Probing.{
  probe_row, record_hit, record_other, record_result, record_attempt, had_hit, first_retry,
  conclude, restore, probe_domain, probe_now, known_hits, resume_hit, reenqueue_known_catalog_hits,
  unless_recent, handle_host_probe,
}
use ardvark.Crawler.Documents.{
  served_by, report_failure, catalog_found, catalog_response, handle_catalog_fetch,
  errored_artifact, artifact_got, handle_artifact_fetch,
}
use ardvark.Crawler.Handling.{
  KeptByEnqueues, built-IsFresh, enqueue_for-KeepsIn, resume_for-KeepsIn, process_found-KeepsIn,
}
use ardvark.Crawler.Keeps.{
  KeepsIn, KeepsIn-try, KeepsIn-bind, KeepsIn-seq, KeepsIn-if, KeepsIn-for_each, KeepsIn-done,
}

module _ (P : Table → Type 0) (c : Crawl) (kept : KeptByEnqueues P c) where
  host_upserted-KeepsIn :
      (host : Text) (r : Result StoreError Domain) → KeepsIn P (host_upserted c host r)
  host_upserted-KeepsIn host (err e) = λ w h. h
  host_upserted-KeepsIn host (ok d) =
      KeepsIn-done P c (enqueue_for c kind_host_probe [] host 0 no_provenance)
        (enqueue_for-KeepsIn P c kept kind_host_probe [] host 0 no_provenance)

  hint_upserted-KeepsIn :
      (url host : Text) (r : Result StoreError Domain) → KeepsIn P (hint_upserted c url host r)
  hint_upserted-KeepsIn url host (err e) = λ w h. h
  hint_upserted-KeepsIn url host (ok d) =
      KeepsIn-seq P (logged {F = Failure} (on_store (record_probe (link_tag_probe c url d.id))))
        (enqueue_for c kind_catalog_fetch url host 0 (with_method probe_method_link_tag) >>= done c)
        (λ w h. h)
        (KeepsIn-done P c
          (enqueue_for c kind_catalog_fetch url host 0 (with_method probe_method_link_tag))
          (enqueue_for-KeepsIn P c kept kind_catalog_fetch url host 0
            (with_method probe_method_link_tag)))

  hint_at-KeepsIn : (url : Text) (o : Option Text) → KeepsIn P (hint_at c url o)
  hint_at-KeepsIn url none = λ w h. h
  hint_at-KeepsIn url (some host) =
      KeepsIn-try P (ask_store (upsert_domain c.now host anchor)) (hint_upserted c url host)
        (λ w h. h) (hint_upserted-KeepsIn url host)

  nodes-KeepsIn :
      (page_url host : Text) (block i : ℕ) (raws : List Text)
      → KeepsIn P (process_nodes c page_url host block i raws)
  unfolding process_nodes
  nodes-KeepsIn page_url host block i [] = λ w h. h
  nodes-KeepsIn page_url host block i (raw ∷ raws) =
      KeepsIn-seq P (process_found c (inline_found c page_url host block i raw))
        (process_nodes c page_url host block (suc i) raws)
        (process_found-KeepsIn P c kept (inline_found c page_url host block i raw))
        (nodes-KeepsIn page_url host block (suc i) raws)

  inline-KeepsIn :
      (page_url host : Text) (i : ℕ) (blocks : List Text)
      → KeepsIn P (process_inline_catalogs c page_url host i blocks)
  unfolding process_inline_catalogs
  inline-KeepsIn page_url host i [] = λ w h. h
  inline-KeepsIn page_url host i (block ∷ blocks) =
      KeepsIn-seq P
        (process_nodes c page_url host i 0 (inline_catalogs c.encode (c.decode_block block)))
        (process_inline_catalogs c page_url host (suc i) blocks)
        (nodes-KeepsIn page_url host i 0 (inline_catalogs c.encode (c.decode_block block)))
        (inline-KeepsIn page_url host (suc i) blocks)

  link-Keeps :
      (link : Text) (depth : ℕ) (o : Option Text) (db : Db)
      → Holds P db
      → Holds P (enqueue_link c.producer link depth o db)
  unfolding enqueue_page_fetch enqueue_budgeted
  link-Keeps link depth none db h = h
  link-Keeps link depth (some host) db h =
      kept
        (build_item c.producer.digest c.producer.run_id kind_page_fetch link host depth
          no_provenance)
        (some c.producer.max_pages_per_domain) true true
        (built-IsFresh P c kept kind_page_fetch link host depth no_provenance) db h

  links-Keeps :
      (depth : ℕ) (links : List Text) (db : Db)
      → Holds P db
      → Holds P (enqueue_links c.producer depth links db)
  unfolding enqueue_links
  links-Keeps depth [] db h = h
  links-Keeps depth (link ∷ links) db h =
      links-Keeps depth links (enqueue_link c.producer link depth (c.producer.host_of link) db)
        (link-Keeps link depth (c.producer.host_of link) db h)

  if-Holds : (b : Bool) (x y : Db) → Holds P x → Holds P y → Holds P (if b then x else y)
  if-Holds true x y hx hy = hx
  if-Holds false x y hx hy = hy

  page_links-KeepsIn :
      (item : FrontierItem) (page_url : Text) (o : Option Links)
      → KeepsIn P (page_links c item page_url o)
  unfolding follow_links
  page_links-KeepsIn item page_url none = λ w h. h
  page_links-KeepsIn item page_url (some r) =
      let hosts = for_each (follow_host c) r.hosts in
      let hints = for_each (follow_hint c) r.ai_catalog_hints in
      let blocks = process_inline_catalogs c page_url item.host 0 r.json_ld in
      KeepsIn-seq P (hosts >> hints >> blocks) (follow_page_links c item r.links)
        (KeepsIn-seq P (hosts >> hints) blocks
          (KeepsIn-seq P hosts hints
            (KeepsIn-for_each P (follow_host c)
              (λ host.
                KeepsIn-try P (ask_store (upsert_domain c.now host anchor)) (host_upserted c host)
                  (λ w h. h) (host_upserted-KeepsIn host))
              r.hosts)
            (KeepsIn-for_each P (follow_hint c)
              (λ url. hint_at-KeepsIn url (c.producer.host_of url)) r.ai_catalog_hints))
          (inline-KeepsIn page_url item.host 0 r.json_ld))
        (λ w h.
          if-Holds (ltb item.depth c.producer.max_depth) _ w.frontier
            (links-Keeps (suc item.depth) r.links w.frontier h) h)

  page_got-KeepsIn : (item : FrontierItem) (g : Got) → KeepsIn P (page_got c item g)
  page_got-KeepsIn item skip = λ w h. h
  page_got-KeepsIn item (failed e) = λ w h. h
  page_got-KeepsIn item (got f) =
      let links = extract_links c.names.unicode c.urls c.fields f.url (c.parse_html f.body) in
      KeepsIn-if P (contains (c.names.unicode.to_lower f.content_type) (codes "html"))
        (page_links c item f.url links) (return tt) (page_links-KeepsIn item f.url links) (λ w h. h)

  pub handle_page_fetch-KeepsIn : (item : FrontierItem) → KeepsIn P (handle_page_fetch c item)
  unfolding handle_page_fetch
  handle_page_fetch-KeepsIn item = page_got-KeepsIn item (c.get item.url)

  other_result : (host : Text) (id : ℕ) (r : Attempt) → KeepsIn P (record_other c host id r)
  other_result host id r =
      KeepsIn-seq P (on_store (record_probe (probe_row c id r r.url r.error_detail))) _ (λ w h. h)
        (λ w h. h)

  record_result-KeepsIn :
      (host : Text) (id : ℕ) (r : Attempt) (o : Probe.Found)
      → KeepsIn P (record_result c host id r o)
  record_result-KeepsIn host id r hit =
      KeepsIn-for_each P (record_hit c host id r)
        (λ url.
          KeepsIn-seq P (on_store (record_probe (probe_row c id r url []))) _ (λ w h. h)
            (KeepsIn-done P c
              (resume_for c kind_catalog_fetch url host 0 (with_method (method_text r.method)))
              (resume_for-KeepsIn P c kept kind_catalog_fetch url host 0
                (with_method (method_text r.method)))))
        r.catalog_urls
  record_result-KeepsIn host id r Probe.miss = other_result host id r
  record_result-KeepsIn host id r Probe.error = other_result host id r

  conclude-KeepsIn : (id : ℕ) (b : Bool) (o : Option Failure) → KeepsIn P (conclude c id b o)
  conclude-KeepsIn id true o = λ w h. h
  conclude-KeepsIn id false none = λ w h. h
  conclude-KeepsIn id false (some e) = λ w h. h

  restore-KeepsIn : (d : Domain) (o : Option Failure) → KeepsIn P (restore c d o)
  restore-KeepsIn d none = λ w h. h
  restore-KeepsIn d (some e) =
      KeepsIn-seq P (on_store (restore_domain_last_probed_at d.id d.last_probed_at)) (throw e)
        (λ w h. h) (λ w h. h)

  probe_now-KeepsIn : (item : FrontierItem) → KeepsIn P (probe_now c item)
  probe_now-KeepsIn item =
      KeepsIn-bind P (on_store (upsert_domain c.now item.host seed)) (probe_domain c item)
        (λ w h. h)
        (λ d.
          let rs = c.probe_host item.host in
          KeepsIn-seq P
            (for_each (record_attempt c item.host d.id) rs
              >> conclude c d.id (had_hit c rs) (first_retry c rs))
            (restore c d (first_retry c rs))
            (KeepsIn-seq P (for_each (record_attempt c item.host d.id) rs)
              (conclude c d.id (had_hit c rs) (first_retry c rs))
              (KeepsIn-for_each P (record_attempt c item.host d.id)
                (λ r. record_result-KeepsIn item.host d.id r r.outcome) rs)
              (conclude-KeepsIn d.id (had_hit c rs) (first_retry c rs)))
            (restore-KeepsIn d (first_retry c rs)))

  reenqueue-KeepsIn : (host : Text) → KeepsIn P (reenqueue_known_catalog_hits c host)
  unfolding reenqueue_known_catalog_hits
  reenqueue-KeepsIn host =
      KeepsIn-bind P (on_store (domain_by_host host)) _ (λ w h. h)
        (λ d.
          KeepsIn-bind P (on_store (known_hits c d.id)) _ (λ w h. h)
            (KeepsIn-for_each P (resume_hit c host) (λ p.
              KeepsIn-done P c (resume_for c kind_catalog_fetch p.url host 0 (with_method p.method))
                (resume_for-KeepsIn P c kept kind_catalog_fetch p.url host 0
                  (with_method p.method)))))

  unless_recent-KeepsIn :
      (item : FrontierItem) (r : Result StoreError Bool) → KeepsIn P (unless_recent c item r)
  unless_recent-KeepsIn item (ok true) = reenqueue-KeepsIn item.host
  unless_recent-KeepsIn item (ok false) = probe_now-KeepsIn item
  unless_recent-KeepsIn item (err e) = probe_now-KeepsIn item

  pub handle_host_probe-KeepsIn : (item : FrontierItem) → KeepsIn P (handle_host_probe c item)
  unfolding handle_host_probe
  handle_host_probe-KeepsIn item =
      KeepsIn-if P (not c.force && (item.attempts == 0))
        (try (ask_store (recently_probed c.now item.host c.refresh_window)) (unless_recent c item))
        (probe_now c item)
        (KeepsIn-try P (ask_store (recently_probed c.now item.host c.refresh_window))
          (unless_recent c item) (λ w h. h) (unless_recent-KeepsIn item))
        (probe_now-KeepsIn item)

  catalog_response-KeepsIn :
      (item : FrontierItem) (r : Response) → KeepsIn P (catalog_response c item r)
  catalog_response-KeepsIn item (broken e) =
      KeepsIn-seq P (report_failure c item e) (throw e.failure)
        (KeepsIn-if P (transient e.failure) (return tt) _ (λ w h. h) (λ w h. h)) (λ w h. h)
  catalog_response-KeepsIn item (fetched f) = served (c.producer.host_of f.url)
    where
      served : (o : Option Text) → KeepsIn P (served_by c item f o)
      served none = λ w h. h
      served (some host) = process_found-KeepsIn P c kept (catalog_found c item f host)

  pub handle_catalog_fetch-KeepsIn : (item : FrontierItem) → KeepsIn P (handle_catalog_fetch c item)
  unfolding handle_catalog_fetch
  handle_catalog_fetch-KeepsIn item = catalog_response-KeepsIn item (c.get_well_known item.url)

  artifact_got-KeepsIn : (item : FrontierItem) (g : Got) → KeepsIn P (artifact_got c item g)
  artifact_got-KeepsIn item skip = λ w h. h
  artifact_got-KeepsIn item (failed e) =
      KeepsIn-if P (transient e.failure) (throw e.failure)
        (on_store (save_artifact (errored_artifact c item e))) (λ w h. h) (λ w h. h)
  artifact_got-KeepsIn item (got f) = λ w h. h

  pub handle_artifact_fetch-KeepsIn :
      (item : FrontierItem) → KeepsIn P (handle_artifact_fetch c item)
  unfolding handle_artifact_fetch
  handle_artifact_fetch-KeepsIn item = artifact_got-KeepsIn item (c.get item.url)
