-- ===== src/Crawler/Probing.antt =====
-- internal/crawler/handlers.go: `handleHostProbe`.
use ardvark.Prelude.{
  ℕ, ◌==◌, Bool, true, false, ◌&&◌, ◌||◌, not, List, [], ◌∷◌, select, Option, none, some, Text,
  text_eq, if◌then◌else◌,
}
use ardvark.Failure.{Failure}
use ardvark.Frontier.Db.{Result, ok, err}
use ardvark.Effects.{return, throw, try, ◌>>=◌, ◌>>◌, logged, for_each}
use ardvark.Store.Models.{FrontierItem, kind_catalog_fetch}
use ardvark.Store.Tables.{Tables, Domain, seed, not_found, Probe, probe_outcome_hit}
use ardvark.Store.Statements.{StoreError, S, statement}
use ardvark.Store.Domains.{
  upsert_domain, domain_by_host, recently_probed, record_probe, promote_domain_advertised,
  update_domain_ard_status, restore_domain_last_probed_at,
}
use ardvark.Probe.{Fetched, FetchFailure, Response, fetched, broken, hit, Attempt}
use ardvark.Probe
use ardvark.Crawler.World.{H, Crawl, ask_store, on_store, emit}
use ardvark.Crawler.Rows.{found_text, method_text, probe_detail}
use ardvark.Crawler.Catalogs.{done}
use ardvark.Crawler.Requests.{with_method, resume_for}

module _ (c : Crawl) where
  abbrev pub probe_row : ℕ → Attempt → Text → Text → Probe
  probe_row domain_id r url detail = record {
    id = 0;
    domain_id = domain_id;
    method = method_text r.method;
    url = url;
    http_status = r.http_status;
    content_type = r.content_type;
    outcome = found_text r.outcome;
    error_detail = detail;
    probed_at = c.now;
  }

  -- The loop over `r.CatalogURLs`.
  abbrev pub record_hit : Text → ℕ → Attempt → Text → H (Unit {0})
  record_hit host domain_id r url =
      on_store (record_probe (probe_row domain_id r url []))
      >> (resume_for c kind_catalog_fetch url host 0 (with_method (method_text r.method))
          >>= done c)

  abbrev pub record_other : Text → ℕ → Attempt → H (Unit {0})
  record_other host domain_id r =
      on_store (record_probe (probe_row domain_id r r.url r.error_detail))
      >> emit (record {
        host = host;
        method = method_text r.method;
        outcome = found_text r.outcome;
        verdict = none;
        detail = probe_detail r;
      })

  -- One round of the loop over the results.
  abbrev pub record_result : Text → ℕ → Attempt → Probe.Found → H (Unit {0})
  record_result host domain_id r hit = for_each (record_hit host domain_id r) r.catalog_urls
  record_result host domain_id r Probe.miss = record_other host domain_id r
  record_result host domain_id r Probe.error = record_other host domain_id r

  abbrev pub record_attempt : Text → ℕ → Attempt → H (Unit {0})
  record_attempt host domain_id r = record_result host domain_id r r.outcome

  abbrev pub is_hit : Attempt → Bool
  is_hit r = text_eq (found_text r.outcome) probe_outcome_hit

  -- `hadHit`.
  unfoldable pub had_hit : List Attempt → Bool
  unfolding text_eq
  had_hit [] = false
  had_hit (r ∷ rs) = is_hit r || had_hit rs

  abbrev pub or_first : Option Failure → Option Failure → Option Failure
  or_first (some e) later = some e
  or_first none later = later

  -- `retryErr`.
  unfoldable pub first_retry : List Attempt → Option Failure
  unfolding text_eq
  first_retry [] = none
  first_retry (r ∷ rs) = or_first (if is_hit r then none else r.retry_error) (first_retry rs)

  -- The `switch` after the loop.
  abbrev pub conclude : ℕ → Bool → Option Failure → H (Unit {0})
  conclude domain_id true retry = logged (on_store (promote_domain_advertised domain_id))
  conclude domain_id false none = logged (on_store (update_domain_ard_status domain_id not_found))
  conclude domain_id false (some e) = return tt

  abbrev pub restore : Domain → Option Failure → H (Unit {0})
  restore d none = return tt
  restore d (some e) = on_store (restore_domain_last_probed_at d.id d.last_probed_at) >> throw e

  abbrev pub probe_domain : FrontierItem → Domain → H (Unit {0})
  probe_domain item d =
      let rs = c.probe_host item.host in
      for_each (record_attempt item.host d.id) rs
      >> conclude d.id (had_hit rs) (first_retry rs)
      >> restore d (first_retry rs)

  abbrev pub probe_now : FrontierItem → H (Unit {0})
  probe_now item = on_store (upsert_domain c.now item.host seed) >>= probe_domain item

  abbrev pub is_known_hit : ℕ → Probe → Bool
  is_known_hit domain_id p = (p.domain_id == domain_id) && text_eq p.outcome probe_outcome_hit

  abbrev pub hits_row : ℕ → Tables → Result StoreError (List Probe) × Tables
  hits_row domain_id t = (ok (select (is_known_hit domain_id) t.probes.rows), t)

  -- The query of `reenqueueKnownCatalogHits`.
  unfoldable pub known_hits : ℕ → S (List Probe)
  unfolding statement select text_eq
  known_hits domain_id = statement (hits_row domain_id)

  abbrev pub resume_hit : Text → Probe → H (Unit {0})
  resume_hit host p = resume_for c kind_catalog_fetch p.url host 0 (with_method p.method) >>= done c

  -- `reenqueueKnownCatalogHits`.
  unfoldable pub reenqueue_known_catalog_hits : Text → H (Unit {0})
  unfolding domain_by_host known_hits for_each resume_for
  reenqueue_known_catalog_hits host = on_store (domain_by_host host) >>= λ d.
      on_store (known_hits d.id) >>= λ hits. for_each (resume_hit host) hits

  abbrev pub unless_recent : FrontierItem → Result StoreError Bool → H (Unit {0})
  unless_recent item (ok true) = reenqueue_known_catalog_hits item.host
  unless_recent item (ok false) = probe_now item
  unless_recent item (err e) = probe_now item

  -- `handleHostProbe`.
  unfoldable pub handle_host_probe : FrontierItem → H (Unit {0})
  unfolding recently_probed reenqueue_known_catalog_hits upsert_domain for_each record_probe
      resume_for had_hit first_retry promote_domain_advertised update_domain_ard_status
      restore_domain_last_probed_at probe_detail
  handle_host_probe item =
      if not c.force && (item.attempts == 0)
      then try (ask_store (recently_probed c.now item.host c.refresh_window)) (unless_recent item)
      else probe_now item
