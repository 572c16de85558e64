-- ===== src/Crawler/Probed.antt =====
-- internal/crawler/handlers.go: that `handleHostProbe` leaves the fetch of every catalog that it found, or
-- that an earlier probe found, in the frontier.
use ardvark.Prelude.{
  ℕ, ◌==◌, ◌≡◌, refl, inl, inr, ◌⊎◌, Bool, true, false, ◌&&◌, not, List, [], All, Option, none,
  some, Text, Bool-cases,
}
use ardvark.Failure.{Failure}
use ardvark.Frontier.Db.{Table, Result, ok, err}
use ardvark.Frontier.Keys.{Calm}
use ardvark.Effects.{◌>>=◌, ◌>>◌, for_each}
use ardvark.Store.Models.{FrontierItem, kind_catalog_fetch}
use ardvark.Store.Tables.{Domain, Probe, seed}
use ardvark.Store.Statements.{Store, StoreError}
use ardvark.Store.Domains.{
  upsert_domain, domain_by_host, recently_probed, record_probe, restore_domain_last_probed_at,
}
use ardvark.Probe.{Attempt, hit}
use ardvark.Probe
use ardvark.Crawler.World.{World, H, Crawl, on_store}
use ardvark.Crawler.Rows.{method_text}
use ardvark.Crawler.Requests.{with_method, resume_for}
use ardvark.Crawler.Probing.{
  probe_row, record_hit, record_other, record_result, record_attempt, had_hit, first_retry,
  conclude, restore, probe_domain, probe_now, known_hits, resume_hit, reenqueue_known_catalog_hits,
  unless_recent, handle_host_probe,
}
use ardvark.Crawler.Leaves.{
  Leaves, IsLeft, Anything, IsStable, All-IsStable, Leaves-return, Leaves-throw, Leaves-still,
  Leaves-bind, Leaves-weaken, Leaves-after_ok, Leaves-done, Leaves-for_each, IsLeft-from,
  IsLeft-weaken, Leaves-asked,
}
use ardvark.Crawler.Followups.{Queued, Queued-IsStable, resume_for-Queued}

module _ (c : Crawl) where
  abbrev pub CatalogQueued : Text → Text → Text → Table → Type 0
  CatalogQueued host method url = Queued c kind_catalog_fetch url host (with_method method)

  -- The catalogs that an attempt found.
  abbrev pub FoundQueued : Text → Attempt → Probe.Found → Table → Type 0
  FoundQueued host r o t =
      (o ≡ hit) → All (λ url. CatalogQueued host (method_text r.method) url t) r.catalog_urls

  FoundQueued-IsStable :
      (host : Text) (r : Attempt) (o : Probe.Found) → IsStable (FoundQueued host r o)
  FoundQueued-IsStable host r o t u g p e =
      All-IsStable (λ url. CatalogQueued host (method_text r.method) url) r.catalog_urls
        (λ url. Queued-IsStable c kind_catalog_fetch url host (with_method (method_text r.method)))
        t u g (p e)

  record_hit-Queued :
      (host : Text) (id : ℕ) (r : Attempt) (url : Text)
      → Leaves (λ a. CatalogQueued host (method_text r.method) url) (record_hit c host id r url)
  record_hit-Queued host id r url =
      Leaves-after_ok (on_store (record_probe (probe_row c id r url []))) _
        (λ a. CatalogQueued host (method_text r.method) url) (λ w. refl)
        (λ a.
          Leaves-done c
            (resume_for c kind_catalog_fetch url host 0 (with_method (method_text r.method)))
            (CatalogQueued host (method_text r.method) url)
            (resume_for-Queued c kind_catalog_fetch url host 0 (with_method (method_text r.method)))
            (Queued-IsStable c kind_catalog_fetch url host (with_method (method_text r.method))))

  record_other-Leaves :
      (host : Text) (id : ℕ) (r : Attempt) → Leaves Anything (record_other c host id r)
  record_other-Leaves host id r =
      Leaves-after_ok (on_store (record_probe (probe_row c id r r.url r.error_detail))) _ Anything
        (λ w. refl) (λ a. Leaves-still _ (λ w. refl))

  record_result-Queued :
      (host : Text) (id : ℕ) (r : Attempt) (o : Probe.Found)
      → Leaves (λ a. FoundQueued host r o) (record_result c host id r o)
  record_result-Queued host id r hit =
      Leaves-weaken _ _ _
        (Leaves-for_each (record_hit c host id r)
          (λ url. CatalogQueued host (method_text r.method) url) r.catalog_urls
          (λ url.
            Queued-IsStable c kind_catalog_fetch url host (with_method (method_text r.method)))
          (record_hit-Queued host id r))
        (λ a t q e. q)
  record_result-Queued host id r Probe.miss =
      Leaves-weaken _ _ _ (record_other-Leaves host id r) (λ a t q e. cc)
  record_result-Queued host id r Probe.error =
      Leaves-weaken _ _ _ (record_other-Leaves host id r) (λ a t q e. cc)

  conclude-Leaves : (id : ℕ) (b : Bool) (o : Option Failure) → Leaves Anything (conclude c id b o)
  conclude-Leaves id true o = Leaves-still (conclude c id true o) (λ w. refl)
  conclude-Leaves id false none = Leaves-still (conclude c id false none) (λ w. refl)
  conclude-Leaves id false (some e) = Leaves-return tt

  restore-Leaves : (d : Domain) (o : Option Failure) → Leaves Anything (restore c d o)
  restore-Leaves d none = Leaves-return tt
  restore-Leaves d (some e) =
      Leaves-after_ok (on_store (restore_domain_last_probed_at d.id d.last_probed_at)) _ Anything
        (λ w. refl) (λ a. Leaves-throw Anything e)

  -- The catalogs that the probe of a host finds now.
  abbrev pub AllQueued : Text → Table → Type 0
  AllQueued host t = All (λ r. FoundQueued host r r.outcome t) (c.probe_host host)

  AllQueued-IsStable : (host : Text) → IsStable (AllQueued host)
  AllQueued-IsStable host =
      All-IsStable (λ r. FoundQueued host r r.outcome) (c.probe_host host)
        (λ r. FoundQueued-IsStable host r r.outcome)

  probe_now-Queued : (item : FrontierItem) → Leaves (λ a. AllQueued item.host) (probe_now c item)
  unfolding for_each
  probe_now-Queued item =
      Leaves-after_ok (on_store (upsert_domain c.now item.host seed)) (probe_domain c item)
        (λ a. AllQueued item.host) (λ w. refl) probed
    where
      kept :
          (P : Table → Type 0) (m n : H (Unit {0}))
          → IsStable P
          → Leaves (λ a. P) m
          → Leaves Anything n
          → Leaves (λ a. P) (m >> n)
      kept P m n stable hm hn =
          Leaves-bind m (λ x. n) (λ a. P) (λ a. Anything) (λ a. P) hm (λ a. stable) (λ a. hn)
            (λ a b t p q. p)

      probed : (d : Domain) → Leaves (λ a. AllQueued item.host) (probe_domain c item d)
      probed d =
          let rs = c.probe_host item.host in
          kept (AllQueued item.host)
            (for_each (record_attempt c item.host d.id) rs
              >> conclude c d.id (had_hit c rs) (first_retry c rs))
            (restore c d (first_retry c rs)) (AllQueued-IsStable item.host)
            (kept (AllQueued item.host) (for_each (record_attempt c item.host d.id) rs)
              (conclude c d.id (had_hit c rs) (first_retry c rs)) (AllQueued-IsStable item.host)
              (Leaves-for_each (record_attempt c item.host d.id)
                (λ r. FoundQueued item.host r r.outcome) rs
                (λ r. FoundQueued-IsStable item.host r r.outcome)
                (λ r. record_result-Queued item.host d.id r r.outcome))
              (conclude-Leaves d.id (had_hit c rs) (first_retry c rs)))
            (restore-Leaves d (first_retry c rs))

  -- The catalogs that the store knows of: for the hits that its two lookups gave, from the store `s` on.
  abbrev pub KnownQueued : Text → Store → Table → Type 0
  KnownQueued host s t =
      (d : Domain) × (hits : List Probe) × ((domain_by_host host s).0 ≡ ok d)
      × ((known_hits c d.id (domain_by_host host s).1).0 ≡ ok hits)
      × All (λ p. CatalogQueued host p.method p.url t) hits

  reenqueue_lem :
      (host : Text) (w : World)
      → Calm w.frontier.world
      → IsLeft (λ a. KnownQueued host w.store) w (reenqueue_known_catalog_hits c host w)
  unfolding reenqueue_known_catalog_hits
  reenqueue_lem host w h =
      Leaves-asked (domain_by_host host)
        (λ d. on_store (known_hits c d.id) >>= λ hits. for_each (resume_hit c host) hits) w
        (KnownQueued host w.store) h after_domain
    where
      all_resumed :
          (hits : List Probe)
          → Leaves
              (λ a t. All (λ p. CatalogQueued host p.method p.url t) hits)
              (for_each (resume_hit c host) hits)
      all_resumed hits =
          Leaves-for_each (resume_hit c host) (λ p. CatalogQueued host p.method p.url) hits
            (λ p. Queued-IsStable c kind_catalog_fetch p.url host (with_method p.method))
            (λ p.
              Leaves-done c (resume_for c kind_catalog_fetch p.url host 0 (with_method p.method))
                (CatalogQueued host p.method p.url)
                (resume_for-Queued c kind_catalog_fetch p.url host 0 (with_method p.method))
                (Queued-IsStable c kind_catalog_fetch p.url host (with_method p.method)))

      w1 : World
      w1 = record w { store = (domain_by_host host w.store).1 }

      after_hits :
          (d : Domain)
          → ((domain_by_host host w.store).0 ≡ ok d)
          → (hits : List Probe) → ((known_hits c d.id w1.store).0 ≡ ok hits)
          → IsLeft
              (λ a. KnownQueued host w.store)
              w1
              (for_each
                (resume_hit c host)
                hits
                (record w1 { store = (known_hits c d.id w1.store).1 }))
      after_hits d e hits f =
          let w2 = record w1 { store = (known_hits c d.id w1.store).1 } in
          IsLeft-from _ w2 w1 _ refl
            (IsLeft-weaken _ _ w2 _ (all_resumed hits w2 h) (λ a t q. (d, hits, e, f, q)))

      after_domain :
          (d : Domain)
          → ((domain_by_host host w.store).0 ≡ ok d)
          → IsLeft
              (λ a. KnownQueued host w.store)
              w
              ((on_store (known_hits c d.id) >>= λ hits. for_each (resume_hit c host) hits) w1)
      after_domain d e = IsLeft-from _ w1 w _ refl (
          Leaves-asked (known_hits c d.id) (λ hits. for_each (resume_hit c host) hits) w1
            (KnownQueued host w.store) h (after_hits d e))

  -- What a host that is not probed again leaves.
  abbrev pub asked_recently : FrontierItem → Store → Result StoreError Bool × Store
  asked_recently item s = recently_probed c.now item.host c.refresh_window s

  -- Where `handleHostProbe` ends without an error, the fetch of every catalog that the probe found is in
  -- the frontier; or the host has been probed recently, and so is the fetch of every catalog that the
  -- store has a hit of for the host; whatever peers that only add keys do in between, and whatever
  -- other faults occur. No key is lost in any case.
  pub handle_host_probe-Queued :
      (item : FrontierItem) (w : World)
      → Calm w.frontier.world
      → IsLeft
          (λ a t.
            AllQueued item.host t
            ⊎ (((asked_recently item w.store).0 ≡ ok true)
                × KnownQueued item.host (asked_recently item w.store).1 t))
          w
          (handle_host_probe c item w)
  unfolding handle_host_probe
  handle_host_probe-Queued item w h = elim (Bool-cases (not c.force && (item.attempts == 0))) [
    | inr n ↦ rw n (probed w h)
    | inl y ↦ rw y (asked (asked_recently item w.store).0 refl)
  ]
    where
      Post : Unit {0} → Table → Type 0
      Post a t =
          AllQueued item.host t
          ⊎ (((asked_recently item w.store).0 ≡ ok true)
              × KnownQueued item.host (asked_recently item w.store).1 t)

      w1 : World
      w1 = record w { store = (asked_recently item w.store).1 }

      probed : (v : World) → Calm v.frontier.world → IsLeft Post v (probe_now c item v)
      probed v calm = IsLeft-weaken _ _ v _ (probe_now-Queued item v calm) (λ a t q. inl q)

      asked :
          (r : Result StoreError Bool)
          → (asked_recently item w.store).0 ≡ r
          → IsLeft Post w (unless_recent c item r w1)
      asked (ok true) e =
          IsLeft-from _ w1 w _ refl
            (IsLeft-weaken _ _ w1 _ (reenqueue_lem item.host w1 h) (λ a t q. inr (e, q)))
      asked (ok false) e = IsLeft-from _ w1 w _ refl (probed w1 h)
      asked (err x) e = IsLeft-from _ w1 w _ refl (probed w1 h)
