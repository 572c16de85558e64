-- ===== src/Crawler/PageBudget.antt =====
-- The links of one page cannot take any host over its budget of pages.
use ardvark.Prelude.{
  ℕ, suc, ◌≤◌, ◌≡◌, refl, sym, ap, ◌∙◌, subst, inl, inr, Bool, true, false, ltb, List, [], ◌∷◌,
  Option, none, some, Text, text_eq, text_eq-eq, is_empty, count_where, Bool-cases, arith,
}
use ardvark.Store.Models.{FrontierItem, kind_page_fetch}
use ardvark.Frontier.Db.{Table, Db, Result}
use ardvark.Frontier.Config.{FrontierError}
use ardvark.Frontier.Enqueue.{enqueue_budgeted, of_host_kind, unchanged, reactivated, stamp}
use ardvark.Frontier.Invariant.{IsValid}
use ardvark.Frontier.Validity.{IsFresh, enqueue_with-IsValid}
use ardvark.Frontier.Lookup.{quiet}
use ardvark.Frontier.Admission.{
  Decision, insert, skip, revive, decide, within, Effect, key_at, enqueue_outcome,
}
use ardvark.Frontier.Budget.{
  enqueue_budgeted_bound, count_where-append, count_where-update, reactivated-of_host_kind,
}
use ardvark.Crawler.Keys.{no_provenance, build_item, natural_key, preimage}
use ardvark.Crawler.Fanout.{Producer, enqueue_page_fetch, enqueue_link, enqueue_links, follow_links}

-- How many pages a host has in the frontier.
abbrev pub pages_of : Text → Table → ℕ
pages_of host t = count_where (of_host_kind host kind_page_fetch) t.rows

-- The database is a valid table without interference in which the host is within the budget.
abbrev pub WithinBudget : Text → ℕ → Db → Type 0
WithinBudget host max db = (t : Table) × (db ≡ quiet t) × IsValid t × (pages_of host t ≤ max)

quiet-Effect :
    (t : Table) (item : FrontierItem) (c : Decision) (out : Result FrontierError Bool × Db)
    → Effect t item c out
    → out.1 ≡ quiet out.1.table
quiet-Effect t item insert out e =
    ap (λ (o : Result FrontierError Bool × Db). o.1) e
    ∙ sym (ap (λ (o : Result FrontierError Bool × Db). quiet o.1.table) e)
quiet-Effect t item skip out e =
    ap (λ (o : Result FrontierError Bool × Db). o.1) e
    ∙ sym (ap (λ (o : Result FrontierError Bool × Db). quiet o.1.table) e)
quiet-Effect t item (revive r) out e =
    ap (λ (o : Result FrontierError Bool × Db). o.1) e.0
    ∙ sym (ap (λ (o : Result FrontierError Bool × Db). quiet o.1.table) e.0)

-- A call for another host leaves the pages of this one.
other-Effect :
    (host : Text) (t : Table) (item : FrontierItem) (c : Decision)
    (out : Result FrontierError Bool × Db)
    → text_eq item.host host ≡ false
    → Effect t item c out
    → pages_of host out.1.table ≡ pages_of host t
unfolding count_where
other-Effect host t item insert out other e =
    ap (λ (o : Result FrontierError Bool × Db). pages_of host o.1.table) e
    ∙ (count_where-append (of_host_kind host kind_page_fetch) t.rows
          (record item { id = t.next_id } ∷ [])
        ∙ rw other (omega arith))
other-Effect host t item skip out other e =
    ap (λ (o : Result FrontierError Bool × Db). pages_of host o.1.table) e
other-Effect host t item (revive r) out other e =
    ap (λ (o : Result FrontierError Bool × Db). pages_of host o.1.table) e.0
    ∙ count_where-update (of_host_kind host kind_page_fetch) (unchanged r) (reactivated item) t.rows
        (λ q. reactivated-of_host_kind item q host kind_page_fetch)

module _ (p : Producer) (filled : (s : Text) → is_empty (p.digest s) ≡ false) where
  abbrev page : Text → Text → ℕ → FrontierItem
  page url host depth = build_item p.digest p.run_id kind_page_fetch url host depth no_provenance

  page-IsFresh : (url host : Text) (depth : ℕ) → IsFresh (page url host depth)
  unfolding build_item
  page-IsFresh url host depth = record { idle = refl; no_lease = (refl, refl) }

  page-dedup_key : (url host : Text) (depth : ℕ) → is_empty (page url host depth).dedup_key ≡ false
  unfolding build_item
  page-dedup_key url host depth =
      filled (preimage kind_page_fetch (natural_key kind_page_fetch url host no_provenance))

  stamp-host : (url host : Text) (depth : ℕ) → (stamp p.hostname (page url host depth)).host ≡ host
  unfolding stamp build_item
  stamp-host url host depth = refl

  page_bound :
      (host url : Text) (depth : ℕ) (t : Table)
      → IsValid t
      → pages_of host t ≤ p.max_pages_per_domain
      → pages_of host (enqueue_page_fetch p url host depth (quiet t)).1.table
        ≤ p.max_pages_per_domain
  unfolding enqueue_page_fetch build_item
  page_bound host url depth t v h =
      enqueue_budgeted_bound p.dialect p.hostname (page url host depth) t p.max_pages_per_domain v
        (page-dedup_key url host depth) h

  page-Effect :
      (url host : Text) (depth : ℕ) (t : Table)
      → IsValid t
      → Effect t
          (stamp p.hostname (page url host depth))
          (decide true true
            (within t (page url host depth) (some p.max_pages_per_domain))
            (key_at (page url host depth).dedup_key t))
          (enqueue_page_fetch p url host depth (quiet t))
  unfolding enqueue_page_fetch enqueue_budgeted
  page-Effect url host depth t v =
      enqueue_outcome p.dialect p.hostname (page url host depth) t (some p.max_pages_per_domain)
        true true v (page-dedup_key url host depth)

  page-IsValid :
      (url host : Text) (depth : ℕ) (t : Table)
      → IsValid t
      → IsValid (enqueue_page_fetch p url host depth (quiet t)).1.table
  unfolding enqueue_page_fetch enqueue_budgeted
  page-IsValid url host depth t v =
      (enqueue_with-IsValid p.dialect p.hostname (page url host depth) (some p.max_pages_per_domain)
        true true (page-IsFresh url host depth) (quiet t) (v, tt)).0

  link_within :
      (host link : Text) (depth : ℕ) (o : Option Text) (db : Db)
      → WithinBudget host p.max_pages_per_domain db
      → WithinBudget host p.max_pages_per_domain (enqueue_link p link depth o db)
  link_within host link depth none db h = h
  link_within host link depth (some other) db (t, e, v, bound) =
      let after = enqueue_page_fetch p link other depth (quiet t) in
      let same : (enqueue_page_fetch p link other depth db).1 ≡ after.1 =
        ap (λ d. (enqueue_page_fetch p link other depth d).1) e in
      (
        after.1.table,
        same ∙ quiet-Effect t _ _ after (page-Effect link other depth t v),
        page-IsValid link other depth t v,
        elim (Bool-cases (text_eq other host)) [
          | inl y ↦
              let here : other ≡ host = text_eq-eq other host y in
              subst
                (λ g.
                  pages_of host (enqueue_page_fetch p link g depth (quiet t)).1.table
                  ≤ p.max_pages_per_domain)
                (sym here) (page_bound host link depth t v bound)
          | inr n ↦
              let kept =
                other-Effect host t (stamp p.hostname (page link other depth)) _ after
                  (subst (λ g. text_eq g host ≡ false) (sym (stamp-host link other depth)) n)
                  (page-Effect link other depth t v) in
              omega (arith, kept, bound)
        ],
      )

  links_within :
      (host : Text) (depth : ℕ) (links : List Text) (db : Db)
      → WithinBudget host p.max_pages_per_domain db
      → WithinBudget host p.max_pages_per_domain (enqueue_links p depth links db)
  unfolding enqueue_links
  links_within host depth [] db h = h
  links_within host depth (link ∷ links) db h =
      links_within host depth links (enqueue_link p link depth (p.host_of link) db)
        (link_within host link depth (p.host_of link) db h)

  -- Without interference, the links of one page, however many, of whatever hosts and in whatever
  -- order, leave every host that had at most `maxPagesPerDomain` pages in the frontier within that
  -- budget, and the frontier valid; the digest of a key is never empty.
  pub follow_links-WithinBudget :
      (host : Text) (depth : ℕ) (links : List Text) (db : Db)
      → WithinBudget host p.max_pages_per_domain db
      → WithinBudget host p.max_pages_per_domain (follow_links p depth links db)
  unfolding follow_links
  follow_links-WithinBudget host depth links db h = elim (Bool-cases (ltb depth p.max_depth)) [
    | inl y ↦ rw y (links_within host (suc depth) links db h)
    | inr n ↦ rw n h
  ]
