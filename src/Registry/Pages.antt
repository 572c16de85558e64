-- ===== src/Registry/Pages.antt =====
-- That a harvest with a limit on its pages ends, and what it asks of a registry.
use ardvark.Prelude.{
  ℕ, zero, suc, ◌+◌, ◌≤◌, ◌<◌, ◌≡◌, refl, ap, inl, inr, true, ◌&&◌, some, Bool-cases, arith,
  if◌then◌else◌,
}
use ardvark.Registry.{
  Federation, no_federation, referrals, SearchRequest, Reply, answered, broken, is_not_implemented,
  HarvestOptions, Harvest, Cursor, counted, asks_referrals, retried, ask, with_page, ended,
  with_reply, limit_reached, harvest_loop, start, harvest_all, request_of,
}

-- One request for each page, and one more once the retry has been made.
abbrev spent : Cursor → ℕ
spent c = c.out.requests + (if asks_referrals c.federation then 1 else 0)

module _ (search : ℕ → SearchRequest → Reply) (opts : HarvestOptions)
    (capped : 0 < opts.page_limit) where
  abbrev pub Bounded : Harvest → Type 0
  Bounded h = (h.pages ≤ opts.page_limit) × (h.requests ≤ opts.page_limit + 1)

  retried-spent :
      (c : Cursor) (r : Reply)
      → let after = (retried search opts c r).1 in
        (after.out.pages ≡ c.out.pages) × (spent after ≤ spent c)
  retried-spent c (answered r) = (refl, omega arith)
  retried-spent c (broken e) =
      elim (Bool-cases (is_not_implemented e && asks_referrals c.federation)) [
        | inl y ↦
            let asking : asks_referrals c.federation ≡ true = ground (arith, y) in
            rw y (refl, ground (arith, asking))
        | inr n ↦ rw n (refl, omega arith)
      ]

  -- A request spends one, whether it is retried or not, and keeps the pages.
  asked :
      (c : Cursor)
      → let after = (ask search opts c).1 in
        (after.out.pages ≡ c.out.pages) × (spent after ≤ spent c + 1)
  unfolding ask
  asked c =
      let (pages, used) = retried-spent (counted c) (search c.out.requests (request_of opts c)) in
      (pages, omega (arith, used))

  reply_ends :
      (fuel : ℕ) (c : Cursor) (out : Reply × Cursor)
      → c.out.pages < opts.page_limit
      → spent c ≤ c.out.pages + 1
      → out.1.out.pages ≡ c.out.pages
      → spent out.1 ≤ spent c + 1
      → ((c' : Cursor)
          → c'.out.pages ≡ suc c.out.pages
          → spent c' ≤ c'.out.pages + 1
          → (h : Harvest) × (harvest_loop search opts fuel c' ≡ some h) × Bounded h)
      → (h : Harvest) × (with_reply (harvest_loop search opts fuel) out ≡ some h) × Bounded h
  reply_ends fuel c (broken e, c1) room budget pages used rest = (
    record c1.out { failed = some e },
    refl,
    (omega (arith, pages, room), ground (arith, pages, room, budget, used)),
  )
  reply_ends fuel c (answered r, c1) room budget pages used rest = elim (Bool-cases (ended c1 r)) [
    | inl y ↦ (
      with_page r c1.out,
      rw (y, with_reply) refl,
      (omega (arith, pages, room), ground (arith, pages, room, budget, used)),
    )
    | inr n ↦
        let c' = record c1 { out = with_page r c1.out; page_token = r.next_token } in
        let (h, e, b) = rest c' (ap suc pages) (omega (arith, pages, budget, used)) in
        (h, rw (n, with_reply) e, b)
  ]

  loop_ends :
      (fuel : ℕ) (c : Cursor)
      → c.out.pages ≤ opts.page_limit
      → spent c ≤ c.out.pages + 1
      → opts.page_limit < c.out.pages + fuel
      → (h : Harvest) × (harvest_loop search opts fuel c ≡ some h) × Bounded h
  unfolding harvest_loop
  loop_ends zero c inside budget enough = absurd (omega (arith, inside, enough))
  loop_ends (suc fuel) c inside budget enough = elim (Bool-cases (limit_reached opts c.out)) [
    | inl y ↦ (c.out, rw (y, harvest_loop) refl, (inside, ground (arith, inside, budget)))
    | inr n ↦
        let room : c.out.pages < opts.page_limit = ground (arith, capped, n) in
        let (pages, used) = asked c in
        let (h, e, b) =
          reply_ends fuel c (ask search opts c) room budget pages used (λ c' next budget'.
            loop_ends fuel c' (omega (arith, next, room)) budget' (omega (arith, next, enough))) in
        (h, rw (n, harvest_loop) e, b)
  ]

  -- With a limit on the pages, `HarvestAll` ends whatever the registry answers, a registry that
  -- never stops handing out new tokens included: after at most that many pages, and at most one
  -- request more, which is the one retry of a refused federation.
  pub harvest_all-Bounded :
      (h : Harvest) × (harvest_all search opts (suc opts.page_limit) ≡ some h) × Bounded h
  unfolding harvest_all
  harvest_all-Bounded =
      loop_ends (suc opts.page_limit) (start opts) (omega arith) (first opts.federation)
        (omega arith)
    where
      first : (f : Federation) → 0 + (if asks_referrals f then 1 else 0) ≤ 0 + 1
      first no_federation = omega arith
      first referrals = omega arith
