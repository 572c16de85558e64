-- ===== src/Fetch/Robots.antt =====
-- What the cache of robots.txt keeps, and what a successful `Get` has respected.
use ardvark.Prelude.{
  ℕ, ◌≤◌, ◌<◌, ◌≡◌, refl, inl, inr, ltb, leb, true, false, [], ◌∷◌, ◌++◌, Option, none, some, Text,
  codes, length, subst, text_eq_refl, is_empty, Bool-cases, Option-cases, arith,
}
use ardvark.Frontier.Db.{Result, ok, err}
use ardvark.Fetch.{
  Fault, Fetched, Answer, unreachable, unread, response, Url, Outside, Settings, Client, max_body,
  read_answer, do_get, is_supported_scheme, robots_origin_key, permanent, err_robots_disallowed,
  is_absent, read_robots, keep_robots, robots_for_origin, robots_for, permits, gated, get,
}

module _ {R : Type 0} (outside : Outside R) (settings : Settings) where
  -- A verdict is in the cache, and a failure, which is none that says that the file is absent, has
  -- left the cache as it was.
  abbrev Keeps : Text → Client R → Result Fault (Option R) × Client R → Type 0
  Keeps key before (ok robots, c) = c.robots_cache key ≡ some robots
  Keeps key before (err e, c) =
      (c.robots_cache ≡ before.robots_cache) × (is_absent outside settings e ≡ false)

  read_robots-Keeps :
      (key body : Text) (before : Client R) (read : Result Text R) (c : Client R)
      → c.robots_cache ≡ before.robots_cache
      → Keeps key before (read_robots outside settings key body read c)
  read_robots-Keeps key body before (ok robots) c same = rw (text_eq_refl key) refl
  read_robots-Keeps key body before (err why) c same = (same, refl)

  keep_robots-Keeps :
      (key : Text) (before : Client R) (got : Result Fault Fetched) (c : Client R)
      → c.robots_cache ≡ before.robots_cache
      → Keeps key before (keep_robots outside settings key (got, c))
  keep_robots-Keeps key before (ok r) c same =
      read_robots-Keeps key r.body before (outside.from_bytes r.body) c same
  keep_robots-Keeps key before (err e) c same = elim (Bool-cases (is_absent outside settings e)) [
    | inl y ↦ rw (y, text_eq_refl key) refl
    | inr n ↦ rw n (same, n)
  ]

  first :
      (scheme host : Text) (c : Client R)
      → Keeps (robots_origin_key outside settings scheme host) c (
          keep_robots outside settings
            (robots_origin_key outside settings scheme host)
            (do_get outside settings (scheme ++ codes "://" ++ host ++ codes "/robots.txt") c))
  first scheme host c =
      let asked =
        do_get outside settings (scheme ++ codes "://" ++ host ++ codes "/robots.txt") c in
      keep_robots-Keeps (robots_origin_key outside settings scheme host) c asked.0 asked.1 refl

  robots_for_origin-Keeps :
      (scheme host : Text) (c : Client R)
      → Keeps
          (robots_origin_key outside settings scheme host)
          c
          (robots_for_origin outside settings scheme host c)
  unfolding robots_for_origin
  robots_for_origin-Keeps scheme host c =
      let key = robots_origin_key outside settings scheme host in
      elim (Option-cases (c.robots_cache key)) [
        | inl e ↦ rw (e, robots_for_origin) (first scheme host c)
        | inr (robots, e) ↦ rw (e, robots_for_origin) e
      ]

  -- Once the client has a verdict on the robots.txt of an origin, be it the file or that there is
  -- none, it has it from then on without a request.
  pub robots_for_origin_again :
      (scheme host : Text) (c c' : Client R) (robots : Option R)
      → robots_for_origin outside settings scheme host c ≡ (ok robots, c')
      → robots_for_origin outside settings scheme host c' ≡ (ok robots, c')
  unfolding robots_for_origin
  robots_for_origin_again scheme host c c' robots h =
      let key = robots_origin_key outside settings scheme host in
      let kept = subst (Keeps key c) h (robots_for_origin-Keeps scheme host c) in
      rw (kept, robots_for_origin) refl

  -- When the client has no verdict, because of a failure or of a file that cannot be read, it keeps
  -- none, so that a later call asks again; and the failure is no status from 400 to 499 but 429.
  pub robots_for_origin_fault :
      (scheme host : Text) (c c' : Client R) (e : Fault)
      → robots_for_origin outside settings scheme host c ≡ (err e, c')
      → (c'.robots_cache ≡ c.robots_cache) × (is_absent outside settings e ≡ false)
  robots_for_origin_fault scheme host c c' e h =
      subst (Keeps (robots_origin_key outside settings scheme host) c) h
        (robots_for_origin-Keeps scheme host c)

  -- What holds of a page that was fetched: the scheme is one of the two, the status is no error, the
  -- body is within its bound.
  abbrev pub Sound : Fetched → Type 0
  Sound r = (r.status < 400) × (length r.body ≤ max_body settings)

  abbrev Fetches : Text → Url → Result Fault Fetched × Client R → Type 0
  Fetches key u (err e, c) = Unit
  Fetches key u (ok r, c) =
      ((robots : Option R) × (c.robots_cache key ≡ some robots)
        × (permits outside settings robots u ≡ true))
      × Sound r

  abbrev Reads : Result Fault Fetched → Type 0
  Reads (err e) = Unit
  Reads (ok r) = Sound r

  read_answer-Reads : (a : Answer) → Reads (read_answer settings a)
  read_answer-Reads (unreachable e) = tt
  read_answer-Reads (unread status why) = tt
  read_answer-Reads (response r) = elim (Bool-cases (ltb (max_body settings) (length r.body))) [
    | inl large ↦ rw (large, read_answer) tt
    | inr small ↦ elim (Bool-cases (leb 400 r.status)) [
      | inl bad ↦ rw (small, bad, read_answer) tt
      | inr good ↦
          rw (small, good, read_answer)
            (ground (arith, good), within (max_body settings) (length r.body) small)
    ]
  ]
    where
      within : (m n : ℕ) → ltb m n ≡ false → n ≤ m
      within m n h = ground (arith, h)

  page-Fetches :
      (key : Text) (u : Url) (got : Result Fault Fetched) (c : Client R) (robots : Option R)
      → c.robots_cache key ≡ some robots
      → permits outside settings robots u ≡ true
      → Reads got
      → Fetches key u (got, c)
  page-Fetches key u (err e) c robots kept may read = tt
  page-Fetches key u (ok r) c robots kept may read = ((robots, kept, may), read)

  gated-Fetches :
      (key url : Text) (u : Url) (before : Client R) (out : Result Fault (Option R) × Client R)
      → Keeps key before out
      → Fetches key u (gated outside settings url u out)
  gated-Fetches key url u before (err e, c) kept = tt
  gated-Fetches key url u before (ok robots, c) kept =
      elim (Bool-cases (permits outside settings robots u)) [
        | inl may ↦
            let asked = do_get outside settings url c in
            rw (may, gated)
              (page-Fetches key u asked.0 asked.1 robots kept may
                (read_answer-Reads (outside.answer (length c.requests) url)))
        | inr barred ↦ rw (barred, gated) tt
      ]

  -- A `Get` that respects robots.txt and succeeds has a verdict on the robots.txt of the URL's origin,
  -- under which its path is allowed; and the page has a status below 400, and a body within the bound.
  pub get-Sound :
      (url : Text) (u : Url) (c c' : Client R) (r : Fetched)
      → settings.respect_robots_txt ≡ true
      → outside.parse_url url ≡ ok u
      → is_empty u.scheme ≡ false
      → get outside settings url c ≡ (ok r, c')
      → ((robots : Option R) × (c'.robots_cache (robots_origin_key outside settings u.scheme u.host)
            ≡ some robots)
          × (permits outside settings robots u ≡ true))
        × Sound r
  unfolding get robots_for
  get-Sound url u c c' r respects parses has_scheme h =
      let key = robots_origin_key outside settings u.scheme u.host in
      subst (Fetches key u) h (elim (Bool-cases (is_supported_scheme outside settings u)) [
        | inl good ↦
            rw (parses, get, good, respects, robots_for, has_scheme)
              (gated-Fetches key url u c (robots_for_origin outside settings u.scheme u.host c)
                (robots_for_origin-Keeps u.scheme u.host c))
        | inr bad ↦ rw (parses, get, bad) tt
      ])

  -- A `Get` that respects robots.txt makes no request at all when the client has a verdict that bars
  -- the path; it fails, and no retry is asked for.
  pub get_barred :
      (url : Text) (u : Url) (c : Client R) (robots : Option R)
      → settings.respect_robots_txt ≡ true
      → outside.parse_url url ≡ ok u
      → is_supported_scheme outside settings u ≡ true
      → is_empty u.scheme ≡ false
      → c.robots_cache (robots_origin_key outside settings u.scheme u.host) ≡ some robots
      → permits outside settings robots u ≡ false
      → get outside settings url c ≡ (err (permanent err_robots_disallowed), c)
  unfolding get robots_for robots_for_origin
  get_barred url u c robots respects parses good has_scheme kept barred =
      rw
        (
          parses, get, good, respects, robots_for, has_scheme, robots_for_origin, kept, gated,
          barred,
        )
        refl

  -- For a host without a scheme, a robots.txt that https gives and that cannot be read makes this call ask
  -- over http, and give what that says; the next call asks over https again.
  pub robots_for_unreadable :
      (host why : Text) (c : Client R) (r : Fetched)
      → c.robots_cache (robots_origin_key outside settings (codes "https") host) ≡ none
      → read_answer settings (
          outside.answer
            (length c.requests)
            (codes "https" ++ codes "://" ++ host ++ codes "/robots.txt"))
        ≡ ok r
      → outside.from_bytes r.body ≡ err why
      → robots_for outside settings [] host c
        ≡ robots_for_origin outside settings (codes "http") host (record c {
          requests = (codes "https" ++ codes "://" ++ host ++ codes "/robots.txt") ∷ c.requests;
        })
  unfolding robots_for robots_for_origin
  robots_for_unreadable host why c r fresh answers unreadable =
      rw (robots_for, robots_for_origin, fresh, answers, unreadable) refl
