-- ===== src/Jsonout/Paging.antt =====
-- internal/jsonout/search.go: that the pages of a search, taken by their cursors, are the whole result.
use ardvark.Prelude.{
  ℕ, zero, suc, ltb, ◌==◌, ◌≡◌, ◌≤◌, ◌<◌, refl, ap, inl, inr, Bool, true, false, ◌&&◌, List, [],
  ◌∷◌, ◌++◌, take, select, find, Option, none, some, length, length-append, ltb→lt, Bool-cases,
  arith, if◌then◌else◌,
}
use ardvark.Store.Tables.{Tables, CatalogEntry, Catalog, Domain}
use ardvark.Jsonout.{
  SearchOptions, SearchRow, SearchResult, Texts, joined, joined_catalog, joined_domain, is_match,
  is_after, last_id, page_of, page,
}

-- The ids of rows rise from `lo`.
abbrev pub Rising : ℕ → List SearchRow → Type 0
Rising lo [] = Unit {0}
Rising lo (r ∷ rs) = (lo ≤ r.entry.id) × Rising (suc r.entry.id) rs

abbrev pub EntriesRise : ℕ → List CatalogEntry → Type 0
EntriesRise lo [] = Unit {0}
EntriesRise lo (e ∷ es) = (lo ≤ e.id) × EntriesRise (suc e.id) es

Rising-from : (lo hi : ℕ) (rs : List SearchRow) → lo ≤ hi → Rising hi rs → Rising lo rs
Rising-from lo hi [] h r = tt
Rising-from lo hi (q ∷ rs) h r = (omega (arith, h, r.0), r.1)

joined-Rising :
    (t : Tables) (lo : ℕ) (es : List CatalogEntry) → EntriesRise lo es → Rising lo (joined t es)
unfolding joined
joined-Rising t lo [] h = tt
joined-Rising t lo (e ∷ es) h =
    by_catalog (joined-Rising t (suc e.id) es h.1)
      (find (λ c. c.id == e.catalog_id) t.catalogs.rows)
  where
    by_domain :
        Rising (suc e.id) (joined t es)
        → (c : Catalog) (o : Option Domain) → Rising lo (joined_domain e c o (joined t es))
    by_domain rest c none = Rising-from lo (suc e.id) (joined t es) (omega (arith, h.0)) rest
    by_domain rest c (some d) = (h.0, rest)

    by_catalog :
        Rising (suc e.id) (joined t es)
        → (o : Option Catalog) → Rising lo (joined_catalog t e o (joined t es))
    by_catalog rest none = Rising-from lo (suc e.id) (joined t es) (omega (arith, h.0)) rest
    by_catalog rest (some c) = by_domain rest c (find (λ d. d.id == c.domain_id) t.domains.rows)

select-Rising :
    (p : SearchRow → Bool) (lo : ℕ) (rs : List SearchRow) → Rising lo rs → Rising lo (select p rs)
unfolding select
select-Rising p lo [] h = tt
select-Rising p lo (r ∷ rs) h = elim (Bool-cases (p r)) [
  | inl y ↦ rw y (h.0, select-Rising p (suc r.entry.id) rs h.1)
  | inr n ↦ rw n (
      Rising-from lo (suc r.entry.id) (select p rs) (omega (arith, h.0))
        (select-Rising p (suc r.entry.id) rs h.1))
]

last_id-ge :
    (m lo : ℕ) (r : SearchRow) (rs : List SearchRow)
    → Rising lo (r ∷ rs)
    → lo ≤ last_id (take (suc m) (r ∷ rs))
last_id-ge zero lo r rs h = h.0
last_id-ge (suc m) lo r [] h = h.0
last_id-ge (suc m) lo r (q ∷ rs) h = omega (arith, h.0, last_id-ge m (suc r.entry.id) q rs h.1)

later_all : (l lo : ℕ) (rs : List SearchRow) → l < lo → Rising lo rs → select (is_after l) rs ≡ rs
unfolding select
later_all l lo [] g h = refl
later_all l lo (r ∷ rs) g h =
    rw (later_all l (suc r.entry.id) rs (omega (arith, g, h.0)) h.1) (ground (arith, g, h.0))

-- A page and what comes after its last row are all rows.
page-split :
    (m lo : ℕ) (rs : List SearchRow)
    → 0 < lo
    → Rising lo rs
    → take (suc m) rs ++ select (is_after (last_id (take (suc m) rs))) rs ≡ rs
unfolding select
page-split m lo [] g h = refl
page-split zero lo (r ∷ rs) g h =
    rw (later_all r.entry.id (suc r.entry.id) rs (omega arith) h.1) (ground (arith, g, h.0))
page-split (suc m) lo (r ∷ []) g h = ground (arith, g, h.0)
page-split (suc m) lo (r ∷ q ∷ rs) g h =
    let l = last_id (take (suc m) (q ∷ rs)) in
    let above = last_id-ge m (suc r.entry.id) q rs h.1 in
    rw (passed l above)
      (ap (λ xs. r ∷ xs) (page-split m (suc r.entry.id) (q ∷ rs) (omega arith) h.1))
  where
    passed : (l : ℕ) → r.entry.id < l → is_after l r ≡ false
    passed l a = ground (arith, a)

module _ (p : SearchRow → Bool) where
  abbrev pub left : ℕ → List SearchRow → List SearchRow
  left c rs = select (λ r. is_after c r && p r) rs

  left-Rising :
      (c lo : ℕ) (rs : List SearchRow) → 0 < lo → Rising lo rs → Rising (suc c) (left c rs)
  unfolding select
  left-Rising c lo [] g h = tt
  left-Rising c lo (r ∷ rs) g h = elim (Bool-cases (is_after c r && p r)) [
    | inl y ↦ rw y (above y, select-Rising (λ q. is_after c q && p q) (suc r.entry.id) rs h.1)
    | inr n ↦ rw n (left-Rising c (suc r.entry.id) rs (omega arith) h.1)
  ]
    where
      above : (is_after c r && p r) ≡ true → suc c ≤ r.entry.id
      above y = ground (arith, y, g, h.0)

  narrowed_step :
      (l : ℕ) (a k q : Bool) (r : SearchRow) (xs ys : List SearchRow)
      → (a ≡ true → k ≡ true)
      → is_after l r ≡ a
      → xs ≡ select (is_after l) ys
      → (if a && q then r ∷ xs else xs) ≡ select (is_after l) (if k && q then r ∷ ys else ys)
  unfolding select
  narrowed_step l true true true r xs ys h e ih = rw (e, ih) refl
  narrowed_step l true true false r xs ys h e ih = ih
  narrowed_step l true false q r xs ys h e ih = absurd (apart (h refl))
    where
      apart : false ≡ true → ⊥
      apart u = cc
  narrowed_step l false true true r xs ys h e ih = rw (e, ih) refl
  narrowed_step l false true false r xs ys h e ih = ih
  narrowed_step l false false q r xs ys h e ih = ih

  narrowed :
      (c l : ℕ) (rs : List SearchRow) → c ≤ l → 0 < l → left l rs ≡ select (is_after l) (left c rs)
  unfolding select
  narrowed c l [] g z = refl
  narrowed c l (r ∷ rs) g z =
      narrowed_step l (is_after l r) (is_after c r) (p r) r (left l rs) (left c rs) wider refl
        (narrowed c l rs g z)
    where
      wider : is_after l r ≡ true → is_after c r ≡ true
      wider y = ground (arith, y, g, z)

take-all : (n : ℕ) (rs : List SearchRow) → length rs ≤ n → take n rs ≡ rs
take-all zero [] h = refl
take-all zero (r ∷ rs) h = absurd (omega (arith, h))
take-all (suc n) [] h = refl
take-all (suc n) (r ∷ rs) h = ap (λ xs. r ∷ xs) (take-all n rs (omega (arith, h)))

take-take : (n : ℕ) (rs : List SearchRow) → take n (take (suc n) rs) ≡ take n rs
take-take zero rs = refl
take-take (suc n) [] = refl
take-take (suc n) (r ∷ rs) = ap (λ xs. r ∷ xs) (take-take n rs)

length-take-more : (n : ℕ) (rs : List SearchRow) → n < length rs → length (take (suc n) rs) ≡ suc n
length-take-more n [] h = absurd (omega (arith, h))
length-take-more zero (r ∷ rs) h = refl
length-take-more (suc n) (r ∷ rs) h = ap suc (length-take-more n rs (omega (arith, h)))

page_short :
    (limit : ℕ) (ys : List SearchRow)
    → length ys ≤ limit
    → page_of limit (take (suc limit) ys) ≡ record { entries = ys; next_cursor = 0 }
unfolding page_of
page_short limit ys h = rw (take-all (suc limit) ys (omega (arith, h)), short) refl
  where
    short : ltb limit (length ys) ≡ false
    short = ground (arith, h)

page_long :
    (limit : ℕ) (ys : List SearchRow)
    → limit < length ys
    → page_of limit (take (suc limit) ys)
      ≡ record { entries = take limit ys; next_cursor = last_id (take limit ys) }
unfolding page_of
page_long limit ys h = rw (length-take-more limit ys h, more, take-take limit ys) refl
  where
    more : ltb limit (suc limit) ≡ true
    more = ground arith

page-shrinks :
    (m lo : ℕ) (ys : List SearchRow)
    → 0 < lo
    → Rising lo ys
    → suc m < length ys
    → length (select (is_after (last_id (take (suc m) ys))) ys) < length ys
page-shrinks m lo [] g h z = absurd (omega (arith, z))
page-shrinks m lo (y ∷ ys) g h z =
    let later = select (is_after (last_id (take (suc m) (y ∷ ys)))) (y ∷ ys) in
    let all = ap length (page-split m lo (y ∷ ys) g h) in
    omega (arith, all, length-append (take (suc m) (y ∷ ys)) later)

last_id-from :
    (m lo : ℕ) (ys : List SearchRow)
    → Rising lo ys
    → suc m < length ys
    → lo ≤ last_id (take (suc m) ys)
last_id-from m lo [] h z = absurd (omega (arith, z))
last_id-from m lo (y ∷ ys) h z = last_id-ge m lo y ys h

abbrev pub before : List SearchRow → Option (List SearchRow) → Option (List SearchRow)
before rs none = none
before rs (some more) = some (rs ++ more)

module _ (x : Texts) (o : SearchOptions) (m : ℕ) (t : Tables) where
  -- A limit that has been checked is positive.
  abbrev pub limit : ℕ
  limit = suc m

  abbrev pub page_at : ℕ → SearchResult
  page_at cursor = page x (record o { cursor = cursor }) limit t

  -- The pages from a cursor on, each from the cursor that the one before it gives; none where the fuel
  -- does not reach the last page.
  unfoldable pub collected : ℕ → ℕ → Option (List SearchRow)
  collected zero cursor = none
  collected (suc fuel) cursor =
      let result = page_at cursor in
      let rest = collected fuel result.next_cursor in
      if result.next_cursor == 0 then some result.entries else before result.entries rest

  abbrev pub rows : List SearchRow
  rows = joined t t.entries.rows

  abbrev pub wanted : SearchRow → Bool
  wanted = is_match x o

  page-left : (c : ℕ) → page_at c ≡ page_of limit (take (suc limit) (left wanted c rows))
  unfolding page is_match
  page-left c = refl

  -- The pages of a search from a cursor on, each taken from the cursor of the one before it, are together
  -- exactly the entries that match after that cursor, each once and in the order of their ids, where
  -- the ids of the stored entries are positive and rise, and nothing is stored in between; one request
  -- more than there are matches is always enough.
  pub collected_lem :
      EntriesRise 1 t.entries.rows
      → (fuel c : ℕ) → length (left wanted c rows) < fuel
      → collected fuel c ≡ some (left wanted c rows)
  unfolding collected
  collected_lem rise zero c h = absurd (omega (arith, h))
  collected_lem rise (suc fuel) c h = elim (Bool-cases (ltb limit (length (left wanted c rows)))) [
    | inr n ↦ rw (page-left c, page_short limit (left wanted c rows) (ground (arith, n))) refl
    | inl y ↦
        let ys = left wanted c rows in
        let long = ltb→lt limit (length ys) y in
        let rising =
          left-Rising wanted c 1 rows (omega arith) (joined-Rising t 1 t.entries.rows rise) in
        let l = last_id (take limit ys) in
        let above = last_id-from m (suc c) ys rising long in
        let same = narrowed wanted c l rows (omega (arith, above)) (omega (arith, above)) in
        let fewer = page-shrinks m (suc c) ys (omega arith) rising long in
        let rest = collected_lem rise fuel l (rw same (omega (arith, fewer, h))) in
        rw (page-left c, page_long limit ys long, positive l (omega (arith, above)), rest, same)
          (ap some (page-split m (suc c) ys (omega arith) rising))
  ]
    where
      positive : (l : ℕ) → 0 < l → (l == 0) ≡ false
      positive l g = ground (arith, g)
