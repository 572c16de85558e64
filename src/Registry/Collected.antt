-- ===== src/Registry/Collected.antt =====
-- What a harvest brings back from a registry that answers every search.
use ardvark.Prelude.{
  ℕ, zero, suc, ◌-◌, ◌<◌, ◌≡◌, refl, sym, ap, ◌∙◌, inl, inr, true, false, ◌||◌, ltb, List, [], ◌∷◌,
  ◌++◌, Option, none, some, Text, take, length, append_nil, append_assoc, take_nil, Bool-cases,
  arith, if◌then◌else◌, is_empty, text_eq,
}
use ardvark.Ard.Document.{Entry}
use ardvark.Registry.{
  SearchRequest, SearchResponse, Reply, answered, HarvestOptions, Harvest, Cursor, with_page,
  with_reply, limit_reached, harvest_loop, start, harvest_all, ask,
}

abbrev pub all_results : List SearchResponse → List Entry
all_results [] = []
all_results (r ∷ rs) = r.results ++ all_results rs

abbrev pub all_referred : List SearchResponse → List Entry
all_referred [] = []
all_referred (r ∷ rs) = r.referred ++ all_referred rs

-- The pages that a limit lets through, 0 for no limit, once `n` have been fetched.
abbrev pub allowed : ℕ → ℕ → List SearchResponse → List SearchResponse
allowed limit n pages = if ltb 0 limit then take (limit - n) pages else pages

module _ (search : ℕ → SearchRequest → Reply) (opts : HarvestOptions) where
  abbrev pub request : Text → SearchRequest
  request token = record {
    query_text = opts.query_text;
    federation = opts.federation;
    page_size = opts.page_size;
    page_token = token;
  }

  -- From its `n`-th request on, which is for a token, the registry answers with these pages: each but
  -- the last has a token of its own for the next, and the last has none or the one it was asked for.
  pub data Serves : ℕ → Text → List SearchResponse → Type 0 where
    last :
        {n : ℕ} {token : Text} {r : SearchResponse}
        → search n (request token) ≡ answered r
        → is_empty r.next_token || text_eq r.next_token token ≡ true
        → Serves n token (r ∷ [])
    next :
        {n : ℕ} {token : Text} {r : SearchResponse} {pages : List SearchResponse}
        → search n (request token) ≡ answered r
        → is_empty r.next_token || text_eq r.next_token token ≡ false
        → Serves (suc n) r.next_token pages
        → Serves n token (r ∷ pages)

  -- A harvest that added the results of some pages to those it had.
  abbrev Adds : Harvest → List SearchResponse → Option Harvest → Type 0
  Adds out pages o =
      (h : Harvest) × (o ≡ some h)
      × ((h.results ≡ out.results ++ all_results pages)
          × (h.referred ≡ out.referred ++ all_referred pages)
          × (h.failed ≡ out.failed))

  allowed_none :
      (out : Harvest) (pages : List SearchResponse)
      → limit_reached opts out ≡ true
      → allowed opts.page_limit out.pages pages ≡ []
  allowed_none out pages h =
      let left : opts.page_limit - out.pages ≡ 0 = ground arith in
      let capped : ltb 0 opts.page_limit ≡ true = ground arith in rw (capped, left) refl

  allowed_more :
      (out : Harvest) (r : SearchResponse) (pages : List SearchResponse)
      → limit_reached opts out ≡ false
      → allowed opts.page_limit out.pages (r ∷ pages)
        ≡ r ∷ allowed opts.page_limit (suc out.pages) pages
  allowed_more out r pages h = elim (Bool-cases (ltb 0 opts.page_limit)) [
    | inl capped ↦
        let left : opts.page_limit - out.pages ≡ suc (opts.page_limit - suc out.pages) =
          ground arith in
        rw (capped, left) refl
    | inr free ↦ rw free refl
  ]

  allowed_nil : (n : ℕ) → allowed opts.page_limit n [] ≡ []
  allowed_nil n = elim (Bool-cases (ltb 0 opts.page_limit)) [
    | inl capped ↦ rw capped (take_nil (opts.page_limit - n))
    | inr free ↦ rw free refl
  ]

  abbrev cursor : Harvest → Text → Cursor
  cursor out token = record { out = out; federation = opts.federation; page_token = token }

  abbrev asked : Harvest → Harvest
  asked out = record out { requests = suc out.requests }

  ask-answered :
      (out : Harvest) (token : Text) (r : SearchResponse)
      → search out.requests (request token) ≡ answered r
      → ask search opts (cursor out token) ≡ (answered r, cursor (asked out) token)
  unfolding ask
  ask-answered out token r e = rw e refl

  nothing : (out : Harvest) (pages : List SearchResponse) → pages ≡ [] → Adds out pages (some out)
  nothing out pages e =
      rw e (out, refl, (sym (append_nil out.results), sym (append_nil out.referred), refl))

  -- The answer to a request that the limit allows, given what the loop brings after it.
  reply_collects :
      (fuel : ℕ) (out : Harvest) (token : Text) (pages : List SearchResponse)
      → limit_reached opts out ≡ false
      → Serves out.requests token pages
      → length pages < suc fuel
      → ((out' : Harvest) (token' : Text) (pages' : List SearchResponse)
          → Serves out'.requests token' pages'
          → length pages' < fuel
          → Adds out'
              (allowed opts.page_limit out'.pages pages')
              (harvest_loop search opts fuel (cursor out' token')))
      → Adds out
          (allowed opts.page_limit out.pages pages)
          (with_reply (harvest_loop search opts fuel) (ask search opts (cursor out token)))
  reply_collects fuel out token _ n (last {r = r} e over) enough rest =
      rw
        (
          ask-answered out token r e,
          allowed_more out r [] n,
          allowed_nil (suc out.pages),
          over,
          with_reply,
        )
        (
          with_page r (asked out),
          refl,
          (
            sym (ap (λ l. out.results ++ l) (append_nil r.results)),
            sym (ap (λ l. out.referred ++ l) (append_nil r.referred)),
            refl,
          ),
        )
  reply_collects fuel out token _ n (next {r = r} {pages = pages} e over serves) enough rest =
      let out' = with_page r (asked out) in
      let later = allowed opts.page_limit (suc out.pages) pages in
      let (h, ends, (results, referred, failed)) =
        rest out' r.next_token pages serves (omega (arith, enough)) in
      rw (ask-answered out token r e, allowed_more out r pages n, over, with_reply)
        (
          h,
          ends,
          (
            results ∙ append_assoc out.results r.results (all_results later),
            referred ∙ append_assoc out.referred r.referred (all_referred later),
            failed,
          ),
        )

  loop_collects :
      (fuel : ℕ) (out : Harvest) (token : Text) (pages : List SearchResponse)
      → Serves out.requests token pages
      → length pages < fuel
      → Adds out
          (allowed opts.page_limit out.pages pages)
          (harvest_loop search opts fuel (cursor out token))
  unfolding harvest_loop
  loop_collects zero out token pages serves enough = absurd (omega (arith, enough))
  loop_collects (suc fuel) out token pages serves enough =
      elim (Bool-cases (limit_reached opts out)) [
        | inl y ↦
            rw (y, harvest_loop)
              (nothing out (allowed opts.page_limit out.pages pages) (allowed_none out pages y))
        | inr n ↦
            rw (n, harvest_loop)
              (reply_collects fuel out token pages n serves enough (loop_collects fuel))
      ]

  -- When a registry answers the searches for its pages in turn, `HarvestAll` ends without an error
  -- once there was a round for each page and one more, and has the results and the referrals of
  -- exactly the first pages that its limit allows, in their order, or of all pages without a limit.
  pub harvest_all-Serves :
      (pages : List SearchResponse)
      → Serves 0 [] pages
      → (h : Harvest) × (harvest_all search opts (suc (length pages)) ≡ some h)
        × ((h.results ≡ all_results (allowed opts.page_limit 0 pages))
            × (h.referred ≡ all_referred (allowed opts.page_limit 0 pages))
            × (h.failed ≡ none))
  unfolding harvest_all
  harvest_all-Serves pages serves =
      loop_collects (suc (length pages)) (start opts).out [] pages serves (omega arith)
