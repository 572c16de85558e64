-- ===== src/Registry/Examples.antt =====
-- Tests of internal/registry, and its theorems at concrete inputs.
use ardvark.Prelude.{
  false, none, Text, List, ℕ, zero, suc, ◌≡◌, refl, arith, [], ◌∷◌, codes, some, text_eq,
}
use ardvark.Registry.{
  SearchRequest, SearchResponse, Reply, answered, broken, HarvestOptions, Harvest, referrals,
  harvest_all, search_url, has_suffix, trim_slash,
}
use ardvark.Registry.Collected.{Serves, last, next, harvest_all-Serves}
use ardvark.Ard.Samples.{titled}
use ardvark.Registry.Pages.{Bounded, harvest_all-Bounded}

-- A registry that refuses to federate at first, and then always names another page.
abbrev endless : ℕ → SearchRequest → Reply
endless zero request =
    broken (record { status = 501; text = codes "501"; canceled = false; timeout = false })
endless (suc n) request = answered (record { results = []; referred = []; next_token = suc n ∷ [] })

abbrev three_pages : HarvestOptions
three_pages = record { page_limit = 3; page_size = 0; query_text = []; federation = referrals }

harvest_all-Bounded_example :
    (h : Harvest) × (harvest_all endless three_pages 4 ≡ some h)
    × Bounded endless three_pages (omega arith) h
harvest_all-Bounded_example = harvest_all-Bounded endless three_pages (omega arith)

search_urls : search_url (codes "https://r.example/v1/") ≡ codes "https://r.example/v1/search"
unfolding search_url has_suffix trim_slash text_eq
search_urls = refl

abbrev page : ℕ → Text → SearchResponse
page n token = record {
  results = titled (n ∷ []) ∷ [];
  referred = titled (codes "r") ∷ [];
  next_token = token;
}

-- Three pages, and an echo of the last token.
abbrev served : List SearchResponse
served = page 1 (codes "a") ∷ page 2 (codes "b") ∷ page 3 (codes "b") ∷ []

abbrev honest : ℕ → SearchRequest → Reply
honest zero request = answered (page 1 (codes "a"))
honest (suc zero) request = answered (page 2 (codes "b"))
honest (suc (suc n)) request = answered (page 3 (codes "b"))

abbrev two_pages : HarvestOptions
two_pages = record { page_limit = 2; page_size = 0; query_text = []; federation = referrals }

served-Serves : Serves honest two_pages 0 [] served
unfolding text_eq
served-Serves = next refl refl (next refl refl (last refl refl))

harvest_all-Serves_example :
    (h : Harvest) × (harvest_all honest two_pages 4 ≡ some h)
    × ((h.results ≡ titled (1 ∷ []) ∷ titled (2 ∷ []) ∷ [])
        × (h.referred ≡ titled (codes "r") ∷ titled (codes "r") ∷ [])
        × (h.failed ≡ none))
harvest_all-Serves_example = harvest_all-Serves honest two_pages served served-Serves
