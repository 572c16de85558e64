-- ===== src/Registry.antt =====
-- internal/registry/registry.go: the pages of `HarvestAll`. One POST /search, with its encoding and
-- decoding, is the argument `search`, which knows how many requests came before.
use ardvark.Prelude.{
  ℕ, zero, suc, ◌+◌, ltb, leb, ◌==◌, Bool, true, false, ◌&&◌, ◌||◌, not, List, [], ◌∷◌, ◌++◌,
  Option, none, some, Text, codes, is_empty, text_eq, length, if◌then◌else◌,
}
use ardvark.Ard.Document.{Entry}
pub mod Pages
pub mod Collected
mod Examples

pub data Federation : Type 0 where
  no_federation referrals : Federation

pub record SearchRequest : Type 0 where
  pub query_text : Text
  pub federation : Federation
  pub page_size : ℕ
  pub page_token : Text

-- A result's score and source, which the harvest passes on, are left out.
pub record SearchResponse : Type 0 where
  pub results : List Entry
  pub referred : List Entry
  pub next_token : Text

-- An error of `Search`: the status of a `StatusError`, 0 for any other error.
pub record SearchError : Type 0 where
  pub status : ℕ
  pub text : Text
  pub canceled : Bool
  pub timeout : Bool

pub data Reply : Type 0 where
  answered : SearchResponse → Reply
  broken : SearchError → Reply

abbrev pub is_not_implemented : SearchError → Bool
is_not_implemented e = e.status == 501

-- `StatusError.Transient`.
abbrev pub is_transient : SearchError → Bool
is_transient e =
    (e.status == 429) || (leb 500 e.status && leb e.status 599 && not (e.status == 501))

-- The last bytes of a text against a suffix: `strings.HasSuffix`.
unfoldable pub has_suffix : Text → Text → Bool
unfolding text_eq
has_suffix [] p = text_eq [] p
has_suffix (b ∷ s) p = text_eq (b ∷ s) p || has_suffix s p

unfoldable pub trim_slash : Text → Text
trim_slash [] = []
trim_slash (b ∷ s) = let rest = trim_slash s in if is_empty s && (b == 47) then [] else b ∷ rest

abbrev pub default_search_path : Text
default_search_path = codes "/search"

-- `searchURL`.
unfoldable pub search_url : Text → Text
unfolding trim_slash has_suffix
search_url base_url =
    let base = trim_slash base_url in
    if has_suffix base default_search_path then base else base ++ default_search_path

pub record HarvestOptions : Type 0 where
  pub page_limit : ℕ
  pub page_size : ℕ
  pub query_text : Text
  pub federation : Federation

-- The result, with the number of requests made; `failed` is the error, none for a nil error.
pub record Harvest : Type 0 where
  pub results : List Entry
  pub referred : List Entry
  pub pages : ℕ
  pub requests : ℕ
  pub failed : Option SearchError

-- The variables of the loop.
pub record Cursor : Type 0 where
  pub out : Harvest
  pub federation : Federation
  pub page_token : Text

abbrev pub request_of : HarvestOptions → Cursor → SearchRequest
request_of opts c = record {
  query_text = opts.query_text;
  federation = c.federation;
  page_size = opts.page_size;
  page_token = c.page_token;
}

abbrev pub counted : Cursor → Cursor
counted c = let out = c.out in record c { out = record out { requests = suc out.requests } }

abbrev pub asks_referrals : Federation → Bool
asks_referrals referrals = true
asks_referrals no_federation = false

-- The retry without federation, on a 501 for a request with it.
abbrev pub retried : (ℕ → SearchRequest → Reply) → HarvestOptions → Cursor → Reply → Reply × Cursor
retried search opts c (answered r) = (answered r, c)
retried search opts c (broken e) =
    let plain = record c { federation = no_federation } in
    if is_not_implemented e && asks_referrals c.federation
    then (search c.out.requests (request_of opts plain), counted plain)
    else (broken e, c)

-- The request for the next page.
unfoldable pub ask : (ℕ → SearchRequest → Reply) → HarvestOptions → Cursor → Reply × Cursor
ask search opts c = retried search opts (counted c) (search c.out.requests (request_of opts c))

abbrev pub with_page : SearchResponse → Harvest → Harvest
with_page r out = record out {
  results = out.results ++ r.results;
  referred = out.referred ++ r.referred;
  pages = suc out.pages;
}

abbrev pub ended : Cursor → SearchResponse → Bool
ended c r = is_empty r.next_token || text_eq r.next_token c.page_token

-- After the answer: the loop goes on with `rest`, on the next cursor.
abbrev pub with_reply : (Cursor → Option Harvest) → Reply × Cursor → Option Harvest
with_reply rest (broken e, c) = let out = c.out in some (record out { failed = some e })
with_reply rest (answered r, c) = elim (ended c r) [
  | true ↦ some (with_page r c.out)
  | false ↦ rest (record c { out = with_page r c.out; page_token = r.next_token })
]

abbrev pub limit_reached : HarvestOptions → Harvest → Bool
limit_reached opts out = ltb 0 opts.page_limit && leb opts.page_limit out.pages

-- The loop, for at most `fuel` rounds; none if it has not ended by then.
unfoldable pub harvest_loop :
    (ℕ → SearchRequest → Reply) → HarvestOptions → ℕ → Cursor → Option Harvest
unfolding ask text_eq
harvest_loop search opts zero c = none
harvest_loop search opts (suc fuel) c = elim (limit_reached opts c.out) [
  | true ↦ some c.out
  | false ↦ with_reply (harvest_loop search opts fuel) (ask search opts c)
]

abbrev pub start : HarvestOptions → Cursor
start opts = record {
  out = record { results = []; referred = []; pages = 0; requests = 0; failed = none };
  federation = opts.federation;
  page_token = [];
}

-- `HarvestAll`, for at most `fuel` rounds.
unfoldable pub harvest_all : (ℕ → SearchRequest → Reply) → HarvestOptions → ℕ → Option Harvest
unfolding harvest_loop
harvest_all search opts fuel = harvest_loop search opts fuel (start opts)
