-- ===== src/Crawler/Examples.antt =====
-- Concrete items, engines and rounds, tests of internal/crawler on them, and its theorems at these
-- inputs.
use ardvark.Prelude.{
  List, Text, Lacks, ℕ, ◌≡◌, ◌↔◌, ◌*◌, ◌^◌, refl, true, false, [], ◌∷◌, none, some, Text, codes,
  any, All, find, arith, ◌==◌, update_where, count_where, select, text_eq,
}
use ardvark.Store.Models.{kind_catalog_fetch, kind_registry_harvest}
use ardvark.Frontier.Samples.{queue, queue-IsValid, flying, finished, sqlite, worker}
use ardvark.Frontier.Db.{Table}
use ardvark.Frontier.Dequeue.{pick, mark}
use ardvark.Frontier.Lookup.{quiet}
use ardvark.Frontier.Sweeps.{IsFinished}
use ardvark.Crawler.Backoff.{backoff_duration, backoff_duration_lem, capped}
use ardvark.Crawler.Keys.{no_provenance}
use ardvark.Crawler.Relations.{relation}
use ardvark.Crawler.Identity.{Request, base_of, built, build_item-same_key}
use ardvark.Failure.{Failure}
use ardvark.Crawler.Engine.{Handler, Engine, process, handle_item}
use ardvark.Crawler.Outcome.{Settled, outcome_after, pause_after, row_after, process_outcome}
use ardvark.Crawler.Dispatch.{Round, started, drained, run, loop}
use ardvark.Crawler.Drained.{run_drained}
use ardvark.Crawler.Liveness.{loop_ends}
use ardvark.Crawler.Fanout.{Producer, follow_links}
use ardvark.Crawler.PageBudget.{WithinBudget, follow_links-WithinBudget}
use ardvark.Frontier.Samples.{no_hosts}

backoff_duration_lem_example : backoff_duration 4 1000 ≡ capped (1000 * 2 ^ 3)
backoff_duration_lem_example = backoff_duration_lem 3 1000

Lacks-any : (c : ℕ) (s : Text) → any (λ b. b == c) s ≡ false → Lacks c s
unfolding any
Lacks-any c [] h = tt
Lacks-any c (b ∷ s) h = (ground arith, Lacks-any c s (ground arith))

abbrev nested : Request
nested = record {
  kind = kind_catalog_fetch;
  url = codes "https://a.example/c.json";
  host = codes "a.example";
  depth = 1;
  prov = record no_provenance { parent_catalog_id = some 12 };
}

abbrev harvest : Request
harvest = record {
  kind = kind_registry_harvest;
  url = codes "https://a.example/c.json";
  host = codes "a.example";
  depth = 1;
  prov = record no_provenance { registry_entry_id = some 12 };
}

build_item-same_key_example :
    ((built (λ s. s) 1 nested).dedup_key ≡ (built (λ s. s) 2 harvest).dedup_key)
    ↔ (nested.kind ≡ harvest.kind)
      × (base_of nested ≡ base_of harvest)
      × (relation nested.kind nested.prov ≡ relation harvest.kind harvest.prov)
unfolding any text_eq
build_item-same_key_example =
    build_item-same_key (λ s. s) 1 2 nested harvest (Lacks-any 58 nested.kind refl)
      (Lacks-any 58 harvest.kind refl) (Lacks-any 0 nested.url refl) (Lacks-any 0 harvest.url refl)
      (λ e. e)

-- A time-out that `fetch.Error` calls transient.
abbrev timed_out : Failure
timed_out = record {
  text = codes "timeout";
  canceled = false;
  classified = some true;
  timeout = true;
}

abbrev fails : Handler
fails item db = (some timed_out, db)

abbrev succeeds : Handler
succeeds item db = (none, db)

abbrev engine : Engine
engine = record {
  frontier = worker (codes "b");
  handlers = record {
    page_fetch = fails;
    host_probe = succeeds;
    catalog_fetch = succeeds;
    artifact_fetch = succeeds;
    registry_harvest = succeeds;
  };
  driver = codes "sqlite";
  configured_concurrency = 2;
  configured_attempts = 0;
  backoff_base = 1000;
}

process_outcome_example :
    Settled engine.frontier 2
      (outcome_after false (some timed_out))
      (pause_after engine false flying (some timed_out))
      (row_after engine false (some timed_out))
      queue
      flying
      (process engine false flying (quiet queue))
unfolding find handle_item text_eq
process_outcome_example =
    process_outcome engine flying flying queue queue-IsValid refl false (some timed_out)
      (quiet queue) refl

abbrev over : Table
over = record { rows = finished ∷ []; next_id = 4 }

abbrev quiet_round : Round
quiet_round = record { cancelled = false; now = 50; finished = 0; work = λ db. db }

loop_ends_example :
    loop sqlite engine (quiet_round ∷ []) (started 40) (quiet over) ≡ (drained, quiet over)
loop_ends_example =
    loop_ends sqlite engine quiet_round [] (started 40) (quiet over) over refl ((refl, refl), tt)
      refl (ground arith) refl

sqlite-run_ends : run sqlite engine 40 (quiet_round ∷ []) (quiet over) ≡ (drained, quiet over)
unfolding run update_where pick select count_where mark any
sqlite-run_ends = refl

run_drained_example : All IsFinished over.rows
run_drained_example =
    run_drained sqlite engine 40 (quiet_round ∷ []) (quiet over) (quiet over) sqlite-run_ends

-- The last item of the frontier is handled, and the crawl ends.
single_attempt : (process engine false flying (quiet queue)).1 ≡ 4000
unfolding process handle_item find text_eq count_where
single_attempt = refl

abbrev producer : Producer
producer = record {
  dialect = sqlite;
  hostname = no_hosts;
  host_of = λ link. some (codes "a.example");
  digest = λ s. 107 ∷ s;
  run_id = 7;
  max_pages_per_domain = 4;
  max_depth = 2;
}

abbrev two_links : List Text
two_links = codes "https://a.example/x" ∷ codes "https://a.example/y" ∷ []

-- The host has three pages, and room for one more.
follow_links-WithinBudget_example :
    WithinBudget (codes "a.example") 4 (follow_links producer 0 two_links (quiet queue))
unfolding count_where text_eq
follow_links-WithinBudget_example =
    follow_links-WithinBudget producer (λ s. refl) (codes "a.example") 0 two_links (quiet queue)
      (queue, refl, queue-IsValid, omega arith)
