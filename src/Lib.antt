-- ===== src/Lib.antt =====
-- ardvark: a verification library for the crawler of Agentic Resource Discovery catalogs.
--
-- The program crawls hosts for ARD catalogs (`ai-catalog.json`). A run works on a persistent
-- queue, the frontier, which several processes may share in one database: `internal/frontier`
-- hands out items under a lease and takes them back, and `internal/crawler` has a dispatcher that
-- feeds a pool of workers, each of which runs the handler of an item's kind and settles the item
-- in the queue. A handler fetches a page or a document (`internal/fetch`, `internal/probe`), finds
-- links and catalogs in it (`internal/harvest`, `internal/ard`), verifies a catalog against the
-- specification (`internal/ard`, with `internal/mediatype` for the types of its entries), saves it
-- (`internal/store`) and enqueues what follows from it. The commands under `cmd/ardvark` and the
-- readers in `internal/jsonout` and `internal/mcpserver` stand around this core.
--
-- Files:
--   Prelude: the names that all modules use. Tests, Lists, Strings and Parts have Boolean tests,
--     the loops over slices, and the functions of Go's `strings` on lists of bytes; Ascii is the
--     instance of `Unicode` for texts of ASCII.
--   Failure and Effects: an error as the engine reads it; code over a state that may fail.
--   Store: `internal/store`. Models (the row of the frontier) and Tables (the other rows) are
--     `models.go`; Statements is the database under statements and transactions; Domains and
--     Catalogs are `store.go`, one function for each of its methods on these tables. Atomic is
--     about transactions and `SaveCatalog`, Hosts about the domains as a map; Examples has tests.
--   Frontier: `internal/frontier/frontier.go`. Db is the database under single statements;
--     Config, Shard, Enqueue, Dequeue and Release are the code. Rely, Invariant, Statements,
--     Validity and Schedule are about every history of calls by many workers, Keys about the
--     keys that calls leave; Picked, Ownership
--     and Exclusive about the owner of a lease; Lookup, Finish, Admission, Selection, Handout, Budget,
--     Sharing and Sweeps about what each call does where nothing interferes. Samples and
--     Examples are tests.
--   Crawler: `internal/crawler`. Of `engine.go`, Backoff, Digits, Keys, Engine, Dispatch and
--     Fanout are the code (`backoffDuration`, `%d`, `buildItem` with `dedupKey`, `process`, `Run`,
--     and the enqueue methods with the link loop of `handlePageFetch`); Relations, Identity,
--     Outcome, Drained, Liveness and PageBudget are about it; Examples has the tests. Of
--     `handlers.go` and `events.go`, World (the state and the parameters), Rows (`buildEntryRow`,
--     `splitChecks` and the texts of events), Catalogs (`processCatalog`), Requests, Seeding
--     (`EnqueueSeedURL`, `EnqueueSeedHost`), Pages (`handlePageFetch`), Probing (`handleHostProbe`), Documents (`handleCatalogFetch`,
--     `handleArtifactFetch`) and Harvesting (`handleRegistryHarvest`, `handleItem`, and `process`
--     over these handlers) are the code. Nesting is about the recursion of `processCatalog`;
--     Leaves, Followups, Recovery, Unchanged and Probed about the work that handlers leave in the frontier;
--     Keeps, Handling, Steps and Valid about what they keep of it; Scenario has the tests.
--   Ard: `internal/ard`. Document, Checks (`checks.go`), Inline (`inline.go`), Urn (`types.go`),
--     Report, Semantic and Verify (`verify.go`, with the heuristics of `internal/httpx/httpx.go`
--     in Report) are the code;
--     Partition, Attribution, Embedded, UrnText, Verdict, Subjects, Stored and Unique are about
--     it; Samples, Examples and Reports are tests.
--   Harvest: `internal/harvest/harvest.go`, with `ResolveHTTPURL` of `internal/httpx/httpx.go`.
--   Config: `internal/config/config.go`, with Loading (`Load`) and Places (`paths.go`); Fleet is about
--     the shards of the workers that it configures; Examples has the tests.
--   Mediatype: `internal/mediatype/mediatype.go`, with Variants about it, and Examples.
--   Jsonout: `Search` of `internal/jsonout/search.go`, with Matching and Paging about it; Queries
--     and Details are `GetEntry` and `GetCatalog`, with Grouped about them; Examples has tests.
--   Probe: `internal/probe/probe.go`, with Aliases and Directives about it, and Examples.
--   Seed: `internal/seed/seed.go`, how names become domains, with Hostnames and Collected about it, and
--     Examples.
--   Fetch: `internal/fetch/fetch.go`, `Get`, `GetWellKnown`, `RawRobots` and the cache of robots.txt, with Robots about it,
--     and Examples.
--   Registry: `internal/registry/registry.go`, the pages of a harvest, with Pages and Collected
--     about it, and Examples.
--
-- The database. A table of the frontier is the list of its rows by rising id, with the id that
-- comes next. A call of the frontier is a function on a database: the table, and what happens at
-- each statement to come. At a statement the peers that share the database may first change the
-- table in any way, the driver may report a fault, and peers may hold rows locked. Each SQL
-- statement is atomic, and the transaction of `Dequeue` is one step of which the rows it selects
-- are its own until it commits (an exclusive transaction, or `FOR UPDATE SKIP LOCKED` where the
-- driver has it). A property of histories assumes of the peers that they keep an invariant
-- (`Holds`); a property of single calls is stated on a database that is `quiet`. A driver reports
-- a clash with the unique index by a text of its own, and the model assumes that
-- `isUniqueConstraintErr` knows it. The tables of the store are in the same way under statements
-- of their own, each with peers and a fault, and peers do not come in between the statements of a
-- transaction, which leaves nothing behind if one of them or the commit fails. A handler runs over
-- both, and over the events that it emits; an error that the code logs and goes on from is dropped.
--
-- Numbers. Times are in seconds and an argument of each call, durations of the pause nanoseconds
-- with the wrap of an int64; depth, priority, attempts and ids are never negative. `GORM`'s
-- timestamps are left out. The hash of a shard is computed with its wrap at 32 bits.
--
-- Parameters. The digest of `dedupKey`, the parse of a URL to its host, `idna.ToASCII`, the public
-- suffix list, `net.ParseIP`, the HTTP client of a probe and of a fetch, the reader of a
-- robots.txt, one search of a registry, `json.Unmarshal` and `json.Marshal`, and the case and
-- space rules of Unicode are arguments, and a theorem that relies on one says what it relies on.
-- The handlers are an argument of `process` in Engine: what is proved of it holds for every
-- handler. A `Crawl` has what the handlers read: the configuration, the fetches and the searches by
-- their results, the probes of a host, the compiled JSON Schema by its verdict on a document,
-- `html.Parse`, SHA-256, and how `encoding/json` reads and writes a document. The file system, the
-- environment and the schema of the configuration are arguments of what loads it.
--
-- Loops. `Run` is a loop over the rounds that it goes through, each with what the workers did
-- before it, and reports that it is still running when they are used up: that it ends once the
-- frontier is drained is a theorem. `HarvestAll` has the number of its rounds as fuel: one more
-- than its limit on pages is enough, by a theorem. `processCatalog` has
-- the levels of catalogs in one another as fuel: those that `maxCatalogDepth` leaves are enough,
-- by a theorem. All other loops are structural; `digits` has
-- the number itself as fuel.
--
-- Not modelled: the pacing and the redirects of the HTTP client, the opening and the migrations of
-- the database, the rows of crawl runs, the services that seeds come from, the commands, and the
-- readers but for `Search`, `GetCatalog` and `GetEntry`. The columns for the reference to the
-- specification and the trust manifest, which the code only passes on, are left out, and so is the
-- log.
-- Concurrency inside a process is the interleaving of statements.
pub mod Prelude
pub mod Failure
pub mod Effects
pub mod Store
pub mod Frontier
pub mod Crawler
pub mod Ard
pub mod Mediatype
pub mod Probe
pub mod Seed
pub mod Registry
pub mod Fetch
pub mod Harvest
pub mod Jsonout
pub mod Config
