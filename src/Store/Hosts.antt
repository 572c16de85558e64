-- ===== src/Store/Hosts.antt =====
-- internal/store/store.go: the table of domains as a map from hosts, which the operations on it refine.
use ardvark.Prelude.{
  ℕ, ◌==◌, ◌≡◌, refl, ap, ◌∙◌, inl, inr, Bool, true, false, ◌&&◌, List, [], ◌∷◌, ◌++◌, Option, none,
  some, Text, text_eq, text_eq_refl, find, any, update_where, Option-cases, Bool-cases, arith,
  if◌then◌else◌,
}
use ardvark.Frontier.Db.{Result, ok, err}
use ardvark.Effects.{try, when_ok, ◌>>◌}
use ardvark.Store.Tables.{
  Tables, appended, Domain, Probe, DiscoverySource, ArdStatus, unprobed, not_found, advertised,
  found_invalid, found_valid,
}
use ardvark.Store.Statements.{Store, StoreError, S, statement, inside, peers_of, fault_of}
use ardvark.Store.Atomic.{Does-inside, Does-bind, transaction_lem}
use ardvark.Store.Domains.{
  of_host, of_id, first_domain, create_domain, updated_domains, set_domains, update_domains,
  new_domain, raced, made, existing_or, upsert_domain, may_advertise, with_status, with_probed_at,
  promote_domain_advertised, restore_domain_last_probed_at, insert_probe, record_probe,
  update_domain_ard_status,
}

-- The domain of each host.
abbrev pub DomainMap : Type 0
DomainMap = Text → Option Domain

abbrev pub view : Tables → DomainMap
view t host = find (of_host host) t.domains.rows

-- A call that looks at the table last finds what it returns.
abbrev Finds : Text → S Domain → Type 0
Finds host m = (s : Store) (d : Domain) → (m s).0 ≡ ok d → view (m s).1.tables host ≡ some d

find-last :
    (host : Text) (rows : List Domain) (d : Domain)
    → any (of_host host) rows ≡ false
    → text_eq d.host host ≡ true
    → find (of_host host) (rows ++ d ∷ []) ≡ some d
unfolding find any
find-last host [] d h e = rw e refl
find-last host (r ∷ rows) d h e = ground (arith, find-last host rows d)

-- After the look-up, a row that it found is there.
abbrev Looked : Text → Result StoreError (Option Domain) × Store → Type 0
Looked host out = (d : Domain) → out.0 ≡ ok (some d) → view out.1.tables host ≡ some d

first_domain-Looked : (host : Text) (s : Store) → Looked host (first_domain (of_host host) s)
unfolding first_domain statement inside
first_domain-Looked host s d = elim (Option-cases (fault_of s.world)) [
  | inl e ↦ rw e (λ u. cc)
  | inr (failure, e) ↦ rw e (λ u. cc)
]

create-Finds :
    (host : Text) (now : ℕ) (source : DiscoverySource)
    → Finds host (create_domain (new_domain now host source))
unfolding create_domain statement inside
create-Finds host now source s d = elim (Option-cases (fault_of s.world)) [
  | inl e ↦
      let rows = (peers_of s.world s.tables).domains.rows in
      elim (Bool-cases (any (of_host host) rows)) [
        | inl y ↦ rw (e, y) (λ u. cc)
        | inr n ↦ rw (e, n) (λ u. find-last host rows _ n (text_eq_refl host) ∙ cc)
      ]
  | inr (failure, e) ↦ rw e (λ u. cc)
]

some_ok :
    (x d : Domain)
    → ◌≡◌ {A = Result StoreError Domain} (ok x) (ok d)
    → ◌≡◌ {A = Result StoreError (Option Domain)} (ok (some x)) (ok (some d))
some_ok x d u = ap (λ (r : Result StoreError Domain). optional r) u
  where
    optional : Result StoreError Domain → Result StoreError (Option Domain)
    optional (ok y) = ok (some y)
    optional (err e) = err e

module _ (now : ℕ) (host : Text) (source : DiscoverySource) where
  abbrev create : S Domain
  create = create_domain (new_domain now host source)

  raced-Finds : (x : StoreError) → Finds host (try (first_domain (of_host host)) (raced x))
  raced-Finds x s d = go (first_domain (of_host host) s).0 refl
    where
      go :
          (r : Result StoreError (Option Domain))
          → (first_domain (of_host host) s).0 ≡ r
          → (raced x r (first_domain (of_host host) s).1).0 ≡ ok d
          → view (raced x r (first_domain (of_host host) s).1).1.tables host ≡ some d
      go (ok (some y)) e u = first_domain-Looked host s d (e ∙ some_ok y d u)
      go (ok none) e u = cc
      go (err z) e u = cc

  made-Finds : Finds host (try create (made host))
  made-Finds s d = go (create s).0 refl
    where
      go :
          (r : Result StoreError Domain)
          → (create s).0 ≡ r
          → (made host r (create s).1).0 ≡ ok d
          → view (made host r (create s).1).1.tables host ≡ some d
      go (ok y) e u = create-Finds host now source s d (e ∙ u)
      go (err x) e u = raced-Finds x (create s).1 d u

  -- Whatever peers and faults come in between, a domain that `UpsertDomain` returns is the row of its
  -- host, in the tables as they are when it returns.
  pub upsert_domain-view :
      (s : Store) (d : Domain)
      → (upsert_domain now host source s).0 ≡ ok d
      → view (upsert_domain now host source s).1.tables host ≡ some d
  unfolding upsert_domain
  upsert_domain-view s d = go (first_domain (of_host host) s).0 refl
    where
      go :
          (r : Result StoreError (Option Domain))
          → (first_domain (of_host host) s).0 ≡ r
          → (when_ok (existing_or (try create (made host))) r (first_domain (of_host host) s).1).0
            ≡ ok d
          → view
              (when_ok
                (existing_or (try create (made host)))
                r
                (first_domain (of_host host) s).1).1.tables
              host
            ≡ some d
      go (ok (some x)) e u = first_domain-Looked host s d (e ∙ some_ok x d u)
      go (ok none) e u = made-Finds (first_domain (of_host host) s).1 d u
      go (err x) e u = cc

-- A call that changes the tables refines a change of the map: it makes the change to what the peers left
-- at its start where it reports no error, and none where it reports one.
abbrev pub Refines : S (Unit {0}) → (DomainMap → DomainMap) → Type 0
Refines m change =
    (s : Store) (host : Text)
    → let before = view (peers_of s.world s.tables) in
      let out = m s in
      (out.0 ≡ ok tt → view out.1.tables host ≡ change before host)
      × ((e : StoreError) → out.0 ≡ err e → view out.1.tables host ≡ before host)

-- The domain with an id is changed.
abbrev pub changed : (Domain → Bool) → (Domain → Domain) → Option Domain → Option Domain
changed p f none = none
changed p f (some d) = some (if p d then f d else d)

abbrev pub at_domains : (Domain → Bool) → (Domain → Domain) → DomainMap → DomainMap
at_domains p f m host = changed p f (m host)

find-updated :
    (p : Domain → Bool) (f : Domain → Domain) (host : Text) (rows : List Domain)
    → ((d : Domain) → (f d).host ≡ d.host)
    → find (of_host host) (update_where p f rows) ≡ changed p f (find (of_host host) rows)
unfolding find update_where
find-updated p f host [] h = refl
find-updated p f host (d ∷ rows) h = ground (arith, h d, find-updated p f host rows h)

update_domains-Refines :
    (p : Domain → Bool) (f : Domain → Domain)
    → ((d : Domain) → (f d).host ≡ d.host)
    → Refines (update_domains p f) (at_domains p f)
unfolding update_domains statement inside
update_domains-Refines p f h s host = elim (Option-cases (fault_of s.world)) [
  | inl e ↦ rw e (λ u. find-updated p f host (peers_of s.world s.tables).domains.rows h, λ x u. cc)
  | inr (failure, e) ↦ rw e (λ u. cc, λ x u. refl)
]

-- The operations that change a domain.
pub data Operation : Type 0 where
  promotes : ℕ → Operation
  restores : ℕ → Option ℕ → Operation
  records : Probe → Operation
  updates : ℕ → ArdStatus → Operation

abbrev pub perform : Operation → S (Unit {0})
perform (promotes id) = promote_domain_advertised id
perform (restores id at) = restore_domain_last_probed_at id at
perform (records p) = record_probe p
perform (updates id status) = update_domain_ard_status id status

-- The ladder of `ARDStatus`: a host that advertises may have a status above that.
abbrev pub raised : ArdStatus → ArdStatus
raised unprobed = advertised
raised not_found = advertised
raised advertised = advertised
raised found_invalid = found_invalid
raised found_valid = found_valid

-- The change of the host whose domain has an id.
abbrev pub at_id : ℕ → (Domain → Domain) → DomainMap → DomainMap
at_id id f m host = changed (λ d. d.id == id) f (m host)

abbrev pub specified : Operation → DomainMap → DomainMap
specified (promotes id) = at_id id (λ d. record d { ard_status = raised d.ard_status })
specified (restores id at) = at_id id (λ d. record d { last_probed_at = at })
specified (records p) = at_id p.domain_id (λ d. record d { last_probed_at = some p.probed_at })
specified (updates id status) = at_id id (λ d. record d { ard_status = status })

raised_lem :
    (b : Bool) (s : ArdStatus) (d : Domain)
    → d.ard_status ≡ s
    → (if b && may_advertise d.ard_status then with_status advertised d else d)
      ≡ (if b then with_status (raised d.ard_status) d else d)
raised_lem false s d e = refl
raised_lem true unprobed d e = rw e refl
raised_lem true not_found d e = rw e refl
raised_lem true advertised d e = rw e refl
raised_lem true found_invalid d e = rw e refl
raised_lem true found_valid d e = rw e refl

promoted_lem :
    (id : ℕ) (o : Option Domain)
    → changed (λ d. of_id id d && may_advertise d.ard_status) (with_status advertised) o
      ≡ changed (of_id id) (λ d. with_status (raised d.ard_status) d) o
promoted_lem id none = refl
promoted_lem id (some d) = ap some (raised_lem (of_id id d) d.ard_status d refl)

promote-Refines : (id : ℕ) → Refines (promote_domain_advertised id) (specified (promotes id))
unfolding promote_domain_advertised
promote-Refines id s host =
    let (done, failed) =
      update_domains-Refines (λ d. of_id id d && may_advertise d.ard_status)
        (with_status advertised) (λ d. refl) s host in
    (λ u. done u ∙ promoted_lem id (view (peers_of s.world s.tables) host), failed)

probe_tables : Probe → Tables → Tables
probe_tables p t =
    let row = record p { id = t.probes.next_id } in
    set_domains (of_id p.domain_id) (with_probed_at (some p.probed_at))
      (record t { probes = appended row t.probes })

record-Refines : (p : Probe) → Refines (record_probe p) (specified (records p))
unfolding record_probe probe_tables
record-Refines p s host =
    let (done, failed) =
      transaction_lem
        (inside (insert_probe p)
          >> inside (updated_domains (of_id p.domain_id) (with_probed_at (some p.probed_at))))
        (λ t. tt) (probe_tables p) s
        (Does-bind (inside (insert_probe p))
          (λ a. inside (updated_domains (of_id p.domain_id) (with_probed_at (some p.probed_at))))
          (λ t. tt)
          (λ t.
            (let row = record p { id = t.probes.next_id } in
              record t { probes = appended row t.probes }))
          (λ a t. tt) (λ a. set_domains (of_id p.domain_id) (with_probed_at (some p.probed_at)))
          (Does-inside (insert_probe p) _ _ (λ t. refl))
          (λ a.
            Does-inside (updated_domains (of_id p.domain_id) (with_probed_at (some p.probed_at))) _
              _ (λ t. refl))) in
    (
      λ u.
          ap (λ t. view t host) (done tt u).1
          ∙ find-updated (of_id p.domain_id) (with_probed_at (some p.probed_at)) host
              (peers_of s.world s.tables).domains.rows (λ d. refl),
      λ e u. ap (λ t. view t host) (failed e u),
    )

-- Each operation that changes a domain refines its specification on the map from hosts to domains: where
-- it reports no error it has changed the domain with its id, in what the peers left at its start, and no
-- other, and where it reports one it has changed no domain. A promotion raises a status below advertised
-- to that and keeps any other; a restore and a record of a probe set the time of the last probe; an update
-- sets the status it is given, be it above or below the one before.
pub perform-Refines : (op : Operation) → Refines (perform op) (specified op)
unfolding restore_domain_last_probed_at update_domain_ard_status
perform-Refines (promotes id) = promote-Refines id
perform-Refines (restores id at) = update_domains-Refines (of_id id) (with_probed_at at) (λ d. refl)
perform-Refines (records p) = record-Refines p
perform-Refines (updates id status) =
    update_domains-Refines (of_id id) (with_status status) (λ d. refl)
