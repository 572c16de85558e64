-- ===== src/Store/Domains.antt =====
-- internal/store/store.go: domains and probes.
use ardvark.Prelude.{
  ℕ, ltb, ◌-◌, ◌==◌, Bool, true, false, ◌&&◌, Option, none, some, Text, codes, text_eq, find, any,
  update_where, if◌then◌else◌,
}
use ardvark.Failure.{Failure}
use ardvark.Frontier.Db.{Result, ok, err}
use ardvark.Effects.{return, throw, try, ◌>>=◌, ◌>>◌}
use ardvark.Store.Tables.{
  Tables, appended, Domain, DiscoverySource, ArdStatus, unprobed, not_found, advertised,
  found_invalid, found_valid, Probe,
}
use ardvark.Store.Statements.{
  StoreError, missing, broken, S, statement, inside, transaction, first_row,
}

abbrev pub of_host : Text → Domain → Bool
of_host host d = text_eq d.host host

abbrev pub of_id : ℕ → Domain → Bool
of_id id d = d.id == id

unfoldable pub first_domain : (Domain → Bool) → S (Option Domain)
unfolding statement find
first_domain p = statement (first_row (λ t. t.domains) p)

-- A clash with the unique index on `host`.
abbrev pub duplicate_host : Failure
duplicate_host = record {
  text = codes "UNIQUE constraint failed: domains.host";
  canceled = false;
  classified = none;
  timeout = false;
}

abbrev pub insert_domain : Domain → Tables → Result StoreError Domain × Tables
insert_domain d t =
    let row = record d { id = t.domains.next_id } in
    if any (of_host d.host) t.domains.rows
    then (err (broken duplicate_host), t)
    else (ok row, record t { domains = appended row t.domains })

unfoldable pub create_domain : Domain → S Domain
unfolding statement any
create_domain d = statement (insert_domain d)

abbrev pub set_domains : (Domain → Bool) → (Domain → Domain) → Tables → Tables
set_domains p f t =
    let ds = t.domains in record t { domains = record ds { rows = update_where p f ds.rows } }

abbrev pub updated_domains :
    (Domain → Bool) → (Domain → Domain) → Tables → Result StoreError (Unit {0}) × Tables
updated_domains p f t = (ok tt, set_domains p f t)

unfoldable pub update_domains : (Domain → Bool) → (Domain → Domain) → S (Unit {0})
unfolding statement update_where
update_domains p f = statement (updated_domains p f)

abbrev pub new_domain : ℕ → Text → DiscoverySource → Domain
new_domain now host source = record {
  id = 0;
  host = host;
  first_seen_at = now;
  last_probed_at = none;
  discovery_source = source;
  ard_status = unprobed;
}

-- After the look at the row that another writer may have inserted meanwhile.
abbrev pub raced : StoreError → Result StoreError (Option Domain) → S Domain
raced e (ok (some d)) = return d
raced e (ok none) = throw e
raced e (err e') = throw e

abbrev pub made : Text → Result StoreError Domain → S Domain
made host (ok d) = return d
made host (err e) = try (first_domain (of_host host)) (raced e)

abbrev pub existing_or : S Domain → Option Domain → S Domain
existing_or create (some d) = return d
existing_or create none = create

-- `UpsertDomain`.
unfoldable pub upsert_domain : ℕ → Text → DiscoverySource → S Domain
unfolding first_domain create_domain
upsert_domain now host source =
    first_domain (of_host host)
    >>= existing_or (try (create_domain (new_domain now host source)) (made host))

abbrev pub or_missing : Text → Option Domain → S Domain
or_missing what (some d) = return d
or_missing what none = throw (missing what)

-- `DomainByHost`.
unfoldable pub domain_by_host : Text → S Domain
unfolding first_domain
domain_by_host host = first_domain (of_host host) >>= or_missing (codes "store: not found")

-- `DomainByID`.
unfoldable pub domain_by_id : ℕ → S Domain
unfolding first_domain
domain_by_id id = first_domain (of_id id) >>= or_missing (codes "store: not found")

abbrev pub may_advertise : ArdStatus → Bool
may_advertise unprobed = true
may_advertise not_found = true
may_advertise advertised = false
may_advertise found_invalid = false
may_advertise found_valid = false

abbrev pub with_status : ArdStatus → Domain → Domain
with_status s d = record d { ard_status = s }

abbrev pub with_probed_at : Option ℕ → Domain → Domain
with_probed_at at d = record d { last_probed_at = at }

-- `PromoteDomainAdvertised`.
unfoldable pub promote_domain_advertised : ℕ → S (Unit {0})
unfolding update_domains
promote_domain_advertised id =
    update_domains (λ d. of_id id d && may_advertise d.ard_status) (with_status advertised)

-- `RestoreDomainLastProbedAt`.
unfoldable pub restore_domain_last_probed_at : ℕ → Option ℕ → S (Unit {0})
unfolding update_domains
restore_domain_last_probed_at id previous = update_domains (of_id id) (with_probed_at previous)

abbrev pub fresh_at : ℕ → ℕ → Option ℕ → Bool
fresh_at now window none = false
fresh_at now window (some at) = ltb (now - at) window

abbrev pub is_fresh : ℕ → ℕ → Result StoreError Domain → S Bool
is_fresh now window (ok d) = return (fresh_at now window d.last_probed_at)
is_fresh now window (err (missing what)) = return false
is_fresh now window (err (broken e)) = throw (broken e)

-- `RecentlyProbed`, for a clock that does not run backwards.
unfoldable pub recently_probed : ℕ → Text → ℕ → S Bool
unfolding domain_by_host
recently_probed now host window = try (domain_by_host host) (is_fresh now window)

abbrev pub insert_probe : Probe → Tables → Result StoreError (Unit {0}) × Tables
insert_probe p t =
    let row = record p { id = t.probes.next_id } in
    (ok tt, record t { probes = appended row t.probes })

-- `RecordProbe`, of which every caller sets `ProbedAt`.
unfoldable pub record_probe : Probe → S (Unit {0})
unfolding transaction inside update_where
record_probe p = transaction (
    inside (insert_probe p)
    >> inside (updated_domains (of_id p.domain_id) (with_probed_at (some p.probed_at))))

-- `UpdateDomainARDStatus`.
unfoldable pub update_domain_ard_status : ℕ → ArdStatus → S (Unit {0})
unfolding update_domains
update_domain_ard_status id status = update_domains (of_id id) (with_status status)
