-- ===== src/Crawler/Followups.antt =====
-- internal/crawler/handlers.go: the follow-up work of a catalog, which `processCatalog` leaves in the
-- frontier: where it ends without an error, none of it can be lost to a crash.
use ardvark.Prelude.{
  ℕ, suc, ◌≡◌, refl, inl, inr, Bool, true, false, ◌&&◌, not, List, [], ◌∷◌, none, some, Text,
  is_empty, Bool-cases, arith, if◌then◌else◌,
}
use ardvark.Mediatype.{Kind}
use ardvark.Mediatype
use ardvark.Effects.{return, ◌>>=◌}
use ardvark.Store.Models.{kind_catalog_fetch, kind_artifact_fetch, kind_registry_harvest}
use ardvark.Store.Tables.{Registry, CatalogEntry}
use ardvark.Store.Catalogs.{save_registry}
use ardvark.Ard.Document.{Entry}
use ardvark.Ard.Semantic.{has_embedded_data}
use ardvark.Frontier.Db.{Table}
use ardvark.Frontier.Enqueue.{ensure, resume}
use ardvark.Frontier.Keys.{Has, enqueue_with-Has}
use ardvark.Crawler.Keys.{Provenance, natural_key, dedup_key, build_item}
use ardvark.Crawler.Fanout.{ensure_item, resume_item}
use ardvark.Crawler.World.{H, Crawl, on_store}
use ardvark.Crawler.Catalogs.{
  Found, ensure_for, done, follow_registry_pointer, follow_catalog_pointer, follow_entry,
  enqueue_entry_followups, embedded, kind_of_entry, is_kind_catalog, is_kind_registry, with_parent,
  with_artifact, with_registry, new_registry, index_out_of_range,
}
use ardvark.Crawler.Requests.{resume_for}
use ardvark.Crawler.Leaves.{
  Leaves, IsStable, Leaves-return, Leaves-throw, Leaves-weaken, Leaves-after_ok, Leaves-seq,
  Leaves-done, Leaves-frontier,
}

exclusive : (k : Kind) → is_kind_catalog k ≡ true → is_kind_registry k ≡ true → ⊥
exclusive Mediatype.registry a b = cc
exclusive Mediatype.unknown a b = cc
exclusive Mediatype.catalog a b = cc
exclusive Mediatype.skill a b = cc
exclusive Mediatype.mcp_server a b = cc
exclusive Mediatype.a2a_agent a b = cc
exclusive Mediatype.generic a b = cc

apart : (b : Bool) → b ≡ true → b ≡ false → ⊥
apart true x y = cc
apart false x y = cc

dropped : (a b d : Bool) → a && b && d ≡ true → a && d ≡ false → ⊥
dropped true true true x y = cc
dropped true true false x y = cc
dropped true false d x y = cc
dropped false b d x y = cc

module _ (c : Crawl) where
  -- The frontier holds the work that a call of `enqueue`, `ensure` or `resume` asks for.
  abbrev pub Queued : Text → Text → Text → Provenance → Table → Type 0
  Queued kind url host prov =
      Has (dedup_key c.producer.digest kind (natural_key kind url host prov))

  pub Queued-IsStable :
      (kind url host : Text) (prov : Provenance) → IsStable (Queued kind url host prov)
  Queued-IsStable kind url host prov t u g p = g _ p

  pub ensure_for-Queued :
      (kind url host : Text) (depth : ℕ) (prov : Provenance)
      → Leaves (λ a. Queued kind url host prov) (ensure_for c kind url host depth prov)
  unfolding ensure_for ensure_item ensure build_item
  ensure_for-Queued kind url host depth prov =
      Leaves-frontier (ensure_item c.producer kind url host depth prov) (Queued kind url host prov)
        (enqueue_with-Has c.producer.dialect c.producer.hostname
          (build_item c.producer.digest c.producer.run_id kind url host depth prov) false false)

  pub resume_for-Queued :
      (kind url host : Text) (depth : ℕ) (prov : Provenance)
      → Leaves (λ a. Queued kind url host prov) (resume_for c kind url host depth prov)
  unfolding resume_for resume_item resume build_item
  resume_for-Queued kind url host depth prov =
      Leaves-frontier (resume_item c.producer kind url host depth prov) (Queued kind url host prov)
        (enqueue_with-Has c.producer.dialect c.producer.hostname
          (build_item c.producer.digest c.producer.run_id kind url host depth prov) false true)

  -- The work for a registry: under some row of it.
  abbrev pub RegistryQueued : Text → Text → Provenance → Table → Type 0
  RegistryQueued url host prov t =
      (id : ℕ) × Queued kind_registry_harvest url host (record prov { registry_row_id = some id }) t

  follow_registry_pointer-Queued :
      (url host : Text) (depth : ℕ) (row : Registry) (prov : Provenance)
      → Leaves
          (λ a. RegistryQueued url host prov)
          (follow_registry_pointer c url host depth row prov)
  unfolding follow_registry_pointer
  follow_registry_pointer-Queued url host depth row prov =
      Leaves-after_ok (on_store (save_registry row)) _ (λ a. RegistryQueued url host prov)
        (λ w. refl)
        (λ saved.
          Leaves-weaken _
            (λ a.
              Queued kind_registry_harvest url host
                (record prov { registry_row_id = some saved.id }))
            (λ a. RegistryQueued url host prov)
            (Leaves-done c
              (ensure_for c kind_registry_harvest url host depth
                (record prov { registry_row_id = some saved.id }))
              (Queued kind_registry_harvest url host
                (record prov { registry_row_id = some saved.id }))
              (ensure_for-Queued kind_registry_harvest url host depth
                (record prov { registry_row_id = some saved.id }))
              (Queued-IsStable kind_registry_harvest url host
                (record prov { registry_row_id = some saved.id })))
            (λ a t q. (saved.id, q)))

  module _ (N : Found → Table → Type 0) where
    -- The work for one entry of a catalog, where `N` is what a catalog inside it leaves: a pointer to a
    -- catalog or to a registry or an artifact is queued, if it has a URL and the configuration asks for it.
    pub record IsFollowed (catalog_id : ℕ) (host source_url : Text) (depth : ℕ) (en : Entry)
        (row : CatalogEntry) (t : Table) : Type 0 where
      pub to_catalog :
          is_kind_catalog (kind_of_entry c en) ≡ true
          → is_empty en.url ≡ false
          → Queued kind_catalog_fetch en.url host (with_parent (some catalog_id)) t
      pub to_embedded :
          is_kind_catalog (kind_of_entry c en) ≡ true
          → is_empty en.url ≡ true
          → has_embedded_data en.data_json ≡ true
          → N (embedded c en host source_url (some catalog_id) (suc depth)) t
      pub to_registry :
          is_kind_registry (kind_of_entry c en) ≡ true
          → is_empty en.url ≡ false
          → c.harvest ≡ true
          → RegistryQueued en.url host (with_registry row.id catalog_id) t
      pub to_artifact :
          is_kind_catalog (kind_of_entry c en) ≡ false
          → is_kind_registry (kind_of_entry c en) && c.harvest ≡ false
          → is_empty en.url ≡ false
          → c.fetch_artifacts ≡ true
          → Queued kind_artifact_fetch en.url host (with_artifact row.id) t

    -- The work for all entries, each with its row.
    abbrev pub AllFollowed : ℕ → Text → Text → ℕ → List Entry → List CatalogEntry → Table → Type 0
    AllFollowed catalog_id host source_url depth [] rows t = Unit {0}
    AllFollowed catalog_id host source_url depth (en ∷ ens) [] t = ⊥
    AllFollowed catalog_id host source_url depth (en ∷ ens) (row ∷ rows) t =
        IsFollowed catalog_id host source_url depth en row t
        × AllFollowed catalog_id host source_url depth ens rows t

    module _ (stable : (g : Found) → IsStable (N g)) where
      IsFollowed-IsStable :
          (catalog_id : ℕ) (host source_url : Text) (depth : ℕ) (en : Entry) (row : CatalogEntry)
          → IsStable (IsFollowed catalog_id host source_url depth en row)
      IsFollowed-IsStable catalog_id host source_url depth en row t u g p = record {
        to_catalog = λ a b. g _ (p.to_catalog a b);
        to_embedded = λ a b e. stable _ t u g (p.to_embedded a b e);
        to_registry = λ a b e. let (id, q) = p.to_registry a b e in (id, g _ q);
        to_artifact = λ a b e f. g _ (p.to_artifact a b e f);
      }

      pub AllFollowed-IsStable :
          (catalog_id : ℕ) (host source_url : Text) (depth : ℕ) (ens : List Entry)
          (rows : List CatalogEntry)
          → IsStable (AllFollowed catalog_id host source_url depth ens rows)
      AllFollowed-IsStable catalog_id host source_url depth [] rows t u g p = tt
      AllFollowed-IsStable catalog_id host source_url depth (en ∷ ens) [] t u g p = p
      AllFollowed-IsStable catalog_id host source_url depth (en ∷ ens) (row ∷ rows) t u g p = (
        IsFollowed-IsStable catalog_id host source_url depth en row t u g p.0,
        AllFollowed-IsStable catalog_id host source_url depth ens rows t u g p.1,
      )

    module _ (nested : Found → H (Unit {0})) (stable : (g : Found) → IsStable (N g))
        (leaves : (g : Found) → Leaves (λ a. N g) (nested g)) where
      PointerFollowed : Text → Text → ℕ → Entry → ℕ → Table → Type 0
      PointerFollowed host source_url depth en id t =
          (is_empty en.url ≡ false
            → Queued kind_catalog_fetch en.url host (with_parent (some id)) t)
          × (is_empty en.url ≡ true
              → has_embedded_data en.data_json ≡ true
              → N (embedded c en host source_url (some id) depth) t)

      follow_catalog_pointer-Followed :
          (en : Entry) (host source_url : Text) (depth id : ℕ)
          → Leaves
              (λ a. PointerFollowed host source_url depth en id)
              (follow_catalog_pointer c nested en host source_url depth (some id))
      unfolding follow_catalog_pointer PointerFollowed
      follow_catalog_pointer-Followed en host source_url depth id =
          elim (Bool-cases (is_empty en.url)) [
            | inr n ↦ rw n (
                Leaves-weaken _ _ _
                  (Leaves-done c
                    (ensure_for c kind_catalog_fetch en.url host depth (with_parent (some id)))
                    (Queued kind_catalog_fetch en.url host (with_parent (some id)))
                    (ensure_for-Queued kind_catalog_fetch en.url host depth (with_parent (some id)))
                    (Queued-IsStable kind_catalog_fetch en.url host (with_parent (some id))))
                  (λ a t q. (λ x. q, λ x. absurd (ground arith))))
            | inl y ↦ elim (Bool-cases (has_embedded_data en.data_json)) [
              | inl d ↦
                  rw (y, d)
                    (Leaves-weaken _ _ _ (leaves (embedded c en host source_url (some id) depth))
                      (λ a t q. (λ x. absurd (ground arith), λ x z. q)))
              | inr d ↦
                  rw (y, d)
                    (Leaves-weaken _ _ _ (Leaves-return tt)
                      (λ a t q. (λ x. absurd (ground arith), λ x z. absurd (ground arith))))
            ]
          ]

      artifact_rest :
          (catalog_id : ℕ) (host source_url : Text) (depth : ℕ) (en : Entry) (row : CatalogEntry)
          → is_kind_catalog (kind_of_entry c en) ≡ false
          → is_kind_registry (kind_of_entry c en) && not (is_empty en.url) && c.harvest ≡ false
          → Leaves
              (λ a. IsFollowed catalog_id host source_url depth en row)
              (λ w.
                (if not (is_empty en.url) && c.fetch_artifacts
                    then (ensure_for c kind_artifact_fetch en.url host 0 (with_artifact row.id)
                        >>= done c)
                    else return tt)
                  w)
      artifact_rest catalog_id host source_url depth en row k r =
          elim (Bool-cases (not (is_empty en.url) && c.fetch_artifacts)) [
            | inl y ↦ rw y (
                Leaves-weaken _ _ _
                  (Leaves-done c
                    (ensure_for c kind_artifact_fetch en.url host 0 (with_artifact row.id))
                    (Queued kind_artifact_fetch en.url host (with_artifact row.id))
                    (ensure_for-Queued kind_artifact_fetch en.url host 0 (with_artifact row.id))
                    (Queued-IsStable kind_artifact_fetch en.url host (with_artifact row.id)))
                  (λ a t q. record {
                    to_catalog = λ x z. absurd (ground arith);
                    to_embedded = λ x z e. absurd (ground arith);
                    to_registry = λ x z e. absurd (ground arith);
                    to_artifact = λ x z e f. q;
                  }))
            | inr n ↦ rw n (
                Leaves-weaken _ _ _ (Leaves-return tt) (λ a t q. record {
                  to_catalog = λ x z. absurd (ground arith);
                  to_embedded = λ x z e. absurd (ground arith);
                  to_registry = λ x z e. absurd (ground arith);
                  to_artifact = λ x z e f. absurd (ground arith);
                }))
          ]

      follow_entry-Followed :
          (catalog_id : ℕ) (host source_url : Text) (depth : ℕ) (en : Entry) (row : CatalogEntry)
          → Leaves
              (λ a. IsFollowed catalog_id host source_url depth en row)
              (follow_entry c nested catalog_id host source_url depth en row)
      unfolding follow_entry PointerFollowed
      follow_entry-Followed catalog_id host source_url depth en row =
          elim (Bool-cases (is_kind_catalog (kind_of_entry c en))) [
            | inl y ↦ rw y (
                Leaves-weaken _ _ _
                  (follow_catalog_pointer-Followed en host source_url (suc depth) catalog_id)
                  (λ a t q. record {
                    to_catalog = λ x z. q.0 z;
                    to_embedded = λ x z e. q.1 z e;
                    to_registry = λ x z e. absurd (exclusive (kind_of_entry c en) y x);
                    to_artifact = λ x z e f. absurd (apart _ y x);
                  }))
            | inr n ↦
                elim (Bool-cases
                  (is_kind_registry (kind_of_entry c en) && not (is_empty en.url) && c.harvest)) [
                    | inl r ↦
                        rw (n, r)
                          (Leaves-weaken _ _ _
                            (follow_registry_pointer-Queued en.url host 0
                              (new_registry row.id en.url none) (with_registry row.id catalog_id))
                            (λ a t q. record {
                              to_catalog = λ x z. absurd (apart _ x n);
                              to_embedded = λ x z e. absurd (apart _ x n);
                              to_registry = λ x z e. q;
                              to_artifact = λ x z e f. absurd (
                                  dropped (is_kind_registry (kind_of_entry c en))
                                    (not (is_empty en.url)) c.harvest r z);
                            }))
                    | inr r ↦ rw (n, r) (artifact_rest catalog_id host source_url depth en row n r)
                  ]
          ]

      -- Where the loop over the entries of a catalog ends without an error, there is a row for each
      -- entry, and the work for each entry is queued or, for a catalog inside this one, done; whatever
      -- peers that only add keys do in between, and whatever other faults occur.
      pub enqueue_entry_followups-AllFollowed :
          (catalog_id : ℕ) (host source_url : Text) (depth : ℕ) (ens : List Entry)
          (rows : List CatalogEntry)
          → Leaves
              (λ a. AllFollowed catalog_id host source_url depth ens rows)
              (enqueue_entry_followups c nested catalog_id host source_url depth ens rows)
      unfolding enqueue_entry_followups
      enqueue_entry_followups-AllFollowed catalog_id host source_url depth [] rows =
          Leaves-return tt
      enqueue_entry_followups-AllFollowed catalog_id host source_url depth (en ∷ ens) [] =
          Leaves-throw (λ a t. ⊥) index_out_of_range
      enqueue_entry_followups-AllFollowed catalog_id host source_url depth (en ∷ ens) (row ∷ rows) =
          Leaves-seq (follow_entry c nested catalog_id host source_url depth en row)
            (enqueue_entry_followups c nested catalog_id host source_url depth ens rows)
            (IsFollowed catalog_id host source_url depth en row)
            (AllFollowed catalog_id host source_url depth ens rows)
            (follow_entry-Followed catalog_id host source_url depth en row)
            (IsFollowed-IsStable stable catalog_id host source_url depth en row)
            (enqueue_entry_followups-AllFollowed catalog_id host source_url depth ens rows)
