-- ===== src/Store/Atomic.antt =====
-- internal/store/store.go: what a transaction does, as a whole or not at all, and `SaveCatalog` as one.
use ardvark.Prelude.{
  ℕ, ◌≡◌, refl, sym, ap, ◌∙◌, inl, inr, List, [], ◌∷◌, ◌++◌, map, Option, none, some, Option-cases,
  get_elem?,
}
use ardvark.Frontier.Db.{Result, ok, err}
use ardvark.Effects.{return, when_ok, ◌>>=◌, for_each}
use ardvark.Store.Tables.{
  Tables, Rows, appended, Catalog, CatalogEntry, VerificationCheck, of_catalog, of_entry,
}
use ardvark.Store.Statements.{
  Store, StoreError, S, statement, inside, transaction, peers_of, fault_of, later, committed,
  rolled_back,
}
use ardvark.Store.Catalogs.{
  insert_catalog, numbered_entries, append_entries, insert_entries, create_entries, append_checks,
  insert_checks, create_checks, on_subject, of_saved, checks_of_entry, save_entry_checks, Saved,
  save_rest, save_catalog,
}

-- Inside a transaction: where `m` succeeds, it gives `x t` and makes the tables `f t` of the tables `t`.
abbrev pub Does : {A : Type 0} → S A → (Tables → A) → (Tables → Tables) → Type 0
Does {A} m x f =
    (s : Store) (a : A) → (m s).0 ≡ ok a → (a ≡ x s.tables) × ((m s).1.tables ≡ f s.tables)

pub Does-return : {A : Type 0} (a : A) → Does (return a) (λ t. a) (λ t. t)
Does-return a s b e = (cc, refl)

pub Does-inside :
    {A : Type 0} (run : Tables → Result StoreError A × Tables) (x : Tables → A)
    (f : Tables → Tables)
    → ((t : Tables) → run t ≡ (ok (x t), f t))
    → Does (inside run) x f
unfolding inside
Does-inside run x f h s a = elim (Option-cases (fault_of s.world)) [
  | inl e ↦ rw (e, h s.tables) (λ u. (cc, refl))
  | inr (failure, e) ↦ rw e (λ u. cc)
]

pub Does-bind :
    {A B : Type 0} (m : S A) (k : A → S B) (x : Tables → A) (f : Tables → Tables)
    (y : A → Tables → B) (g : A → Tables → Tables)
    → Does m x f
    → ((a : A) → Does (k a) (y a) (g a))
    → Does (m >>= k) (λ t. y (x t) (f t)) (λ t. g (x t) (f t))
Does-bind {A} {B} m k x f y g hm hk s b = go (m s).0 refl
  where
    go :
        (r : Result StoreError A)
        → (m s).0 ≡ r
        → (when_ok k r (m s).1).0 ≡ ok b
        → (b ≡ y (x s.tables) (f s.tables))
          × ((when_ok k r (m s).1).1.tables ≡ g (x s.tables) (f s.tables))
    go (ok a) e u =
        let (same, moved) = hm s a e in
        let (given, left) = hk a (m s).1 b u in
        (given ∙ (rw (same, moved) refl), left ∙ (rw (same, moved) refl))
    go (err z) e u = cc

-- A transaction that reports an error leaves the tables as the peers left them at its start; one that
-- succeeds has done what its body does to these.
pub transaction_lem :
    {A : Type 0} (body : S A) (x : Tables → A) (f : Tables → Tables) (s : Store)
    → Does body x f
    → let t = peers_of s.world s.tables in
      let out = transaction body s in
      ((a : A) → out.0 ≡ ok a → (a ≡ x t) × (out.1.tables ≡ f t))
      × ((e : StoreError) → out.0 ≡ err e → out.1.tables ≡ t)
unfolding transaction statement inside
transaction_lem {A} body x f s h = elim (Option-cases (fault_of s.world)) [
  | inr (failure, e) ↦ rw e (λ a u. cc, λ x u. refl)
  | inl e ↦ rw e (ended (body begun).0 refl)
]
  where
    t : Tables
    t = peers_of s.world s.tables

    begun : Store
    begun = record { tables = t; world = later s.world }

    Outcome : Result StoreError A × Store → Type 0
    Outcome out =
        ((a : A) → out.0 ≡ ok a → (a ≡ x t) × (out.1.tables ≡ f t))
        × ((e : StoreError) → out.0 ≡ err e → out.1.tables ≡ t)

    ended :
        (r : Result StoreError A)
        → (body begun).0 ≡ r
        → Outcome (rolled_back t (committed r (body begun).1))
    ended (err z) e = (λ a u. cc, λ w u. refl)
    ended (ok b) e = elim (Option-cases (fault_of (body begun).1.world)) [
      | inr (failure, g) ↦ rw g (λ a u. cc, λ w u. refl)
      | inl g ↦ let (same, moved) = h begun b e in rw g (λ a u. (cc, moved), λ w u. cc)
    ]

-- What `SaveCatalog` stores, in tables `t`.
abbrev pub saved_row : Catalog → Tables → Catalog
saved_row cat t = record cat { id = t.catalogs.next_id }

abbrev pub owned_entries : List CatalogEntry → ℕ → List CatalogEntry
owned_entries entries id = map (λ (e : CatalogEntry). of_saved e id) entries

abbrev pub saved_entries : List CatalogEntry → Tables → List CatalogEntry
saved_entries entries t =
    numbered_entries t.entries.next_id (owned_entries entries t.catalogs.next_id)

-- The checks of an entry, under the id of its row.
abbrev pub row_checks : List VerificationCheck → Option CatalogEntry → List VerificationCheck
row_checks cs none = []
row_checks cs (some e) = map (on_subject of_entry e.id) cs

abbrev pub entry_rows :
    List CatalogEntry → List (ℕ × List VerificationCheck) → List VerificationCheck
entry_rows rows [] = []
entry_rows rows ((i, cs) ∷ rest) = row_checks cs (get_elem? rows i) ++ entry_rows rows rest

abbrev with_checks : List VerificationCheck → Tables → Tables
with_checks cs t = record t { checks = append_checks cs t.checks }

append_checks-append :
    (cs ds : List VerificationCheck) (r : Rows VerificationCheck)
    → append_checks (cs ++ ds) r ≡ append_checks ds (append_checks cs r)
append_checks-append [] ds r = refl
append_checks-append (c ∷ cs) ds r =
    append_checks-append cs ds (appended (record c { id = r.next_id }) r)

create_checks-Does :
    (cs : List VerificationCheck) → Does (create_checks cs) (λ t. tt) (with_checks cs)
unfolding create_checks
create_checks-Does [] = λ s a e. (refl, refl)
create_checks-Does (c ∷ cs) =
    Does-inside (insert_checks (c ∷ cs)) (λ t. tt) (with_checks (c ∷ cs)) (λ t. refl)

create_entries-Does :
    (es : List CatalogEntry)
    → Does
        (create_entries es)
        (λ t. numbered_entries t.entries.next_id es)
        (λ t. record t {
          entries = append_entries (numbered_entries t.entries.next_id es) t.entries;
        })
unfolding create_entries
create_entries-Does [] = λ s a e. (cc, refl)
create_entries-Does (c ∷ cs) =
    Does-inside (insert_entries (c ∷ cs)) (λ t. numbered_entries t.entries.next_id (c ∷ cs))
      (λ t. record t {
        entries = append_entries (numbered_entries t.entries.next_id (c ∷ cs)) t.entries;
      })
      (λ t. refl)

round-Does :
    (cs : List VerificationCheck) (o : Option CatalogEntry)
    → Does (checks_of_entry cs o) (λ t. tt) (with_checks (row_checks cs o))
round-Does cs none = λ s a e. cc
round-Does cs (some e) = create_checks-Does (map (on_subject of_entry e.id) cs)

rounds-Does :
    (rows : List CatalogEntry) (rest : List (ℕ × List VerificationCheck))
    → Does (for_each (save_entry_checks rows) rest) (λ t. tt) (with_checks (entry_rows rows rest))
unfolding for_each
rounds-Does rows [] s a e = (refl, refl)
rounds-Does rows ((i, cs) ∷ rest) s a e =
    let (x, y) =
      Does-bind (checks_of_entry cs (get_elem? rows i))
        (λ b. for_each (save_entry_checks rows) rest) (λ t. tt)
        (with_checks (row_checks cs (get_elem? rows i))) (λ b t. tt)
        (λ b. with_checks (entry_rows rows rest)) (round-Does cs (get_elem? rows i))
        (λ b. rounds-Does rows rest) s a e in
    (
      x,
      y
          ∙ ap (λ (r : Rows VerificationCheck). (let t = s.tables in record t { checks = r }))
              (sym (
                append_checks-append (row_checks cs (get_elem? rows i)) (entry_rows rows rest)
                  s.tables.checks)),
    )

-- The tables after `SaveCatalog`.
abbrev pub saved_tables :
    Catalog
    → List CatalogEntry
    → List VerificationCheck
    → List (ℕ × List VerificationCheck)
    → Tables
    → Tables
saved_tables cat entries catalog_checks entry_checks t = record t {
  catalogs = appended (saved_row cat t) t.catalogs;
  entries = append_entries (saved_entries entries t) t.entries;
  checks =
      append_checks
        (map (on_subject of_catalog t.catalogs.next_id) catalog_checks
          ++ entry_rows (saved_entries entries t) entry_checks)
        t.checks;
}

module _ (cat : Catalog) (entries : List CatalogEntry) (ccs : List VerificationCheck)
    (ecs : List (ℕ × List VerificationCheck)) where
  rest-Does :
      (row : Catalog)
      → Does
          (save_rest entries ccs ecs row)
          (λ t. (row, numbered_entries t.entries.next_id (owned_entries entries row.id)))
          (λ t.
            with_checks
              (entry_rows (numbered_entries t.entries.next_id (owned_entries entries row.id)) ecs)
              (with_checks (map (on_subject of_catalog row.id) ccs) (record t {
                entries =
                    append_entries
                      (numbered_entries t.entries.next_id (owned_entries entries row.id))
                      t.entries;
              })))
  rest-Does row =
      Does-bind (create_entries (owned_entries entries row.id)) _
        (λ t. numbered_entries t.entries.next_id (owned_entries entries row.id))
        (λ t. record t {
          entries =
              append_entries (numbered_entries t.entries.next_id (owned_entries entries row.id))
                t.entries;
        })
        (λ rows t. (row, rows))
        (λ rows t.
          with_checks (entry_rows rows ecs)
            (with_checks (map (on_subject of_catalog row.id) ccs) t))
        (create_entries-Does (owned_entries entries row.id))
        (λ rows.
          Does-bind (create_checks (map (on_subject of_catalog row.id) ccs)) _ (λ t. tt)
            (with_checks (map (on_subject of_catalog row.id) ccs)) (λ a t. (row, rows))
            (λ a. with_checks (entry_rows rows ecs))
            (create_checks-Does (map (on_subject of_catalog row.id) ccs))
            (λ a.
              Does-bind (for_each (save_entry_checks rows) ecs) (λ b. return (row, rows)) (λ t. tt)
                (with_checks (entry_rows rows ecs)) (λ b t. (row, rows)) (λ b t. t)
                (rounds-Does rows ecs) (λ b. Does-return (row, rows))))

  body-Does :
      Does
        (inside (insert_catalog cat) >>= save_rest entries ccs ecs)
        (λ t. (saved_row cat t, saved_entries entries t))
        (saved_tables cat entries ccs ecs)
  body-Does s a e =
      let (x, y) =
        Does-bind (inside (insert_catalog cat)) (save_rest entries ccs ecs) (saved_row cat)
          (λ t. record t { catalogs = appended (saved_row cat t) t.catalogs }) _ _
          (Does-inside (insert_catalog cat) _ _ (λ t. refl)) rest-Does s a e in
      (
        x,
        y
            ∙ ap
                (λ (r : Rows VerificationCheck).
                  (let t = s.tables in
                    record t {
                      catalogs = appended (saved_row cat t) t.catalogs;
                      entries = append_entries (saved_entries entries t) t.entries;
                      checks = r;
                    }))
                (sym (
                  append_checks-append (map (on_subject of_catalog s.tables.catalogs.next_id) ccs)
                    (entry_rows (saved_entries entries s.tables) ecs) s.tables.checks)),
      )

  -- `SaveCatalog` is atomic: where it reports an error, whichever statement failed, the tables are as the
  -- peers left them at its start; where it does not, exactly one row of the catalog, a row for each
  -- entry that refers to it, and the rows of the checks on it and on the entries have been added.
  pub save_catalog_lem :
      (s : Store)
      → let t = peers_of s.world s.tables in
        let out = save_catalog cat entries ccs ecs s in
        ((saved : Saved)
          → out.0 ≡ ok saved
          → (saved ≡ (saved_row cat t, saved_entries entries t))
            × (out.1.tables ≡ saved_tables cat entries ccs ecs t))
        × ((e : StoreError) → out.0 ≡ err e → out.1.tables ≡ t)
  unfolding save_catalog
  save_catalog_lem s =
      transaction_lem (inside (insert_catalog cat) >>= save_rest entries ccs ecs)
        (λ t. (saved_row cat t, saved_entries entries t)) (saved_tables cat entries ccs ecs) s
        body-Does
