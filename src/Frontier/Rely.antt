-- ===== src/Frontier/Rely.antt =====
-- Properties of the table that an operation keeps while peers change the table between its
-- statements and the driver reports faults. `Keeps P m` is proved from the parts of `m`.
use ardvark.Prelude.{
  Bool, true, false, List, [], ◌∷◌, Text, inl, inr, Option-cases, if◌then◌else◌, update_where,
}
use ardvark.Store.Models.{FrontierItem}
use ardvark.Frontier.Db.{
  Table, Event, Db, M, Result, DbError, pure, fail, handle, statement, first, count, update, create,
  insert_row, first_row, count_rows, update_rows, fault_of, peers_of, later,
}

module _ (P : Table → Type 0) where
  -- What is assumed of the peers: each of their changes keeps `P`.
  abbrev pub Rely : List Event → Type 0
  Rely [] = Unit {0}
  Rely (e ∷ es) = ((t : Table) → P t → P (e.peers t)) × Rely es

  abbrev pub Holds : Db → Type 0
  Holds db = P db.table × Rely db.world

  abbrev pub Keeps : {E A : Type 0} → M E A → Type 0
  Keeps m = (db : Db) → Holds db → Holds (m db).1

  pub Rely-later : (world : List Event) → Rely world → Rely (later world)
  Rely-later [] h = tt
  Rely-later (e ∷ es) h = h.1

  pub peers_of-keeps : (world : List Event) (t : Table) → Rely world → P t → P (peers_of world t)
  peers_of-keeps [] t h p = p
  peers_of-keeps (e ∷ es) t h p = h.0 t p

  pub Keeps-pure : (E : Type 0) {A : Type 0} (a : A) → Keeps {E = E} (pure a)
  Keeps-pure E a db h = h

  pub Keeps-fail : {E : Type 0} (A : Type 0) (e : E) → Keeps {A = A} (fail e)
  Keeps-fail A e db h = h

  pub Keeps-if :
      {E A : Type 0} (b : Bool) (m n : M E A)
      → Keeps m
      → Keeps n
      → Keeps (λ db. (if b then m else n) db)
  Keeps-if true m n hm hn = hm
  Keeps-if false m n hm hn = hn

  pub Keeps-handle :
      {E F A B : Type 0} (m : M E A) (k : Result E A → M F B)
      → Keeps m
      → ((r : Result E A) → Keeps (k r))
      → Keeps (handle m k)
  Keeps-handle m k hm hk db h = hk (m db).0 (m db).1 (hm db h)

  pub Keeps-statement :
      {A : Type 0} (run : Table → Result DbError A × Table)
      → ((t : Table) → P t → P (run t).1)
      → Keeps (statement run)
  unfolding statement
  Keeps-statement run step db h =
      let p = peers_of-keeps db.world db.table h.1 h.0 in
      elim (Option-cases (fault_of db.world)) [
        | inl e ↦ rw e (step _ p, Rely-later db.world h.1)
        | inr (text, e) ↦ rw e (p, Rely-later db.world h.1)
      ]

  pub Keeps-first : (p : FrontierItem → Bool) → Keeps (first p)
  unfolding first
  Keeps-first p = Keeps-statement (first_row p) (λ t h. h)

  pub Keeps-count : (p : FrontierItem → Bool) → Keeps (count p)
  unfolding count
  Keeps-count p = Keeps-statement (count_rows p) (λ t h. h)

  pub Keeps-update :
      (p : FrontierItem → Bool) (f : FrontierItem → FrontierItem)
      → ((t : Table) → P t → P (record t { rows = update_where p f t.rows }))
      → Keeps (update p f)
  unfolding update
  Keeps-update p f step = Keeps-statement (update_rows p f) step

  pub Keeps-create :
      (conflict : Text) (item : FrontierItem)
      → ((t : Table) → P t → P (insert_row conflict item t).1)
      → Keeps (create conflict item)
  unfolding create
  Keeps-create conflict item step = Keeps-statement (insert_row conflict item) step
