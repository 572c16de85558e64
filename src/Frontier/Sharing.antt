-- ===== src/Frontier/Sharing.antt =====
-- How workers share the frontier: one worker for each host, and no item for two workers.
use ardvark.Prelude.{
  ℕ, ◌%◌, ◌<◌, ◌≡◌, ◌↔◌, refl, inl, inr, Bool, true, false, List, [], ◌∷◌, map, All, All-map,
  Option, none, some, ◌⊎◌, ◌≢◌, is_empty, Text, Bool-cases, arith, any, update_where, ap, sym,
  subst, ◌∙◌,
}
use ardvark.Store.Models.{FrontierItem, is_pending}
use ardvark.Frontier.Db.{Table, Db, Result, ok}
use ardvark.Frontier.Config.{Dialect, Frontier, FrontierError}
use ardvark.Frontier.Shard.{host_shard_of, hostname_or, fetch_host}
use ardvark.Frontier.Enqueue.{stamp}
use ardvark.Frontier.Dequeue.{in_shard, is_candidate, pick, one_of, mark, leased, dequeue}
use ardvark.Frontier.Picked.{Contains, pick-Contains, pick_passes, candidate_is_pending}
use ardvark.Frontier.Selection.{dequeue_lem}
use ardvark.Frontier.Handout.{HasId, HasId-one_of}
use ardvark.Frontier.Lookup.{quiet}

stamp-host_shard :
    (hostname : Text → Option Text) (item : FrontierItem)
    → (stamp hostname item).host_shard ≡ host_shard_of (fetch_host hostname item)
unfolding stamp
stamp-host_shard hostname item = refl

-- The host of a request for a URL with this hostname; an empty or missing one leaves the item's own.
abbrev pub NamesHost : Option Text → Text → Text → Type 0
NamesHost none own host = own ≡ host
NamesHost (some []) own host = own ≡ host
NamesHost (some (b ∷ name)) own host = (b ∷ name) ≡ host

-- The host that the work on an item talks to: that of its URL, or, without a URL, its own.
abbrev pub IsFetchedFrom : (Text → Option Text) → Text → FrontierItem → Type 0
IsFetchedFrom hostname host item =
    (item.url ≡ []) × (item.host ≡ host)
    ⊎ (item.url ≢ []) × NamesHost (hostname item.url) item.host host

fetch_host-IsFetchedFrom :
    (hostname : Text → Option Text) (host : Text) (item : FrontierItem)
    → IsFetchedFrom hostname host item
    → fetch_host hostname item ≡ host
unfolding fetch_host
fetch_host-IsFetchedFrom hostname host item (inl (no_url, own)) = rw (no_url, own) refl
fetch_host-IsFetchedFrom hostname host item (inr (has_url, names)) =
    rw (filled item.url has_url) (named (hostname item.url) names)
  where
    filled : (url : Text) → url ≢ [] → is_empty url ≡ false
    filled [] h = absurd (h refl)
    filled (b ∷ url) h = refl

    named : (o : Option Text) → NamesHost o item.host host → hostname_or o item.host ≡ host
    named none e = e
    named (some []) e = e
    named (some (b ∷ name)) e = e

-- With `count` > 1 workers, every host has one index below `count` such that the items whose work talks to
-- that host, be it by the hostname of their URL or, without one, by the host that they are stored with,
-- are in the shard of the workers with this index, and of no other.
pub host_owner :
    (hostname : Text → Option Text) (host : Text) (count : ℕ)
    → 1 < count
    → (index : ℕ) × (index < count)
      × ((f : Frontier) (item : FrontierItem)
          → f.shard_count ≡ count
          → IsFetchedFrom hostname host item
          → (in_shard f (stamp hostname item) ≡ true) ↔ (f.shard_index ≡ index))
host_owner hostname host count h = (
  host_shard_of host % count,
  omega arith,
  λ f item c e.
      rw (stamp-host_shard hostname item, fetch_host-IsFetchedFrom hostname host item e)
        (ground (arith, c)),
)

leased_not_pending :
    (f : Frontier) (now : ℕ) (r : FrontierItem) → is_pending (leased f now r).status ≡ false
unfolding leased
leased_not_pending f now r = refl

one_of-leased :
    (f : Frontier) (now : ℕ) (items : List FrontierItem) (r : FrontierItem)
    → one_of items (leased f now r) ≡ one_of items r
unfolding leased
one_of-leased f now items r = refl

one_of-map :
    (f : Frontier) (now : ℕ) (items : List FrontierItem) (r : FrontierItem)
    → one_of (map (leased f now) items) r ≡ one_of items r
unfolding any leased
one_of-map f now [] r = refl
one_of-map f now (i ∷ is) r = rw (one_of-map f now is r) refl

-- No row that was marked is pending.
marked_not_pending :
    (f : Frontier) (now : ℕ) (items rows : List FrontierItem)
    → All
        (λ r. one_of items r ≡ true → is_pending r.status ≡ false)
        (update_where (one_of items) (leased f now) rows)
unfolding update_where
marked_not_pending f now items [] = tt
marked_not_pending f now items (r ∷ rows) = elim (Bool-cases (one_of items r)) [
  | inl e ↦ rw e ((λ _. leased_not_pending f now r), marked_not_pending f now items rows)
  | inr e ↦ rw e ((λ h. cc), marked_not_pending f now items rows)
]

All-Contains : {A : Type 0} (P : A → Type 0) (xs : List A) (x : A) → All P xs → Contains x xs → P x
All-Contains P [] x h c = absurd c
All-Contains P (y ∷ xs) x h (inl e) = subst P e h.0
All-Contains P (y ∷ xs) x h (inr c) = All-Contains P xs x h.1 c

All-both :
    {A : Type 0} (P Q R : A → Type 0) (xs : List A)
    → ((x : A) → P x → Q x → R x)
    → All P xs
    → All Q xs
    → All R xs
All-both P Q R [] f p q = tt
All-both P Q R (x ∷ xs) f p q = (f x p.0 q.0, All-both P Q R xs f p.1 q.1)

second_pick :
    (d : Dialect) (f g : Frontier) (now m : ℕ) (locked : FrontierItem → Bool) (t : Table)
    (items : List FrontierItem)
    → All (λ i. one_of items i ≡ false) (pick d g m locked (mark f now items t))
unfolding mark
second_pick d f g now m locked t items =
    let t' = record t { rows = update_where (one_of items) (leased f now) t.rows } in
    All-both (λ i. Contains i t'.rows) (λ i. is_candidate d g locked i ≡ true)
      (λ i. one_of items i ≡ false) (pick d g m locked t')
      (λ i c h. apart i (candidate_is_pending d g locked i h) (
        All-Contains (λ r. one_of items r ≡ true → is_pending r.status ≡ false) t'.rows i
          (marked_not_pending f now items t.rows) c))
      (pick-Contains d g m locked t') (pick_passes d g m locked t')
  where
    apart :
        (i : FrontierItem)
        → is_pending i.status ≡ true
        → (one_of items i ≡ true → is_pending i.status ≡ false)
        → one_of items i ≡ false
    apart i p h = elim (Bool-cases (one_of items i)) [ inl e ↦ absurd (cc (h e)) | inr e ↦ e ]

pub ok-injective : (E : Type 0) {A : Type 0} (a b : A) → ◌≡◌ {A = Result E A} (ok a) (ok b) → a ≡ b
ok-injective E a b e = cc

handed_once :
    (d : Dialect) (f g : Frontier) (now after n m : ℕ) (t : Table) (items more : List FrontierItem)
    (db : Db)
    → dequeue d f now n (quiet t) ≡ (ok items, db)
    → (dequeue d g after m db).0 ≡ ok more
    → All (λ i. one_of items i ≡ false) more
handed_once d f g now after n m t items more db e e' =
    let picked = pick d f n (λ r. false) t in
    let t' = mark f now picked t in
    let again = pick d g m (λ r. false) t' in
    let first = sym (dequeue_lem d f now n t) ∙ e in
    let same : map (leased f now) picked ≡ items =
      ok-injective FrontierError _ _ (ap (λ p. p.0) first) in
    let second : map (leased g after) again ≡ more = ok-injective FrontierError _ _ (
      ap (λ (p : Result FrontierError (List FrontierItem) × Db). p.0)
        (sym (dequeue_lem d g after m t'))
      ∙ (rw (ap (λ p. p.1) first) e')) in
    subst (λ l. All (λ i. one_of items i ≡ false) l) second
      (mapped items again (
        subst (λ l. All (λ i. one_of l i ≡ false) again) same
          (All-map (λ i. one_of picked i ≡ false)
            (λ i. one_of (map (leased f now) picked) i ≡ false) again
            (λ i h. one_of-map f now picked i ∙ h)
            (second_pick d f g now m (λ r. false) t picked))))
  where
    mapped :
        (items again : List FrontierItem)
        → All (λ i. one_of items i ≡ false) again
        → All (λ i. one_of items i ≡ false) (map (leased g after) again)
    mapped items [] h = tt
    mapped items (i ∷ is) h = (one_of-leased g after items i ∙ h.0, mapped items is h.1)

-- Where two workers dequeue right one after the other, with nothing in between and on a database that
-- neither peers nor faults interfere with, no item is handed to both, whatever the times of the two
-- calls and the numbers of items that they ask for.
pub dequeue_disjoint :
    (d : Dialect) (f g : Frontier) (now after n m : ℕ) (t : Table) (items more : List FrontierItem)
    (db : Db)
    → dequeue d f now n (quiet t) ≡ (ok items, db)
    → (dequeue d g after m db).0 ≡ ok more
    → All (λ i. HasId i.id items → ⊥) more
dequeue_disjoint d f g now after n m t items more db e e' =
    All-map (λ i. one_of items i ≡ false) (λ i. HasId i.id items → ⊥) more
      (λ i h has. apart i h (HasId-one_of items i has))
      (handed_once d f g now after n m t items more db e e')
  where
    apart : (i : FrontierItem) → one_of items i ≡ false → one_of items i ≡ true → ⊥
    apart i x y = cc
