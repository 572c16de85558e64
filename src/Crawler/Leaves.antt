-- ===== src/Crawler/Leaves.antt =====
-- internal/crawler: what the parts of a handler leave in the frontier. `Leaves P m` is proved from the
-- parts of `m`, whatever peers that only add keys do in between.
use ardvark.Prelude.{◌≡◌, refl, subst, sym, List, [], ◌∷◌, All}
use ardvark.Frontier.Db.{Table, Db, M, Result, ok, err}
use ardvark.Frontier.Config.{FrontierError}
use ardvark.Store.Statements.{Store, StoreError}
use ardvark.Frontier.Keys.{Grows, Calm, IsGrown, IsGrown-same, IsGrown-then}
use ardvark.Effects.{Act, return, throw, try, when_ok, ◌>>=◌, ◌>>◌, for_each}
use ardvark.Crawler.World.{
  World, H, Crawl, on_frontier, on_store, mapped, store_failure, frontier_failure,
}
use ardvark.Crawler.Catalogs.{done}

-- The frontier loses no key, and where `m` returns `a`, `P a` holds of its table.
pub record IsLeft {E A : Type 0} (P : A → Table → Type 0) (w : World) (out : Result E A × World)
    : Type 0 where
  pub grown : IsGrown w.frontier out.1.frontier
  pub holds : (a : A) → out.0 ≡ ok a → P a out.1.frontier.table

abbrev pub Leaves : {E A : Type 0} → (A → Table → Type 0) → Act World E A → Type 0
Leaves P m = (w : World) → Calm w.frontier.world → IsLeft P w (m w)

abbrev pub Anything : {A : Type 0} → A → Table → Type 0
Anything a t = Unit {0}

-- What adding keys cannot undo.
abbrev pub IsStable : (Table → Type 0) → Type 0
IsStable P = (t u : Table) → Grows t u → P t → P u

pub Leaves-return : {E A : Type 0} (a : A) → Leaves {E = E} Anything (return a)
Leaves-return a w h = record { grown = IsGrown-same w.frontier h; holds = λ b e. tt }

pub Leaves-throw : {E A : Type 0} (P : A → Table → Type 0) (e : E) → Leaves P (throw e)
Leaves-throw P e w h = record { grown = IsGrown-same w.frontier h; holds = λ b u. cc }

-- What holds after `m` and is stable holds after what follows, too.
pub Leaves-bind :
    {E A B : Type 0} (m : Act World E A) (k : A → Act World E B) (P : A → Table → Type 0)
    (Q : A → B → Table → Type 0) (R : B → Table → Type 0)
    → Leaves P m
    → ((a : A) → IsStable (P a))
    → ((a : A) → Leaves (Q a) (k a))
    → ((a : A) (b : B) (t : Table) → P a t → Q a b t → R b t)
    → Leaves R (m >>= k)
Leaves-bind {E} {A} {B} m k P Q R hm stable hk both w h = go (m w).0 refl
  where
    first : IsLeft P w (m w)
    first = hm w h

    go : (r : Result E A) → (m w).0 ≡ r → IsLeft R w (when_ok k r (m w).1)
    go (ok a) e =
        let next = hk a (m w).1 first.grown.calm in
        record {
          grown =
              IsGrown-then w.frontier (m w).1.frontier (k a (m w).1).1.frontier first.grown
                next.grown;
          holds = λ b u.
              both a b (k a (m w).1).1.frontier.table
                (stable a (m w).1.frontier.table (k a (m w).1).1.frontier.table next.grown.grows
                  (first.holds a e))
                (next.holds b u);
        }
    go (err x) e = record { grown = first.grown; holds = λ b u. cc }

pub Leaves-weaken :
    {E A : Type 0} (m : Act World E A) (P Q : A → Table → Type 0)
    → Leaves P m
    → ((a : A) (t : Table) → P a t → Q a t)
    → Leaves Q m
Leaves-weaken m P Q hm weaker w h =
    let left = hm w h in
    record { grown = left.grown; holds = λ a e. weaker a (m w).1.frontier.table (left.holds a e) }

-- An action that leaves the frontier alone, whatever it reports.
pub Leaves-after :
    {E F A B : Type 0} (m : Act World E A) (k : Result E A → Act World F B) (P : B → Table → Type 0)
    → ((w : World) → (m w).1.frontier ≡ w.frontier)
    → ((r : Result E A) → Leaves P (k r))
    → Leaves P (try m k)
Leaves-after m k P same hk w h =
    let next = hk (m w).0 (m w).1 (subst (λ (db : Db). Calm db.world) (sym (same w)) h) in
    record {
      grown = subst (λ (db : Db). IsGrown db (k (m w).0 (m w).1).1.frontier) (same w) next.grown;
      holds = next.holds;
    }

pub Leaves-unless :
    {E A B : Type 0} (k : A → Act World E B) (P : B → Table → Type 0)
    → ((a : A) → Leaves P (k a))
    → (r : Result E A) → Leaves P (when_ok k r)
Leaves-unless k P hk (ok a) = hk a
Leaves-unless k P hk (err e) = Leaves-throw P e

-- A call of the store or an event, and what follows where it succeeds.
pub Leaves-after_ok :
    {E A B : Type 0} (m : Act World E A) (k : A → Act World E B) (P : B → Table → Type 0)
    → ((w : World) → (m w).1.frontier ≡ w.frontier)
    → ((a : A) → Leaves P (k a))
    → Leaves P (m >>= k)
Leaves-after_ok m k P same hk = Leaves-after m (when_ok k) P same (Leaves-unless k P hk)

pub Leaves-seq :
    {E A : Type 0} (m n : Act World E A) (P Q : Table → Type 0)
    → Leaves (λ a. P) m
    → IsStable P
    → Leaves (λ a. Q) n
    → Leaves (λ a t. P t × Q t) (m >> n)
Leaves-seq m n P Q hm stable hn =
    Leaves-bind m (λ x. n) (λ a. P) (λ a b. Q) (λ a t. P t × Q t) hm (λ a. stable) (λ a. hn)
      (λ a b t p q. (p, q))

pub All-IsStable :
    {A : Type 0} (P : A → Table → Type 0) (xs : List A)
    → ((x : A) → IsStable (P x))
    → IsStable (λ t. All (λ x. P x t) xs)
All-IsStable P [] h t u g p = tt
All-IsStable P (x ∷ xs) h t u g p = (h x t u g p.0, All-IsStable P xs h t u g p.1)

pub Leaves-for_each :
    {E A : Type 0} (body : A → Act World E (Unit {0})) (P : A → Table → Type 0) (xs : List A)
    → ((x : A) → IsStable (P x))
    → ((x : A) → Leaves (λ a. P x) (body x))
    → Leaves (λ a t. All (λ x. P x t) xs) (for_each body xs)
unfolding for_each
Leaves-for_each body P [] stable hb = Leaves-return tt
Leaves-for_each body P (x ∷ xs) stable hb =
    Leaves-seq (body x) (for_each body xs) (P x) (λ t. All (λ y. P y t) xs) (hb x) (stable x)
      (Leaves-for_each body P xs stable hb)

-- `_, err := …; return err`.
pub Leaves-done :
    (c : Crawl) {A : Type 0} (m : H A) (P : Table → Type 0)
    → Leaves (λ a. P) m
    → IsStable P
    → Leaves (λ a. P) (m >>= done c)
Leaves-done c m P hm stable =
    Leaves-bind m (done c) (λ a. P) (λ a. Anything) (λ b. P) hm (λ a. stable)
      (λ a. Leaves-return tt) (λ a b t p q. p)

-- A call of the frontier.
pub Leaves-frontier :
    {A : Type 0} (m : M FrontierError A) (P : Table → Type 0)
    → ((db : Db)
        → Calm db.world
        → IsGrown db (m db).1 × ((a : A) → (m db).0 ≡ ok a → P (m db).1.table))
    → Leaves (λ a. P) (on_frontier m)
Leaves-frontier {A} m P hm w h = record {
  grown = (hm w.frontier h).0;
  holds = λ a e. (hm w.frontier h).1 a (unmapped (m w.frontier).0 a e);
}
  where
    unmapped : (r : Result FrontierError A) (a : A) → mapped frontier_failure r ≡ ok a → r ≡ ok a
    unmapped (ok b) a e = cc
    unmapped (err x) a e = cc

pub Leaves-still :
    {E A : Type 0} (m : Act World E A)
    → ((w : World) → (m w).1.frontier ≡ w.frontier)
    → Leaves Anything m
Leaves-still m same w h = record {
  grown = subst (λ (db : Db). IsGrown w.frontier db) (sym (same w)) (IsGrown-same w.frontier h);
  holds = λ a e. tt;
}

-- Where an action starts matters only by the frontier.
pub IsLeft-from :
    {E A : Type 0} (P : A → Table → Type 0) (v w : World) (out : Result E A × World)
    → v.frontier ≡ w.frontier
    → IsLeft P v out
    → IsLeft P w out
IsLeft-from P v w out e left = record {
  grown = subst (λ (db : Db). IsGrown db out.1.frontier) e left.grown;
  holds = left.holds;
}

pub IsLeft-weaken :
    {E A : Type 0} (P Q : A → Table → Type 0) (w : World) (out : Result E A × World)
    → IsLeft P w out
    → ((a : A) (t : Table) → P a t → Q a t)
    → IsLeft Q w out
IsLeft-weaken P Q w out left weaker = record {
  grown = left.grown;
  holds = λ a e. weaker a out.1.frontier.table (left.holds a e);
}

-- A call of the store, whose result what follows may refer to.
pub Leaves-asked :
    {A : Type 0} (m : Store → Result StoreError A × Store) (k : A → H (Unit {0})) (w : World)
    (P : Table → Type 0)
    → Calm w.frontier.world
    → ((a : A)
        → (m w.store).0 ≡ ok a
        → IsLeft (λ b. P) w (k a (record w { store = (m w.store).1 })))
    → IsLeft (λ b. P) w ((on_store m >>= k) w)
Leaves-asked {A} m k w P h hk = go (m w.store).0 refl
  where
    go :
        (r : Result StoreError A)
        → (m w.store).0 ≡ r
        → IsLeft
            (λ b. P)
            w
            (when_ok k (mapped store_failure r) (record w { store = (m w.store).1 }))
    go (ok a) e = hk a e
    go (err x) e =
        let next =
          Leaves-throw (λ (b : Unit {0}). P) (store_failure x) (record w { store = (m w.store).1 })
            h in
        record { grown = next.grown; holds = next.holds }
