-- ===== src/Crawler/Keeps.antt =====
-- internal/crawler: properties of the frontier's table that the parts of a handler keep. `KeepsIn P m`
-- is proved from the parts of `m`; the store and the events do not matter.
use ardvark.Prelude.{Bool, true, false, List, [], ◌∷◌, if◌then◌else◌}
use ardvark.Frontier.Db.{Table, M, Result, ok, err}
use ardvark.Frontier.Config.{FrontierError}
use ardvark.Frontier.Rely.{Holds, Keeps}
use ardvark.Effects.{Act, try, when_ok, ◌>>=◌, ◌>>◌, for_each}
use ardvark.Crawler.World.{World, H, Crawl, on_frontier}
use ardvark.Crawler.Catalogs.{done}

module _ (P : Table → Type 0) where
  abbrev pub KeepsIn : {E A : Type 0} → Act World E A → Type 0
  KeepsIn m = (w : World) → Holds P w.frontier → Holds P (m w).1.frontier

  pub KeepsIn-try :
      {E F A B : Type 0} (m : Act World E A) (k : Result E A → Act World F B)
      → KeepsIn m
      → ((r : Result E A) → KeepsIn (k r))
      → KeepsIn (try m k)
  KeepsIn-try m k hm hk w h = hk (m w).0 (m w).1 (hm w h)

  pub KeepsIn-bind :
      {E A B : Type 0} (m : Act World E A) (k : A → Act World E B)
      → KeepsIn m
      → ((a : A) → KeepsIn (k a))
      → KeepsIn (m >>= k)
  KeepsIn-bind {E} {A} m k hm hk = KeepsIn-try m (when_ok k) hm after
    where
      after : (r : Result E A) → KeepsIn (when_ok k r)
      after (ok a) = hk a
      after (err e) = λ w h. h

  pub KeepsIn-seq :
      {E A B : Type 0} (m : Act World E A) (n : Act World E B)
      → KeepsIn m
      → KeepsIn n
      → KeepsIn (m >> n)
  KeepsIn-seq m n hm hn = KeepsIn-bind m (λ a. n) hm (λ a. hn)

  pub KeepsIn-if :
      {E A : Type 0} (b : Bool) (m n : Act World E A)
      → KeepsIn m
      → KeepsIn n
      → KeepsIn (λ w. (if b then m else n) w)
  KeepsIn-if true m n hm hn = hm
  KeepsIn-if false m n hm hn = hn

  pub KeepsIn-for_each :
      {E A : Type 0} (body : A → Act World E (Unit {0}))
      → ((x : A) → KeepsIn (body x))
      → (xs : List A) → KeepsIn (for_each body xs)
  unfolding for_each
  KeepsIn-for_each body hb [] = λ w h. h
  KeepsIn-for_each body hb (x ∷ xs) =
      KeepsIn-seq (body x) (for_each body xs) (hb x) (KeepsIn-for_each body hb xs)

  pub KeepsIn-frontier : {A : Type 0} (m : M FrontierError A) → Keeps P m → KeepsIn (on_frontier m)
  KeepsIn-frontier m hm w h = hm w.frontier h

  pub KeepsIn-done : (c : Crawl) {A : Type 0} (m : H A) → KeepsIn m → KeepsIn (m >>= done c)
  KeepsIn-done c m hm = KeepsIn-bind m (done c) hm (λ a w h. h)
