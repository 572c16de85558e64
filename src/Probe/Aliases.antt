-- ===== src/Probe/Aliases.antt =====
-- Which alias of the well-known document a probe reports, and what it requests for that.
use ardvark.Prelude.{
  ◌≡◌, refl, sym, ap, ◌∙◌, Bool, true, false, List, [], ◌∷◌, ◌++◌, map, Option, none, some, Text,
  find, Unicode, if◌then◌else◌,
}
use ardvark.Probe.{
  Response, Attempt, Found, hit, miss, error, or_else, best_of, alias_round, alias_loop,
  probe_well_known_url, probe_well_known_base, well_known_paths,
}

abbrev pub is_hit : Attempt → Bool
is_hit a = elim a.outcome [ hit ↦ true | miss ↦ false | error ↦ false ]

abbrev pub is_error : Attempt → Bool
is_error a = elim a.outcome [ hit ↦ false | miss ↦ false | error ↦ true ]

abbrev pub is_miss : Attempt → Bool
is_miss a = elim a.outcome [ hit ↦ false | miss ↦ true | error ↦ false ]

abbrev pub first_of : Option Attempt → Option Attempt → Option Attempt
first_of none b = b
first_of (some a) b = some a

-- The first hit; without one the first error; without one the first miss.
abbrev pub reported : List Attempt → Option Attempt
reported attempts =
    first_of (find is_hit attempts) (first_of (find is_error attempts) (find is_miss attempts))

-- The requests up to the first hit.
unfoldable pub up_to_hit : (Text → Attempt) → List Text → List Text
up_to_hit attempt [] = []
up_to_hit attempt (url ∷ urls) =
    let rest = up_to_hit attempt urls in if is_hit (attempt url) then url ∷ [] else url ∷ rest

first_of_assoc :
    (a : Option Attempt) (b : Attempt) (c : Option Attempt)
    → first_of (or_else a b) c ≡ first_of a (some b)
first_of_assoc none b c = refl
first_of_assoc (some a) b c = refl

first_of-none : (a : Option Attempt) → first_of a none ≡ a
first_of-none none = refl
first_of-none (some a) = refl

best_of_lem : (a b : Option Attempt) → best_of a b ≡ first_of a b
best_of_lem none b = refl
best_of_lem (some a) b = refl

find_skip :
    (p : Attempt → Bool) (x : Attempt) (xs : List Attempt)
    → p x ≡ false
    → find p (x ∷ xs) ≡ find p xs
unfolding find
find_skip p x xs h = rw h refl

find_take :
    (p : Attempt → Bool) (x : Attempt) (xs : List Attempt) → p x ≡ true → find p (x ∷ xs) ≡ some x
unfolding find
find_take p x xs h = rw h refl

module _ (unicode : Unicode) (get : Text → Response) (base : Text) where
  abbrev attempt : Text → Attempt
  attempt url = probe_well_known_url unicode get url

  abbrev urls_of : List Text → List Text
  urls_of = map (λ path. base ++ path)

  -- What the loop has, for the attempts that follow.
  abbrev resumed : Option Attempt → Option Attempt → List Attempt → Option Attempt
  resumed first_err first_miss attempts = first_of (find is_hit attempts) (
      first_of (first_of first_err (find is_error attempts))
        (first_of first_miss (find is_miss attempts)))

  resumed_error :
      (e m : Option Attempt) (a : Attempt) (attempts : List Attempt)
      → a.outcome ≡ error
      → resumed e m (a ∷ attempts) ≡ resumed (or_else e a) m attempts
  resumed_error e m a attempts h =
      rw
        (
          find_skip is_hit a attempts (rw h refl),
          find_take is_error a attempts (rw h refl),
          find_skip is_miss a attempts (rw h refl),
        )
        (ap (λ z. first_of (find is_hit attempts) (first_of z (first_of m (find is_miss attempts))))
          (sym (first_of_assoc e a (find is_error attempts))))

  resumed_miss :
      (e m : Option Attempt) (a : Attempt) (attempts : List Attempt)
      → a.outcome ≡ miss
      → resumed e m (a ∷ attempts) ≡ resumed e (or_else m a) attempts
  resumed_miss e m a attempts h =
      rw
        (
          find_skip is_hit a attempts (rw h refl),
          find_skip is_error a attempts (rw h refl),
          find_take is_miss a attempts (rw h refl),
        )
        (ap
          (λ z. first_of (find is_hit attempts) (first_of (first_of e (find is_error attempts)) z))
          (sym (first_of_assoc m a (find is_miss attempts))))

  resumed_hit :
      (e m : Option Attempt) (a : Attempt) (attempts : List Attempt)
      → a.outcome ≡ hit
      → resumed e m (a ∷ attempts) ≡ some a
  resumed_hit e m a attempts h = rw (find_take is_hit a attempts (rw h refl)) refl

  round_lem :
      (url : Text) (a : Attempt) (o : Found) (paths : List Text)
      (rest : Option Attempt → Option Attempt → List Text × Option Attempt)
      (first_err first_miss : Option Attempt)
      → a.outcome ≡ o
      → attempt url ≡ a
      → ((e m : Option Attempt)
          → ((rest e m).0 ≡ up_to_hit attempt (urls_of paths))
            × ((rest e m).1 ≡ resumed e m (map attempt (urls_of paths))))
      → let out = alias_round url a o rest first_err first_miss in
        (out.0 ≡ up_to_hit attempt (url ∷ urls_of paths))
        × (out.1 ≡ resumed first_err first_miss (a ∷ map attempt (urls_of paths)))
  unfolding up_to_hit
  round_lem url a hit paths rest e m h same ih =
      (rw (same, h) refl, sym (resumed_hit e m a (map attempt (urls_of paths)) h))
  round_lem url a error paths rest e m h same ih = (
    rw ((ih (or_else e a) m).0, same, h) refl,
    (ih (or_else e a) m).1 ∙ sym (resumed_error e m a (map attempt (urls_of paths)) h),
  )
  round_lem url a miss paths rest e m h same ih = (
    rw ((ih e (or_else m a)).0, same, h) refl,
    (ih e (or_else m a)).1 ∙ sym (resumed_miss e m a (map attempt (urls_of paths)) h),
  )

  alias_loop_lem :
      (paths : List Text) (first_err first_miss : Option Attempt)
      → let out = alias_loop unicode get base paths first_err first_miss in
        (out.0 ≡ up_to_hit attempt (urls_of paths))
        × (out.1 ≡ resumed first_err first_miss (map attempt (urls_of paths)))
  unfolding alias_loop up_to_hit find
  alias_loop_lem [] e m = (
    refl,
    best_of_lem e m
        ∙ (ap (λ z. first_of z m) (sym (first_of-none e))
            ∙ ap (first_of (first_of e none)) (sym (first_of-none m))),
  )
  alias_loop_lem (path ∷ paths) e m =
      let url = base ++ path in
      let a = attempt url in
      round_lem url a a.outcome paths (alias_loop unicode get base paths) e m refl refl
        (alias_loop_lem paths)

  -- `probeWellKnownBase` reports the first alias, in the order of preference, that hits; if none
  -- hits, the first that leaves the answer open, so that an error is never taken for an absence;
  -- and else the first miss. It requests the aliases in that order and none after a hit.
  pub probe_well_known_base_lem :
      let out = probe_well_known_base unicode get base in
      let urls = map (λ path. base ++ path) well_known_paths in
      (out.0 ≡ up_to_hit (probe_well_known_url unicode get) urls)
      × (out.1 ≡ reported (map (probe_well_known_url unicode get) urls))
  unfolding probe_well_known_base
  probe_well_known_base_lem = alias_loop_lem well_known_paths none none
