-- ===== src/Seed/Collected.antt =====
-- The collector against `Sanitize`, and what both yield.
use ardvark.Prelude.{
  append_nil, append_assoc, take_nil, ℕ, suc, ◌-◌, ◌≤◌, ◌≡◌, ◌≢◌, refl, sym, ap, ◌∙◌, inl, inr,
  Bool, true, false, List, [], ◌∷◌, ◌++◌, Option, none, some, Text, All, any, ◌==◌, length,
  length-append, take, text_eq_refl, is_empty, All-map, Bool-cases, Option-cases, arith, Unicode,
  subst,
}
use ardvark.Probe.Directives.{Distinct}
use ardvark.Seed.Hostnames.{IsHostname, valid-IsHostname, dot-split}
use ardvark.Seed.{
  trim_dot, without_wildcard, is_valid_hostname, checked_name, sanitize_name, seen_too, kept,
  sanitize_from, sanitize, DomainCollector, new_domain_collector, full, collected, add_names,
  add_pages,
}

abbrev pub concat : List (List Text) → List Text
concat [] = []
concat (page ∷ pages) = page ++ concat pages

at_most_one : (seen : Text → Bool) (o : Option Text) → length (kept seen o).1 ≤ 1
at_most_one seen none = omega arith
at_most_one seen (some name) = elim (Bool-cases (seen name)) [
  | inl e ↦ rw e (omega arith)
  | inr e ↦ rw e (omega arith)
]

-- What is found is the next to be taken, if there is room.
room :
    (c : DomainCollector) (new rest : List Text)
    → length new ≤ 1
    → full c ≡ false
    → (c.names ++ new) ++ take (c.limit - length (c.names ++ new)) rest
      ≡ c.names ++ take (c.limit - length c.names) (new ++ rest)
room c [] rest h open_room = rw (append_nil c.names) refl
room c (x ∷ []) rest h open_room =
    let left : c.limit - length c.names ≡ suc (c.limit - length (c.names ++ x ∷ [])) =
      ground (arith, length-append c.names (x ∷ []), open_room) in
    append_assoc c.names (x ∷ []) (take (c.limit - length (c.names ++ x ∷ [])) rest)
    ∙ ap (λ n. c.names ++ take n (x ∷ rest)) (sym left)
room c (x ∷ y ∷ new) rest h open_room = absurd (omega (arith, h))

module _ (unicode : Unicode) (is_ip : Text → Bool) where
  add_full :
      (raws : List Text) (c : DomainCollector) → full c ≡ true → add_names unicode is_ip raws c ≡ c
  unfolding add_names
  add_full [] c h = refl
  add_full (raw ∷ raws) c h = rw h refl

  add_names-append :
      (xs ys : List Text) (c : DomainCollector)
      → add_names unicode is_ip (xs ++ ys) c
        ≡ add_names unicode is_ip ys (add_names unicode is_ip xs c)
  unfolding add_names
  add_names-append [] ys c = refl
  add_names-append (x ∷ xs) ys c = elim (Bool-cases (full c)) [
    | inl h ↦ rw h (sym (add_full ys c h))
    | inr h ↦
        rw h (add_names-append xs ys (collected c (kept c.seen (sanitize_name unicode is_ip x))))
  ]

  add_pages-concat :
      (pages : List (List Text)) (c : DomainCollector)
      → add_pages unicode is_ip pages c ≡ add_names unicode is_ip (concat pages) c
  unfolding add_pages add_names
  add_pages-concat [] c = refl
  add_pages-concat (page ∷ pages) c =
      add_pages-concat pages (add_names unicode is_ip page c)
      ∙ sym (add_names-append page (concat pages) c)

  names_lem :
      (raws : List Text) (c : DomainCollector)
      → (add_names unicode is_ip raws c).names
        ≡ c.names ++ take (c.limit - length c.names) (sanitize_from unicode is_ip c.seen raws)
  unfolding add_names sanitize_from
  names_lem [] c =
      sym (ap (λ l. c.names ++ l) (take_nil (c.limit - length c.names)) ∙ append_nil c.names)
  names_lem (raw ∷ raws) c = elim (Bool-cases (full c)) [
    | inl h ↦
        let none_left : c.limit - length c.names ≡ 0 = ground arith in
        rw (h, none_left) (sym (append_nil c.names))
    | inr h ↦
        let found = kept c.seen (sanitize_name unicode is_ip raw) in
        rw h (
          names_lem raws (collected c found)
          ∙ room c found.1 (sanitize_from unicode is_ip found.0 raws)
              (at_most_one c.seen (sanitize_name unicode is_ip raw)) h)
  ]

  -- Page after page, the collector has the first `limit` of the names that `Sanitize` makes of all the
  -- pages together; so a name on two pages counts once, and no page after the limit matters.
  pub add_pages-sanitize :
      (limit : ℕ) (pages : List (List Text))
      → (add_pages unicode is_ip pages (new_domain_collector limit)).names
        ≡ take limit (sanitize unicode is_ip (concat pages))
  unfolding sanitize
  add_pages-sanitize limit pages =
      let whole : limit - 0 ≡ limit = omega arith in
      ap (λ (c : DomainCollector). c.names) (add_pages-concat pages (new_domain_collector limit))
      ∙ (names_lem (concat pages) (new_domain_collector limit)
          ∙ ap (λ n. take n (sanitize_from unicode is_ip (λ s. false) (concat pages))) whole)

  -- A domain that a source may yield: a host name with a dot that is no IP address.
  abbrev pub IsDomain : Text → Type 0
  IsDomain name =
      IsHostname name × (is_ip name ≡ false) × ((s : Text) × (t : Text) × (name ≡ s ++ 46 ∷ t))

  checked-IsDomain :
      (candidate name : Text) → checked_name is_ip candidate ≡ some name → IsDomain name
  checked-IsDomain candidate name e = elim (Bool-cases (any (λ b. b == 46) candidate)) [
    | inr dotless ↦ absurd (ground (arith, dotless, e))
    | inl dotted ↦ elim (Bool-cases (is_ip candidate)) [
      | inl ip ↦ absurd (ground (arith, dotted, ip, e))
      | inr no_ip ↦ elim (Bool-cases (is_valid_hostname candidate)) [
        | inr bad ↦ absurd (ground (arith, dotted, no_ip, bad, e))
        | inl good ↦
            let same : candidate ≡ name = ground (arith, dotted, no_ip, good, e) in
            subst IsDomain same (valid-IsHostname candidate good, no_ip, dot-split candidate dotted)
      ]
    ]
  ]

  name-IsDomain : (raw name : Text) → sanitize_name unicode is_ip raw ≡ some name → IsDomain name
  unfolding sanitize_name
  name-IsDomain raw name e = elim (Bool-cases (is_empty (unicode.trim_space raw))) [
    | inl blank ↦ absurd (ground (arith, blank, e))
    | inr filled ↦
        checked-IsDomain (trim_dot (unicode.to_lower (without_wildcard (unicode.trim_space raw))))
          name (sym (rw filled refl) ∙ e)
  ]

  from-IsDomain :
      (seen : Text → Bool) (raws : List Text)
      → All (λ name. IsDomain name × (seen name ≡ false)) (sanitize_from unicode is_ip seen raws)
  unfolding sanitize_from
  from-IsDomain seen [] = tt
  from-IsDomain seen (raw ∷ raws) = elim (Option-cases (sanitize_name unicode is_ip raw)) [
    | inl e ↦ rw e (from-IsDomain seen raws)
    | inr (name, e) ↦ elim (Bool-cases (seen name)) [
      | inl old ↦ rw (e, old) (from-IsDomain seen raws)
      | inr new ↦
          rw (e, new)
            (
              (name-IsDomain raw name e, new),
              forget seen name (sanitize_from unicode is_ip (seen_too name seen) raws)
                  (from-IsDomain (seen_too name seen) raws),
            )
    ]
  ]
    where
      forget :
          (seen : Text → Bool) (name : Text) (names : List Text)
          → All (λ n. IsDomain n × (seen_too name seen n ≡ false)) names
          → All (λ n. IsDomain n × (seen n ≡ false)) names
      forget seen name [] h = tt
      forget seen name (n ∷ names) h = ((h.0.0, ground (arith, h.0.1)), forget seen name names h.1)

  Distinct-from :
      (seen : Text → Bool) (raws : List Text) → Distinct (sanitize_from unicode is_ip seen raws)
  unfolding sanitize_from
  Distinct-from seen [] = tt
  Distinct-from seen (raw ∷ raws) = elim (Option-cases (sanitize_name unicode is_ip raw)) [
    | inl e ↦ rw e (Distinct-from seen raws)
    | inr (name, e) ↦ elim (Bool-cases (seen name)) [
      | inl old ↦ rw (e, old) (Distinct-from seen raws)
      | inr new ↦
          rw (e, new)
            (
              others seen name (sanitize_from unicode is_ip (seen_too name seen) raws)
                  (from-IsDomain (seen_too name seen) raws),
              Distinct-from (seen_too name seen) raws,
            )
    ]
  ]
    where
      others :
          (seen : Text → Bool) (name : Text) (names : List Text)
          → All (λ n. IsDomain n × (seen_too name seen n ≡ false)) names
          → All (λ n. n ≢ name) names
      others seen name [] h = tt
      others seen name (n ∷ names) h =
          ((λ e. ground (arith, h.0.1, e, text_eq_refl name)), others seen name names h.1)

  -- `Sanitize` yields no name twice, and only names that have a dot, that are no IP addresses, and that are
  -- host names: at most 253 bytes, whose parts between the dots have from 1 to 63 lower-case ASCII
  -- letters, digits and hyphens each, with no hyphen first or last.
  pub sanitize-IsDomain :
      (raws : List Text)
      → All IsDomain (sanitize unicode is_ip raws) × Distinct (sanitize unicode is_ip raws)
  unfolding sanitize
  sanitize-IsDomain raws = (
    All-map (λ name. IsDomain name × (◌≡◌ {A = Bool} false false)) IsDomain
        (sanitize_from unicode is_ip (λ s. false) raws) (λ name h. h.0)
        (from-IsDomain (λ s. false) raws),
    Distinct-from (λ s. false) raws,
  )
