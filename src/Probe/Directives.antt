-- ===== src/Probe/Directives.antt =====
-- Which catalogs the directives of a `robots.txt` name.
use ardvark.Prelude.{
  ◌≡◌, ◌↔◌, ◌≢◌, refl, sym, ap, ◌∙◌, inl, inr, Bool, true, false, ◌||◌, List, [], ◌∷◌, Option, none,
  some, Text, All, text_eq, text_eq-eq, text_eq_refl, subst, split, Unicode, Bool-cases,
  Option-cases, arith,
}
use ardvark.Frontier.Picked.{Contains}
use ardvark.Probe.{directive, directives_from, parse_agentmap_directives}

abbrev pub Distinct : List Text → Type 0
Distinct [] = Unit {0}
Distinct (s ∷ ss) = All (λ t. t ≢ s) ss × Distinct ss

module _ (unicode : Unicode) (resolve : Text → Option Text) where
  -- A line of the list names the URL.
  abbrev pub Names : List Text → Text → Type 0
  Names lines url =
      (line : Text) × Contains line lines × (directive unicode resolve line ≡ some url)

  abbrev Fresh : (Text → Bool) → Text → Type 0
  Fresh seen url = seen url ≡ false

  -- Nothing that was seen comes again.
  Fresh-urls :
      (seen : Text → Bool) (lines : List Text)
      → All (Fresh seen) (directives_from unicode resolve seen lines)
  unfolding directives_from
  Fresh-urls seen [] = tt
  Fresh-urls seen (line ∷ lines) = elim (Option-cases (directive unicode resolve line)) [
    | inl e ↦ rw e (Fresh-urls seen lines)
    | inr (url, e) ↦ elim (Bool-cases (seen url)) [
      | inl old ↦ rw (e, old) (Fresh-urls seen lines)
      | inr new ↦
          rw (e, new)
            (
              new,
              forget seen url (directives_from unicode resolve (λ s. text_eq s url || seen s) lines)
                  (Fresh-urls (λ s. text_eq s url || seen s) lines),
            )
    ]
  ]
    where
      forget :
          (seen : Text → Bool) (url : Text) (urls : List Text)
          → All (Fresh (λ s. text_eq s url || seen s)) urls
          → All (Fresh seen) urls
      forget seen url [] h = tt
      forget seen url (u ∷ urls) h = (ground arith, forget seen url urls h.1)

  Distinct-urls :
      (seen : Text → Bool) (lines : List Text)
      → Distinct (directives_from unicode resolve seen lines)
  unfolding directives_from
  Distinct-urls seen [] = tt
  Distinct-urls seen (line ∷ lines) = elim (Option-cases (directive unicode resolve line)) [
    | inl e ↦ rw e (Distinct-urls seen lines)
    | inr (url, e) ↦ elim (Bool-cases (seen url)) [
      | inl old ↦ rw (e, old) (Distinct-urls seen lines)
      | inr new ↦
          let seen' = λ (s : Text). text_eq s url || seen s in
          rw (e, new)
            (
              others seen url (directives_from unicode resolve seen' lines)
                  (Fresh-urls seen' lines),
              Distinct-urls seen' lines,
            )
    ]
  ]
    where
      others :
          (seen : Text → Bool) (url : Text) (urls : List Text)
          → All (Fresh (λ s. text_eq s url || seen s)) urls
          → All (λ t. t ≢ url) urls
      others seen url [] h = tt
      others seen url (u ∷ urls) h =
          ((λ e. ground (arith, h.0, e, text_eq_refl url)), others seen url urls h.1)

  step_none :
      (seen : Text → Bool) (line : Text) (lines : List Text)
      → directive unicode resolve line ≡ none
      → directives_from unicode resolve seen (line ∷ lines)
        ≡ directives_from unicode resolve seen lines
  unfolding directives_from
  step_none seen line lines e = rw e refl

  step_old :
      (seen : Text → Bool) (line : Text) (lines : List Text) (u : Text)
      → directive unicode resolve line ≡ some u
      → seen u ≡ true
      → directives_from unicode resolve seen (line ∷ lines)
        ≡ directives_from unicode resolve seen lines
  unfolding directives_from
  step_old seen line lines u e old = rw (e, old) refl

  step_new :
      (seen : Text → Bool) (line : Text) (lines : List Text) (u : Text)
      → directive unicode resolve line ≡ some u
      → seen u ≡ false
      → directives_from unicode resolve seen (line ∷ lines)
        ≡ u ∷ directives_from unicode resolve (λ s. text_eq s u || seen s) lines
  unfolding directives_from
  step_new seen line lines u e new = rw (e, new) refl

  further :
      (line : Text) (lines : List Text) (url : Text) → Names lines url → Names (line ∷ lines) url
  further line lines url (found, c, e) = (found, inr c, e)

  named_sound :
      (seen : Text → Bool) (lines : List Text) (url : Text)
      → Contains url (directives_from unicode resolve seen lines)
      → Names lines url
  unfolding directives_from
  named_sound seen [] url c = absurd c
  named_sound seen (line ∷ lines) url c = elim (Option-cases (directive unicode resolve line)) [
    | inl e ↦
        further line lines url
          (named_sound seen lines url (subst (Contains url) (step_none seen line lines e) c))
    | inr (u, e) ↦ elim (Bool-cases (seen u)) [
      | inl old ↦
          further line lines url
            (named_sound seen lines url (subst (Contains url) (step_old seen line lines u e old) c))
      | inr new ↦ elim (subst (Contains url) (step_new seen line lines u e new) c) [
        | inl same ↦ (line, inl refl, e ∙ ap some same)
        | inr rest ↦
            further line lines url (named_sound (λ s. text_eq s u || seen s) lines url rest)
      ]
    ]
  ]

  named_complete :
      (seen : Text → Bool) (lines : List Text) (url : Text)
      → Names lines url
      → seen url ≡ false
      → Contains url (directives_from unicode resolve seen lines)
  named_complete seen [] url (found, c, e) new = absurd c
  named_complete seen (line ∷ lines) url (found, inl here, e) new =
      let mine : directive unicode resolve line ≡ some url =
        ap (directive unicode resolve) here ∙ e in
      subst (Contains url) (sym (step_new seen line lines url mine new)) (inl refl)
  named_complete seen (line ∷ lines) url (found, inr c, e) new =
      elim (Option-cases (directive unicode resolve line)) [
        | inl nothing ↦
            subst (Contains url) (sym (step_none seen line lines nothing))
              (named_complete seen lines url (found, c, e) new)
        | inr (u, other) ↦ elim (Bool-cases (seen u)) [
          | inl old ↦
              subst (Contains url) (sym (step_old seen line lines u other old))
                (named_complete seen lines url (found, c, e) new)
          | inr fresh ↦ elim (Bool-cases (text_eq url u)) [
            | inl same ↦
                subst (Contains url) (sym (step_new seen line lines u other fresh))
                  (inl (sym (text_eq-eq url u same)))
            | inr differs ↦ subst (Contains url) (sym (step_new seen line lines u other fresh)) (
                inr (
                  named_complete (λ s. text_eq s u || seen s) lines url (found, c, e)
                    (rw (differs, new) refl)))
          ]
        ]
      ]

  -- The catalogs that `parseAgentmapDirectives` reports are, each once, the URLs that the directives
  -- of some line of the text resolve to.
  pub parse_agentmap_directives-Names :
      (raw : Text)
      → Distinct (parse_agentmap_directives unicode resolve raw)
        × ((url : Text)
            → Contains url (parse_agentmap_directives unicode resolve raw)
              ↔ Names (split 10 raw) url)
  unfolding parse_agentmap_directives
  parse_agentmap_directives-Names raw = (
    Distinct-urls (λ s. false) (split 10 raw),
    λ url. (
      named_sound (λ s. false) (split 10 raw) url,
      λ n. named_complete (λ s. false) (split 10 raw) url n refl,
    ),
  )
