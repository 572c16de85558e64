-- ===== src/Mediatype/Variants.antt =====
-- Which spellings of a media type are the same resource, and which types are pointers.
use ardvark.Prelude.{
  append_nil, text_eq-eq, ℕ, ◌<◌, ◌≡◌, ◌≢◌, ◌⊎◌, ◌↔◌, refl, sym, ap, ◌∙◌, inl, inr, Bool, true,
  ◌&&◌, not, List, [], ◌∷◌, ◌++◌, Option, none, some, Text, codes, All, text_eq, Bool-cases, arith,
  Unicode, is_graphic, lower_byte, split, cut, Lacks, cut-append, cut-none, cut_last-append,
  cut_last-none, All-append, if◌then◌else◌,
}
use ardvark.Mediatype.{MediaType, parse, full_type, Kind, kind_of, is_pointer}
use ardvark.Mediatype.{
  with_head, with_subtype, Params, add_params, is_pointer_kind, profile, skill, kind_in, kinds,
}

-- A byte of a lower-case name: no space, no capital, and none of the separators.
abbrev pub IsNameByte : ℕ → Type 0
IsNameByte b =
    (is_graphic b ≡ true) × (lower_byte b ≡ b) × ((b ≡ 59 → ⊥) × (b ≡ 47 → ⊥) × (b ≡ 43 → ⊥))

abbrev pub IsName : Text → Type 0
IsName = All IsNameByte

abbrev pub suffix_part : Option Text → Text
suffix_part none = []
suffix_part (some suffix) = 43 ∷ suffix

abbrev pub params_part : Option Text → Text
params_part none = []
params_part (some params) = 59 ∷ params

-- `type/base+suffix;params`, without the suffix or the parameters for none.
abbrev pub written : Text → Text → Option Text → Option Text → Text
written top base suffix params = (top ++ 47 ∷ (base ++ suffix_part suffix)) ++ params_part params

abbrev pub IsGraphic : Text → Type 0
IsGraphic = All (λ b. is_graphic b ≡ true)

name-IsGraphic : (s : Text) → IsName s → IsGraphic s
name-IsGraphic [] h = tt
name-IsGraphic (b ∷ s) h = (h.0.0, name-IsGraphic s h.1)

no_semicolon : (s : Text) → IsName s → Lacks 59 s
no_semicolon [] h = tt
no_semicolon (b ∷ s) h = (h.0.2.0, no_semicolon s h.1)

no_slash : (s : Text) → IsName s → Lacks 47 s
no_slash [] h = tt
no_slash (b ∷ s) h = (h.0.2.1, no_slash s h.1)

no_plus : (s : Text) → IsName s → Lacks 43 s
no_plus [] h = tt
no_plus (b ∷ s) h = (h.0.2.2, no_plus s h.1)

to_lower-name : (unicode : Unicode) (s : Text) → IsName s → unicode.to_lower s ≡ s
to_lower-name unicode [] h = unicode.to_lower_nil
to_lower-name unicode (b ∷ s) h =
    let low : b < 128 = ground (arith, h.0.0) in
    unicode.to_lower_ascii b s low ∙ rw (h.0.1, to_lower-name unicode s h.1) refl

abbrev pub IfPresent : (Text → Type 0) → Option Text → Type 0
IfPresent P none = Unit {0}
IfPresent P (some s) = P s

abbrev pub suffix_or : Option Text → Text
suffix_or none = []
suffix_or (some s) = s

abbrev pub Reads : Text → Text → Option Text → MediaType → Type 0
Reads top base suffix m = (full_type m ≡ top ++ 47 ∷ base) × (m.suffix ≡ suffix_or suffix)

module _ (unicode : Unicode) where
  trimmed : (s : Text) → IsName s → unicode.to_lower (unicode.trim_space s) ≡ s
  trimmed s h =
      ap unicode.to_lower (unicode.trim_graphic s (name-IsGraphic s h)) ∙ to_lower-name unicode s h

  subtype_lem :
      (raw top base : Text) (params : Params) (suffix : Option Text)
      → IsName base
      → IfPresent IsName suffix
      → Reads top base suffix (with_subtype unicode raw top params (base ++ suffix_part suffix))
  subtype_lem raw top base params none b s =
      rw (append_nil base, cut_last-none 43 base (no_plus base b))
        (ap (λ x. top ++ 47 ∷ x) (trimmed base b), refl)
  subtype_lem raw top base params (some suffix) b s =
      rw (cut_last-append 43 base suffix (no_plus suffix s))
        (ap (λ x. top ++ 47 ∷ x) (trimmed base b), trimmed suffix s)

  part-IsGraphic : (suffix : Option Text) → IfPresent IsName suffix → IsGraphic (suffix_part suffix)
  part-IsGraphic none h = tt
  part-IsGraphic (some s) h = (refl, name-IsGraphic s h)

  core-IsGraphic :
      (top base : Text) (suffix : Option Text)
      → IsName top
      → IsName base
      → IfPresent IsName suffix
      → IsGraphic (top ++ 47 ∷ (base ++ suffix_part suffix))
  core-IsGraphic top base suffix t b s =
      All-append (λ b. is_graphic b ≡ true) top (47 ∷ (base ++ suffix_part suffix))
        (name-IsGraphic top t)
        (
          refl,
          All-append (λ b. is_graphic b ≡ true) base (suffix_part suffix) (name-IsGraphic base b)
              (part-IsGraphic suffix s),
        )

  part_plain : (suffix : Option Text) → IfPresent IsName suffix → Lacks 59 (suffix_part suffix)
  part_plain none h = tt
  part_plain (some s) h = ((λ e. omega (arith, e)), no_semicolon s h)

  core_plain :
      (top base : Text) (suffix : Option Text)
      → IsName top
      → IsName base
      → IfPresent IsName suffix
      → Lacks 59 (top ++ 47 ∷ (base ++ suffix_part suffix))
  core_plain top base suffix t b s =
      All-append (λ b. b ≢ 59) top (47 ∷ (base ++ suffix_part suffix)) (no_semicolon top t)
        (
          (λ e. omega (arith, e)),
          All-append (λ b. b ≢ 59) base (suffix_part suffix) (no_semicolon base b)
              (part_plain suffix s),
        )

  head_lem :
      (raw top base : Text) (params : Params) (suffix : Option Text)
      → IsName top
      → IsName base
      → IfPresent IsName suffix
      → let head = top ++ 47 ∷ (base ++ suffix_part suffix) in
        Reads top base suffix (with_head unicode raw params head (cut 47 head))
  head_lem raw top base params suffix t b s =
      let sub = base ++ suffix_part suffix in
      rw
        (
          cut-append 47 top sub (no_slash top t),
          trimmed top t,
          unicode.trim_graphic sub (
              All-append (λ b. is_graphic b ≡ true) base (suffix_part suffix)
                (name-IsGraphic base b) (part-IsGraphic suffix s)),
        )
        (subtype_lem raw top base params suffix b s)

  -- However an entry writes the type `top/base`, with or without a suffix and parameters, `Parse`
  -- reads the same full type, and the suffix; the names are of lower-case ASCII without separators,
  -- and the parameters of printable ASCII without spaces.
  pub parse-written :
      (top base : Text) (suffix params : Option Text)
      → IsName top
      → IsName base
      → IfPresent IsName suffix
      → IfPresent IsGraphic params
      → Reads top base suffix (parse unicode (written top base suffix params))
  unfolding parse
  parse-written top base suffix none t b s p =
      let core = top ++ 47 ∷ (base ++ suffix_part suffix) in
      rw
        (
          append_nil core,
          unicode.trim_graphic core (core-IsGraphic top base suffix t b s),
          cut-none 59 core (core_plain top base suffix t b s),
        )
        (head_lem core top base (λ name. none) suffix t b s)
  parse-written top base suffix (some params) t b s p =
      let core = top ++ 47 ∷ (base ++ suffix_part suffix) in
      let all = core ++ 59 ∷ params in
      rw
        (
          unicode.trim_graphic all (
              All-append (λ b. is_graphic b ≡ true) core (59 ∷ params)
                (core-IsGraphic top base suffix t b s) (refl, p)),
          cut-append 59 core params (core_plain top base suffix t b s),
          unicode.trim_graphic core (core-IsGraphic top base suffix t b s),
        )
        (head_lem all top base (add_params unicode (split 59 params) (λ name. none)) suffix t b s)

-- A text is the name of a pointer's row.
abbrev NamesPointer : Text → List (Text × Kind) → Type 0
NamesPointer s [] = ⊥
NamesPointer s ((name, kind) ∷ rest) =
    if is_pointer_kind kind then (s ≡ name) ⊎ NamesPointer s rest else NamesPointer s rest

pointer-named :
    (s : Text) (table : List (Text × Kind))
    → is_pointer_kind (kind_in table s) ≡ true
    → NamesPointer s table
unfolding kind_in
pointer-named s [] h = cc
pointer-named s ((name, kind) ∷ rest) h = elim (Bool-cases (text_eq name s)) [
  | inl e ↦
      let pointer : is_pointer_kind kind ≡ true = sym (rw e refl) ∙ h in
      rw pointer (inl (sym (text_eq-eq name s e)))
  | inr e ↦
      let later : is_pointer_kind (kind_in rest s) ≡ true = sym (rw e refl) ∙ h in
      elim (Bool-cases (is_pointer_kind kind)) [
        | inl p ↦ rw p (inr (pointer-named s rest later))
        | inr p ↦ rw p (pointer-named s rest later)
      ]
]

profile_no_pointer :
    (base : Kind) (b : Bool)
    → is_pointer_kind (if not (is_pointer_kind base) && b then skill else base)
      ≡ is_pointer_kind base
profile_no_pointer base b = elim (Bool-cases (is_pointer_kind base)) [
  | inl e ↦ rw e e
  | inr e ↦ elim (Bool-cases b) [ inl h ↦ rw (e, h) refl | inr h ↦ rw (e, h) e ]
]

is_pointer-kinds : (m : MediaType) → is_pointer m ≡ is_pointer_kind (kind_in kinds (full_type m))
unfolding kind_of
is_pointer-kinds m =
    profile_no_pointer (kind_in kinds (full_type m))
      (text_eq (profile m) (codes "urn:air:agent-skills"))

-- An entry is a pointer exactly when its full type is that of a catalog or of a registry: no suffix,
-- parameter or profile makes a pointer of another type, or hides one.
pub is_pointer_iff :
    (m : MediaType)
    → (is_pointer m ≡ true) ↔ (
        (full_type m ≡ codes "application/ai-catalog")
        ⊎ (full_type m ≡ codes "application/ai-registry"))
unfolding kind_in text_eq
is_pointer_iff m = (
  λ h. elim (pointer-named (full_type m) kinds (sym (is_pointer-kinds m) ∙ h)) [
    | inl e ↦ inl e
    | inr other ↦ elim other [ inl e ↦ inr e | inr none_left ↦ absurd none_left ]
  ],
  λ named. is_pointer-kinds m ∙ elim named [
    | inl e ↦ ap (λ s. is_pointer_kind (kind_in kinds s)) e
    | inr e ↦ ap (λ s. is_pointer_kind (kind_in kinds s)) e
  ],
)
