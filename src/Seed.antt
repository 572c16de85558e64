-- ===== src/Seed.antt =====
-- internal/seed/seed.go: how the names that a source of seeds yields become domains. `net.ParseIP`
-- is the argument `is_ip`.
use ardvark.Prelude.{
  ℕ, zero, suc, ltb, leb, ◌==◌, Bool, true, false, ◌&&◌, ◌||◌, not, List, [], ◌∷◌, ◌++◌, Option,
  none, some, Text, codes, any, length, text_eq, is_empty, has_prefix, Unicode, split,
  if◌then◌else◌,
}
use ardvark.Ard.Urn.{drop}
pub mod Hostnames
pub mod Collected
mod Examples

-- `strings.TrimSuffix(s, ".")`.
unfoldable pub trim_dot : Text → Text
trim_dot [] = []
trim_dot (b ∷ s) = let rest = trim_dot s in if is_empty s && (b == 46) then [] else b ∷ rest

abbrev pub is_label_byte : ℕ → Bool
is_label_byte b = (leb 97 b && leb b 122) || (leb 48 b && leb b 57) || (b == 45)

abbrev pub starts_with : ℕ → Text → Bool
starts_with c [] = false
starts_with c (b ∷ s) = b == c

unfoldable pub ends_with : ℕ → Text → Bool
ends_with c [] = false
ends_with c (b ∷ s) = let rest = ends_with c s in if is_empty s then b == c else rest

-- One round of the loop over the labels.
abbrev pub is_label : Text → Bool
is_label label =
    not (is_empty label)
    && leb (length label) 63
    && not (starts_with 45 label)
    && not (ends_with 45 label)
    && not (any (λ b. not (is_label_byte b)) label)

unfoldable pub is_valid_hostname : Text → Bool
unfolding split any ends_with
is_valid_hostname s =
    not (is_empty s) && leb (length s) 253 && not (any (λ label. not (is_label label)) (split 46 s))

abbrev pub without_wildcard : Text → Text
without_wildcard name = if has_prefix name (codes "*.") then drop 2 name else name

abbrev pub checked_name : (Text → Bool) → Text → Option Text
checked_name is_ip name =
    if not (any (λ b. b == 46) name)
    then none
    else if is_ip name
    then none
    else if not (is_valid_hostname name)
    then none
    else some name

-- `sanitizeName`, none for a value to drop.
unfoldable pub sanitize_name : Unicode → (Text → Bool) → Text → Option Text
unfolding has_prefix trim_dot any is_valid_hostname
sanitize_name unicode is_ip raw =
    let name = unicode.trim_space raw in
    if is_empty name
    then none
    else checked_name is_ip (trim_dot (unicode.to_lower (without_wildcard name)))

abbrev pub seen_too : Text → (Text → Bool) → Text → Bool
seen_too name seen s = text_eq s name || seen s

abbrev pub kept : (Text → Bool) → Option Text → (Text → Bool) × List Text
kept seen none = (seen, [])
kept seen (some name) = if seen name then (seen, []) else (seen_too name seen, name ∷ [])

-- The loop of `Sanitize`, with the set `seen`.
unfoldable pub sanitize_from : Unicode → (Text → Bool) → (Text → Bool) → List Text → List Text
unfolding sanitize_name text_eq
sanitize_from unicode is_ip seen [] = []
sanitize_from unicode is_ip seen (raw ∷ raws) =
    let (seen', names) = kept seen (sanitize_name unicode is_ip raw) in
    names ++ sanitize_from unicode is_ip seen' raws

unfoldable pub sanitize : Unicode → (Text → Bool) → List Text → List Text
unfolding sanitize_from
sanitize unicode is_ip = sanitize_from unicode is_ip (λ s. false)

pub record DomainCollector : Type 0 where
  pub seen : Text → Bool
  pub names : List Text
  pub limit : ℕ

abbrev pub new_domain_collector : ℕ → DomainCollector
new_domain_collector limit = record { seen = λ s. false; names = []; limit = limit }

abbrev pub full : DomainCollector → Bool
full c = leb c.limit (length c.names)

abbrev pub collected : DomainCollector → (Text → Bool) × List Text → DomainCollector
collected c (seen, names) = record c { seen = seen; names = c.names ++ names }

-- `domainCollector.add`.
unfoldable pub add_names : Unicode → (Text → Bool) → List Text → DomainCollector → DomainCollector
unfolding sanitize_name text_eq
add_names unicode is_ip [] c = c
add_names unicode is_ip (raw ∷ raws) c =
    let rest =
      add_names unicode is_ip raws (collected c (kept c.seen (sanitize_name unicode is_ip raw))) in
    if full c then c else rest

-- The pages of a source, one after the other.
unfoldable pub add_pages :
    Unicode → (Text → Bool) → List (List Text) → DomainCollector → DomainCollector
unfolding add_names
add_pages unicode is_ip [] c = c
add_pages unicode is_ip (page ∷ pages) c =
    add_pages unicode is_ip pages (add_names unicode is_ip page c)
