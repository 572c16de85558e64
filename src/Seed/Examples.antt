-- ===== src/Seed/Examples.antt =====
-- Tests of internal/seed, and its theorems at concrete inputs.
use ardvark.Prelude.{
  ◌≡◌, refl, Bool, [], ◌∷◌, List, Text, codes, ascii_text, All, take, any, text_eq, split,
  has_prefix,
}
use ardvark.Probe.Directives.{Distinct}
use ardvark.Seed.{
  sanitize, sanitize_name, add_pages, new_domain_collector, trim_dot, is_valid_hostname,
}
use ardvark.Seed.Collected.{concat, add_pages-sanitize, IsDomain, sanitize-IsDomain}

abbrev is_local_ip : Text → Bool
is_local_ip s = text_eq s (codes "127.0.0.1")

abbrev pages : List (List Text)
pages =
    (codes "*.A.example" ∷ codes "127.0.0.1" ∷ codes "b.example." ∷ [])
    ∷ (codes "a.example" ∷ codes "-c.example" ∷ codes "d.example" ∷ [])
    ∷ []

add_pages-sanitize_example :
    (add_pages ascii_text is_local_ip pages (new_domain_collector 2)).names
    ≡ take 2 (sanitize ascii_text is_local_ip (concat pages))
add_pages-sanitize_example = add_pages-sanitize ascii_text is_local_ip 2 pages

sanitize-IsDomain_example :
    All (IsDomain ascii_text is_local_ip) (sanitize ascii_text is_local_ip (concat pages))
    × Distinct (sanitize ascii_text is_local_ip (concat pages))
sanitize-IsDomain_example = sanitize-IsDomain ascii_text is_local_ip (concat pages)

three_domains :
    sanitize ascii_text is_local_ip (concat pages)
    ≡ codes "a.example" ∷ codes "b.example" ∷ codes "d.example" ∷ []
unfolding sanitize sanitize_name trim_dot is_valid_hostname any text_eq split has_prefix
three_domains = refl
