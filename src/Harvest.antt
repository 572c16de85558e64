-- ===== src/Harvest.antt =====
-- internal/harvest/harvest.go: `ExtractLinks` over the tree of nodes that `html.Parse` makes;
-- internal/httpx/httpx.go: `ResolveHTTPURL`. Parsing and resolving URLs is the argument `Urls`, which
-- follows net/url; a parsed URL is its text without the fragment, its scheme and its host.
use ardvark.Prelude.{
  ℕ, ltb, ◌==◌, ◌+◌, Bool, true, false, ◌&&◌, ◌||◌, not, List, [], ◌∷◌, ◌++◌, Option, none, some,
  Text, codes, text_eq, is_empty, any, length, cut, Unicode, if◌then◌else◌,
}

-- `<=` on Go strings.
unfoldable pub text_leb : Text → Text → Bool
text_leb [] t = true
text_leb (a ∷ s) [] = false
text_leb (a ∷ s) (b ∷ t) = ltb a b || ((a == b) && text_leb s t)

unfoldable pub insert_text : Text → List Text → List Text
unfolding text_leb
insert_text s [] = s ∷ []
insert_text s (t ∷ ts) = if text_leb s t then s ∷ t ∷ ts else t ∷ insert_text s ts

-- `sort.Strings`.
unfoldable pub sort_texts : List Text → List Text
unfolding insert_text
sort_texts [] = []
sort_texts (s ∷ ss) = insert_text s (sort_texts ss)

-- `*url.URL`: the text with the fragment and without it.
pub record Url : Type 0 where
  pub full : Text
  pub plain : Text
  pub scheme : Text
  pub host : Text

-- `url.Parse`, none on an error, and `ResolveReference`.
pub record Urls : Type 0 where
  pub parse : Text → Option Url
  pub resolve_reference : Url → Url → Url

pub record Attribute : Type 0 where
  pub key : Text
  pub value : Text

-- `html.Node`: an element with its name, its attributes and its children; text; or another node.
mutual
  pub data Node : Type 0 where
    element : Text → List Attribute → Nodes → Node
    text : Text → Node
    other : Nodes → Node

  pub data Nodes : Type 0 where
    no_nodes : Nodes
    node : Node → Nodes → Nodes

-- `Result`.
pub record Links : Type 0 where
  pub links : List Text
  pub hosts : List Text
  pub ai_catalog_hints : List Text
  pub json_ld : List Text

abbrev pub max_json_ld_blocks : ℕ
max_json_ld_blocks = 32

abbrev pub max_json_ld_block_bytes : ℕ
max_json_ld_block_bytes = 1048576

abbrev pub is_web : Url → Bool
is_web u = text_eq u.scheme (codes "http") || text_eq u.scheme (codes "https")

abbrev pub checked : Url → Option Url
checked u = if not (is_web u) then none else if is_empty u.host then none else some u

abbrev pub stripped : Bool → Url → Url
stripped strip_fragment u = if strip_fragment then record u { full = u.plain } else u

abbrev pub resolved_with : Urls → Url → Bool → Option Url → Option Url
resolved_with urls base strip_fragment none = none
resolved_with urls base strip_fragment (some ref) =
    elim (checked (urls.resolve_reference base ref)) [
      | none ↦ none
      | some u ↦ some (stripped strip_fragment u)
    ]

-- `httpx.ResolveHTTPURL`.
unfoldable pub resolve_http_url : Unicode → Urls → Url → Text → Bool → Option Url
unfolding text_eq
resolve_http_url unicode urls base ref strip_fragment =
    let trimmed = unicode.trim_space ref in
    if is_empty trimmed then none else resolved_with urls base strip_fragment (urls.parse trimmed)

-- `attr`.
unfoldable pub attr : Unicode → Text → List Attribute → Option Text
attr unicode name [] = none
attr unicode name (a ∷ as') =
    if unicode.equal_fold a.key name then some a.value else attr unicode name as'

abbrev pub first_part : Text → Option (Text × Text) → Text
first_part s none = s
first_part s (some (before, after)) = before

-- `isJSONLDType`.
unfoldable pub is_json_ld_type : Unicode → Text → Bool
unfolding cut
is_json_ld_type unicode typ =
    unicode.equal_fold (unicode.trim_space (first_part typ (cut 59 typ)))
      (codes "application/ld+json")

abbrev pub piece : Text → Option Text → Option Text
piece s none = none
piece s (some rest) = some (s ++ rest)

-- The loop of `scriptText`, with the length so far; none for a block that is too long.
unfoldable pub script_from : ℕ → Nodes → Option Text
script_from size no_nodes = some []
script_from size (node (text s) rest) =
    let more = script_from (size + length s) rest in
    if ltb max_json_ld_block_bytes (size + length s) then none else piece s more
script_from size (node (element name attributes children) rest) = script_from size rest
script_from size (node (other children) rest) = script_from size rest

abbrev pub non_empty : Unicode → Option Text → List Text
non_empty unicode none = []
non_empty unicode (some s) =
    let trimmed = unicode.trim_space s in if is_empty trimmed then [] else trimmed ∷ []

-- `scriptText`.
unfoldable pub script_text : Unicode → Nodes → List Text
unfolding script_from
script_text unicode children = non_empty unicode (script_from 0 children)

abbrev pub ard_rel_tokens : List Text
ard_rel_tokens = codes "ard" ∷ codes "ai-catalog" ∷ []

-- `isAICatalogRel`, with `strings.Fields` as the argument `fields`.
unfoldable pub is_ai_catalog_rel : Unicode → (Text → List Text) → Text → Bool
unfolding any
is_ai_catalog_rel unicode fields rel =
    any (λ tok. any (λ want. unicode.equal_fold tok want) ard_rel_tokens) (fields rel)

-- What the walk collects: `linkSet` and `catalogSet` as the lists of their keys in the order in which
-- they were added, `hostSet` likewise.
pub record Walked : Type 0 where
  pub link_set : List Text
  pub host_set : List Text
  pub catalog_set : List Text
  pub blocks : List Text

-- A key of a Go map that is there stays as it is.
abbrev pub has : Text → List Text → Bool
has s set = any (text_eq s) set

abbrev pub with_key : Text → List Text → List Text
with_key s set = if has s set then set else set ++ s ∷ []

abbrev pub with_block : List Text → Walked → Walked
with_block [] w = w
with_block (block ∷ _) w =
    if ltb (length w.blocks) max_json_ld_blocks
    then record w { blocks = w.blocks ++ block ∷ [] }
    else w

abbrev pub with_link : Option Url → Walked → Walked
with_link none w = w
with_link (some u) w =
    if has u.full w.link_set
    then w
    else record w { link_set = w.link_set ++ u.full ∷ []; host_set = with_key u.host w.host_set }

abbrev pub with_hint : Option Url → Walked → Walked
with_hint none w = w
with_hint (some u) w = record w { catalog_set = with_key u.full w.catalog_set }

abbrev pub or_empty : Option Text → Text
or_empty none = []
or_empty (some s) = s

module _ (unicode : Unicode) (urls : Urls) (fields : Text → List Text) where
  abbrev pub resolve : Url → Option Text → Option Url
  resolve base none = none
  resolve base (some href) = resolve_http_url unicode urls base href true

  abbrev pub is_json_ld : Option Text → Bool
  is_json_ld none = false
  is_json_ld (some typ) = is_json_ld_type unicode typ

  -- `switch n.Data { … }`.
  unfoldable pub visit : Url → Text → List Attribute → Nodes → Walked → Walked
  unfolding attr resolve_http_url is_json_ld_type script_text is_ai_catalog_rel any text_eq
  visit base name attributes children w =
      if text_eq name (codes "script")
      then (if is_json_ld (attr unicode (codes "type") attributes)
          then with_block (script_text unicode children) w
          else w)
      else if text_eq name (codes "a") || text_eq name (codes "area")
      then with_link (resolve base (attr unicode (codes "href") attributes)) w
      else if text_eq name (codes "link")
      then (if is_ai_catalog_rel unicode fields (or_empty (attr unicode (codes "rel") attributes))
          then with_hint (resolve base (attr unicode (codes "href") attributes)) w
          else w)
      else w

  -- `walk`.
  unfoldable mutual
    unfolding visit

    pub walk : Url → Node → Walked → Walked
    walk base (element name attributes children) w =
        walk_all base children (visit base name attributes children w)
    walk base (text s) w = w
    walk base (other children) w = walk_all base children w

    pub walk_all : Url → Nodes → Walked → Walked
    walk_all base no_nodes w = w
    walk_all base (node n ns) w = walk_all base ns (walk base n w)

  abbrev pub base_value : Option Text → Option Text
  base_value none = none
  base_value (some href) = if is_empty (unicode.trim_space href) then none else some href

  abbrev pub first_of : Option Text → Option Text → Option Text
  first_of (some s) later = some s
  first_of none later = later

  abbrev pub own_base : Text → List Attribute → Option Text
  own_base name attributes =
      if text_eq name (codes "base")
      then base_value (attr unicode (codes "href") attributes)
      else none

  -- `findBaseHref`.
  unfoldable mutual
    unfolding attr text_eq

    pub find_base_href : Node → Option Text
    find_base_href (element name attributes children) =
        first_of (own_base name attributes) (find_base_in children)
    find_base_href (text s) = none
    find_base_href (other children) = find_base_in children

    pub find_base_in : Nodes → Option Text
    find_base_in no_nodes = none
    find_base_in (node n ns) = first_of (find_base_href n) (find_base_in ns)

  -- `base.Parse(bref)`, where it succeeds.
  abbrev pub rebased : Url → Option Url → Url
  rebased base none = base
  rebased base (some ref) = urls.resolve_reference base ref

  abbrev pub effective_base : Url → Option Text → Url
  effective_base base none = base
  effective_base base (some href) = rebased base (urls.parse href)

  abbrev pub nothing : Walked
  nothing = record { link_set = []; host_set = []; catalog_set = []; blocks = [] }

  abbrev pub sorted : Walked → Links
  sorted w = record {
    links = sort_texts w.link_set;
    hosts = sort_texts w.host_set;
    ai_catalog_hints = sort_texts w.catalog_set;
    json_ld = w.blocks;
  }

  abbrev pub extract_with : Option Url → Option Node → Option Links
  extract_with none doc = none
  extract_with (some base) none = none
  extract_with (some base) (some doc) =
      some (sorted (walk (effective_base base (find_base_href doc)) doc nothing))

  -- `ExtractLinks`, on what `html.Parse` makes of the body; none on an error.
  unfoldable pub extract_links : Text → Option Node → Option Links
  unfolding walk find_base_href sort_texts
  extract_links base_url doc = extract_with (urls.parse base_url) doc
