-- ===== src/Ard/Inline.antt =====
-- internal/ard/inline.go: `InlineCatalogs`, on the value that `json.Unmarshal` makes of a block; the
-- encoding of a candidate, `json.Marshal`, is the argument `marshal`.
use ardvark.Prelude.{
  ℕ, suc, ltb, Bool, true, false, ◌&&◌, List, [], ◌∷◌, ◌++◌, Option, none, some, Text, codes,
  text_eq, if◌then◌else◌,
}

-- A decoded value: the members of an object by their names, the later ones first.
mutual
  pub data Json : Type 0 where
    null : Json
    boolean : Bool → Json
    number string : Text → Json
    array : Items → Json
    object : Members → Json

  pub data Items : Type 0 where
    no_items : Items
    item : Json → Items → Items

  pub data Members : Type 0 where
    no_members : Members
    member : Text → Json → Members → Members

-- `v[key]`.
unfoldable pub lookup : Text → Members → Option Json
unfolding text_eq
lookup key no_members = none
lookup key (member name value members) = if text_eq name key then some value else lookup key members

abbrev pub is_string : Option Json → Bool
is_string (some (string s)) = true
is_string _ = false

abbrev pub is_array : Option Json → Bool
is_array (some (array items)) = true
is_array _ = false

abbrev pub key_spec_version : Text
key_spec_version = codes "specVersion"

abbrev pub key_entries : Text
key_entries = codes "entries"

abbrev pub key_graph : Text
key_graph = codes "@graph"

unfoldable pub is_catalog_document : Members → Bool
unfolding lookup
is_catalog_document node =
    is_string (lookup key_spec_version node) && is_array (lookup key_entries node)

abbrev pub max_inline_nesting_depth : ℕ
max_inline_nesting_depth = 16

abbrev pub encoded : Option Text → List Text
encoded none = []
encoded (some text) = text ∷ []

-- `collectInlineCatalogs`, with what it appends as its result.
unfoldable mutual
  unfolding is_catalog_document text_eq

  pub collect : (Members → Option Text) → ℕ → Json → List Text
  collect marshal depth (array items) =
      let inner = collect_items marshal (suc depth) items in
      if ltb max_inline_nesting_depth depth then [] else inner
  collect marshal depth (object members) =
      let inner = collect_graph marshal (suc depth) members in
      if ltb max_inline_nesting_depth depth
      then []
      else if is_catalog_document members
      then encoded (marshal members)
      else inner
  collect marshal depth null = []
  collect marshal depth (boolean b) = []
  collect marshal depth (number n) = []
  collect marshal depth (string s) = []

  pub collect_items : (Members → Option Text) → ℕ → Items → List Text
  collect_items marshal depth no_items = []
  collect_items marshal depth (item node items) =
      collect marshal depth node ++ collect_items marshal depth items

  -- `if graph, ok := v["@graph"]; ok { … }`.
  pub collect_graph : (Members → Option Text) → ℕ → Members → List Text
  collect_graph marshal depth no_members = []
  collect_graph marshal depth (member name value members) =
      let inner = collect marshal depth value in
      let others = collect_graph marshal depth members in
      if text_eq name key_graph then inner else others

-- `InlineCatalogs`, for the value of a block, or none where the block is no JSON.
abbrev pub inline_catalogs : (Members → Option Text) → Option Json → List Text
inline_catalogs marshal none = []
inline_catalogs marshal (some node) = collect marshal 0 node
