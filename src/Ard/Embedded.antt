-- ===== src/Ard/Embedded.antt =====
-- Which documents of a block `InlineCatalogs` finds.
use ardvark.Prelude.{
  ℕ, suc, ◌≤◌, ◌≡◌, ◌⊎◌, ◌↔◌, refl, ap, inl, inr, ltb, Bool, true, false, List, [], ◌∷◌, ◌++◌,
  Option, none, some, Text, text_eq, Bool-cases, arith, if◌then◌else◌,
}
use ardvark.Frontier.Picked.{Contains}
use ardvark.Ard.Inline.{
  Json, null, boolean, number, string, array, object, Items, no_items, item, Members, no_members,
  member, lookup, is_catalog_document, key_graph, max_inline_nesting_depth, encoded, collect,
  collect_items, collect_graph, inline_catalogs,
}

-- A node at a depth leads to a document if it is one, or an element of an array or the `@graph` of
-- an object that is none leads to it one level deeper, all within the bound.
mutual
  pub data Leads : ℕ → Json → Members → Type 0 where
    document :
        {depth : ℕ} {doc : Members}
        → depth ≤ max_inline_nesting_depth
        → is_catalog_document doc ≡ true
        → Leads depth (object doc) doc
    in_array :
        {depth : ℕ} {items : Items} {doc : Members}
        → depth ≤ max_inline_nesting_depth
        → LeadsItem (suc depth) items doc
        → Leads depth (array items) doc
    in_graph :
        {depth : ℕ} {members : Members} {graph : Json} {doc : Members}
        → depth ≤ max_inline_nesting_depth
        → is_catalog_document members ≡ false
        → lookup key_graph members ≡ some graph
        → Leads (suc depth) graph doc
        → Leads depth (object members) doc

  pub data LeadsItem : ℕ → Items → Members → Type 0 where
    first :
        {depth : ℕ} {node : Json} {items : Items} {doc : Members}
        → Leads depth node doc
        → LeadsItem depth (item node items) doc
    later :
        {depth : ℕ} {node : Json} {items : Items} {doc : Members}
        → LeadsItem depth items doc
        → LeadsItem depth (item node items) doc

Contains-append :
    {A : Type 0} (x : A) (xs ys : List A) → Contains x (xs ++ ys) → Contains x xs ⊎ Contains x ys
Contains-append x [] ys c = inr c
Contains-append x (y ∷ xs) ys (inl e) = inl (inl e)
Contains-append x (y ∷ xs) ys (inr c) = elim (Contains-append x xs ys c) [
  | inl h ↦ inl (inr h)
  | inr h ↦ inr h
]

append_left : {A : Type 0} (x : A) (xs ys : List A) → Contains x xs → Contains x (xs ++ ys)
append_left x [] ys c = absurd c
append_left x (y ∷ xs) ys (inl e) = inl e
append_left x (y ∷ xs) ys (inr c) = inr (append_left x xs ys c)

append_right : {A : Type 0} (x : A) (xs ys : List A) → Contains x ys → Contains x (xs ++ ys)
append_right x [] ys c = c
append_right x (y ∷ xs) ys c = inr (append_right x xs ys c)

branch :
    {A : Type 0} (x : A) (b : Bool) (l m : List A)
    → Contains x (if b then l else m)
    → (b ≡ true) × Contains x l ⊎ (b ≡ false) × Contains x m
branch x true l m c = inl (refl, c)
branch x false l m c = inr (refl, c)

module _ (marshal : Members → Option Text) where
  graph_lem :
      (depth : ℕ) (members : Members)
      → collect_graph marshal depth members
        ≡ elim (lookup key_graph members) [ none ↦ [] | some graph ↦ collect marshal depth graph ]
  unfolding collect_graph lookup
  graph_lem depth no_members = refl
  graph_lem depth (member name value members) = elim (Bool-cases (text_eq name key_graph)) [
    | inl e ↦ rw e refl
    | inr e ↦ rw e (graph_lem depth members)
  ]

  abbrev FoundAt : ℕ → Json → Text → Type 0
  FoundAt depth node text = (doc : Members) × (Leads depth node doc) × (marshal doc ≡ some text)

  Contains-encoded : (text : Text) (o : Option Text) → Contains text (encoded o) → o ≡ some text
  Contains-encoded text none c = absurd c
  Contains-encoded text (some t) (inl e) = ap some e
  Contains-encoded text (some t) (inr c) = absurd c

  mutual
    unfolding collect lookup

    collect_sound :
        (depth : ℕ) (node : Json) (text : Text)
        → Contains text (collect marshal depth node)
        → FoundAt depth node text
    collect_sound depth (array items) text c =
        elim (branch text (ltb max_inline_nesting_depth depth) []
          (collect_items marshal (suc depth) items) c) [
            | inl (deep, none_here) ↦ absurd none_here
            | inr (fits, inner) ↦
                let (doc, leads, e) = items_sound (suc depth) items text inner in
                (doc, in_array (ground arith) leads, e)
          ]
    collect_sound depth (object members) text c =
        elim (branch text (ltb max_inline_nesting_depth depth) []
          (if is_catalog_document members
            then encoded (marshal members)
            else collect_graph marshal (suc depth) members)
          c) [
            | inl (deep, none_here) ↦ absurd none_here
            | inr (fits, inner) ↦
                elim (branch text (is_catalog_document members) (encoded (marshal members))
                  (collect_graph marshal (suc depth) members) inner) [
                    | inl (yes_doc, own) ↦ (
                      members,
                      document (ground arith) yes_doc,
                      Contains-encoded text (marshal members) own,
                    )
                    | inr (no_doc, below) ↦
                        let (graph, at_key, found) = graph_sound (suc depth) members text below in
                        let (doc, leads, e) = found in
                        (doc, in_graph (ground arith) no_doc at_key leads, e)
                  ]
          ]
    collect_sound depth null text c = absurd c
    collect_sound depth (boolean b) text c = absurd c
    collect_sound depth (number n) text c = absurd c
    collect_sound depth (string s) text c = absurd c

    items_sound :
        (depth : ℕ) (items : Items) (text : Text)
        → Contains text (collect_items marshal depth items)
        → (doc : Members) × (LeadsItem depth items doc) × (marshal doc ≡ some text)
    items_sound depth no_items text c = absurd c
    items_sound depth (item node items) text c =
        elim (Contains-append text (collect marshal depth node) (collect_items marshal depth items)
          c) [
            | inl here ↦
                let (doc, leads, e) = collect_sound depth node text here in (doc, first leads, e)
            | inr there ↦
                let (doc, leads, e) = items_sound depth items text there in (doc, later leads, e)
          ]

    graph_sound :
        (depth : ℕ) (members : Members) (text : Text)
        → Contains text (collect_graph marshal depth members)
        → (graph : Json) × (lookup key_graph members ≡ some graph) × FoundAt depth graph text
    graph_sound depth no_members text c = absurd c
    graph_sound depth (member name value members) text c =
        elim (branch text (text_eq name key_graph) (collect marshal depth value)
          (collect_graph marshal depth members) c) [
            | inl (same, inner) ↦ (value, rw same refl, collect_sound depth value text inner)
            | inr (other, inner) ↦
                let (graph, at_key, found) = graph_sound depth members text inner in
                (graph, rw other at_key, found)
          ]

  mutual
    unfolding collect

    collect_complete :
        (depth : ℕ) (node : Json) (doc : Members) (text : Text)
        → Leads depth node doc
        → marshal doc ≡ some text
        → Contains text (collect marshal depth node)
    collect_complete depth (object _) _ text (document fits is_doc) e =
        let within : ltb max_inline_nesting_depth depth ≡ false = ground arith in
        rw (within, is_doc, e) (inl refl)
    collect_complete depth (array items) doc text (in_array fits leads) e =
        let within : ltb max_inline_nesting_depth depth ≡ false = ground arith in
        rw within (items_complete (suc depth) items doc text leads e)
    collect_complete depth (object members) doc text
          (in_graph {graph = graph} fits no_doc at_key leads) e =
        let within : ltb max_inline_nesting_depth depth ≡ false = ground arith in
        rw (within, no_doc, graph_lem (suc depth) members, at_key)
          (collect_complete (suc depth) graph doc text leads e)
    collect_complete depth null doc text l e = elim l [ ]
    collect_complete depth (boolean b) doc text l e = elim l [ ]
    collect_complete depth (number n) doc text l e = elim l [ ]
    collect_complete depth (string s) doc text l e = elim l [ ]

    items_complete :
        (depth : ℕ) (items : Items) (doc : Members) (text : Text)
        → LeadsItem depth items doc
        → marshal doc ≡ some text
        → Contains text (collect_items marshal depth items)
    items_complete depth no_items doc text l e = elim l [ ]
    items_complete depth (item node items) doc text (first leads) e =
        append_left text (collect marshal depth node) (collect_items marshal depth items)
          (collect_complete depth node doc text leads e)
    items_complete depth (item node items) doc text (later leads) e =
        append_right text (collect marshal depth node) (collect_items marshal depth items)
          (items_complete depth items doc text leads e)

  -- A text is a candidate of a block that is JSON exactly when it encodes a document, an object
  -- with a text `specVersion` and an array `entries`, to which the block's value leads through at
  -- most sixteen steps into arrays and `@graph` members of other objects.
  pub inline_catalogs-Leads :
      (node : Json) (text : Text)
      → Contains text (inline_catalogs marshal (some node))
        ↔ ((doc : Members) × (Leads 0 node doc) × (marshal doc ≡ some text))
  inline_catalogs-Leads node text =
      (collect_sound 0 node text, λ (doc, leads, e). collect_complete 0 node doc text leads e)
