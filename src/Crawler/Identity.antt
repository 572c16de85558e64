-- ===== src/Crawler/Identity.antt =====
-- Which items of `buildItem` are the same for the frontier: the key tells their kind, their host or
-- URL, and the relationship that they serve apart.
use ardvark.Prelude.{
  append_nil, Lacks, ℕ, ◌≡◌, ◌⊎◌, ◌↔◌, sym, ap, ◌∙◌, inl, inr, [], ◌∷◌, ◌++◌, Text,
}
use ardvark.Store.Models.{FrontierItem}
use ardvark.Crawler.Keys.{Provenance, suffix, natural_base, natural_key, preimage, build_item}
use ardvark.Crawler.Relations.{
  relation, split_once, not_split, text_of, suffix_lem, text_of-injective, starts,
}

-- A text without a NUL byte and what follows it from the first one on are read back.
read_back :
    (s s' u u' : Text)
    → (u ≡ []) ⊎ ((t : Text) × (u ≡ 0 ∷ t))
    → (u' ≡ []) ⊎ ((t : Text) × (u' ≡ 0 ∷ t))
    → Lacks 0 s
    → Lacks 0 s'
    → s ++ u ≡ s' ++ u'
    → (s ≡ s') × (u ≡ u')
read_back s s' u u' (inl e) (inl e') h h' same = (
  sym (append_nil s) ∙ (sym (ap (λ u. s ++ u) e) ∙ (same ∙ (ap (λ u. s' ++ u) e' ∙ append_nil s'))),
  e ∙ sym e',
)
read_back s s' u u' (inl e) (inr (t', e')) h h' same = absurd (
    not_split 0 s s' t' h
      (sym (append_nil s) ∙ (sym (ap (λ u. s ++ u) e) ∙ (same ∙ ap (λ u. s' ++ u) e'))))
read_back s s' u u' (inr (t, e)) (inl e') h h' same = absurd (
    not_split 0 s' s t h'
      (sym (append_nil s') ∙ (sym (ap (λ u. s' ++ u) e') ∙ (sym same ∙ ap (λ u. s ++ u) e))))
read_back s s' u u' (inr (t, e)) (inr (t', e')) h h' same =
    let (p, q) =
      split_once 0 s s' t t' h h' (sym (ap (λ u. s ++ u) e) ∙ (same ∙ ap (λ u. s' ++ u) e')) in
    (p, e ∙ (ap (λ u. 0 ∷ u) q ∙ sym e'))

-- `kind`, `url`, `host` and provenance of an item to build.
pub record Request : Type 0 where
  pub kind : Text
  pub url : Text
  pub host : Text
  pub depth : ℕ
  pub prov : Provenance

abbrev pub base_of : Request → Text
base_of q = natural_base q.kind q.url q.host

abbrev pub built : (Text → Text) → ℕ → Request → FrontierItem
built digest run_id q = build_item digest run_id q.kind q.url q.host q.depth q.prov

abbrev pub preimage_of : Request → Text
preimage_of q = preimage q.kind (natural_key q.kind q.url q.host q.prov)

-- Two items, whatever their runs and depths, whose kinds have no colon and whose host or URL has no
-- NUL byte, and on whose key texts the digest does not collide, have the same deduplication key
-- exactly when they agree in their kind, in what they fetch (the host of a probe, the URL of
-- anything else), and in the relationship that they serve: the parent catalog of a nested catalog,
-- the entry of an artifact, and the row or else the entry of a registry.
pub build_item-same_key :
    (digest : Text → Text) (run run' : ℕ) (q q' : Request)
    → Lacks 58 q.kind
    → Lacks 58 q'.kind
    → Lacks 0 (base_of q)
    → Lacks 0 (base_of q')
    → (digest (preimage_of q) ≡ digest (preimage_of q') → preimage_of q ≡ preimage_of q')
    → ((built digest run q).dedup_key ≡ (built digest run' q').dedup_key)
      ↔ (q.kind ≡ q'.kind)
        × (base_of q ≡ base_of q')
        × (relation q.kind q.prov ≡ relation q'.kind q'.prov)
unfolding build_item
build_item-same_key digest run run' q q' k k' h h' honest = (
  λ e.
      let (kinds, naturals) = split_once 58 q.kind q'.kind _ _ k k' (honest e) in
      let texts : base_of q ++ text_of (relation q.kind q.prov)
          ≡ base_of q' ++ text_of (relation q'.kind q'.prov) =
        sym (ap (λ u. base_of q ++ u) (suffix_lem q.kind q.prov))
        ∙ (naturals ∙ ap (λ u. base_of q' ++ u) (suffix_lem q'.kind q'.prov)) in
      let (bases, suffixes) =
        read_back (base_of q) (base_of q') (text_of (relation q.kind q.prov))
          (text_of (relation q'.kind q'.prov)) (starts (relation q.kind q.prov))
          (starts (relation q'.kind q'.prov)) h h' texts in
      (kinds, bases, text_of-injective _ _ suffixes),
  λ (kinds, bases, relations).
      let suffixes : suffix q.kind q.prov ≡ suffix q'.kind q'.prov =
        suffix_lem q.kind q.prov ∙ (ap text_of relations ∙ sym (suffix_lem q'.kind q'.prov)) in
      let naturals : base_of q ++ suffix q.kind q.prov ≡ base_of q' ++ suffix q'.kind q'.prov =
        ap (λ b. b ++ suffix q.kind q.prov) bases ∙ ap (λ u. base_of q' ++ u) suffixes in
      ap digest (
        ap (λ k. preimage k (base_of q ++ suffix q.kind q.prov)) kinds
        ∙ ap (preimage q'.kind) naturals),
)
