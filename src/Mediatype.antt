-- ===== src/Mediatype.antt =====
-- internal/mediatype/mediatype.go: the media types of catalog entries.
use ardvark.Prelude.{
  ℕ, Bool, true, false, ◌||◌, ◌&&◌, not, List, [], ◌∷◌, ◌++◌, Option, none, some, Text, codes,
  text_eq, is_empty, Unicode, cut, cut_last, trim_left, trim_right, split, if◌then◌else◌,
}
pub mod Variants
mod Examples

pub record MediaType : Type 0 where
  pub raw : Text
  pub top_type : Text
  pub base : Text
  pub suffix : Text
  pub params : Text → Option Text

abbrev pub Params : Type 0
Params = Text → Option Text

-- `name, val, _ := strings.Cut(p, "=")`.
abbrev pub name_value : Text → Option (Text × Text) → Text × Text
name_value p none = (p, [])
name_value p (some parts) = parts

abbrev pub set_param : Unicode → Text × Text → Params → Params
set_param unicode (name, value) params =
    let key = unicode.to_lower (unicode.trim_space name) in
    let text = trim_right 34 (trim_left 34 (unicode.trim_space value)) in
    if is_empty key then params else λ s. if text_eq key s then some text else params s

-- One round of the loop over the parts behind the first semicolon.
abbrev pub add_param : Unicode → Text → Params → Params
add_param unicode part params =
    let p = unicode.trim_space part in
    if is_empty p then params else set_param unicode (name_value p (cut 61 p)) params

unfoldable pub add_params : Unicode → List Text → Params → Params
unfolding text_eq trim_left trim_right cut
add_params unicode [] params = params
add_params unicode (part ∷ parts) params = add_params unicode parts (add_param unicode part params)

abbrev pub with_base : Unicode → Text → Text → Params → Option (Text × Text) → Text → MediaType
with_base unicode s top params none subtype = record {
  raw = s;
  top_type = top;
  base = unicode.to_lower (unicode.trim_space subtype);
  suffix = [];
  params = params;
}
with_base unicode s top params (some (before, after)) subtype = record {
  raw = s;
  top_type = top;
  base = unicode.to_lower (unicode.trim_space before);
  suffix = unicode.to_lower (unicode.trim_space after);
  params = params;
}

abbrev pub with_subtype : Unicode → Text → Text → Params → Text → MediaType
with_subtype unicode s top params subtype =
    with_base unicode s top params (cut_last 43 subtype) subtype

abbrev pub with_head : Unicode → Text → Params → Text → Option (Text × Text) → MediaType
with_head unicode s params head none = with_subtype unicode s [] params head
with_head unicode s params head (some (before, after)) =
    with_subtype unicode s (unicode.to_lower (unicode.trim_space before)) params
      (unicode.trim_space after)

abbrev pub with_params : Unicode → Text → Text → Option (Text × Text) → MediaType
with_params unicode s head none = with_head unicode s (λ name. none) head (cut 47 head)
with_params unicode s head (some (before, after)) =
    let shorter = unicode.trim_space before in
    with_head unicode s (add_params unicode (split 59 after) (λ name. none)) shorter
      (cut 47 shorter)

-- `Parse`.
unfoldable pub parse : Unicode → Text → MediaType
unfolding add_params cut cut_last split
parse unicode s = let head = unicode.trim_space s in with_params unicode s head (cut 59 head)

abbrev pub full_type : MediaType → Text
full_type m = m.top_type ++ 47 ∷ m.base

pub data Kind : Type 0 where
  unknown catalog registry skill mcp_server a2a_agent generic : Kind

unfoldable pub kind_string : Kind → Text
kind_string catalog = codes "catalog"
kind_string registry = codes "registry"
kind_string skill = codes "skill"
kind_string mcp_server = codes "mcp-server"
kind_string a2a_agent = codes "a2a-agent"
kind_string generic = codes "generic"
kind_string unknown = codes "unknown"

-- `kindByFullType`.
abbrev pub kinds : List (Text × Kind)
kinds =
    (codes "application/ai-skill", skill)
    ∷ (codes "application/agent-skills", skill)
    ∷ (codes "application/ai-skill-archive", skill)
    ∷ (codes "application/mcp-server-card", mcp_server)
    ∷ (codes "application/mcp-server", mcp_server)
    ∷ (codes "application/a2a-agent-card", a2a_agent)
    ∷ (codes "application/a2a-agent", a2a_agent)
    ∷ (codes "application/ai-catalog", catalog)
    ∷ (codes "application/ai-registry", registry)
    ∷ (codes "application/json", generic)
    ∷ (codes "application/vnd.oai.openapi", generic)
    ∷ (codes "application/linkset", generic)
    ∷ (codes "text/markdown", generic)
    ∷ (codes "text/plain", generic)
    ∷ (codes "text/html", generic)
    ∷ []

unfoldable pub kind_in : List (Text × Kind) → Text → Kind
unfolding text_eq
kind_in [] s = unknown
kind_in ((name, kind) ∷ rest) s = if text_eq name s then kind else kind_in rest s

abbrev pub profile : MediaType → Text
profile m = elim (m.params (codes "profile")) [ none ↦ [] | some text ↦ text ]

abbrev pub is_pointer_kind : Kind → Bool
is_pointer_kind catalog = true
is_pointer_kind registry = true
is_pointer_kind _ = false

unfoldable pub kind_of : MediaType → Kind
unfolding kind_in text_eq
kind_of m =
    let base = kind_in kinds (full_type m) in
    if not (is_pointer_kind base) && text_eq (profile m) (codes "urn:air:agent-skills")
    then skill
    else base

abbrev pub is_pointer : MediaType → Bool
is_pointer m = is_pointer_kind (kind_of m)

abbrev pub is_known_kind : Kind → Bool
is_known_kind unknown = false
is_known_kind _ = true

abbrev pub is_known : MediaType → Bool
is_known m = is_known_kind (kind_of m)

pub data Format : Type 0 where
  unclear json markdown zip gzip html plain : Format

unfoldable pub format_string : Format → Text
format_string json = codes "json"
format_string markdown = codes "markdown"
format_string zip = codes "zip"
format_string gzip = codes "gzip"
format_string html = codes "html"
format_string plain = codes "text"
format_string unclear = codes "unknown"

abbrev pub text_format : Text → Format
text_format base =
    if text_eq base (codes "markdown")
    then markdown
    else if text_eq base (codes "html")
    then html
    else if text_eq base (codes "plain")
    then plain
    else unclear

unfoldable pub format_of : MediaType → Format
unfolding text_eq
format_of m =
    if text_eq m.suffix (codes "json")
    then json
    else if text_eq m.suffix (codes "md")
    then markdown
    else if text_eq m.suffix (codes "zip")
    then zip
    else if text_eq m.suffix (codes "gzip")
    then gzip
    else if text_eq m.top_type (codes "text")
    then text_format m.base
    else unclear
