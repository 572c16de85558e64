-- ===== src/Config/Loading.antt =====
-- internal/config/config.go: `Load`. The file system, the functions on its paths, the decoder of JSON
-- and the validator of JSON Schemas are the argument `Outside`.
use ardvark.Prelude.{
  leb, ltb, Bool, ◌&&◌, not, List, [], ◌∷◌, ◌++◌, map, Text, codes, text_eq, is_empty, has_prefix,
  join, if◌then◌else◌,
}
use ardvark.Frontier.Db.{Result, ok, err}
use ardvark.Store.Models.{host_shard_count}
use ardvark.Crawler.Digits.{decimal}
use ardvark.Config.{Config, defaults}

-- `jsonschema.ValidationError`: the location, the text of its kind and of the whole, the causes.
mutual
  pub data ValidationError : Type 0 where
    failed_at : List Text → Text → Text → Causes → ValidationError

  pub data Causes : Type 0 where
    no_causes : Causes
    causes : ValidationError → Causes → Causes

pub record Leaf : Type 0 where
  pub location : List Text
  pub text : Text

-- `collectLeaves`.
unfoldable mutual
  pub collect_error_leaves : ValidationError → List Leaf
  collect_error_leaves (failed_at loc text whole no_causes) =
      record { location = loc; text = text } ∷ []
  collect_error_leaves (failed_at loc text whole (causes c cs)) =
      collect_error_leaves c ++ collect_each cs

  pub collect_each : Causes → List Leaf
  collect_each no_causes = []
  collect_each (causes c cs) = collect_error_leaves c ++ collect_each cs

-- What `UnmarshalJSON` and `Validate` make of a file.
pub data Validation : Type 0 where
  unreadable : Text → Validation
  passes : Validation
  invalid : ValidationError → Validation
  fails_otherwise : Text → Validation

pub data FileRead : Type 0 where
  absent : FileRead
  unreadable_file : Text → FileRead
  contents : Text → FileRead

-- `schema` is an error, with its text, where the embedded schema does not compile; `renormalize` is
-- `json.Unmarshal` into an `any` and `json.Marshal`; `decode_over` is `json.Unmarshal` into a value.
pub record Outside : Type 0 where
  pub read_file : Text → FileRead
  pub schema : Result Text (Text → Validation)
  pub renormalize : Text → Result Text Text
  pub decode_over : Config → Text → Result Text Config
  pub join_path : Text → Text → Text
  pub dir : Text → Text
  pub is_abs : Text → Bool

abbrev pub instance_location_path : List Text → Text
instance_location_path loc = join 46 loc

-- `formatLeaf`.
abbrev pub format_leaf : Leaf → Text
format_leaf l =
    let loc = instance_location_path l.location in
    (if is_empty loc then codes "config" else codes "config." ++ loc) ++ codes ": " ++ l.text

-- `strings.Join(msgs, "; ")`.
unfoldable pub join_messages : List Text → Text
join_messages [] = []
join_messages (m ∷ []) = m
join_messages (m ∷ n ∷ ms) = m ++ codes "; " ++ join_messages (n ∷ ms)

abbrev pub friendly_of : Text → List Leaf → Text
friendly_of whole [] = codes "config: " ++ whole
friendly_of whole (l ∷ ls) = codes "config: " ++ join_messages (map format_leaf (l ∷ ls))

abbrev pub whole_text : ValidationError → Text
whole_text (failed_at loc text whole cs) = whole

-- `friendlyValidationError`.
unfoldable pub friendly_validation_error : ValidationError → Text
unfolding collect_error_leaves join_messages join
friendly_validation_error e = friendly_of (whole_text e) (collect_error_leaves e)

-- `validateSemantics`.
unfoldable pub validate_semantics : Config → Result Text (Unit {0})
unfolding decimal
validate_semantics cfg =
    let w = cfg.crawler.worker in
    if leb w.count w.index
    then err (
        codes "config: crawler.worker.index ("
        ++ decimal w.index
        ++ codes ") must be less than crawler.worker.count ("
        ++ decimal w.count
        ++ codes ")")
    else if ltb host_shard_count w.count
    then err (
        codes "config: crawler.worker.count ("
        ++ decimal w.count
        ++ codes ") must not exceed the host-shard space ("
        ++ decimal host_shard_count
        ++ codes ")")
    else ok tt

module _ (outside : Outside) where
  abbrev pub judged : Validation → Result Text (Unit {0})
  judged (unreadable why) = err (codes "config: invalid JSON: " ++ why)
  judged passes = ok tt
  judged (invalid e) = err (friendly_validation_error e)
  judged (fails_otherwise why) = err (codes "config: validation failed: " ++ why)

  abbrev pub validated : Text → Result Text (Text → Validation) → Result Text (Unit {0})
  validated raw (err why) = err why
  validated raw (ok check) = judged (check raw)

  -- `Validate`.
  unfoldable pub validate : Text → Result Text (Unit {0})
  unfolding friendly_validation_error
  validate raw = validated raw outside.schema

  abbrev pub decoding : Text → Text
  decoding why = codes "config: decoding config: " ++ why

  abbrev pub checked : Config → Result Text (Unit {0}) → Result Text Config
  checked cfg (err why) = err why
  checked cfg (ok u) = ok cfg

  abbrev pub decoded : Result Text Config → Result Text Config
  decoded (err why) = err (decoding why)
  decoded (ok cfg) = checked cfg (validate_semantics cfg)

  abbrev pub normalized : Result Text Text → Result Text Config
  normalized (err why) = err (decoding why)
  normalized (ok text) = decoded (outside.decode_over defaults text)

  abbrev pub past_schema : Text → Result Text (Unit {0}) → Result Text Config
  past_schema raw (err why) = err why
  past_schema raw (ok u) = normalized (outside.renormalize raw)

  -- `LoadBytes`.
  unfoldable pub load_bytes : Text → Result Text Config
  unfolding validate validate_semantics defaults
  load_bytes raw = past_schema raw (validate raw)

  -- `isPlainRelPath`.
  unfoldable pub is_plain_rel_path : Text → Bool
  unfolding text_eq has_prefix
  is_plain_rel_path p =
      not (is_empty p)
      && not (text_eq p (codes ":memory:"))
      && not (has_prefix p (codes "file:"))
      && not (outside.is_abs p)

  abbrev pub anchored : Text → Text → Text
  anchored base p = if is_plain_rel_path p then outside.join_path base p else p

  -- `anchorPaths`.
  unfoldable pub anchor_paths : Config → Text → Config
  unfolding is_plain_rel_path text_eq
  anchor_paths cfg base =
      let s = cfg.storage in
      let l = cfg.log in
      record cfg {
        storage =
            if text_eq s.driver (codes "sqlite") then record s { dsn = anchored base s.dsn } else s;
        log = record l { file = anchored base l.file };
      }

  abbrev pub loaded_from : Text → Result Text Config → Result Text Config
  loaded_from path (err why) = err why
  loaded_from path (ok cfg) = ok (anchor_paths cfg (outside.dir path))

  abbrev pub opened : Text → FileRead → Result Text Config
  opened path absent = ok defaults
  opened path (unreadable_file why) = err (codes "config: reading " ++ path ++ codes ": " ++ why)
  opened path (contents raw) = loaded_from path (load_bytes raw)

  -- `Load`.
  unfoldable pub load : Text → Result Text Config
  unfolding load_bytes anchor_paths defaults
  load path = opened path (outside.read_file path)
