-- ===== src/Frontier/Shard.antt =====
-- internal/frontier/frontier.go: `hostShard` and `fetchHost`, which give a row its shard.
use ardvark.Prelude.{
  ℕ, ◌*◌, ◌%◌, ◌^◌, ◌≡◌, refl, [], ◌∷◌, Option, none, some, Text, codes, is_empty, bit_xor,
  if◌then◌else◌,
}
use ardvark.Store.Models.{FrontierItem, host_shard_count}

-- `hash/fnv`: FNV-1a over 32 bits, `hash ^= c; hash *= prime32` for each byte.
fnv32a_from : ℕ → Text → ℕ
fnv32a_from h [] = h
fnv32a_from h (c ∷ s) = fnv32a_from (bit_xor h c * 16777619 % 2 ^ 32) s

unfoldable pub fnv32a : Text → ℕ
unfolding fnv32a_from
fnv32a s = fnv32a_from 2166136261 s

unfoldable pub host_shard_of : Text → ℕ
unfolding fnv32a
host_shard_of host = fnv32a host % host_shard_count

-- `hostname` is `url.Parse` followed by `Hostname()`; `none` is a URL that does not parse.
abbrev pub hostname_or : Option Text → Text → Text
hostname_or none host = host
hostname_or (some name) host = if is_empty name then host else name

unfoldable pub fetch_host : (Text → Option Text) → FrontierItem → Text
fetch_host hostname item =
    if is_empty item.url then item.host else hostname_or (hostname item.url) item.host

fnv32a_foobar : fnv32a (codes "foobar") ≡ 0xbf9cf968
unfolding fnv32a
fnv32a_foobar = refl
