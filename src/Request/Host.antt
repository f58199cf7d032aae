-- ===== src/Request/Host.antt =====
-- `host_of_authority` of `src/service.rs` and of `src/stages.rs`: the bare host of an authority.
pub mod Authority
use tower_guard_rs.Base.{
  Text, codes, not, ◌&&◌, Option, none, some, List, [], ◌∷◌, split, split_once, all, is_empty,
  is_ascii_digit, if◌then◌else◌, ◌==◌, ◌≡◌, refl,
}

-- `rsplit(sep).next()`: the last part of a split.
abbrev last_part : List Text → Text
last_part [] = []
last_part (p ∷ []) = p
last_part (p ∷ q ∷ ps) = last_part (q ∷ ps)

abbrev first_part : List Text → Text
first_part [] = []
first_part (p ∷ ps) = p

abbrev strip_port : Text → Option (Text × Text) → Text
strip_port whole none = whole
strip_port whole (some (host, port)) =
    if not (is_empty port) && all is_ascii_digit port then host else whole

bare_host : Text → Text
unfolding split split_once
bare_host [] = strip_port [] (split_once b':' [])
bare_host (c ∷ rest) =
    if c == b'['
    then first_part (split b']' rest)
    else strip_port (c ∷ rest) (split_once b':' (c ∷ rest))

unfoldable pub host_of_authority : Text → Text
unfolding bare_host
host_of_authority value = bare_host (last_part (split b'@' value))

host_tests :
    (host_of_authority (codes "user@example.com:8080") ≡ codes "example.com")
    × (host_of_authority (codes "[::1]:443") ≡ codes "::1")
    × (host_of_authority (codes "example.com:x") ≡ codes "example.com:x")
    × (host_of_authority (codes "example.com") ≡ codes "example.com")
unfolding host_of_authority
host_tests = (refl, refl, refl, refl)
