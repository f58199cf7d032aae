-- ===== src/Examples/AdvancedApp/Environment.antt =====
-- The configuration of `examples/advanced_app/src/main.rs` from environment variables.
use tower_guard_rs.Base.{
  ℕ, ◌+◌, ◌-◌, ◌*◌, Text, codes, Bool, ◌||◌, Option, none, some, [], ◌∷◌, leb, ◌==◌, if◌then◌else◌,
  map_or, and_then, unwrap_or, text_eq, to_lower, is_ascii_digit,
}
use mathlib.Core.List.{map}
use tower_guard_rs.Engine.{Engine}
use tower_guard_rs.Layer.{DetectConfig}
use tower_guard_rs.Layer.Build.{StageBuilder, ScanFn, new, layered}
use tower_guard_rs.Layer.Builders.{default_config, with_body_cap}
use tower_guard_rs.Examples.AdvancedApp.{App}

-- The digits of a number behind those that gave it so far; `none` is another character.
unfoldable pub parse_digits : ℕ → Text → Option ℕ
parse_digits n [] = some n
parse_digits n (c ∷ s) =
    let rest = parse_digits (n * 10 + (c - b'0')) s in if is_ascii_digit c then rest else none

unfoldable pub parse_unsigned : ℕ → Text → Option ℕ
unfolding parse_digits
parse_unsigned largest [] = none
parse_unsigned largest (c ∷ s) =
    and_then (parse_digits 0 (c ∷ s)) (λ n. if leb n largest then some n else none)

-- `usize::from_str`: a plus sign may stand in front, there is a digit, and the number fits.
unfoldable pub parse_usize : ℕ → Text → Option ℕ
unfolding parse_unsigned
parse_usize largest [] = none
parse_usize largest (c ∷ s) =
    if c == b'+' then parse_unsigned largest s else parse_unsigned largest (c ∷ s)

module _ (en : Engine) where
  -- `std::env::var(..).ok()`, and what `f64` does: `from_str`, multiplication and `min`.
  pub record Environment : Type 0 where
    pub var : Text → Option Text
    pub parse_f64 : Text → Option en.F64
    pub times : en.F64 → en.F64 → en.F64
    pub min : en.F64 → en.F64 → en.F64

  module _ (env : Environment) where
    unfoldable pub env_usize : Text → ℕ → ℕ
    unfolding parse_usize
    env_usize name default = unwrap_or default (and_then (env.var name) (parse_usize en.usize_max))

    unfoldable pub env_f64 : Text → en.F64 → en.F64
    env_f64 name default = unwrap_or default (and_then (env.var name) env.parse_f64)

    unfoldable pub env_bool : Text → Bool → Bool
    unfolding text_eq
    env_bool name default =
        map_or default
          (λ value.
            let lower = map to_lower value in
            text_eq lower (codes "1")
            || text_eq lower (codes "true")
            || text_eq lower (codes "yes"))
          (env.var name)

    unfoldable pub env_config : DetectConfig en
    unfolding default_config env_usize env_f64 env_bool
    env_config =
        let defaults = default_config en in
        record {
          max_content_length =
              env_usize (codes "GUARD_MAX_CONTENT_LENGTH") defaults.max_content_length;
          max_full_scan_bytes =
              env_usize (codes "GUARD_MAX_FULL_SCAN_BYTES") defaults.max_full_scan_bytes;
          preserve_attack_patterns =
              env_bool (codes "GUARD_PRESERVE_ATTACK_PATTERNS") defaults.preserve_attack_patterns;
          semantic_threshold =
              env_f64 (codes "GUARD_SEMANTIC_THRESHOLD") defaults.semantic_threshold;
          threat_score_threshold =
              env_f64 (codes "GUARD_THREAT_SCORE_THRESHOLD") defaults.threat_score_threshold;
          binary_min_run_length =
              env_usize (codes "GUARD_BINARY_MIN_RUN_LENGTH") defaults.binary_min_run_length;
          max_scan_values = env_usize (codes "GUARD_MAX_SCAN_VALUES") defaults.max_scan_values;
          max_scan_chars = env_usize (codes "GUARD_MAX_SCAN_CHARS") defaults.max_scan_chars;
          max_json_depth = env_usize (codes "GUARD_MAX_JSON_DEPTH") defaults.max_json_depth;
        }

    -- The stricter configuration of the admin tree.
    unfoldable pub admin_config : DetectConfig en
    unfolding env_config
    admin_config = record env_config {
      threat_score_threshold = env_f64 (codes "GUARD_ADMIN_THREAT_SCORE_THRESHOLD") (
          env.min (env.times env_config.threat_score_threshold (en.float (codes "0.5")))
            (en.float (codes "1.0")));
    }

    unfoldable pub app_body_cap : ℕ
    unfolding env_config
    app_body_cap = env_usize (codes "GUARD_BODY_CAP") env_config.max_full_scan_bytes

    unfoldable pub build_app : ScanFn en → StageBuilder en → App en
    unfolding admin_config app_body_cap new layered
    build_app scan_request builder = record {
      general = layered en (with_body_cap en (new en scan_request env_config) app_body_cap) builder;
      admin = layered en (with_body_cap en (new en scan_request admin_config) app_body_cap) builder;
    }
