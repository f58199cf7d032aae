-- ===== src/Tests/Layers.antt =====
-- The theorems about `src/lib.rs`, `src/stages.rs` and `src/status.rs`, applied.
use tower_guard_rs.Base.{codes, none, some, [], ◌∷◌, ◌≡◌, ◌++◌}
use mathlib.Core.List.{map}
use tower_guard_rs.Engine.Stages.{EmergencyModeStage, GeoStage}
use tower_guard_rs.Layer.{GuardLayer}
use tower_guard_rs.Layer.Build.{new, rate_limit_stage}
use tower_guard_rs.Layer.Builders.{
  default_config, with_emergency_mode, with_rate_limiting, with_geo_blocking,
}
use tower_guard_rs.Stages.{provided_layers}
use tower_guard_rs.Stages.Order.{position, provided_layers-position}
use tower_guard_rs.Status.{json_string}
use tower_guard_rs.Status.Json.{read_string, read_string-json_string}
use tower_guard_rs.Tests.Toy.{toy}
use tower_guard_rs.Tests.Fixtures.{no_threat, builder}

abbrev plain : GuardLayer toy
plain = new toy (λ _ _ _. some no_threat) (default_config toy)

abbrev alarm : EmergencyModeStage toy
alarm = record { decide = λ _ _ _ _ w. (some (record { status = 503; body = codes "down" }), w) }

abbrev atlas : GeoStage toy
atlas = record { decide = λ _ _ w. (none, w); country_check_log = λ _ _ _ w. w }

abbrev guarded_layer : GuardLayer toy
guarded_layer =
    with_rate_limiting toy (with_geo_blocking toy (with_emergency_mode toy plain alarm) atlas) tt

provided_layers-position_example :
    map (position toy) (provided_layers toy guarded_layer builder) ≡ 20 ∷ 120 ∷ 125 ∷ 150 ∷ []
unfolding new rate_limit_stage
provided_layers-position_example = provided_layers-position toy guarded_layer builder

read_string-json_string_example :
    read_string (json_string (codes "a\"b") ++ codes ":1") ≡ some (codes "a\"b", codes ":1")
read_string-json_string_example = read_string-json_string (codes "a\"b") (codes ":1")
