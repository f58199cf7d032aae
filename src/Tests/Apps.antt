-- ===== src/Tests/Apps.antt =====
-- The theorems about the example servers, applied.
use tower_guard_rs.Base.{
  codes, none, some, [], ◌∷◌, stop, text_eq, starts_with, if◌then◌else◌, ◌≡◌, refl, arith,
}
use tower_guard_rs.Layer.{DetectConfig}
use tower_guard_rs.Layer.Build.{build_stage}
use tower_guard_rs.Request.{Parts}
use tower_guard_rs.Response.{passthrough, map_body}
use tower_guard_rs.Service.Buffer.{payload}
use tower_guard_rs.Service.Respond.{ok}
use tower_guard_rs.Service.Call.Fresh.{limits_of, IsOpen}
use tower_guard_rs.Examples.{plain_response_bytes}
use tower_guard_rs.Examples.AdvancedApp.{general_answer, advanced_call}
use tower_guard_rs.Examples.AdvancedApp.Environment.{
  Environment, env_usize, env_config, admin_config, build_app,
}
use tower_guard_rs.Examples.AdvancedApp.Site.{advanced-site}
use tower_guard_rs.Tests.Toy.{toy}
use tower_guard_rs.Tests.Fixtures.{no_threat, request, builder}

abbrev echo_request : Parts toy
echo_request = record request { path = codes "/echo" }

abbrev opened_for :
    (config : DetectConfig toy)
    → IsOpen toy none (limits_of toy (λ _ _ _. some no_threat) config builder)
unfolding build_stage
opened_for config = record { bans = λ _ _ _. refl; tiers = λ _ _ _ _ _ _. refl }

-- One variable is set.
abbrev small_cap : Environment toy
small_cap = record {
  var = λ name.
      if text_eq name (codes "GUARD_MAX_FULL_SCAN_BYTES") then some (codes "1024") else none;
  parse_f64 = λ _. some tt;
  times = λ _ _. tt;
  min = λ _ _. tt;
}

advanced-site_example :
    advanced_call toy
      (λ t. t)
      (build_app toy small_cap (λ _ _ _. some no_threat) builder)
      echo_request
      (payload (codes "hi") ∷ [])
      0
    ≡ (stop (ok (map_body toy passthrough (plain_response_bytes toy (λ t. t) 200 (codes "hi")))), 0)
unfolding general_answer text_eq starts_with env_config env_usize
advanced-site_example =
    advanced-site toy small_cap (λ _ _ _. some no_threat) builder (λ t. t) echo_request
      (payload (codes "hi") ∷ []) 0 refl refl (λ _ _ _. (no_threat, refl, refl))
      (opened_for (env_config toy small_cap)) (opened_for (admin_config toy small_cap))
      (omega arith) refl
