-- ===== src/Stages/Order.antt =====
-- The order of the layers that `provided_layers` of `src/stages.rs` gives.
use tower_guard_rs.Base.{
  ℕ, Bool, true, Option, none, some, List, [], ◌∷◌, ◌++◌, map_option, is_some, if◌then◌else◌,
  Option-cases, inl, inr, append_assoc, ◌≡◌, refl, ap, ◌∙◌,
}
use mathlib.Core.List.{map}
use tower_guard_rs.Engine.{Engine}
use tower_guard_rs.Engine.Stages.{RateLimitStage}
use tower_guard_rs.Layer.{GuardLayer}
use tower_guard_rs.Layer.Build.{StageBuilder, rate_limit_stage}
use tower_guard_rs.Stages.{
  GuardStageLayer, emergency_layer, https_layer, headers_auth_layer, referrer_layer,
  custom_validators_layer, time_window_layer, bans_layer, geo_layer, cloud_layer, user_agent_layer,
  rate_limit_layer, custom_request_layer, slot, middle, limited, provided_layers,
}

-- The positions that are marked.
abbrev pub installed : List (ℕ × Bool) → List ℕ
installed [] = []
installed ((n, on) ∷ checks) = if on then n ∷ installed checks else installed checks

module _ (en : Engine) where
  -- Ten times the number of the check in the reference pipeline; the country check is 12b.
  abbrev pub position : GuardStageLayer en → ℕ
  position (emergency_layer _) = 20
  position (https_layer _) = 30
  position (headers_auth_layer _) = 60
  position (referrer_layer _) = 80
  position (custom_validators_layer _) = 90
  position (time_window_layer _) = 100
  position (bans_layer _) = 120
  position (geo_layer _) = 125
  position (cloud_layer _) = 130
  position (user_agent_layer _) = 140
  position (rate_limit_layer _) = 150
  position (custom_request_layer _) = 170

  module _ (layer : GuardLayer en) (builder : StageBuilder en) where
    -- The pipeline: each position with whether its stage is installed.
    abbrev pub pipeline : List (ℕ × Bool)
    pipeline =
        let limits = is_some (rate_limit_stage en layer builder) in
        (20, is_some layer.emergency_mode)
        ∷ (30, is_some layer.https_enforcement)
        ∷ (60, is_some layer.headers_auth)
        ∷ (80, is_some layer.referrer_gate)
        ∷ (90, is_some layer.custom_checks)
        ∷ (100, is_some layer.time_window_gate)
        ∷ (120, limits)
        ∷ (125, is_some layer.geo_blocking)
        ∷ (130, is_some layer.cloud_provider)
        ∷ (140, is_some layer.user_agent)
        ∷ (150, limits)
        ∷ (170, is_some layer.custom_checks)
        ∷ []

    slot-installed :
        {A : Type 0} (o : Option A) (wrap : A → GuardStageLayer en) (n : ℕ)
        (layers : List (GuardStageLayer en)) {ns : List ℕ}
        → ((a : A) → position (wrap a) ≡ n)
        → map position layers ≡ ns
        → map position (slot en (map_option wrap o) ++ layers) ≡ (if is_some o then n ∷ ns else ns)
    slot-installed none wrap n layers at rest = rest
    slot-installed (some a) wrap n layers at rest = cc (at a, rest)

    last-installed :
        map position (slot en (map_option custom_request_layer layer.custom_checks))
        ≡ installed ((170, is_some layer.custom_checks) ∷ [])
    last-installed = elim (Option-cases (layer.custom_checks)) [
      | inl off ↦ rw off refl
      | inr (c, on) ↦ rw on refl
    ]

    middle-installed :
        (layers : List (GuardStageLayer en)) (ns : List (ℕ × Bool))
        → map position layers ≡ installed ns
        → map position (middle en layer builder ++ layers)
          ≡ installed (
              (125, is_some layer.geo_blocking)
              ∷ (130, is_some layer.cloud_provider)
              ∷ (140, is_some layer.user_agent)
              ∷ ns)
    middle-installed layers ns rest =
        ap (map position)
          (append_assoc (slot en (map_option geo_layer layer.geo_blocking)) _ layers)
        ∙ slot-installed layer.geo_blocking geo_layer 125 _ (λ _. refl)
            (ap (map position)
                (append_assoc (slot en (map_option cloud_layer layer.cloud_provider)) _ layers)
              ∙ slot-installed layer.cloud_provider cloud_layer 130 _ (λ _. refl)
                  (slot-installed layer.user_agent user_agent_layer 140 _ (λ _. refl) rest))

    limited-installed :
        (r : Option (RateLimitStage en))
        → map position (
            limited en layer builder r
            ++ slot en (map_option custom_request_layer layer.custom_checks))
          ≡ installed (
              (120, is_some r)
              ∷ (125, is_some layer.geo_blocking)
              ∷ (130, is_some layer.cloud_provider)
              ∷ (140, is_some layer.user_agent)
              ∷ (150, is_some r)
              ∷ (170, is_some layer.custom_checks)
              ∷ [])
    limited-installed none =
        middle-installed _ ((170, is_some layer.custom_checks) ∷ []) last-installed
    limited-installed (some limits) =
        ap (λ ns. 120 ∷ ns)
          (ap (map position)
              (append_assoc (middle en layer builder) (rate_limit_layer limits ∷ []) _)
            ∙ middle-installed _ ((150, true) ∷ (170, is_some layer.custom_checks) ∷ [])
                (ap (λ ns. 150 ∷ ns) last-installed))

    -- The positions of the layers that are provided are those of the pipeline, in its order, with the
    -- bans (120) in front of the countries (125), whose stage is installed.
    pub provided_layers-position :
        map position (provided_layers en layer builder) ≡ installed pipeline
    unfolding provided_layers
    provided_layers-position =
        slot-installed layer.emergency_mode emergency_layer 20 _ (λ _. refl)
          (slot-installed layer.https_enforcement https_layer 30 _ (λ _. refl)
            (slot-installed layer.headers_auth headers_auth_layer 60 _ (λ _. refl)
              (slot-installed layer.referrer_gate referrer_layer 80 _ (λ _. refl)
                (slot-installed layer.custom_checks custom_validators_layer 90 _ (λ _. refl)
                  (slot-installed layer.time_window_gate time_window_layer 100 _ (λ _. refl)
                    (limited-installed (rate_limit_stage en layer builder)))))))
