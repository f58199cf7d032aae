-- ===== src/Layer/Config/Rejected.antt =====
-- When `GuardLayer::from_security_config` of `src/lib.rs` refuses a configuration, and with what.
use tower_guard_rs.Base.{
  Bool, true, false, not, Option, none, some, List, [], ◌∷◌, is_empty, unwrap_or, if◌then◌else◌,
  pure, ◌>>=◌, Bool-cases, inl, inr, refl,
}
use tower_guard_rs.Engine.{Engine}
use tower_guard_rs.Layer.{GuardLayer}
use tower_guard_rs.Layer.Build.{ScanFn}
use tower_guard_rs.Layer.Builders.{
  with_ip_gate, with_rate_limiting, with_https_enforcement, with_emergency_mode, with_user_agent,
  with_ip_banning, with_response_processor,
}
use tower_guard_rs.Layer.Config.{
  Result, ok, err, GuardConfigError, ip_gate, rate_limit, user_agent, from_ip_gate, from_rate_limit,
  from_user_agent, Constructors, SecurityConfig,
}
use tower_guard_rs.Layer.Config.Wire.{
  attempt, base, restricts_ips, wire_ip_gate, wire_rate_limiting, wire_ip_banning, wire_https,
  wants_emergency, wire_emergency, install_user_agent, wire_user_agent,
}
use tower_guard_rs.Layer.Config.Whole.{
  wants_processor, install_processor, wire_processor, wire_reporting, from_security_config,
}
use tower_guard_rs.Layer.Config.Described.{
  make_processor, https_settings, emergency_settings, user_agent_settings,
}
use tower_guard_rs.Layer.Config.Settling.{
  first, Settles, Settles-bind, refusal, refusal-Settles, refusal_world, stateful-Settles,
}

module _ (en : Engine) (lib : Constructors en) (config : SecurityConfig en) where
  -- Two constructors, the second on what the first made.
  abbrev pub agent_refusal :
      Bool
      → Result lib.errors.UserAgentConfigError en.UserAgentFilter
      → Option (GuardConfigError lib.errors)
  agent_refusal true (err e) = some (user_agent e)
  agent_refusal true (ok filter) =
      refusal en lib true lib.user_agent_from.from
        (lib.build_user_agent (user_agent_settings en lib config filter))
  agent_refusal false made = none

  -- The fallible constructors, in the order in which they are called.
  abbrev gate_refusal : Option (GuardConfigError lib.errors)
  gate_refusal =
      refusal en lib (restricts_ips en lib config) ip_gate
        (lib.new_ip_gate (unwrap_or [] config.whitelist) config.blacklist config.exempt_ips)

  abbrev limiter_refusal : en.World → Option (GuardConfigError lib.errors)
  limiter_refusal w =
      refusal en lib config.enable_rate_limiting rate_limit
        (lib.new_rate_limiter
          (lib.rate_limit_config true config.rate_limit config.rate_limit_window) w).0

  abbrev https_refusal : Option (GuardConfigError lib.errors)
  https_refusal =
      refusal en lib true lib.https_from.from (lib.build_https (https_settings en lib config))

  abbrev emergency_refusal : Option (GuardConfigError lib.errors)
  emergency_refusal =
      refusal en lib (wants_emergency en lib config) lib.emergency_from.from
        (lib.build_emergency (emergency_settings en lib config))

  abbrev user_agent_refusal : Option (GuardConfigError lib.errors)
  user_agent_refusal =
      agent_refusal (not (is_empty config.blocked_user_agents))
        (lib.new_user_agent_filter config.blocked_user_agents)

  abbrev late_refusals : List (Option (GuardConfigError lib.errors))
  late_refusals = https_refusal ∷ emergency_refusal ∷ user_agent_refusal ∷ []

  unfoldable pub refusals : en.World → List (Option (GuardConfigError lib.errors))
  refusals w = gate_refusal ∷ limiter_refusal w ∷ late_refusals

  banning-Settles :
      (layer : GuardLayer en) (w : en.World)
      → Settles none (wire_ip_banning en lib config layer w).0
  unfolding wire_ip_banning ◌>>=◌
  banning-Settles layer w = elim (Bool-cases config.enable_ip_banning) [
    | inl on ↦ (with_ip_banning en layer (lib.new_ban_manager w).0 config.ip_ban_config, rw on refl)
    | inr off ↦ (layer, rw off refl)
  ]

  agents-Settles :
      (b : Bool) (made : Result lib.errors.UserAgentConfigError en.UserAgentFilter)
      (layer : GuardLayer en) (w : en.World)
      → Settles
          (agent_refusal b made)
          ((if b
              then (do
                filter ← attempt en lib (from_user_agent lib.errors) made
                stage ←
                    attempt en lib lib.user_agent_from
                      (lib.build_user_agent (user_agent_settings en lib config filter))
                pure (with_user_agent en layer stage))
              else pure layer)
            w).0
  unfolding ◌>>=◌
  agents-Settles true (ok filter) layer w =
      refusal-Settles en lib true lib.user_agent_from
        (lib.build_user_agent (user_agent_settings en lib config filter)) (with_user_agent en layer)
        layer w
  agents-Settles true (err e) layer w = refl
  agents-Settles false made layer w = (layer, refl)

  processor-Settles :
      (layer : GuardLayer en) (w : en.World) → Settles none (wire_processor en lib config layer w).0
  unfolding wire_processor install_processor ◌>>=◌
  processor-Settles layer w = elim (Bool-cases (wants_processor en lib config)) [
    | inl on ↦ (with_response_processor en layer (make_processor en lib config w).0, rw on refl)
    | inr off ↦ (layer, rw off refl)
  ]

  -- A configuration is refused with the error of the first constructor that refuses, in the order in
  -- which they are called and among those that the configuration asks for, and it is accepted where
  -- none refuses; nothing panics.
  pub from_security_config-refusals :
      (scan_request : ScanFn en) (w : en.World)
      → Settles (first (refusals w)) (from_security_config en lib config scan_request w).0
  unfolding from_security_config refusals wire_ip_gate wire_rate_limiting wire_https wire_emergency
      wire_user_agent install_user_agent
  from_security_config-refusals scan_request w =
      let layer = base en lib config scan_request in
      let gate =
        lib.new_ip_gate (unwrap_or [] config.whitelist) config.blacklist config.exempt_ips in
      let gated =
        refusal-Settles en lib (restricts_ips en lib config) (from_ip_gate lib.errors) gate
          (with_ip_gate en layer) layer w in
      Settles-bind gate_refusal (limiter_refusal w ∷ late_refusals)
        (wire_ip_gate en lib config layer) _ w gated
        (λ l1.
          Settles-bind (limiter_refusal w) late_refusals (wire_rate_limiting en lib config l1) _ _
            (stateful-Settles en lib config.enable_rate_limiting (from_rate_limit lib.errors)
              (lib.new_rate_limiter
                (lib.rate_limit_config true config.rate_limit config.rate_limit_window))
              (with_rate_limiting en l1) l1 w _
              (refusal_world en lib (restricts_ips en lib config) (from_ip_gate lib.errors) gate
                (with_ip_gate en layer) layer w))
            (λ l2.
              Settles-bind none late_refusals (wire_ip_banning en lib config l2) _ _
                (banning-Settles l2 _)
                (λ l3.
                  Settles-bind https_refusal (emergency_refusal ∷ user_agent_refusal ∷ [])
                    (wire_https en lib config l3) _ _
                    (refusal-Settles en lib true lib.https_from
                      (lib.build_https (https_settings en lib config))
                      (with_https_enforcement en l3) l3 _)
                    (λ l4.
                      Settles-bind emergency_refusal (user_agent_refusal ∷ [])
                        (wire_emergency en lib config l4) _ _
                        (refusal-Settles en lib (wants_emergency en lib config) lib.emergency_from
                          (lib.build_emergency (emergency_settings en lib config))
                          (with_emergency_mode en l4) l4 _)
                        (λ l5.
                          Settles-bind user_agent_refusal []
                            (wire_user_agent en lib config (wire_reporting en lib config l5)) _ _
                            (agents-Settles (not (is_empty config.blocked_user_agents))
                              (lib.new_user_agent_filter config.blocked_user_agents)
                              (wire_reporting en lib config l5) _)
                            (λ l6. processor-Settles l6 _))))))
