-- ===== src/Layer/Config/Wired.antt =====
-- What `GuardLayer::from_security_config` of `src/lib.rs` installs, against a description that
-- lists every field of the layer.
use tower_guard_rs.Base.{
  not, Option, none, some, [], true, unwrap_or, is_empty, next, through, pure-eq-next, ◌≡◌, refl,
  sym, ap, ◌∙◌,
}
use tower_guard_rs.Engine.{Engine}
use tower_guard_rs.Engine.Stages.{
  IpGateConfig, EmergencyModeStage, HttpsEnforcementStage, UserAgentStage, ResponseProcessor,
}
use tower_guard_rs.Layer.{GuardLayer}
use tower_guard_rs.Layer.Build.{ScanFn, new}
use tower_guard_rs.Layer.Builders.{
  with_ip_gate, with_rate_limiting, with_ip_banning, with_https_enforcement, with_emergency_mode,
}
use tower_guard_rs.Layer.Config.{
  from_ip_gate, from_rate_limit, from_user_agent, LogLevel, info, debug, warning, error, critical,
  Constructors, SecurityConfig,
}
use tower_guard_rs.Layer.Config.Wire.{
  base, restricts_ips, wire_ip_gate, wire_rate_limiting, wire_ip_banning, wire_https, map_log_level,
  detect_config, wants_emergency, wire_emergency, wire_user_agent,
}
use tower_guard_rs.Layer.Config.Described.{
  level_of, asks_gate, asks_emergency, asks_processor, make_processor, Made, IsMade, InstallsAgents,
  ban_state_of, described,
}
use tower_guard_rs.Layer.Config.Whole.{wire_processor, wire_reporting, from_security_config}
use tower_guard_rs.Layer.Config.Steps.{
  Installs, Attempts, Performs, attempt-eq-next, exclusions_of, logging_of, observability_of,
  attempt-next, install-eq-next, perform-eq-next, wire_error_responses_sets, wire_on_block_sets,
  wire_exclusions_sets, wire_request_logging_sets, wire_observability_sets,
}
use tower_guard_rs.Layer.Config.Last.{user_agent-eq-next, processor-eq-next}

module _ (en : Engine) (lib : Constructors en) (config : SecurityConfig en) where
  -- The layer with what the blocks up to the emergency stage have installed.
  abbrev partial :
      ScanFn en
      → Option (IpGateConfig en)
      → Option en.RateLimiter
      → Option en.IpBanManager
      → Option (HttpsEnforcementStage en)
      → Option (EmergencyModeStage en)
      → GuardLayer en
  unfolding base new
  partial scan_request gate limiter manager https emergency =
      record (base en lib config scan_request) {
        ip_gate = gate;
        rate_limiter = limiter;
        ban_state = ban_state_of en lib config manager;
        https_enforcement = https;
        emergency_mode = emergency;
      }

  abbrev reporting : GuardLayer en → GuardLayer en
  reporting layer = record layer {
    custom_error_responses = config.custom_error_responses;
    on_block = config.on_block;
    detection_exclusions = exclusions_of en lib config;
    request_logging = logging_of en lib config (map_log_level en lib);
    observability = observability_of en lib config (map_log_level en lib);
  }

  wire_reporting-partial :
      (scan_request : ScanFn en) (gate : Option (IpGateConfig en)) (limiter : Option en.RateLimiter)
      (manager : Option en.IpBanManager) (https : Option (HttpsEnforcementStage en))
      (emergency : Option (EmergencyModeStage en))
      → wire_reporting en lib config (partial scan_request gate limiter manager https emergency)
        ≡ reporting (partial scan_request gate limiter manager https emergency)
  unfolding wire_reporting base new
  wire_reporting-partial scan_request gate limiter manager https emergency =
      let l = partial scan_request gate limiter manager https emergency in
      let l1 = record l { custom_error_responses = config.custom_error_responses } in
      let l2 = record l1 { on_block = config.on_block } in
      let l3 = record l2 { detection_exclusions = exclusions_of en lib config } in
      let l4 = record l3 { request_logging = logging_of en lib config (map_log_level en lib) } in
      rw
        (
          wire_error_responses_sets en lib config l refl,
          wire_on_block_sets en lib config l1 refl,
          wire_exclusions_sets en lib config l2 refl,
          wire_request_logging_sets en lib config l3 refl,
          wire_observability_sets en lib config l4 refl,
        )
        refl

  -- The blocks in front of the HTTPS stage.
  described_first :
      (scan_request : ScanFn en) {l1 l2 l3 : GuardLayer en} (w w1 w2 : en.World)
      {u1 u2 u3 : en.World}
      → wire_ip_gate en lib config (base en lib config scan_request) w ≡ (next l1, u1)
      → wire_rate_limiting en lib config l1 w1 ≡ (next l2, u2)
      → wire_ip_banning en lib config l2 w2 ≡ (next l3, u3)
      → (gate : Option (IpGateConfig en)) × (limiter : Option en.RateLimiter) × (manager : Option
          en.IpBanManager)
        × Installs
            (asks_gate en lib config)
            (lib.new_ip_gate (unwrap_or [] config.whitelist) config.blacklist config.exempt_ips)
            gate
        × Attempts config.enable_rate_limiting
            (lib.new_rate_limiter
              (lib.rate_limit_config true config.rate_limit config.rate_limit_window))
            limiter
        × Performs config.enable_ip_banning lib.new_ban_manager manager
        × (l3 ≡ partial scan_request gate limiter manager none none)
  unfolding wire_ip_gate restricts_ips wire_rate_limiting wire_ip_banning base new
  described_first scan_request w w1 w2 h1 h2 h3 =
      let (gate, m1, e1) =
        install-eq-next en lib (with_ip_gate en) (λ o. partial scan_request o none none none none)
          (λ _. refl) refl (asks_gate en lib config) w (from_ip_gate lib.errors) _ h1 in
      let (limiter, m2, e2) =
        attempt-eq-next en lib (with_rate_limiting en)
          (λ o. partial scan_request gate o none none none) (λ _. refl) e1
          config.enable_rate_limiting w1 (from_rate_limit lib.errors) _ h2 in
      let (manager, m3, e3) =
        perform-eq-next en lib (λ l m. with_ip_banning en l m config.ip_ban_config)
          (λ o. partial scan_request gate limiter o none none) (λ _. refl) e2
          config.enable_ip_banning w2 _ h3 in
      (gate, limiter, manager, m1, m2, m3, e3)

  -- The blocks behind the emergency stage complete what the first ones made.
  described_last :
      (scan_request : ScanFn en) (made : Made en) {before layer after : GuardLayer en}
      (w u : en.World) {v x : en.World}
      → ((agents : Option (UserAgentStage en)) (processor : Option (ResponseProcessor en))
          → InstallsAgents en lib config (not (is_empty config.blocked_user_agents)) agents
          → Performs (asks_processor en lib config) (make_processor en lib config) processor
          → IsMade en lib config
              (record made { user_agent = agents; response_processor = processor }))
      → before
        ≡ partial scan_request made.ip_gate made.rate_limiter made.ban_manager
            (some made.https_enforcement)
            made.emergency_mode
      → wire_user_agent en lib config (wire_reporting en lib config before) w ≡ (next layer, v)
      → wire_processor en lib config layer u ≡ (next after, x)
      → (all : Made en) × IsMade en lib config all
        × (after ≡ described en lib config (map_log_level en lib) scan_request all)
  unfolding described base new detect_config
  described_last scan_request made w u complete before screened processed =
      let first =
        partial scan_request made.ip_gate made.rate_limiter made.ban_manager
          (some made.https_enforcement) made.emergency_mode in
      let rest = reporting first in
      let reported =
        ap (wire_reporting en lib config) before
        ∙ wire_reporting-partial scan_request made.ip_gate made.rate_limiter made.ban_manager
            (some made.https_enforcement) made.emergency_mode in
      let (agents, m, e) =
        user_agent-eq-next en lib config (λ o. record rest { user_agent = o }) w reported
          (λ _. refl) screened in
      let (processor, k, f) =
        processor-eq-next en lib config
          (λ o. record rest { user_agent = agents; response_processor = o }) u e (λ _. refl)
          processed in
      (
        record made { user_agent = agents; response_processor = processor },
        complete agents processor m k,
        f,
      )

  levels : map_log_level en lib ≡ level_of en lib config
  unfolding map_log_level level_of
  levels = λ i level. same level i
    where
      same : (level : LogLevel) → map_log_level en lib level ≡ level_of en lib config level
      same info = refl
      same debug = refl
      same warning = refl
      same error = refl
      same critical = refl

  -- A configuration that is accepted gives exactly the described layer: every field of it is the
  -- configuration's or a value that a constructor made of the configuration, each such value is there
  -- exactly where the configuration asks for it, and what a host provides is not installed.
  pub from_security_config-described :
      (scan_request : ScanFn en) (w : en.World) {layer : GuardLayer en} {v : en.World}
      → from_security_config en lib config scan_request w ≡ (next layer, v)
      → (made : Made en) × IsMade en lib config made
        × (layer ≡ described en lib config (level_of en lib config) scan_request made)
  unfolding from_security_config wire_https wire_emergency wants_emergency base new
  from_security_config-described scan_request w {layer} {v} h =
      through (wire_ip_gate en lib config (base en lib config scan_request)) _ w h (λ l1 w1 h1 h.
        through (wire_rate_limiting en lib config l1) _ w1 h (λ l2 w2 h2 h.
          through (wire_ip_banning en lib config l2) _ w2 h (λ l3 w3 h3 h.
            through (wire_https en lib config l3) _ w3 h (λ l4 w4 h4 h.
              through (wire_emergency en lib config l4) _ w4 h (λ l5 w5 h5 h.
                through (wire_user_agent en lib config (wire_reporting en lib config l5)) _ w5 h
                  (λ l6 w6 h6 h7.
                    let (gate, limiter, manager, m1, m2, m3, e3) =
                      described_first scan_request w w1 w2 h1 h2 h3 in
                    let (https, m4, e4) = attempt-next en lib lib.https_from _ _ w3 h4 in
                    let secured = ap (λ l. with_https_enforcement en l https) e3 in
                    let (emergency, m5, e5) =
                      install-eq-next en lib (with_emergency_mode en)
                        (λ o. partial scan_request gate limiter manager (some https) o) (λ _. refl)
                        (sym (pure-eq-next _ w3 e4) ∙ secured) (asks_emergency en lib config) w4
                        lib.emergency_from _ h5 in
                    let (all, complete, described_so) =
                      described_last scan_request
                        (record {
                          ip_gate = gate;
                          rate_limiter = limiter;
                          ban_manager = manager;
                          https_enforcement = https;
                          emergency_mode = emergency;
                          user_agent = none;
                          response_processor = none;
                        })
                        w5 w6
                        (λ agents processor m6 m7. record {
                          ip_gate = m1;
                          rate_limiter = m2;
                          ban_manager = m3;
                          https_enforcement = m4;
                          emergency_mode = m5;
                          user_agent = m6;
                          response_processor = m7;
                        })
                        e5 h6 h7 in
                    (
                      all,
                      complete,
                      described_so ∙ ap (λ m. described en lib config m scan_request all) levels,
                    )))))))
