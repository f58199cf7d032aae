-- ===== src/Service/Call/Lenient.antt =====
-- A request that nothing in `GuardService::call` of `src/service.rs` answers: a route without rules of its
-- own, and stages, as far as they are asked, that have no answer for the request.
pub mod Gated
pub mod Attributed
pub mod Admitted
pub mod Inspected
pub mod Enforced
pub mod Forwarded
pub mod Answers
pub mod Screened
pub mod Answered
pub mod Denied
pub mod Redirected
use tower_guard_rs.Base.{
  ℕ, ◌≤◌, Text, codes, Bool, true, false, ◌||◌, Option, none, some, List, length, is_empty, is_some,
  map_option, map_or, subst, sym, ◌∙◌, and_then, from_utf8, eq_ignore_ascii_case, ◌≡◌, ◌≢◌, ◌⊎◌,
}
use tower_guard_rs.Engine.{Engine, IpGateDecision, RequestScanVerdict, allowed}
use tower_guard_rs.Engine.Stages.{
  IpGateConfig, ThreatFinding, RequestObservation, EmergencyModeStage, HttpsEnforcementStage,
  HeadersAuthStage, ReferrerStage, TimeWindowStage, CustomChecksStage, GeoStage, CloudProviderStage,
  UserAgentStage, RateLimitStage,
}
use tower_guard_rs.Route.{RouteConfig, bypassed}
use tower_guard_rs.Layer.{GuardLayer}
use tower_guard_rs.Request.{Parts, RequestFacts, header_pairs, client_text, https_url}
use tower_guard_rs.Request.Host.{host_of_authority}
use tower_guard_rs.Service.Buffer.{Frame, non_empty}
use tower_guard_rs.Service.Buffer.Laws.{readable, has_error}
use tower_guard_rs.Service.Scan.{threat, failed, scan_request}
use tower_guard_rs.Service.Checks.{body_cap, stage_redirect, route_redirect}
use tower_guard_rs.Service.RouteGates.{route_rules}
use tower_guard_rs.Service.EnginePass.{scan_enabled}

module _ (en : Engine) where
  -- A route without rules of its own. It may name checks to bypass, set the body cap, and turn the scan
  -- off.
  pub record HasNoRules (layer : GuardLayer en) (facts : RequestFacts en) (parts : Parts en)
      (route : RouteConfig en) : Type 0 where
    pub behavior : is_empty route.behavior_rules ≡ true
    pub lists : (is_some route.ip_whitelist || is_some route.ip_blacklist) ≡ false
    pub countries : (is_some route.blocked_countries || is_some route.whitelist_countries) ≡ false
    pub headers : en.has_rules (route_rules en layer facts parts route) ≡ false
    pub referrer : route.require_referrer ≡ none
    pub validators : is_empty route.custom_validators ≡ true
    pub window : route.time_restrictions ≡ none
    pub clouds : is_empty route.block_cloud_providers ≡ true
    pub agents : is_empty route.blocked_user_agents ≡ true
    pub tiers : route.rate_limits ≢ none

  module _ (layer : GuardLayer en) (facts : RequestFacts en) (parts : Parts en)
      (route : Option (RouteConfig en)) where
    abbrev pub IsUnruled : Type 0
    IsUnruled = (r : RouteConfig en) → route ≡ some r → HasNoRules layer facts parts r

    pub HasNoRules-IsUnruled :
        (r : RouteConfig en) → route ≡ some r → HasNoRules layer facts parts r → IsUnruled
    HasNoRules-IsUnruled r e h other f =
        subst (λ (x : Option (RouteConfig en)). map_or (Unit {0}) (HasNoRules layer facts parts) x)
          (sym e ∙ f) h

    -- In front of the HTTPS check: the gate allows the client, or is bypassed, or is only observed, and
    -- emergency mode lets it pass.
    pub record Enters : Type 0 where
      pub no_preflight : eq_ignore_ascii_case facts.method (codes "OPTIONS") ≡ false
      pub gate :
          (bypassed en route (codes "ip") ≡ true)
          ⊎ ((layer.passive_mode ≡ true)
              ⊎ ((gate : IpGateConfig en) (ip : en.Ip)
                  → layer.ip_gate ≡ some gate
                  → parts.client_ip ≡ some ip
                  → (d : IpGateDecision) × (gate.evaluate ip ≡ allowed d)))
      pub emergency :
          (stage : EmergencyModeStage en) (w : en.World)
          → layer.emergency_mode ≡ some stage
          → (stage.decide (client_text en facts) facts.ip_string facts.path facts.method w).0 ≡ none

    -- In front of the body: and neither the HTTPS stage nor, without one, the route redirects.
    pub record Admits : Type 0 where
      pub enters : Enters
      pub https :
          (stage : HttpsEnforcementStage en) (w : en.World)
          → layer.https_enforcement ≡ some stage
          → (stage_redirect en layer facts parts route stage w).0 ≡ none
      pub own_https :
          layer.https_enforcement ≡ none → route_redirect en layer facts parts route ≡ none

    -- The scan, where it is on, does not panic, and finds a threat only where the rate-limit stage is
    -- passive.
    pub record Tolerates (frames : List Frame) (limits : RateLimitStage en) : Type 0 where
      pub no_panic :
          scan_enabled en layer facts parts route ≡ true
          → scan_request en parts (non_empty (readable frames)) layer ≢ failed
      pub observed :
          (verdict : RequestScanVerdict)
          → scan_enabled en layer facts parts route ≡ true
          → scan_request en parts (non_empty (readable frames)) layer ≡ threat verdict
          → limits.passive_mode ≡ true

    -- The body is within the cap and whole, and no stage that sees it answers.
    pub record Inspects (frames : List Frame) : Type 0 where
      pub within : length (readable frames) ≤ body_cap en layer facts parts route
      pub sound : has_error frames ≡ false
      pub headers :
          (stage : HeadersAuthStage en) (w : en.World)
          → layer.headers_auth ≡ some stage
          → (stage.decide facts.path (header_pairs en parts.headers) w).0 ≡ none
      pub referrer :
          (stage : ReferrerStage en) (w : en.World)
          → layer.referrer_gate ≡ some stage
          → (stage.decide facts.path facts.referer facts.ip_string facts.path facts.method w).0
            ≡ none
      pub validators :
          (stage : CustomChecksStage en) (w : en.World)
          → layer.custom_checks ≡ some stage
          → (stage.decide_custom_validators facts.path facts.method
              (client_text en facts)
              (and_then (non_empty (readable frames)) from_utf8)
              w).0
            ≡ none
      pub window :
          (stage : TimeWindowStage en) (w : en.World)
          → layer.time_window_gate ≡ some stage
          → (stage.decide facts.path facts.ip_string facts.path facts.method w).0 ≡ none

    -- The stages that are not bypassed have no answer, whatever the scan has found.
    pub record Enforces (limits : RateLimitStage en) : Type 0 where
      pub bans :
          (o : Option RequestObservation) (w : en.World)
          → bypassed en route (codes "ip_ban") ≡ false
          → (limits.decide_bans_observed facts.ip o w).0 ≡ none
      pub geo :
          (stage : GeoStage en) (w : en.World)
          → bypassed en route (codes "ip") ≡ false
          → layer.geo_blocking ≡ some stage
          → (stage.decide facts.ip facts.gate w).0 ≡ none
      pub cloud :
          (stage : CloudProviderStage en) (w : en.World)
          → bypassed en route (codes "clouds") ≡ false
          → layer.cloud_provider ≡ some stage
          → (stage.decide facts.ip facts.gate w).0 ≡ none
      pub agents :
          (stage : UserAgentStage en) (finding : Option ThreatFinding) (w : en.World)
          → layer.user_agent ≡ some stage
          → (stage.decide facts.ip facts.gate (some facts.path) facts.user_agent finding w).0 ≡ none
      pub tiers :
          (t : Option en.RouteRateLimits) (g : Option IpGateDecision)
          (finding : Option ThreatFinding) (o : Option RequestObservation) (w : en.World)
          → bypassed en route (codes "rate_limit") ≡ false
          → (limits.decide_tiers_observed facts.ip (some facts.path) t g finding o w).0 ≡ none

    -- The last check, behind the detection block.
    abbrev pub CustomPasses : List Frame → Type 0
    CustomPasses frames =
        (stage : CustomChecksStage en) (w : en.World)
        → layer.custom_checks ≡ some stage
        → (stage.decide_custom_request facts.method facts.path (client_text en facts)
            (and_then (non_empty (readable frames)) from_utf8) w).0
          ≡ none
