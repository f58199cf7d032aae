-- ===== src/Service/Call/Lenient/Gated.antt =====
-- The checks of `GuardService::call` of `src/service.rs` behind the gate see parts that hold its decision:
-- what is assumed of a request holds with it too.
use tower_guard_rs.Base.{Option, List}
use tower_guard_rs.Engine.{Engine, IpGateDecision}
use tower_guard_rs.Engine.Stages.{RateLimitStage}
use tower_guard_rs.Route.{RouteConfig}
use tower_guard_rs.Layer.{GuardLayer}
use tower_guard_rs.Request.{Parts, RequestFacts}
use tower_guard_rs.Service.Buffer.{Frame}
use tower_guard_rs.Service.Scan.{surfaces, scan_request}
use tower_guard_rs.Service.Checks.{body_cap}
use tower_guard_rs.Service.EnginePass.{scan_enabled}
use tower_guard_rs.Service.Call.Lenient.{IsUnruled, Enters, Admits, Inspects, Tolerates, Enforces}

module _ (en : Engine) where
  -- What the gate may have put into the parts.
  abbrev pub with_gate : Parts en → Option IpGateDecision → Parts en
  with_gate parts g = record parts { gate = g }

  module _ (layer : GuardLayer en) (facts : RequestFacts en) (parts : Parts en)
      (route : Option (RouteConfig en)) (g : Option IpGateDecision) where
    pub Enters-with_gate :
        Enters en layer facts parts route → Enters en layer facts (with_gate parts g) route
    Enters-with_gate h = record {
      no_preflight = h.no_preflight;
      gate = h.gate;
      emergency = h.emergency;
    }

    pub Admits-with_gate :
        Admits en layer facts parts route → Admits en layer facts (with_gate parts g) route
    Admits-with_gate h = record {
      enters = Enters-with_gate h.enters;
      https = h.https;
      own_https = h.own_https;
    }

    pub IsUnruled-with_gate :
        IsUnruled en layer facts parts route → IsUnruled en layer facts (with_gate parts g) route
    IsUnruled-with_gate plain r e =
        let h = plain r e in
        record {
          behavior = h.behavior;
          lists = h.lists;
          countries = h.countries;
          headers = h.headers;
          referrer = h.referrer;
          validators = h.validators;
          window = h.window;
          clouds = h.clouds;
          agents = h.agents;
          tiers = h.tiers;
        }

    pub Inspects-with_gate :
        (frames : List Frame)
        → Inspects en layer facts parts route frames
        → Inspects en layer facts (with_gate parts g) route frames
    unfolding body_cap
    Inspects-with_gate frames h = record {
      within = h.within;
      sound = h.sound;
      headers = h.headers;
      referrer = h.referrer;
      validators = h.validators;
      window = h.window;
    }

    pub Tolerates-with_gate :
        (frames : List Frame) (limits : RateLimitStage en)
        → Tolerates en layer facts parts route frames limits
        → Tolerates en layer facts (with_gate parts g) route frames limits
    unfolding scan_enabled scan_request surfaces
    Tolerates-with_gate frames limits h = record { no_panic = h.no_panic; observed = h.observed }

    pub Enforces-with_gate :
        (limits : RateLimitStage en)
        → Enforces en layer facts parts route limits
        → Enforces en layer facts (with_gate parts g) route limits
    Enforces-with_gate limits h = record {
      bans = h.bans;
      geo = h.geo;
      cloud = h.cloud;
      agents = h.agents;
      tiers = h.tiers;
    }
