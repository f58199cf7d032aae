-- ===== src/Service/Gate.antt =====
-- `enforce_ip_gate` and `block_response_owned` of `src/service.rs`, and their place in `call`.
pub mod Laws
use tower_guard_rs.Base.{
  ℕ, Text, codes, Bool, false, not, ◌&&◌, Option, none, some, ◌++◌, if◌then◌else◌, map_or,
  unwrap_or, Act, Flow, next, stop, panicked, pure, effect, ◌>>=◌, ◌>>◌,
}
use tower_guard_rs.Engine.{Engine, IpGateVerdict, allowed, denied}
use tower_guard_rs.Engine.Stages.{RequestObservation, IpGateConfig}
use tower_guard_rs.Route.{RouteConfig, bypassed}
use tower_guard_rs.Layer.{GuardLayer, ObservabilityConfig}
use tower_guard_rs.Request.{Parts, request_observation}
use tower_guard_rs.Response.{Response, forbidden_message, blocked_with_body}
use tower_guard_rs.Service.Respond.{
  Handler, generated_lane, from_parts, apply_response_processor, land, answer,
}

module _ (en : Engine) (layer : GuardLayer en) where
  -- The response-side pass runs here already.
  unfoldable pub block_response_owned : Parts en → ℕ → Text → Handler en (Response en Text)
  block_response_owned parts status body w = elim (blocked_with_body en status body) [
    | none ↦ (panicked, w)
    | some response ↦
        let (modified, w') =
          apply_response_processor en layer (from_parts en parts) status response.headers
            generated_lane w in
        (next (land en response modified), w')
  ]

  -- The block hook, where observability is installed.
  unfoldable pub fire_gate_hook : Parts en → Text → Text → en.World → en.World
  fire_gate_hook parts ip_string reason w =
      map_or w
        (λ (observability : ObservabilityConfig en).
          let observation = request_observation en parts in
          en.fire_block_hook layer.on_block
            (en.build_block_payload
              (record {
                check = codes "ip_security";
                message = codes "IP address blocked: " ++ ip_string;
                reason = reason;
                passive = false;
                client_ip = ip_string;
                url = unwrap_or (codes "/") observation.url;
                method = unwrap_or (codes "") observation.method;
                status = some 403;
              })
              observability.sensitive)
            w)
        layer.observability

  -- The denial's response, if there is one, and the parts with the gate's decision.
  unfoldable pub after_verdict :
      IpGateVerdict → en.Ip → Parts en → Handler en (Option (Response en Text) × Parts en)
  after_verdict (allowed decision) ip parts = pure (none, record parts { gate = some decision })
  after_verdict (denied reason) ip parts = if layer.passive_mode then pure (none, parts) else (do
    effect (fire_gate_hook parts (en.ip_to_string ip) reason)
    response ←
        block_response_owned parts 403
          (en.resolve_error_body layer.custom_error_responses 403 forbidden_message)
    pure (some response, parts))

  abbrev pub attributed : Option (IpGateConfig en) → Option en.Ip → Option (IpGateConfig en × en.Ip)
  attributed (some gate) (some ip) = some (gate, ip)
  attributed (some gate) none = none
  attributed none ip = none

  unfoldable pub enforce_ip_gate : Parts en → Handler en (Option (Response en Text) × Parts en)
  enforce_ip_gate parts = elim (attributed layer.ip_gate parts.client_ip) [
    | none ↦ pure (none, parts)
    | some (gate, ip) ↦ after_verdict (gate.evaluate ip) ip parts
  ]

  -- A denial is answered through the response-side pass once more.
  abbrev pub deny_or_pass : Option (Response en Text) × Parts en → Handler en (Parts en)
  deny_or_pass (none, parts) = pure parts
  deny_or_pass (some denial, parts) = answer en parts layer denial

  unfoldable pub ip_gate_check : Option (RouteConfig en) → Bool → Parts en → Handler en (Parts en)
  ip_gate_check route skip_global_ip_lists parts =
      if not (bypassed en route (codes "ip")) && not skip_global_ip_lists
      then (do outcome ← enforce_ip_gate parts; deny_or_pass outcome)
      else pure parts
