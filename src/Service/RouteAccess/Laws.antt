-- ===== src/Service/RouteAccess/Laws.antt =====
-- What the route's address lists have established about a request that they let through.
use tower_guard_rs.Base.{
  codes, Bool, true, false, not, ◌&&◌, ◌||◌, Option, none, some, is_some, if◌then◌else◌, map_or,
  unwrap_or, next, [], ◌≡◌, arith, Option-cases, inl, inr,
}
use tower_guard_rs.Engine.{Engine}
use tower_guard_rs.Route.{RouteConfig, bypassed}
use tower_guard_rs.Layer.{GuardLayer}
use tower_guard_rs.Request.{Parts, RequestFacts}
use tower_guard_rs.Response.{forbidden_message}
use tower_guard_rs.Service.Respond.Laws.{block_response-ne-next, failure_response-ne-next}
use tower_guard_rs.Service.RouteAccess.{route_ip_access}

module _ (en : Engine) where
  -- Whether a route's address lists are consulted, and the gate that they make.
  abbrev pub lists_apply : RouteConfig en → Bool
  lists_apply route =
      not (bypassed en (some route) (codes "ip"))
      && (is_some route.ip_whitelist || is_some route.ip_blacklist)

  abbrev pub gate_of : RouteConfig en → Option en.RouteIpGate
  gate_of route =
      en.new_route_ip_gate (unwrap_or [] route.ip_whitelist) (unwrap_or [] route.ip_blacklist)

  -- Whether a route takes the place of the global address lists.
  abbrev pub overrides : Option (RouteConfig en) → Bool
  overrides none = false
  overrides (some route) =
      if lists_apply route then map_or false en.whitelist_configured (gate_of route) else false

  -- A route whose lists apply has valid lists, which do not deny the client.
  abbrev pub RouteAdmits : Option en.Ip → RouteConfig en → Type 0
  RouteAdmits ip route =
      (gate : en.RouteIpGate) × (gate_of route ≡ some gate)
      × (en.is_denied (map_or en.unrestricted (en.evaluate_route gate) ip) ≡ false)

  module _ (layer : GuardLayer en) (facts : RequestFacts en) (parts : Parts en) where
    pub route_ip_access-overrides :
        (route : Option (RouteConfig en)) (w : en.World) {skip : Bool} {v : en.World}
        → route_ip_access en layer facts parts route w ≡ (next skip, v)
        → skip ≡ overrides route
    unfolding route_ip_access
    route_ip_access-overrides none w h = ground arith
    route_ip_access-overrides (some route) w {skip} h = ground (
      arith,
      failure_response-ne-next en parts layer skip w,
      block_response-ne-next en parts layer skip 403 forbidden_message w,
    )

    pub route_ip_access-RouteAdmits :
        (route : RouteConfig en) (w : en.World) {skip : Bool} {v : en.World}
        → route_ip_access en layer facts parts (some route) w ≡ (next skip, v)
        → lists_apply route ≡ true
        → RouteAdmits facts.ip route
    unfolding route_ip_access
    route_ip_access-RouteAdmits route w {skip} h applied = elim (Option-cases (gate_of route)) [
      | inl invalid ↦ ground (arith, failure_response-ne-next en parts layer skip w)
      | inr (gate, built) ↦ (
        gate,
        built,
        ground (arith, block_response-ne-next en parts layer skip 403 forbidden_message w),
      )
    ]
