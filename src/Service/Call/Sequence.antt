-- ===== src/Service/Call/Sequence.antt =====
-- Sequences of requests through one `GuardService` of `src/service.rs`: each is served in the world that
-- the ones before it left.
use tower_guard_rs.Base.{
  ◌≤◌, Text, codes, false, none, some, List, [], ◌∷◌, length, contains, All, Flow, stop, ◌≡◌, refl,
  ap, ◌∙◌,
}
use tower_guard_rs.Engine.{Engine, denied}
use tower_guard_rs.Engine.Stages.{IpGateConfig}
use tower_guard_rs.Route.{bypassed}
use tower_guard_rs.Layer.{GuardLayer, DetectConfig}
use tower_guard_rs.Layer.Build.{StageBuilder, ScanFn}
use tower_guard_rs.Request.{Parts}
use tower_guard_rs.Service.Buffer.{Frame}
use tower_guard_rs.Service.Buffer.Laws.{readable, has_error}
use tower_guard_rs.Service.Respond.{Reply}
use tower_guard_rs.Service.RouteAccess.Laws.{overrides}
use tower_guard_rs.Service.Call.{Service, call}
use tower_guard_rs.Service.Call.Reach.{route_of}
use tower_guard_rs.Service.Call.Fresh.{fresh, limits_of, IsOpen, IsClean}
use tower_guard_rs.Service.Call.Transparent.{untouched, call-fresh}

module _ (en : Engine) where
  abbrev pub Request : Type 0
  Request = Parts en × List Frame

  abbrev pub Replies : Type 0
  Replies = List (Flow (Reply en) (Unit {0})) × en.World

  -- What each request ends in, and the world behind the last.
  abbrev pub in_turn :
      (Parts en → List Frame → en.World → Flow (Reply en) (Unit {0}) × en.World)
      → List Request
      → en.World
      → Replies
  in_turn handle [] w = ([], w)
  in_turn handle ((parts, frames) ∷ requests) w =
      let (reply, v) = handle parts frames w in
      let (replies, u) = in_turn handle requests v in (reply ∷ replies, u)

  unfoldable pub serve : GuardLayer en → Service en → List Request → en.World → Replies
  unfolding call
  serve layer inner requests w = in_turn (call en layer inner) requests w

  -- The wrapped service on its own, given the whole body.
  abbrev pub alone :
      Service en → Parts en → List Frame → en.World → Flow (Reply en) (Unit {0}) × en.World
  alone inner parts frames w =
      let (answer, v) = inner parts (readable frames) w in (stop (untouched en answer), v)

  -- Where every request is handled as by another handler, so is the sequence.
  in_turn-All :
      (handle other : Parts en → List Frame → en.World → Flow (Reply en) (Unit {0}) × en.World)
      (Same : Request → Type 0)
      → ((parts : Parts en) (frames : List Frame) (w : en.World)
          → Same (parts, frames)
          → handle parts frames w ≡ other parts frames w)
      → (requests : List Request) (w : en.World) → All Same requests
      → in_turn handle requests w ≡ in_turn other requests w
  in_turn-All handle other Same agree [] w _ = refl
  in_turn-All handle other Same agree ((parts, frames) ∷ requests) w (same, rest) =
      ap
        (λ (r : Flow (Reply en) (Unit {0}) × en.World).
          let (replies, u) = in_turn handle requests r.1 in (r.0 ∷ replies, u))
        (agree parts frames w same)
      ∙ (let (reply, v) = other parts frames w in
          ap (λ (r : Replies). (reply ∷ r.0, r.1))
            (in_turn-All handle other Same agree requests v rest))

  -- A request without a route configuration, its body within the cap and its stream sound.
  abbrev pub IsPlain : DetectConfig en → Request → Type 0
  IsPlain config (parts, frames) =
      (parts.route_config ≡ none)
      × (length (readable frames) ≤ config.max_full_scan_bytes)
      × (has_error frames ≡ false)

  -- A request of a client that the gate denies, where the gate is consulted.
  abbrev pub IsDenied : GuardLayer en → IpGateConfig en → Request → Type 0
  IsDenied layer gate (parts, frames) =
      (ip : en.Ip) × (reason : Text) × (contains layer.exclude_paths parts.path ≡ false)
      × (parts.client_ip ≡ some ip)
      × (gate.evaluate ip ≡ denied reason)
      × (bypassed en (route_of en layer parts) (codes "ip") ≡ false)
      × (overrides en (route_of en layer parts) ≡ false)

  -- A service under a layer without any check of its own answers a sequence of requests as the wrapped
  -- service alone does, each with its whole body and in the order and the world of the sequence: where
  -- every scan is clean, the rate-limit stage, asked without a finding, blocks nobody and leaves the
  -- world alone, no request carries a route configuration, and every body is within the cap and does not
  -- break.
  pub serve-alone :
      (scan : ScanFn en) (config : DetectConfig en) (builder : StageBuilder en) (inner : Service en)
      (requests : List Request) (w : en.World)
      → IsClean en scan
      → IsOpen en none (limits_of en scan config builder)
      → All (IsPlain config) requests
      → serve (fresh en scan config builder) inner requests w ≡ in_turn (alone inner) requests w
  unfolding serve
  serve-alone scan config builder inner requests w clean_scan opened plain =
      in_turn-All (call en (fresh en scan config builder) inner) (alone inner) (IsPlain config)
        (λ parts frames w (bare, bound, sound).
          call-fresh en scan config builder inner parts frames w bare clean_scan opened bound sound)
        requests w plain
