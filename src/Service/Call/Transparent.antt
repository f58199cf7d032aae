-- ===== src/Service/Call/Transparent.antt =====
-- A clean request in `GuardService::call` of `src/service.rs`, for a layer as `GuardLayer::new` of
-- `src/lib.rs` makes it.
use tower_guard_rs.Base.{
  ◌≤◌, Text, false, none, List, length, contains, stop, ◌>>=◌, bind-next, ◌≡◌, refl, ap, ◌∙◌,
}
use tower_guard_rs.Engine.{Engine}
use tower_guard_rs.Layer.{DetectConfig}
use tower_guard_rs.Layer.Build.{StageBuilder, ScanFn, new, layered}
use tower_guard_rs.Request.{Parts, RequestFacts, extract}
use tower_guard_rs.Response.{passthrough, map_body}
use tower_guard_rs.Service.Buffer.{Frame, non_empty}
use tower_guard_rs.Service.Buffer.Laws.{readable, has_error, unwrap_or-non_empty}
use tower_guard_rs.Service.Respond.{Reply, ok, err, apply_response_processor, land}
use tower_guard_rs.Service.RouteAccess.{resolve_route}
use tower_guard_rs.Service.Call.{
  Inner, produced, inner_error, Service, screen, guarded, forward, finish_forwarded, call,
}
use tower_guard_rs.Service.Call.Fresh.{
  IsOpen, IsClean, fresh, limits_of, preflight-fresh, screen-fresh,
}

module _ (en : Engine) where
  -- The wrapped service's response with its body handed on, or its error.
  abbrev pub untouched : Inner en → Reply en
  untouched (produced response) = ok (map_body en passthrough response)
  untouched (inner_error e) = err e

  module _ (scan : ScanFn en) (config : DetectConfig en) (builder : StageBuilder en) where
    finish-fresh :
        (facts : RequestFacts en) (answer : Inner en) (w : en.World)
        → finish_forwarded en (fresh en scan config builder) facts answer w ≡ (untouched answer, w)
    unfolding finish_forwarded apply_response_processor land layered new
    finish-fresh facts (produced response) w = refl
    finish-fresh facts (inner_error e) w = refl

    forward-fresh :
        (facts : RequestFacts en) (parts : Parts en) (body : Text) (inner : Service en)
        (w : en.World)
        → forward en (fresh en scan config builder) facts parts (non_empty body) inner w
          ≡ (stop (untouched (inner parts body w).0), (inner parts body w).1)
    unfolding forward
    forward-fresh facts parts body inner w =
        rw
          (
            unwrap_or-non_empty body,
            finish-fresh facts (inner parts body w).0 (inner parts body w).1,
          )
          refl

    module _ (inner : Service en) (parts : Parts en) (frames : List Frame) (w : en.World) where
      pub call-guarded-fresh :
          call en (fresh en scan config builder) inner parts frames w
          ≡ guarded en (fresh en scan config builder) (extract en parts) inner parts frames w
      unfolding call layered new contains
      call-guarded-fresh = refl

      route-fresh :
          parts.route_config ≡ none
          → resolve_route en (fresh en scan config builder) (extract en parts) parts ≡ none
      unfolding resolve_route layered new
      route-fresh bare = rw bare refl

      pub guarded-fresh :
          parts.route_config ≡ none
          → guarded en (fresh en scan config builder) (extract en parts) inner parts frames w
            ≡ (screen en (fresh en scan config builder) (extract en parts) none parts frames
                  >>= λ passed.
                      forward en
                        (fresh en scan config builder)
                        (extract en parts)
                        passed.parts
                        passed.buffered
                        inner)
                w
      unfolding guarded
      guarded-fresh bare =
          bind-next _ _ w (preflight-fresh en scan config builder (extract en parts) parts w)
          ∙ ap
              (λ route.
                (screen en (fresh en scan config builder) (extract en parts) route parts frames
                    >>= λ passed.
                        forward en (fresh en scan config builder) (extract en parts) passed.parts
                          passed.buffered inner)
                  w)
              (route-fresh bare)

      -- A clean request reaches the wrapped service with the parts and the very body that it came
      -- with, and the answer is the wrapped service's own, its body handed on: for a layer without any
      -- check of its own, a scan that is clean, a stage that blocks nobody, a request that carries no
      -- route configuration, and a body within the cap whose stream does not break.
      pub call-fresh :
          parts.route_config ≡ none
          → IsClean en scan
          → IsOpen en none (limits_of en scan config builder)
          → length (readable frames) ≤ config.max_full_scan_bytes
          → has_error frames ≡ false
          → call en (fresh en scan config builder) inner parts frames w ≡ (
            stop (untouched (inner parts (readable frames) w).0),
            (inner parts (readable frames) w).1,
          )
      call-fresh bare clean_scan opened bound sound =
          call-guarded-fresh
          ∙ (guarded-fresh bare
              ∙ (bind-next _ _ w (
                    screen-fresh en scan config builder (extract en parts) parts w frames clean_scan
                      opened bound sound)
                  ∙ forward-fresh (extract en parts) parts (readable frames) inner w))
