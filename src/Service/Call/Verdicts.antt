-- ===== src/Service/Call/Verdicts.antt =====
-- What `GuardService::call` of `src/service.rs` answers for a layer as `GuardLayer::new` of
-- `src/lib.rs` makes it where the scan panics: the whole reply.
use tower_guard_rs.Base.{
  ◌≤◌, Text, true, false, Option, none, List, length, stop, ◌>>=◌, bind-next, bind-stop, ◌≡◌, refl,
  ◌∙◌,
}
use tower_guard_rs.Engine.{Engine, RequestSurfaces}
use tower_guard_rs.Layer.{DetectConfig}
use tower_guard_rs.Layer.Build.{StageBuilder, ScanFn, new, layered}
use tower_guard_rs.Request.{Parts, RequestFacts, extract}
use tower_guard_rs.Response.{failure_message}
use tower_guard_rs.Service.Buffer.{Frame}
use tower_guard_rs.Service.Buffer.Laws.{readable, has_error}
use tower_guard_rs.Service.Scan.Laws.{scan_request-failed}
use tower_guard_rs.Service.RouteGates.{
  headers_auth_check, referrer_check, validators_check, time_window_check,
}
use tower_guard_rs.Service.EnginePass.{scan_enabled, detect}
use tower_guard_rs.Service.Call.{Service, inspect, screen, call}
use tower_guard_rs.Service.Call.Fresh.{admit-fresh, buffer_check-fresh}
use tower_guard_rs.Service.Call.Answers.{said, plain_layer, failure_response-fresh, call-screen}

module _ (en : Engine) (scan : ScanFn en) (config : DetectConfig en)
    (builder : StageBuilder en) where
  module _ (facts : RequestFacts en) (parts : Parts en) (w : en.World) where
    detect-panics :
        (buffered : Option Text)
        → ((s : RequestSurfaces) (r : en.ResolvedExclusions) (c : DetectConfig en)
            → scan s r c ≡ none)
        → scan_enabled en (plain_layer en scan config builder) facts parts none ≡ true
        → detect en (plain_layer en scan config builder) facts parts none buffered w
          ≡ (stop (said en 500 failure_message), w)
    unfolding detect
    detect-panics buffered panics on =
        rw
          (
            on,
            scan_request-failed en (plain_layer en scan config builder) parts buffered
                (unfold layered new in panics),
          )
          (failure_response-fresh en scan config builder facts parts w)

    inspect-panics :
        (frames : List Frame)
        → ((s : RequestSurfaces) (r : en.ResolvedExclusions) (c : DetectConfig en)
            → scan s r c ≡ none)
        → scan_enabled en (plain_layer en scan config builder) facts parts none ≡ true
        → length (readable frames) ≤ config.max_full_scan_bytes
        → has_error frames ≡ false
        → inspect en (plain_layer en scan config builder) facts none parts frames w
          ≡ (stop (said en 500 failure_message), w)
    unfolding inspect layered new headers_auth_check referrer_check validators_check
        time_window_check ◌>>=◌
    inspect-panics frames panics on bound sound =
        rw
          (
            buffer_check-fresh en scan config builder facts parts w frames bound sound,
            detect-panics _ panics on,
          )
          refl

  -- Where the engine panics on every scan, a request whose scan is on is answered with 500 and its
  -- message, for a layer without any check of its own, a request without a route configuration, and a
  -- body within the cap whose stream does not break.
  pub call-fresh_panic :
      (inner : Service en) (parts : Parts en) (frames : List Frame) (w : en.World)
      → parts.route_config ≡ none
      → ((s : RequestSurfaces) (r : en.ResolvedExclusions) (c : DetectConfig en)
          → scan s r c ≡ none)
      → scan_enabled en (plain_layer en scan config builder) (extract en parts) parts none ≡ true
      → length (readable frames) ≤ config.max_full_scan_bytes
      → has_error frames ≡ false
      → call en (plain_layer en scan config builder) inner parts frames w
        ≡ (stop (said en 500 failure_message), w)
  unfolding screen
  call-fresh_panic inner parts frames w bare panics on bound sound =
      call-screen en scan config builder inner parts frames w _ bare (
        bind-next _ _ w (admit-fresh en scan config builder (extract en parts) parts w)
        ∙ bind-stop _ _ w (inspect-panics (extract en parts) parts w frames panics on bound sound))
