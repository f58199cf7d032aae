-- ===== src/Service/Call/Threats.antt =====
-- What `GuardService::call` of `src/service.rs` answers for a layer as `GuardLayer::new` of
-- `src/lib.rs` makes it where the scan finds a threat that no ban or rate limit answers: the whole reply.
use tower_guard_rs.Base.{
  ◌≤◌, Text, true, false, Option, none, some, List, [], length, next, stop, ◌>>=◌, bind-next,
  bind-stop, ◌≡◌, refl, ◌∙◌,
}
use tower_guard_rs.Engine.{Engine, RequestSurfaces, RequestScanVerdict}
use tower_guard_rs.Layer.{DetectConfig}
use tower_guard_rs.Layer.Build.{StageBuilder, build_stage-passive, ScanFn, new, layered}
use tower_guard_rs.Request.{Parts, RequestFacts, extract}
use tower_guard_rs.Response.{plain_text, blocked_with_body, map_body, blocked_message}
use tower_guard_rs.Service.Buffer.{Frame, non_empty}
use tower_guard_rs.Service.Buffer.Laws.{readable, has_error}
use tower_guard_rs.Service.Scan.Laws.{scan_request-threat}
use tower_guard_rs.Service.Respond.{
  Reply, apply_response_processor, land, finish_generated, answer, block_response, threat_finding,
}
use tower_guard_rs.Service.RouteGates.{
  headers_auth_check, referrer_check, validators_check, time_window_check,
}
use tower_guard_rs.Service.EnginePass.{scan_enabled, detect, detection_block, fire_detection_hook}
use tower_guard_rs.Service.Call.{Service, inspect, enforce, screen, call}
use tower_guard_rs.Service.Call.Fresh.{
  IsOpen, limits_of, admit-fresh, buffer_check-fresh, expect-fresh, bans-fresh, rate_limit-fresh,
  absent-fresh,
}
use tower_guard_rs.Service.Call.Answers.{said, plain_layer, call-screen}

module _ (en : Engine) (scan : ScanFn en) (config : DetectConfig en) (builder : StageBuilder en)
    (verdict : RequestScanVerdict) where
  -- Every scan finds the verdict, which is a threat.
  abbrev pub IsFlagged : Type 0
  IsFlagged =
      ((s : RequestSurfaces) (r : en.ResolvedExclusions) (c : DetectConfig en)
        → scan s r c ≡ some verdict)
      × (verdict.is_threat ≡ true)

  abbrev blocked : Reply en
  blocked = said en 400 (en.resolve_error_body [] 400 blocked_message)

  limits-passive : (limits_of en scan config builder).passive_mode ≡ false
  unfolding new
  limits-passive = build_stage-passive en (new en scan config) builder

  module _ (facts : RequestFacts en) (parts : Parts en) (w : en.World) where
    detect-threat :
        (buffered : Option Text)
        → IsFlagged
        → scan_enabled en (plain_layer en scan config builder) facts parts none ≡ true
        → detect en (plain_layer en scan config builder) facts parts none buffered w
          ≡ (next (some verdict), w)
    unfolding detect
    detect-threat buffered (found, harmful) on =
        rw
          (
            on,
            scan_request-threat en (plain_layer en scan config builder) parts buffered verdict
                (unfold layered new in found) harmful,
          )
          refl

    inspect-threat :
        (frames : List Frame)
        → IsFlagged
        → scan_enabled en (plain_layer en scan config builder) facts parts none ≡ true
        → length (readable frames) ≤ config.max_full_scan_bytes
        → has_error frames ≡ false
        → inspect en (plain_layer en scan config builder) facts none parts frames w
          ≡ (next (non_empty (readable frames), some verdict), w)
    unfolding inspect layered new headers_auth_check referrer_check validators_check
        time_window_check ◌>>=◌
    inspect-threat frames flagged on bound sound =
        rw
          (
            buffer_check-fresh en scan config builder facts parts w frames bound sound,
            detect-threat _ flagged on,
          )
          refl

    detection_block-threat :
        en.http.valid_status 400 ≡ true
        → detection_block en
            (plain_layer en scan config builder)
            facts
            parts
            (limits_of en scan config builder)
            (some verdict)
            w
          ≡ (stop blocked, w)
    unfolding detection_block fire_detection_hook block_response blocked_with_body answer
        finish_generated apply_response_processor land map_body plain_text layered new ◌>>=◌
    detection_block-threat valid = rw (limits-passive, block_response, valid) refl

    enforce-threat :
        (buffered : Option Text)
        → IsOpen en (threat_finding (some verdict)) (limits_of en scan config builder)
        → en.http.valid_status 400 ≡ true
        → enforce en
            (plain_layer en scan config builder)
            facts
            none
            parts
            false
            buffered
            (some verdict)
            w
          ≡ (stop blocked, w)
    unfolding enforce
    enforce-threat buffered opened valid =
        let finding = threat_finding (some verdict) in
        let (geo, clouds, agents, _, _) =
          absent-fresh en scan config builder facts parts w finding buffered in
        bind-next _ _ w (expect-fresh en scan config builder facts parts w)
        ∙ (bind-next _ _ w (bans-fresh en scan config builder facts parts w opened)
            ∙ (bind-next _ _ w geo
                ∙ (bind-next _ _ w clouds
                    ∙ (bind-next _ _ w agents
                        ∙ (bind-next _ _ w
                              (rate_limit-fresh en scan config builder facts parts w finding opened)
                            ∙ bind-stop _ _ w (detection_block-threat valid))))))

  -- Where every scan finds the same threat, a request whose scan is on is answered with 400 and the
  -- engine's body for it: for a layer without any check of its own, a stage that blocks nobody, a
  -- request without a route configuration, a body within the cap whose stream does not break, and 400
  -- a valid status.
  pub call-fresh_threat :
      (inner : Service en) (parts : Parts en) (frames : List Frame) (w : en.World)
      → parts.route_config ≡ none
      → IsFlagged
      → scan_enabled en (plain_layer en scan config builder) (extract en parts) parts none ≡ true
      → IsOpen en (threat_finding (some verdict)) (limits_of en scan config builder)
      → en.http.valid_status 400 ≡ true
      → length (readable frames) ≤ config.max_full_scan_bytes
      → has_error frames ≡ false
      → call en (plain_layer en scan config builder) inner parts frames w
        ≡ (stop (said en 400 (en.resolve_error_body [] 400 blocked_message)), w)
  unfolding screen
  call-fresh_threat inner parts frames w bare flagged on opened valid bound sound =
      call-screen en scan config builder inner parts frames w _ bare (
        bind-next _ _ w (admit-fresh en scan config builder (extract en parts) parts w)
        ∙ (bind-next _ _ w (inspect-threat (extract en parts) parts w frames flagged on bound sound)
            ∙ bind-stop _ _ w (enforce-threat (extract en parts) parts w _ opened valid)))
