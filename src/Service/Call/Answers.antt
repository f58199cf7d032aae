-- ===== src/Service/Call/Answers.antt =====
-- What `GuardService::call` of `src/service.rs` answers for a layer as `GuardLayer::new` of
-- `src/lib.rs` makes it where the body cannot be buffered: the whole reply.
use tower_guard_rs.Base.{
  ℕ, ◌<◌, ◌≤◌, Text, true, none, List, length, stop, bind-next, bind-stop, ◌≡◌, refl, ap, ◌∙◌,
}
use tower_guard_rs.Http.{content_type}
use tower_guard_rs.Engine.{Engine}
use tower_guard_rs.Layer.{GuardLayer, DetectConfig}
use tower_guard_rs.Layer.Build.{StageBuilder, ScanFn, new, layered}
use tower_guard_rs.Request.{Parts, RequestFacts, extract}
use tower_guard_rs.Response.{
  generated, plain_text, oversize, failure, oversize_message, failure_message, map_body,
}
use tower_guard_rs.Service.Buffer.{Frame}
use tower_guard_rs.Service.Buffer.Laws.{
  readable, has_error, buffer_body-oversize, buffer_body-broken,
}
use tower_guard_rs.Service.Respond.{
  Reply, ok, apply_response_processor, land, finish_generated, answer, oversize_response,
  failure_response,
}
use tower_guard_rs.Service.Checks.{buffer_check, body_cap, after_buffering}
use tower_guard_rs.Service.Call.{Service, inspect, screen, call}
use tower_guard_rs.Service.Call.Fresh.{fresh, admit-fresh}
use tower_guard_rs.Service.Call.Transparent.{call-guarded-fresh, guarded-fresh}

module _ (en : Engine) where
  -- A plain-text answer of the guard.
  abbrev pub said : ℕ → Text → Reply en
  said status message = ok (record {
    status = status;
    headers = en.http.insert en.http.no_headers content_type en.http.text_plain;
    body = generated message;
  })

  module _ (scan : ScanFn en) (config : DetectConfig en) (builder : StageBuilder en) where
    abbrev pub plain_layer : GuardLayer en
    plain_layer = fresh en scan config builder

    module _ (facts : RequestFacts en) (parts : Parts en) (w : en.World) where
      oversize_response-fresh :
          {A : Type 0}
          → oversize_response en {A = A} parts plain_layer w ≡ (stop (said 413 oversize_message), w)
      unfolding oversize_response answer finish_generated apply_response_processor land map_body
          oversize plain_text layered new
      oversize_response-fresh = refl

      pub failure_response-fresh :
          {A : Type 0}
          → failure_response en {A = A} parts plain_layer w ≡ (stop (said 500 failure_message), w)
      unfolding failure_response answer finish_generated apply_response_processor land map_body
          failure plain_text layered new
      failure_response-fresh = refl

      -- A body that cannot be buffered ends the checks.
      screen-unbuffered :
          (frames : List Frame) (reply : Reply en)
          → buffer_check en plain_layer facts parts none frames w ≡ (stop reply, w)
          → screen en plain_layer facts none parts frames w ≡ (stop reply, w)
      unfolding screen inspect
      screen-unbuffered frames reply stopped =
          bind-next _ _ w (admit-fresh en scan config builder facts parts w)
          ∙ bind-stop _ _ w (bind-stop _ _ w stopped)

      buffer_check-oversize :
          (frames : List Frame)
          → config.max_full_scan_bytes < length (readable frames)
          → buffer_check en plain_layer facts parts none frames w
            ≡ (stop (said 413 oversize_message), w)
      unfolding buffer_check body_cap layered new
      buffer_check-oversize frames long =
          ap (λ outcome. after_buffering en plain_layer facts parts outcome w)
            (buffer_body-oversize frames config.max_full_scan_bytes long)
          ∙ oversize_response-fresh

      buffer_check-broken :
          (frames : List Frame)
          → length (readable frames) ≤ config.max_full_scan_bytes
          → has_error frames ≡ true
          → buffer_check en plain_layer facts parts none frames w
            ≡ (stop (said 500 failure_message), w)
      unfolding buffer_check body_cap layered new
      buffer_check-broken frames bound cut =
          ap (λ outcome. after_buffering en plain_layer facts parts outcome w)
            (buffer_body-broken frames config.max_full_scan_bytes bound cut)
          ∙ failure_response-fresh

    module _ (inner : Service en) (parts : Parts en) (frames : List Frame) (w : en.World) where
      -- Where the checks end with a reply, the call ends with it.
      pub call-screen :
          (reply : Reply en)
          → parts.route_config ≡ none
          → screen en plain_layer (extract en parts) none parts frames w ≡ (stop reply, w)
          → call en plain_layer inner parts frames w ≡ (stop reply, w)
      call-screen reply bare stopped =
          call-guarded-fresh en scan config builder inner parts frames w
          ∙ (guarded-fresh en scan config builder inner parts frames w bare
              ∙ bind-stop _ _ w stopped)

      -- A request whose body is longer than the cap is answered with 413 and its message, for a layer
      -- without any check of its own and a request without a route configuration.
      pub call-fresh_oversize :
          parts.route_config ≡ none
          → config.max_full_scan_bytes < length (readable frames)
          → call en plain_layer inner parts frames w ≡ (stop (said 413 oversize_message), w)
      call-fresh_oversize bare long = call-screen _ bare (
          screen-unbuffered (extract en parts) parts w frames _
            (buffer_check-oversize (extract en parts) parts w frames long))

      -- A request whose body breaks off within the cap is answered with 500 and its message, for a
      -- layer without any check of its own and a request without a route configuration.
      pub call-fresh_broken :
          parts.route_config ≡ none
          → length (readable frames) ≤ config.max_full_scan_bytes
          → has_error frames ≡ true
          → call en plain_layer inner parts frames w ≡ (stop (said 500 failure_message), w)
      call-fresh_broken bare bound cut = call-screen _ bare (
          screen-unbuffered (extract en parts) parts w frames _
            (buffer_check-broken (extract en parts) parts w frames bound cut))
