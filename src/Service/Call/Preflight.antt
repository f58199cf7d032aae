-- ===== src/Service/Call/Preflight.antt =====
-- A CORS preflight in `GuardService::call` of `src/service.rs`, for any layer whose response processor has CORS
-- enabled.
use tower_guard_rs.Base.{
  codes, true, false, some, List, contains, stop, eq_ignore_ascii_case, bind-next, bind-stop, ◌≡◌,
  refl, ◌∙◌,
}
use tower_guard_rs.Engine.{Engine, PreflightRequest, PreflightAnswer}
use tower_guard_rs.Engine.Stages.{ResponseProcessor}
use tower_guard_rs.Layer.{GuardLayer}
use tower_guard_rs.Request.{Parts, RequestFacts, extract}
use tower_guard_rs.Response.{generated, plain_text, blocked_with_body, map_body}
use tower_guard_rs.Service.Buffer.{Frame}
use tower_guard_rs.Service.Respond.{Reply, ok, insert_all}
use tower_guard_rs.Service.RouteAccess.{lenient_pairs, named, preflight_answer, preflight}
use tower_guard_rs.Service.Call.{Service, guarded, call}
use tower_guard_rs.Service.Call.Reach.{call-guarded}

module _ (en : Engine) where
  -- What the engine is asked about a preflight, and the reply that its answer makes.
  abbrev pub preflight_request : Parts en → PreflightRequest
  preflight_request parts =
      let request_headers = lenient_pairs en (en.http.iter parts.headers) in
      record {
        origin = named en (codes "origin") request_headers;
        request_method = named en en.allowed_preflight_request_header request_headers;
        request_headers_raw = named en (codes "access-control-request-headers") request_headers;
      }

  abbrev pub preflight_reply : PreflightAnswer → Reply en
  preflight_reply answer =
      let response = plain_text en answer.status_code answer.body in
      ok (
        map_body en generated
          (record response { headers = insert_all en answer.headers response.headers }))

  module _ (layer : GuardLayer en) (parts : Parts en) (w : en.World) where
    preflight_answer-stop :
        (cors : en.CorsConfig)
        → en.is_preflight parts.method (lenient_pairs en (en.http.iter parts.headers)) ≡ true
        → en.http.valid_status
            (en.build_preflight_response cors (preflight_request parts)).status_code
          ≡ true
        → preflight_answer en cors parts w
          ≡ (stop (preflight_reply (en.build_preflight_response cors (preflight_request parts))), w)
    unfolding preflight_answer blocked_with_body
    preflight_answer-stop cors asked valid = rw (asked, valid, preflight_answer) refl

    preflight-stop :
        (facts : RequestFacts en) (processor : ResponseProcessor en) (cors : en.CorsConfig)
        → eq_ignore_ascii_case facts.method (codes "OPTIONS") ≡ true
        → layer.response_processor ≡ some processor
        → processor.cors_enabled ≡ true
        → processor.cors ≡ some cors
        → {reply : Reply en} → preflight_answer en cors parts w ≡ (stop reply, w)
        → preflight en layer facts parts w ≡ (stop reply, w)
    unfolding preflight
    preflight-stop facts processor cors options installed enabled configured ended =
        rw (options, installed, enabled, configured, preflight) (bind-next _ _ w refl ∙ ended)

    -- A CORS preflight is answered at once with the engine's status, body and headers: without any check,
    -- whatever the gate, the route and the stages would say, without an effect, and without the
    -- response-side pass; neither the wrapped service nor the body is asked. For a path that is not
    -- excluded, the method OPTIONS, a response processor with CORS enabled and configured, a request that
    -- the engine takes for a preflight, and a valid status.
    pub call-preflight :
        (inner : Service en) (frames : List Frame) (processor : ResponseProcessor en)
        (cors : en.CorsConfig)
        → contains layer.exclude_paths parts.path ≡ false
        → eq_ignore_ascii_case parts.method (codes "OPTIONS") ≡ true
        → layer.response_processor ≡ some processor
        → processor.cors_enabled ≡ true
        → processor.cors ≡ some cors
        → en.is_preflight parts.method (lenient_pairs en (en.http.iter parts.headers)) ≡ true
        → en.http.valid_status
            (en.build_preflight_response cors (preflight_request parts)).status_code
          ≡ true
        → call en layer inner parts frames w
          ≡ (stop (preflight_reply (en.build_preflight_response cors (preflight_request parts))), w)
    unfolding guarded extract
    call-preflight inner frames processor cors path options installed enabled configured asked
          valid =
        call-guarded en layer parts frames w inner path
        ∙ bind-stop _ _ w (
            preflight-stop (extract en parts) processor cors options installed enabled configured
              (preflight_answer-stop cors asked valid))
