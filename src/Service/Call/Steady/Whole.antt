-- ===== src/Service/Call/Steady/Whole.antt =====
-- `GuardService::call` of `src/service.rs` replies to every request.
use tower_guard_rs.Base.{
  Text, Bool, Option, none, List, contains, IsSteady, pure-IsSteady, expect-IsSteady, if-IsSteady,
  bind-IsSteady, ◌≡◌, stop, IsAnswering, bind-IsAnswering, IsAnswering-reply, Bool-cases, inl, inr,
}
use tower_guard_rs.Engine.{Engine, RequestScanVerdict}
use tower_guard_rs.Route.{RouteConfig}
use tower_guard_rs.Layer.{GuardLayer}
use tower_guard_rs.Request.{Parts, RequestFacts, extract}
use tower_guard_rs.Service.Buffer.{Frame}
use tower_guard_rs.Service.Respond.{Reply}
use tower_guard_rs.Service.Call.{Service, forward, admit, inspect, enforce, screen, guarded, call}
use tower_guard_rs.Service.Call.Steady.{StatusesValid, StagesValid, Expected}
use tower_guard_rs.Service.Call.Steady.Entry.{
  preflight-IsSteady, usage_rules-IsSteady, route_ip_access-IsSteady, route_country_access-IsSteady,
}
use tower_guard_rs.Service.Call.Steady.Middle.{
  ip_gate_check-IsSteady, emergency_check-IsSteady, https_check-IsSteady, log_request-IsSteady,
  log_country_check-IsSteady, buffer_check-IsSteady,
}
use tower_guard_rs.Service.Call.Steady.Gates.{
  headers_auth_check-IsSteady, referrer_check-IsSteady, validators_check-IsSteady,
  time_window_check-IsSteady, detect-IsSteady,
}
use tower_guard_rs.Service.Call.Steady.Stages.{
  bans_check-IsSteady, geo_check-IsSteady, cloud_check-IsSteady, user_agent_check-IsSteady,
  rate_limit_check-IsSteady, detection_block-IsSteady, custom_request_check-IsSteady,
}

module _ (en : Engine) (statuses : StatusesValid en) (layer : GuardLayer en)
    (stages : StagesValid en layer) (facts : RequestFacts en) where
  module _ (route : Option (RouteConfig en)) (parts : Parts en) where
    admit-IsSteady : IsSteady (admit en layer facts route parts)
    unfolding admit
    admit-IsSteady =
        bind-IsSteady _ _ (usage_rules-IsSteady en statuses layer facts parts route) λ _.
          bind-IsSteady _ _ (route_ip_access-IsSteady en statuses layer facts parts route) λ skip.
            bind-IsSteady _ _ (route_country_access-IsSteady en statuses layer facts parts route)
              λ _.
                bind-IsSteady _ _ (ip_gate_check-IsSteady en statuses layer parts route skip)
                  λ gated.
                    bind-IsSteady _ _
                      (emergency_check-IsSteady en statuses layer stages facts gated)
                      λ _.
                        bind-IsSteady _ _
                          (https_check-IsSteady en statuses layer stages facts gated route)
                          λ _.
                            bind-IsSteady _ _
                              (log_request-IsSteady en statuses layer stages facts gated)
                              λ _.
                                bind-IsSteady _ _
                                  (log_country_check-IsSteady en statuses layer stages facts gated)
                                  λ _. pure-IsSteady _

    inspect-IsSteady : (frames : List Frame) → IsSteady (inspect en layer facts route parts frames)
    unfolding inspect
    inspect-IsSteady frames =
        bind-IsSteady _ _ (buffer_check-IsSteady en statuses layer stages facts parts route frames)
          λ b.
            bind-IsSteady _ _
              (headers_auth_check-IsSteady en statuses layer stages facts parts route)
              λ _.
                bind-IsSteady _ _
                  (referrer_check-IsSteady en statuses layer stages facts parts route)
                  λ _.
                    bind-IsSteady _ _
                      (validators_check-IsSteady en statuses layer stages facts parts route b)
                      λ _.
                        bind-IsSteady _ _
                          (time_window_check-IsSteady en statuses layer stages facts parts route)
                          λ _.
                            bind-IsSteady _ _
                              (detect-IsSteady en statuses layer stages facts parts route b)
                              λ verdict. pure-IsSteady _

    enforce-IsSteady :
        Expected en layer
        → (skip : Bool) (buffered : Option Text) (verdict : Option RequestScanVerdict)
        → IsSteady (enforce en layer facts route parts skip buffered verdict)
    unfolding enforce
    enforce-IsSteady there skip buffered verdict =
        bind-IsSteady _ _ (expect-IsSteady layer.stage there.limits there.stage) λ limits.
          bind-IsSteady _ _ (bans_check-IsSteady en statuses layer stages facts parts route limits)
            λ _.
              bind-IsSteady _ _ (geo_check-IsSteady en statuses layer stages facts parts route skip)
                λ _.
                  bind-IsSteady _ _
                    (cloud_check-IsSteady en statuses layer stages facts parts route)
                    λ _.
                      bind-IsSteady _ _
                        (user_agent_check-IsSteady en statuses layer stages facts parts route _)
                        λ _.
                          bind-IsSteady _ _
                            (rate_limit_check-IsSteady en statuses layer stages facts parts route
                              limits _)
                            λ _.
                              bind-IsSteady _ _
                                (detection_block-IsSteady en statuses layer stages facts parts
                                  limits verdict)
                                λ _.
                                  custom_request_check-IsSteady en statuses layer stages facts parts
                                    buffered

  screen-IsSteady :
      (route : Option (RouteConfig en)) (parts : Parts en) (frames : List Frame)
      → Expected en layer
      → IsSteady (screen en layer facts route parts frames)
  unfolding screen
  screen-IsSteady route parts frames there =
      bind-IsSteady _ _ (admit-IsSteady route parts) λ (gated, skip).
        bind-IsSteady _ _ (inspect-IsSteady route gated frames) λ (buffered, verdict).
          bind-IsSteady _ _ (enforce-IsSteady route gated there skip buffered verdict)
            λ _. pure-IsSteady _

  forward-IsSteady :
      (parts : Parts en) (buffered : Option Text) (inner : Service en)
      → IsSteady (forward en layer facts parts buffered inner)
  unfolding forward
  forward-IsSteady parts buffered inner = record { runs = λ w e. cc }

  guarded-IsSteady :
      (inner : Service en) (parts : Parts en) (frames : List Frame)
      → Expected en layer
      → IsSteady (guarded en layer facts inner parts frames)
  unfolding guarded
  guarded-IsSteady inner parts frames there =
      bind-IsSteady _ _ (preflight-IsSteady en statuses layer facts parts there) λ _.
        bind-IsSteady _ _ (screen-IsSteady _ parts frames there)
          λ passed. forward-IsSteady passed.parts passed.buffered inner

module _ (en : Engine) (layer : GuardLayer en) where
  call-IsSteady :
      StatusesValid en
      → StagesValid en layer
      → Expected en layer
      → (inner : Service en) (parts : Parts en) (frames : List Frame)
      → IsSteady (call en layer inner parts frames)
  unfolding call
  call-IsSteady statuses stages there inner parts frames =
      if-IsSteady (contains layer.exclude_paths (extract en parts).path) _ _
        (λ excluded. forward-IsSteady en statuses layer stages (extract en parts) parts none inner)
        (λ kept.
          guarded-IsSteady en statuses layer stages (extract en parts) inner parts frames there)

  forward-IsAnswering :
      (facts : RequestFacts en) (parts : Parts en) (buffered : Option Text) (inner : Service en)
      → IsAnswering (forward en layer facts parts buffered inner)
  unfolding forward
  forward-IsAnswering facts parts buffered inner = record { ends = λ w a e. cc }

  guarded-IsAnswering :
      (facts : RequestFacts en) (inner : Service en) (parts : Parts en) (frames : List Frame)
      → IsAnswering (guarded en layer facts inner parts frames)
  unfolding guarded
  guarded-IsAnswering facts inner parts frames = bind-IsAnswering _ _ λ _.
      bind-IsAnswering _ _ λ passed. forward-IsAnswering facts passed.parts passed.buffered inner

  call-IsAnswering :
      (inner : Service en) (parts : Parts en) (frames : List Frame)
      → IsAnswering (call en layer inner parts frames)
  unfolding call
  call-IsAnswering inner parts frames =
      elim (Bool-cases (contains layer.exclude_paths (extract en parts).path)) [
        | inl excluded ↦
            rw (excluded, call) (forward-IsAnswering (extract en parts) parts none inner)
        | inr kept ↦ rw (kept, call) (guarded-IsAnswering (extract en parts) inner parts frames)
      ]

  -- The call replies to every request, and never panics: for every wrapped service, parts of a request, frames
  -- of its body and state of the world, where every status that the program and the engine's functions and
  -- stages answer with is a valid one, the rate-limit stage is installed, and a response processor that has CORS
  -- enabled carries its configuration.
  pub call-replies :
      StatusesValid en
      → StagesValid en layer
      → Expected en layer
      → (inner : Service en) (parts : Parts en) (frames : List Frame) (w : en.World)
      → (reply : Reply en) × ((call en layer inner parts frames w).0 ≡ stop reply)
  call-replies statuses stages there inner parts frames w =
      IsAnswering-reply (call en layer inner parts frames) w
        (call-IsSteady statuses stages there inner parts frames)
        (call-IsAnswering inner parts frames)
