-- ===== src/Service/Respond/Laws.antt =====
-- The response-side pass of `src/service.rs`, and what the guard's own answers keep.
use tower_guard_rs.Base.{
  ℕ, Text, true, Option, none, some, map_or, and_then, Option-cases, inl, inr, next, ◌≡◌, ◌≢◌, refl,
  arith,
}
use tower_guard_rs.Http.{status_from_u16}
use tower_guard_rs.Engine.{Engine, ResponseBits}
use tower_guard_rs.Layer.{Modified, GuardLayer}
use tower_guard_rs.Request.{Parts}
use tower_guard_rs.Response.{Response, generated}
use tower_guard_rs.Service.Respond.{
  ResponseLane, generated_lane, ProcessorInput, apply_response_processor, finish_generated, answer,
  block_response, oversize_response, failure_response,
}

module _ (en : Engine) (parts : Parts en) (layer : GuardLayer en) {A : Type 0} (a : A) where
  pub answer-ne-next :
      (r : Response en Text) (w : en.World) → (answer en parts layer r w).0 ≢ next a
  unfolding answer
  answer-ne-next r w = cc

  pub block_response-ne-next :
      (status : ℕ) (body : Text) (w : en.World)
      → (block_response en parts layer status body w).0 ≢ next a
  unfolding block_response
  block_response-ne-next status body w = ground arith

  pub oversize_response-ne-next : (w : en.World) → (oversize_response en parts layer w).0 ≢ next a
  unfolding oversize_response
  oversize_response-ne-next w = answer-ne-next _ w

  pub failure_response-ne-next : (w : en.World) → (failure_response en parts layer w).0 ≢ next a
  unfolding failure_response
  failure_response-ne-next w = answer-ne-next _ w

module _ (en : Engine) where
  -- A status that lands is valid, or it is the one that was there.
  landed-valid :
      (m : Option ℕ) (d : ℕ)
      → en.http.valid_status d ≡ true
      → en.http.valid_status (map_or d (λ code. code) (and_then m (status_from_u16 en.http))) ≡ true
  landed-valid none d h = h
  landed-valid (some n) d h = ground arith

  -- A guard answer keeps its body whatever the response processor and the modifier do, and a valid
  -- status stays valid.
  pub finish_generated-keeps :
      (parts : Parts en) (layer : GuardLayer en) (r : Response en Text) (w : en.World)
      → en.http.valid_status r.status ≡ true
      → ((finish_generated en parts layer r w).0.body ≡ generated r.body)
        × (en.http.valid_status (finish_generated en parts layer r w).0.status ≡ true)
  unfolding finish_generated
  finish_generated-keeps parts layer r w h = (refl, landed-valid _ r.status h)

  -- On the lane of the guard's own answers no event goes out: the pass is the same, and leaves the
  -- same world, with the event bus removed.
  pub apply_response_processor-generated :
      (layer : GuardLayer en) (input : ProcessorInput) (status : ℕ) (headers : en.http.HeaderMap)
      (w : en.World)
      → apply_response_processor en layer input status headers generated_lane w
        ≡ apply_response_processor en
            (record layer { events = none })
            input
            status
            headers
            generated_lane
            w
  unfolding apply_response_processor
  apply_response_processor-generated layer input status headers w =
      elim (Option-cases (layer.response_processor)) [
        | inl off ↦ rw (off, apply_response_processor)
        | inr (p, on) ↦ rw (on, apply_response_processor)
      ]

  -- Where the response modifier panics on every view, the status and the headers of the response are
  -- those of a layer without a modifier, whatever it has written into the view before it panicked.
  pub apply_response_processor-panicked :
      (layer : GuardLayer en) (input : ProcessorInput) (status : ℕ) (headers : en.http.HeaderMap)
      (lane : ResponseLane) (w : en.World)
      (modifier : ResponseBits → en.World → Modified × en.World)
      → layer.response_modifier ≡ some modifier
      → ((bits : ResponseBits) (v : en.World) → (modifier bits v).0.is_err ≡ true)
      → (apply_response_processor en layer input status headers lane w).0
        ≡ (apply_response_processor en
            (record layer { response_modifier = none })
            input
            status
            headers
            lane
            w).0
  unfolding apply_response_processor
  apply_response_processor-panicked layer input status headers lane w modifier e panics =
      elim (Option-cases (layer.response_processor)) [
        | inl off ↦ rw (off, apply_response_processor)
        | inr (p, on) ↦ rw (on, e, apply_response_processor) (rw panics)
      ]
