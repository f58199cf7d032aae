-- ===== src/Examples/Serving.antt =====
-- How both example servers, `examples/simple_app/src/main.rs` and `examples/advanced_app/src/main.rs`, hand
-- requests over: the body type `AppBody`, how the routers read it, and the readiness of the application. The
-- body that hyper receives, `Full`, and `collect` of the `http-body-util` crate are parameters.
use tower_guard_rs.Base.{
  ℕ, Text, Option, none, some, List, [], ◌∷◌, ◌++◌, map_or, append-nil, ◌≡◌, ◌↔◌, refl, ap,
}
use tower_guard_rs.Response.Body.{
  Polled, stalled, ended, bytes, trailer, failed, Body, IsFull, map_err, polls,
}
use tower_guard_rs.Stages.Service.{Readiness, pending, ready, broken}

pub data AppBody (B : Type 0) : Type 0 where
  wire : B → AppBody B
  buffered : Text → AppBody B

module _ {W E B BoxError : Type 0} (incoming : Body W E B) (full : Body W ⊥ Text)
    (boxed : E → BoxError) where
  unfoldable pub poll_frame : AppBody B → W → Polled BoxError × AppBody B × W
  unfolding map_err
  poll_frame (wire b) w =
      let (r, b', w') = incoming.poll_frame b w in (map_err boxed r, wire b', w')
  poll_frame (buffered t) w =
      let (r, t', w') = full.poll_frame t w in (map_err (λ e. absurd e) r, buffered t', w')

  unfoldable pub from : Text → AppBody B
  from t = buffered t

  -- The data in front of the end of a body; `none` where it has not ended, or with an error.
  abbrev pub gathered : List (Polled BoxError) → Option Text
  gathered [] = none
  gathered (stalled ∷ rs) = gathered rs
  gathered (ended ∷ rs) = some []
  gathered (bytes b ∷ rs) = map_or none (λ t. some (b ++ t)) (gathered rs)
  gathered (trailer ∷ rs) = gathered rs
  gathered (failed e ∷ rs) = none

  -- What `collect` documents: it polls to the end, and resolves to all the data.
  abbrev pub Collects : (AppBody B → W → Option Text × W) → Type 0
  Collects collect =
      (n : ℕ) (body : AppBody B) (w : W) (t : Text)
      → gathered (polls poll_frame n body w).0 ≡ some t
      → (collect body w).0 ≡ some t

  module _ (collect : AppBody B → W → Option Text × W) where
    -- A body that breaks off is read as an empty one.
    unfoldable pub read_body : AppBody B → W → Text × W
    read_body body w = let (collected, w') = collect body w in (map_or [] (λ t. t) collected, w')

    buffered-gathered :
        (t : Text) (w : W) → IsFull full → gathered (polls poll_frame 2 (from t) w).0 ≡ some t
    unfolding poll_frame from map_err
    buffered-gathered [] w laws = rw (laws.end w) refl
    buffered-gathered (c ∷ t) w laws =
        rw (laws.chunk (c ∷ t) w refl, laws.end w) (ap some (append-nil (c ∷ t)))

    -- A router reads the very bytes that the guard has rebuilt the body from.
    pub read_body-from :
        (t : Text) (w : W) → IsFull full → Collects collect → (read_body (from t) w).0 ≡ t
    unfolding read_body
    read_body-from t w laws collects =
        ap (map_or [] (λ t. t)) (collects 2 (from t) w t (buffered-gathered t w laws))

module _ {W E : Type 0} where
  -- `poll_ready` of the routers.
  unfoldable pub router_ready : W → Readiness E × W
  router_ready w = (ready, w)

  -- `if general.poll_ready(cx)?.is_pending() { return Pending; } admin.poll_ready(cx)`.
  abbrev and_ready : Readiness E → (W → Readiness E × W) → W → Readiness E × W
  and_ready pending admin w = (pending, w)
  and_ready (broken e) admin w = (broken e, w)
  and_ready ready admin w = admin w

  -- `poll_ready` of the application with two trees: the second is asked where the first is ready.
  unfoldable pub both_ready : (W → Readiness E × W) → (W → Readiness E × W) → W → Readiness E × W
  both_ready general admin w = let (r, w1) = general w in and_ready r admin w1

  and_ready-ready :
      (r : Readiness E) (admin : W → Readiness E × W) (w v : W)
      → (and_ready r admin w ≡ (ready, v)) ↔ (r ≡ ready) × (admin w ≡ (ready, v))
  and_ready-ready pending admin w v = (λ h. cc, λ h. cc (h.0))
  and_ready-ready (broken e) admin w v = (λ h. cc, λ h. cc (h.0))
  and_ready-ready ready admin w v = (λ h. (refl, h), λ h. h.1)

  -- The application is ready exactly where both trees are, the second in the world of the first.
  pub both_ready-ready :
      (general admin : W → Readiness E × W) (w v : W)
      → (both_ready general admin w ≡ (ready, v))
        ↔ ((general w).0 ≡ ready) × (admin (general w).1 ≡ (ready, v))
  unfolding both_ready
  both_ready-ready general admin w v = and_ready-ready (general w).0 admin (general w).1 v
