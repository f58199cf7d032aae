-- ===== src/Service/Call/Lenient/Answers.antt =====
-- How a check of `GuardService::call` of `src/service.rs` ends a request: with a response of the guard's own,
-- which goes through the response-side pass.
use tower_guard_rs.Base.{Text, ℕ, true, ◌>>=◌, bind-next, Goes, ◌≡◌, refl, ◌∙◌}
use tower_guard_rs.Engine.{Engine}
use tower_guard_rs.Layer.{GuardLayer}
use tower_guard_rs.Request.{Parts}
use tower_guard_rs.Response.{Response, plain_text, blocked_with_body, oversize, failure}
use tower_guard_rs.Service.Respond.{
  Handler, answer, block_response, oversize_response, failure_response,
}

module _ (en : Engine) (parts : Parts en) (layer : GuardLayer en) where
  -- The handler answers with the response, in whatever world it is reached.
  pub record Answers {A : Type 0} (m : Handler en A) (r : Response en Text) : Type 0 where
    pub runs : (w : en.World) → (u : en.World) × (m w ≡ answer en parts layer r u)

  answer-bind :
      {A B : Type 0} (r : Response en Text) (f : A → Handler en B) (u : en.World)
      → (answer en parts layer r >>= f) u ≡ answer en parts layer r u
  unfolding answer ◌>>=◌
  answer-bind r f u = refl

  pub bind-eq :
      {A B : Type 0} (m : Handler en A) (f : A → Handler en B) (r : Response en Text)
      (w u : en.World)
      → m w ≡ answer en parts layer r u
      → (m >>= f) w ≡ answer en parts layer r u
  unfolding answer ◌>>=◌
  bind-eq m f r w u e = rw e refl

  -- An answer ends the request.
  pub bind-Answers :
      {A B : Type 0} (m : Handler en A) (f : A → Handler en B) (r : Response en Text)
      → Answers m r
      → Answers (m >>= f) r
  bind-Answers m f r h = record { runs = λ w. let (u, e) = h.runs w in (u, bind-eq m f r w u e) }

  pub then-Answers :
      {A B : Type 0} (m : Handler en A) (f : A → Handler en B) (a : A) (r : Response en Text)
      → Goes m a
      → Answers (f a) r
      → Answers (m >>= f) r
  then-Answers m f a r first h = record {
    runs = λ w. let (u, e) = first.runs w in let (v, k) = h.runs u in (v, bind-next m f w e ∙ k);
  }

  pub block_response-Answers :
      {A : Type 0} (status : ℕ) (body : Text)
      → en.http.valid_status status ≡ true
      → Answers (block_response en {A = A} parts layer status body) (plain_text en status body)
  unfolding block_response blocked_with_body
  block_response-Answers status body valid = record {
    runs = λ w. (w, rw (valid, block_response) refl);
  }

  pub oversize_response-Answers :
      {A : Type 0} → Answers (oversize_response en {A = A} parts layer) (oversize en)
  unfolding oversize_response
  oversize_response-Answers = record { runs = λ w. (w, refl) }

  pub failure_response-Answers :
      {A : Type 0} → Answers (failure_response en {A = A} parts layer) (failure en)
  unfolding failure_response
  failure_response-Answers = record { runs = λ w. (w, refl) }

  pub answer-Answers :
      {A : Type 0} (r : Response en Text) → Answers (answer en {A = A} parts layer r) r
  answer-Answers r = record { runs = λ w. (w, refl) }
