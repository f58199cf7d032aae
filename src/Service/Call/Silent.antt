-- ===== src/Service/Call/Silent.antt =====
-- Stages that had no answer, in the checks of `GuardService::call` of `src/service.rs` that went on.
pub mod Admitted
pub mod Inspected
pub mod Enforced
pub mod Vetted
use mathlib.Core.Option.{some-injective}
use tower_guard_rs.Base.{
  Option, none, some, map_or, next, pure, perform, ◌>>=◌, Option-cases, inl, inr, subst, ap, Flow,
  ◌≡◌, ◌≢◌,
}
use tower_guard_rs.Engine.{Engine}
use tower_guard_rs.Engine.Stages.{Call}
use tower_guard_rs.Service.Respond.{Handler}

module _ (en : Engine) where
  -- The call had no answer in the world that it was made in.
  abbrev pub Silent : {A : Type 0} → Call en (Option A) → Type 0
  Silent m = (u : en.World) × ((m u).0 ≡ none)

  -- The stage, where it is installed, was asked and had no answer.
  abbrev pub StageSilent : {S A : Type 0} → Option S → (S → Call en (Option A)) → Type 0
  StageSilent {S = S} o decide = (s : S) → o ≡ some s → Silent (decide s)

  -- A step that ends the call where there is an answer.
  abbrev pub Ends : {A : Type 0} → (Option A → Handler en (Unit {0})) → Type 0
  Ends {A = A} block = (a : A) (w : en.World) → (block (some a) w).0 ≢ next tt

  module _ {A : Type 0} (block : Option A → Handler en (Unit {0})) (ends : Ends block)
      (w : en.World) {v : en.World} where
    pub block-none : (o : Option A) → block o w ≡ (next tt, v) → o ≡ none
    block-none o h = elim (Option-cases o) [
      | inl e ↦ e
      | inr (a, e) ↦ absurd (ends a w (ap (λ x. x.0) (subst (λ p. block p w ≡ (next tt, v)) e h)))
    ]

  module _ {A : Type 0} (block : Option A → Handler en (Unit {0})) (ends : Ends block)
      (w : en.World) {v : en.World} where
    pub perform-Silent :
        (m : Call en (Option A)) → (perform m >>= block) w ≡ (next tt, v) → Silent m
    unfolding ◌>>=◌
    perform-Silent m h = (w, block-none block ends (m w).1 (m w).0 h)

    pub stage-Silent :
        {S : Type 0} (o : Option S) (decide : S → Call en (Option A))
        → map_or (pure tt) (λ s. perform (decide s) >>= block) o w ≡ (next tt, v)
        → StageSilent o decide
    stage-Silent none decide h s e = cc
    stage-Silent (some t) decide h s e =
        subst (λ x. Silent (decide x)) (some-injective t s e) (perform-Silent (decide t) h)

    -- The same where a check without its stage does something else.
    pub stage_or-Silent :
        {S : Type 0} (o : Option S) (decide : S → Call en (Option A)) (d : Handler en (Unit {0}))
        → map_or d (λ s. perform (decide s) >>= block) o w ≡ (next tt, v)
        → StageSilent o decide × (o ≡ none → d w ≡ (next tt, v))
    stage_or-Silent none decide d h = (λ s e. cc, λ e. h)
    stage_or-Silent (some t) decide d h = (stage-Silent (some t) decide h, λ e. cc)
