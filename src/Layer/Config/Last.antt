-- ===== src/Layer/Config/Last.antt =====
-- The last two blocks of `GuardLayer::from_security_config` of `src/lib.rs`: the user-agent stage and
-- the response processor.
use tower_guard_rs.Base.{
  not, Option, none, some, is_empty, next, ◌>>=◌, pure-eq-next, ◌≡◌, refl, sym, ap, ◌∙◌, inl, inr,
}
use tower_guard_rs.Engine.{Engine}
use tower_guard_rs.Engine.Stages.{UserAgentStage, ResponseProcessor}
use tower_guard_rs.Layer.{GuardLayer}
use tower_guard_rs.Layer.Builders.{with_user_agent, with_response_processor}
use tower_guard_rs.Layer.Config.{
  from_ip_gate, from_rate_limit, from_user_agent, Constructors, SecurityConfig,
}
use tower_guard_rs.Layer.Config.Wire.{install_user_agent, wire_user_agent}
use tower_guard_rs.Layer.Config.Described.{
  make_processor, asks_processor, InstallsAgents, user_agent_settings,
}
use tower_guard_rs.Layer.Config.Whole.{wants_processor, cors, install_processor, wire_processor}
use tower_guard_rs.Layer.Config.Steps.{Performs, attempt-next, guarded-eq-next}

module _ (en : Engine) (lib : Constructors en) (config : SecurityConfig en) where
  pub user_agent-eq-next :
      (put : Option (UserAgentStage en) → GuardLayer en) {layer : GuardLayer en} (w : en.World)
      {l : GuardLayer en} {v : en.World}
      → layer ≡ put none
      → ((a : UserAgentStage en) → with_user_agent en (put none) a ≡ put (some a))
      → wire_user_agent en lib config layer w ≡ (next l, v)
      → (o : Option (UserAgentStage en)) × InstallsAgents en lib config
          (not (is_empty config.blocked_user_agents))
          o
        × (l ≡ put o)
  unfolding wire_user_agent
  user_agent-eq-next put {layer} w before sets h =
      elim (guarded-eq-next en lib (not (is_empty config.blocked_user_agents))
        (install_user_agent en lib config layer) layer w h) [
          | inr (off, e) ↦ (none, rw off refl, sym e ∙ before)
          | inl (on, ran) ↦
              let (filter, f, rest) =
                attempt-next en lib (from_user_agent lib.errors)
                  (lib.new_user_agent_filter config.blocked_user_agents) _ w ran in
              let (stage, s, e) =
                attempt-next en lib lib.user_agent_from
                  (lib.build_user_agent (user_agent_settings en lib config filter)) _ w rest in
              (
                some stage,
                rw on (filter, stage, f, s, refl),
                sym (pure-eq-next _ w e) ∙ ap (λ x. with_user_agent en x stage) before ∙ sets stage,
              )
        ]

  pub processor-eq-next :
      (put : Option (ResponseProcessor en) → GuardLayer en) {layer : GuardLayer en} (w : en.World)
      {l : GuardLayer en} {v : en.World}
      → layer ≡ put none
      → ((a : ResponseProcessor en) → with_response_processor en (put none) a ≡ put (some a))
      → wire_processor en lib config layer w ≡ (next l, v)
      → (o : Option (ResponseProcessor en)) × Performs
          (asks_processor en lib config)
          (make_processor en lib config)
          o
        × (l ≡ put o)
  unfolding wire_processor wants_processor install_processor cors ◌>>=◌
  processor-eq-next put {layer} w before sets h =
      elim (guarded-eq-next en lib (asks_processor en lib config)
        (install_processor en lib config layer) layer w h) [
          | inr (off, e) ↦ (none, rw off refl, sym e ∙ before)
          | inl (on, ran) ↦
              let made = make_processor en lib config w in
              (
                some made.0,
                rw on (w, refl),
                sym (pure-eq-next _ made.1 ran)
                    ∙ ap (λ x. with_response_processor en x made.0) before
                    ∙ sets made.0,
              )
        ]
