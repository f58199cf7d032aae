-- ===== src/Layer/Config/Steps.antt =====
-- The blocks of `GuardLayer::from_security_config` of `src/lib.rs`, one at a time: what each of
-- them has installed when it goes on.
use tower_guard_rs.Base.{
  ℕ, Text, Bool, true, false, not, Option, none, some, is_empty, is_some, if◌then◌else◌, Bool-cases,
  Option-cases, map_option, ◌||◌, next, pure, perform, ◌>>=◌, pure-eq-next, ◌≡◌, ◌⊎◌, refl, sym, ap,
  ◌∙◌, inl, inr, List, [], ◌∷◌,
}
use tower_guard_rs.Engine.{Engine}
use tower_guard_rs.Engine.Stages.{RequestLoggingStage}
use tower_guard_rs.Layer.{GuardLayer, ObservabilityConfig}
use tower_guard_rs.Layer.Config.{
  Result, ok, err, From, from_ip_gate, from_user_agent, LogLevel, Constructors, SecurityConfig,
}
use tower_guard_rs.Layer.Config.Wire.{
  Build, attempt, wire_error_responses, wire_on_block, wants_exclusions, exclusions, map_log_level,
  sensitive_names, wire_exclusions, wire_request_logging, observing, wire_observability,
}

-- What a block guarded by a test leaves: the constructor's value, or nothing.
abbrev pub Installs : {E A : Type 0} → Bool → Result E A → Option A → Type 0
Installs {A = A} true made o = (a : A) × (made ≡ ok a) × (o ≡ some a)
Installs false made o = o ≡ none

module _ {W A : Type 0} where
  -- The same for a constructor that runs on some world.
  abbrev pub Performs : Bool → (W → A × W) → Option A → Type 0
  Performs true make o = (w : W) × (o ≡ some (make w).0)
  Performs false make o = o ≡ none

  -- And for one that may fail there.
  abbrev pub Attempts : {E : Type 0} → Bool → (W → Result E A × W) → Option A → Type 0
  Attempts true make o = (w : W) × (a : A) × ((make w).0 ≡ ok a) × (o ≡ some a)
  Attempts false make o = o ≡ none

module _ (en : Engine) (lib : Constructors en) where
  abbrev performing :
      {A : Type 0} → (en.World → A × en.World) → (A → GuardLayer en) → Build en lib (GuardLayer en)
  performing make set = do a ← perform make; pure (set a)

  -- The operator `?` goes on with what was made.
  pub attempt-next :
      {E A : Type 0} (conversion : From lib.errors E) (made : Result E A)
      (rest : A → Build en lib (GuardLayer en)) (w : en.World) {l : GuardLayer en} {v : en.World}
      → (attempt en lib conversion made >>= rest) w ≡ (next l, v)
      → (a : A) × (made ≡ ok a) × (rest a w ≡ (next l, v))
  unfolding ◌>>=◌
  attempt-next conversion (ok a) rest w h = (a, refl, h)
  attempt-next conversion (err e) rest w h = cc

  -- A block behind a test ran, or left the layer and the world.
  pub guarded-eq-next :
      (b : Bool) (block : Build en lib (GuardLayer en)) (layer : GuardLayer en) (w : en.World)
      {l : GuardLayer en} {v : en.World}
      → (if b then block else pure layer) w ≡ (next l, v)
      → ((b ≡ true) × (block w ≡ (next l, v))) ⊎ ((b ≡ false) × (layer ≡ l))
  guarded-eq-next true block layer w h = inl (refl, h)
  guarded-eq-next false block layer w h = inr (refl, pure-eq-next layer w h)

module _ (en : Engine) (lib : Constructors en) {A : Type 0}
    (set : GuardLayer en → A → GuardLayer en) (put : Option A → GuardLayer en)
    (sets : (a : A) → set (put none) a ≡ put (some a)) {layer : GuardLayer en}
    (before : layer ≡ put none) (b : Bool) (w : en.World) {l : GuardLayer en} {v : en.World} where
  -- A block that installs what one constructor makes.
  pub install-eq-next :
      {E : Type 0} (conversion : From lib.errors E) (made : Result E A)
      → (if b then (do a ← attempt en lib conversion made; pure (set layer a)) else pure layer) w
        ≡ (next l, v)
      → (o : Option A) × Installs b made o × (l ≡ put o)
  install-eq-next conversion made h =
      elim (guarded-eq-next en lib b (do a ← attempt en lib conversion made; pure (set layer a))
        layer w h) [
          | inr (off, e) ↦ (none, rw off refl, sym e ∙ before)
          | inl (on, ran) ↦
              let (a, m, e) = attempt-next en lib conversion made _ w ran in
              (
                some a,
                rw on (a, m, refl),
                sym (pure-eq-next _ w e) ∙ ap (λ x. set x a) before ∙ sets a,
              )
        ]

  -- A block that cannot fail, and runs on the world.
  pub perform-eq-next :
      (make : en.World → A × en.World)
      → (if b then performing en lib make (set layer) else pure layer) w ≡ (next l, v)
      → (o : Option A) × Performs b make o × (l ≡ put o)
  unfolding ◌>>=◌
  perform-eq-next make h =
      elim (guarded-eq-next en lib b (performing en lib make (set layer)) layer w h) [
        | inr (off, e) ↦ (none, rw off refl, sym e ∙ before)
        | inl (on, ran) ↦ (
          some (make w).0,
          rw on (w, refl),
          sym (pure-eq-next _ (make w).1 ran) ∙ ap (λ x. set x (make w).0) before ∙ sets (make w).0,
        )
      ]

  -- A block whose constructor runs on the world and may fail.
  pub attempt-eq-next :
      {E : Type 0} (conversion : From lib.errors E) (make : en.World → Result E A × en.World)
      → (if b
            then (do made ← perform make; a ← attempt en lib conversion made; pure (set layer a))
            else pure layer)
          w
        ≡ (next l, v)
      → (o : Option A) × Attempts b make o × (l ≡ put o)
  unfolding ◌>>=◌
  attempt-eq-next conversion make h =
      elim (guarded-eq-next en lib b
        (do made ← perform make; a ← attempt en lib conversion made; pure (set layer a)) layer w
        h) [
          | inr (off, e) ↦ (none, rw off refl, sym e ∙ before)
          | inl (on, ran) ↦
              let (a, m, e) = attempt-next en lib conversion (make w).0 _ (make w).1 ran in
              (
                some a,
                rw on (w, a, m, refl),
                sym (pure-eq-next _ (make w).1 e) ∙ ap (λ x. set x a) before ∙ sets a,
              )
        ]

module _ (en : Engine) (lib : Constructors en) (config : SecurityConfig en) where
  -- The exclusions: where one of the four sets has an entry.
  abbrev pub exclusions_of : Option en.DetectionExclusionConfig
  exclusions_of =
      if not (is_empty config.excluded_detection_headers)
        || not (is_empty config.excluded_detection_params)
        || not (is_empty config.excluded_detection_body_fields)
        || not (is_empty config.enabled_detection_categories)
      then some (
          lib.detection_exclusions (record {
            excluded_detection_headers = config.excluded_detection_headers;
            excluded_detection_params = config.excluded_detection_params;
            excluded_detection_body_fields = config.excluded_detection_body_fields;
            enabled_detection_categories =
                if not (is_empty config.enabled_detection_categories)
                then some config.enabled_detection_categories
                else none;
            detection_scan_body = some config.detection_scan_body;
          }))
      else none

  -- The names that are redacted.
  abbrev pub redacted : en.SensitiveNames
  redacted =
      lib.new_sensitive_names (some config.log_sensitive_headers) (some config.log_sensitive_params)
        (some config.log_sensitive_body_fields)

  -- The two that log, over a map of the levels.
  abbrev pub logging_of : (LogLevel → en.LogLevel) → Option (RequestLoggingStage en)
  logging_of level_of =
      map_option
        (λ level. lib.new_request_logging (record {
          log_request_level = some (level_of level);
          muted_check_logs = some config.muted_check_logs;
          sensitive = redacted;
        }))
        config.log_request_level

  abbrev pub observability_of : (LogLevel → en.LogLevel) → Option (ObservabilityConfig en)
  observability_of level_of =
      if is_some config.log_suspicious_level || is_some config.log_country_check_level
      then some (record {
        log_suspicious_level = map_option level_of config.log_suspicious_level;
        log_request_level = map_option level_of config.log_request_level;
        log_country_check_level = map_option level_of config.log_country_check_level;
        muted_check_logs = some config.muted_check_logs;
        sensitive = redacted;
      })
      else none

module _ (en : Engine) (lib : Constructors en) (config : SecurityConfig en)
    (layer : GuardLayer en) where
  -- The blocks that report, on a layer that has none of theirs.
  pub wire_error_responses_sets :
      layer.custom_error_responses ≡ []
      → wire_error_responses en lib config layer
        ≡ record layer { custom_error_responses = config.custom_error_responses }
  unfolding wire_error_responses
  wire_error_responses_sets off = wire (config.custom_error_responses)
    where
      wire :
          (responses : List (ℕ × Text))
          → (if not (is_empty responses)
              then record layer { custom_error_responses = responses }
              else layer)
            ≡ record layer { custom_error_responses = responses }
      wire [] = λ i. record layer { custom_error_responses = off i }
      wire (r ∷ responses) = refl

  pub wire_on_block_sets :
      layer.on_block ≡ none
      → wire_on_block en lib config layer ≡ record layer { on_block = config.on_block }
  unfolding wire_on_block
  wire_on_block_sets off = elim (Option-cases (config.on_block)) [
    | inl e ↦ rw e (λ i. record layer { on_block = off i })
    | inr (hook, e) ↦ rw e refl
  ]

  pub wire_exclusions_sets :
      layer.detection_exclusions ≡ none
      → wire_exclusions en lib config layer
        ≡ record layer { detection_exclusions = exclusions_of en lib config }
  unfolding wire_exclusions wants_exclusions exclusions
  wire_exclusions_sets off = elim (Bool-cases (wants_exclusions en lib config)) [
    | inl e ↦ rw e refl
    | inr e ↦ rw e (λ i. record layer { detection_exclusions = off i })
  ]

  pub wire_request_logging_sets :
      layer.request_logging ≡ none
      → wire_request_logging en lib config layer
        ≡ record layer { request_logging = logging_of en lib config (map_log_level en lib) }
  unfolding wire_request_logging sensitive_names
  wire_request_logging_sets off = elim (Option-cases (config.log_request_level)) [
    | inl e ↦ rw e (λ i. record layer { request_logging = off i })
    | inr (level, e) ↦ rw e refl
  ]

  pub wire_observability_sets :
      layer.observability ≡ none
      → wire_observability en lib config layer
        ≡ record layer { observability = observability_of en lib config (map_log_level en lib) }
  unfolding wire_observability observing sensitive_names
  wire_observability_sets off = elim (Option-cases (config.log_suspicious_level)) [
    | inr (level, e) ↦ rw e refl
    | inl e ↦ elim (Option-cases (config.log_country_check_level)) [
      | inr (country, k) ↦ rw (e, k) refl
      | inl k ↦ rw (e, k) (λ i. record layer { observability = off i })
    ]
  ]
