-- ===== src/Stages/Judged.antt =====
-- The first verdict of a list of stage layers of `src/stages.rs`, and the fold that stacks them.
use tower_guard_rs.Base.{Text, Option, none, some, List, [], ◌∷◌, ◌++◌, ◌≡◌, refl}
use tower_guard_rs.Engine.{Engine}
use tower_guard_rs.Engine.Stages.{Call}
use tower_guard_rs.Request.{Parts, RequestFacts, extract, header_pairs}
use tower_guard_rs.Stages.{StageVerdict, GuardStageLayer, Tower, decide, settle}

abbrev pub reversed {ℓ} : {A : Type ℓ} → List A → List A
reversed [] = []
reversed (x ∷ xs) = reversed xs ++ x ∷ []

abbrev pub fold {ℓ κ} : {A : Type ℓ} {B : Type κ} → (B → A → B) → B → List A → B
fold f b [] = b
fold f b (x ∷ xs) = fold f (f b x) xs

pub fold-snoc {ℓ κ} :
    {A : Type ℓ} {B : Type κ} (f : B → A → B) (b : B) (xs : List A) (x : A)
    → fold f b (xs ++ x ∷ []) ≡ f (fold f b xs) x
fold-snoc f b [] x = refl
fold-snoc f b (y ∷ xs) x = fold-snoc f (f b y) xs x

module _ (en : Engine) where
  abbrev pub or_later :
      Option StageVerdict → Call en (Option StageVerdict) → Call en (Option StageVerdict)
  or_later none later w = later w
  or_later (some verdict) later w = (some verdict, w)

  -- The first verdict of a list of stages, each asked in the world that the ones before it left.
  abbrev pub first_verdict :
      List (GuardStageLayer en)
      → RequestFacts en
      → List (Text × Text)
      → Call en (Option StageVerdict)
  first_verdict [] facts headers w = (none, w)
  first_verdict (stage ∷ stages) facts headers w =
      let (verdict, w') = decide en stage facts headers w in
      or_later verdict (first_verdict stages facts headers) w'

module _ (en : Engine) {B : Type 0} (from_text : Text → B) {Body : Type 0} where
  abbrev pub judged : List (GuardStageLayer en) → Tower en from_text Body → Tower en from_text Body
  judged layers inner parts body w =
      let (verdict, w') =
        first_verdict en layers (extract en parts) (header_pairs en parts.headers) w in
      settle en from_text verdict inner parts body w'

  -- A gate in front of a service that answers as the later layers do.
  pub gate-judged :
      (verdict : Option StageVerdict) (layers : List (GuardStageLayer en))
      (service inner : Tower en from_text Body) (parts : Parts en) (body : Body) (w : en.World)
      → service parts body w ≡ judged layers inner parts body w
      → settle en from_text verdict service parts body w ≡ (
          let (final, w') =
            or_later en verdict
              (first_verdict en layers (extract en parts) (header_pairs en parts.headers))
              w in
          settle en from_text final inner parts body w')
  gate-judged none layers service inner parts body w same = same
  gate-judged (some verdict) layers service inner parts body w same = refl
