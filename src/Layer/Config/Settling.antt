-- ===== src/Layer/Config/Settling.antt =====
-- Runs of the blocks of `GuardLayer::from_security_config` of `src/lib.rs` that go on or return early.
use tower_guard_rs.Base.{
  Bool, true, false, Option, none, some, List, [], ◌∷◌, if◌then◌else◌, Act, Flow, next, stop,
  panicked, continue, pure, perform, ◌>>=◌, ◌≡◌, refl,
}
use tower_guard_rs.Engine.{Engine}
use tower_guard_rs.Layer.{GuardLayer}
use tower_guard_rs.Layer.Config.{
  Result, ok, err, GuardConfigError, From, from_ip_gate, from_rate_limit, from_user_agent,
  Constructors,
}
use tower_guard_rs.Layer.Config.Wire.{attempt}

-- The first value that is there.
abbrev pub first : {A : Type 0} → List (Option A) → Option A
first [] = none
first (none ∷ rest) = first rest
first (some a ∷ rest) = some a

-- A run fails with exactly the given error, or goes on; it never panics.
abbrev pub Settles : {E L : Type 0} → Option E → Flow E L → Type 0
Settles (some e) r = r ≡ stop e
Settles {L = L} none r = (l : L) × (r ≡ next l)

module _ {W E L M : Type 0} where
  Settles-continue :
      (o : Option E) (rest : List (Option E)) (r : Flow E L) (f : L → Act W E M) (w : W)
      → Settles o r
      → ((l : L) → r ≡ next l → Settles (first rest) (f l w).0)
      → Settles (first (o ∷ rest)) (continue r f w).0
  Settles-continue none rest (next l) f w h k = k l refl
  Settles-continue (some e) rest (next l) f w h k = cc
  Settles-continue none rest (stop x) f w (l, h) k = cc
  Settles-continue (some e) rest (stop x) f w h k = cc
  Settles-continue none rest panicked f w (l, h) k = cc
  Settles-continue (some e) rest panicked f w h k = cc

  pub Settles-bind :
      (o : Option E) (rest : List (Option E)) (m : Act W E L) (f : L → Act W E M) (w : W)
      → Settles o (m w).0
      → ((l : L) → Settles (first rest) (f l (m w).1).0)
      → Settles (first (o ∷ rest)) ((m >>= f) w).0
  unfolding ◌>>=◌
  Settles-bind o rest m f w h k = Settles-continue o rest (m w).0 f (m w).1 h (λ l _. k l)

module _ (en : Engine) (lib : Constructors en) where
  -- What a constructor behind a test refuses with.
  abbrev pub refusal :
      {E A : Type 0}
      → Bool
      → (E → GuardConfigError lib.errors)
      → Result E A
      → Option (GuardConfigError lib.errors)
  refusal true from (err e) = some (from e)
  refusal true from (ok a) = none
  refusal false from made = none

  pub refusal-Settles :
      {E A : Type 0} (b : Bool) (conversion : From lib.errors E) (made : Result E A)
      (set : A → GuardLayer en) (layer : GuardLayer en) (w : en.World)
      → Settles
          (refusal b conversion.from made)
          ((if b then (do a ← attempt en lib conversion made; pure (set a)) else pure layer) w).0
  unfolding ◌>>=◌
  refusal-Settles true conversion (ok a) set layer w = (set a, refl)
  refusal-Settles true conversion (err e) set layer w = refl
  refusal-Settles false conversion made set layer w = (layer, refl)

  -- A constructor without a state leaves the world alone.
  pub refusal_world :
      {E A : Type 0} (b : Bool) (conversion : From lib.errors E) (made : Result E A)
      (set : A → GuardLayer en) (layer : GuardLayer en) (w : en.World)
      → ((if b then (do a ← attempt en lib conversion made; pure (set a)) else pure layer) w).1 ≡ w
  unfolding ◌>>=◌
  refusal_world true conversion (ok a) set layer w = refl
  refusal_world true conversion (err e) set layer w = refl
  refusal_world false conversion made set layer w = refl

  attempted-Settles :
      {E A : Type 0} (conversion : From lib.errors E) (made : Result E A × en.World)
      (set : A → GuardLayer en)
      → Settles
          (refusal true conversion.from made.0)
          ((do a ← attempt en lib conversion made.0; pure (set a)) made.1).0
  unfolding ◌>>=◌
  attempted-Settles conversion (ok a, u) set = (set a, refl)
  attempted-Settles conversion (err e, u) set = refl

  -- A constructor that reads the world, which the test leaves alone.
  pub stateful-Settles :
      {E A : Type 0} (b : Bool) (conversion : From lib.errors E)
      (make : en.World → Result E A × en.World) (set : A → GuardLayer en) (layer : GuardLayer en)
      (w u : en.World)
      → u ≡ w
      → Settles
          (refusal b conversion.from (make w).0)
          ((if b
              then (do made ← perform make; a ← attempt en lib conversion made; pure (set a))
              else pure layer)
            u).0
  unfolding ◌>>=◌
  stateful-Settles true conversion make set layer w u e =
      rw e (attempted-Settles conversion (make w) set)
  stateful-Settles false conversion make set layer w u e = (layer, refl)
