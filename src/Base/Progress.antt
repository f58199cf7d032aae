-- ===== src/Base/Progress.antt =====
-- Handlers that go on: from every world a handler gives a value, and leaves some world behind.
use mathlib.Core.Path.{◌≡◌, refl, ◌∙◌}
use mathlib.Core.Option.{Option, none, some}
use tower_guard_rs.Base.Tests.{map_or, and_then}
use tower_guard_rs.Base.Flows.{Act, next, pure, perform, effect, ◌>>=◌, bind-next}

pub record Goes {ℓ} {W R A : Type ℓ} (m : Act W R A) (a : A) : Type ℓ where
  pub runs : (w : W) → (u : W) × (m w ≡ (next a, u))

module _ {ℓ} {W R A : Type ℓ} where
  pub pure-Goes : (a : A) → Goes {W = W} {R = R} (pure a) a
  pure-Goes a = record { runs = λ w. (w, refl) }

  -- A call whose result does not depend on the world.
  pub perform-Goes : (m : W → A × W) (a : A) → ((w : W) → (m w).0 ≡ a) → Goes {R = R} (perform m) a
  perform-Goes m a h = record { runs = λ w. ((m w).1, λ i. (next (h w i), (m w).1)) }

module _ {ℓ} {W R : Type ℓ} where
  pub effect-Goes : (m : W → W) → Goes {R = R} (effect m) tt
  effect-Goes m = record { runs = λ w. (m w, refl) }

module _ {ℓ} {W R A B : Type ℓ} where
  pub bind-Goes :
      (m : Act W R A) (f : A → Act W R B) (a : A) (b : B)
      → Goes m a
      → Goes (f a) b
      → Goes (m >>= f) b
  bind-Goes m f a b first rest = record {
    runs = λ w. let (u, e) = first.runs w in let (v, k) = rest.runs u in (v, bind-next m f w e ∙ k);
  }

module _ {ℓ} {W R A : Type ℓ} where
  -- A check that is made where a stage is installed.
  pub map_or-Goes {κ} :
      {S : Type κ} (o : Option S) (f : S → Act W R A) (d : Act W R A) (a : A)
      → Goes d a
      → ((s : S) → o ≡ some s → Goes (f s) a)
      → Goes (map_or d f o) a
  map_or-Goes none f d a h k = h
  map_or-Goes (some s) f d a h k = k s refl

  -- A check on a setting of something optional that nobody has set.
  pub unset-Goes {κ} :
      {S T : Type κ} (o : Option S) (f : S → Option T) (k : T → Act W R A) (d : Act W R A) (a : A)
      → Goes d a
      → ((s : S) → o ≡ some s → f s ≡ none)
      → Goes (map_or d k (and_then o f)) a
  unset-Goes none f k d a h unset = h
  unset-Goes (some s) f k d a h unset = rw (unset s refl) h
