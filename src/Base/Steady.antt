-- ===== src/Base/Steady.antt =====
-- Handlers that never panic.
use mathlib.Core.Path.{◌≡◌, refl}
use mathlib.Core.Logic.{◌≢◌}
use mathlib.Core.Bool.{Bool, true, false}
use mathlib.Core.Option.{Option, none, some}
use tower_guard_rs.Base.Tests.{map_or, if◌then◌else◌}
use tower_guard_rs.Base.Flows.{
  Act, Flow, next, stop, panicked, pure, return, perform, effect, expect, continue, ◌>>=◌,
}

pub record IsSteady {ℓ} {W R A : Type ℓ} (m : Act W R A) : Type ℓ where
  pub runs : (w : W) → (m w).0 ≢ panicked

module _ {ℓ} {W R A : Type ℓ} where
  pub pure-IsSteady : (a : A) → IsSteady {W = W} {R = R} (pure a)
  pure-IsSteady a = record { runs = λ w e. cc }

  pub return-IsSteady : (r : R) → IsSteady {W = W} {A = A} (return r)
  return-IsSteady r = record { runs = λ w e. cc }

  pub expect-IsSteady : (o : Option A) (a : A) → o ≡ some a → IsSteady {W = W} {R = R} (expect o)
  expect-IsSteady none a e = cc
  expect-IsSteady (some b) a e = pure-IsSteady b

  pub if-IsSteady :
      (b : Bool) (m k : Act W R A)
      → (b ≡ true → IsSteady m)
      → (b ≡ false → IsSteady k)
      → IsSteady (if b then m else k)
  if-IsSteady true m k f g = f refl
  if-IsSteady false m k f g = g refl

  pub elim-IsSteady {κ} :
      {S : Type κ} (o : Option S) (d : Act W R A) (f : S → Act W R A)
      → IsSteady d
      → ((s : S) → o ≡ some s → IsSteady (f s))
      → IsSteady (elim o [ none ↦ d | some s ↦ f s ])
  elim-IsSteady none d f h k = h
  elim-IsSteady (some s) d f h k = k s refl

  pub map_or-IsSteady {κ} :
      {S : Type κ} (o : Option S) (d : Act W R A) (f : S → Act W R A)
      → IsSteady d
      → ((s : S) → o ≡ some s → IsSteady (f s))
      → IsSteady (map_or d f o)
  map_or-IsSteady none d f h k = h
  map_or-IsSteady (some s) d f h k = k s refl

module _ {ℓ} {W R : Type ℓ} where
  pub effect-IsSteady : (m : W → W) → IsSteady {R = R} (effect m)
  effect-IsSteady m = record { runs = λ w e. cc }

module _ {ℓ} {W R A B : Type ℓ} where
  continue-steady :
      (r : Flow R A) (w : W) (f : A → Act W R B)
      → r ≢ panicked
      → ((a : A) → IsSteady (f a))
      → (continue r f w).0 ≢ panicked
  continue-steady (next a) w f h k = (k a).runs w
  continue-steady (stop r) w f h k = λ e. cc
  continue-steady panicked w f h k = absurd (h refl)

  pub bind-IsSteady :
      (m : Act W R A) (f : A → Act W R B)
      → IsSteady m
      → ((a : A) → IsSteady (f a))
      → IsSteady (m >>= f)
  unfolding ◌>>=◌
  bind-IsSteady m f h k = record { runs = λ w. continue-steady (m w).0 (m w).1 f (h.runs w) k }

  -- What a call gives is known in the world that it is made in.
  pub perform-IsSteady :
      (m : W → A × W) (f : A → Act W R B)
      → ((w : W) → IsSteady (f (m w).0))
      → IsSteady (perform m >>= f)
  unfolding ◌>>=◌
  perform-IsSteady m f k = record { runs = λ w. (k w).runs (m w).1 }

-- A handler that answers: it returns early, whatever the world.
pub record IsAnswering {ℓ} {W R A : Type ℓ} (m : Act W R A) : Type ℓ where
  pub ends : (w : W) (a : A) → (m w).0 ≢ next a

module _ {ℓ} {W R A B : Type ℓ} where
  continue-answering :
      (r : Flow R A) (w : W) (f : A → Act W R B) (b : B)
      → ((a : A) → IsAnswering (f a))
      → (continue r f w).0 ≢ next b
  continue-answering (next a) w f b k = (k a).ends w b
  continue-answering (stop r) w f b k = λ e. cc
  continue-answering panicked w f b k = λ e. cc

  pub bind-IsAnswering :
      (m : Act W R A) (f : A → Act W R B) → ((a : A) → IsAnswering (f a)) → IsAnswering (m >>= f)
  unfolding ◌>>=◌
  bind-IsAnswering m f k = record { ends = λ w b. continue-answering (m w).0 (m w).1 f b k }

module _ {ℓ} {R A : Type ℓ} where
  reply_of : (r : Flow R A) → r ≢ panicked → ((a : A) → r ≢ next a) → (reply : R) × (r ≡ stop reply)
  reply_of (next a) calm over = absurd (over a refl)
  reply_of (stop reply) calm over = (reply, refl)
  reply_of panicked calm over = absurd (calm refl)

module _ {ℓ} {W R A : Type ℓ} where
  -- A handler that neither panics nor goes on has a reply.
  pub IsAnswering-reply :
      (m : Act W R A) (w : W) → IsSteady m → IsAnswering m → (reply : R) × ((m w).0 ≡ stop reply)
  IsAnswering-reply m w steady answering = reply_of (m w).0 (steady.runs w) (answering.ends w)
