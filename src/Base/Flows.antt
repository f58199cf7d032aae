-- ===== src/Base/Flows.antt =====
-- Handlers with effects: a handler reads and changes the world, and goes on with a value, returns
-- early with a result, or panics.
use mathlib.Core.Path.{◌≡◌, refl}
use mathlib.Core.Logic.{◌≢◌, ◌⊎◌, inl, inr}
use mathlib.Core.Option.{Option, none, some}

pub data Flow {ℓ} (R A : Type ℓ) : Type ℓ where
  next : A → Flow R A
  stop : R → Flow R A
  panicked : Flow R A

abbrev pub Act {ℓ} : Type ℓ → Type ℓ → Type ℓ → Type ℓ
Act W R A = W → Flow R A × W

module _ {ℓ} {W R A : Type ℓ} where
  abbrev pub pure : A → Act W R A
  pure a w = (next a, w)

  -- `return`
  abbrev pub return : R → Act W R A
  return r w = (stop r, w)

  abbrev pub panic : Act W R A
  panic w = (panicked, w)

  -- A call that changes the world and neither returns early nor panics.
  abbrev pub perform : (W → A × W) → Act W R A
  perform m w = let (a, w') = m w in (next a, w')

  -- `expect`
  abbrev pub expect : Option A → Act W R A
  expect none = panic
  expect (some a) = pure a

module _ {ℓ} {W R : Type ℓ} where
  -- A call that changes the world and gives nothing back.
  abbrev pub effect : (W → W) → Act W R (Unit {ℓ})
  effect m w = (next tt, m w)

  -- `if let Some(r) = m { return r; }`
  abbrev pub returning : Option R → Act W R (Unit {ℓ})
  returning none = pure tt
  returning (some r) = return r

module _ {ℓ} {W R A B : Type ℓ} where
  abbrev pub continue : Flow R A → (A → Act W R B) → Act W R B
  continue (next a) f w = f a w
  continue (stop r) f w = (stop r, w)
  continue panicked f w = (panicked, w)

  infixl 5 ◌>>=◌
  -- Not an abbreviation, so that a block keeps its shape and is inverted step by step.
  unfoldable pub ◌>>=◌ : Act W R A → (A → Act W R B) → Act W R B
  ◌>>=◌ m f w = let (r, w') = m w in continue r f w'

  -- Inversion of a handler that goes on: both parts went on.
  continue_inv :
      (r : Flow R A) (w : W) (f : A → Act W R B) {b : B} {v : W}
      → continue r f w ≡ (next b, v)
      → (a : A) × (r ≡ next a) × (f a w ≡ (next b, v))
  continue_inv (next a) w f h = (a, refl, h)
  continue_inv (stop r) w f h = cc
  continue_inv panicked w f h = cc

  pub bind-eq-next :
      (m : Act W R A) (f : A → Act W R B) (w : W) {b : B} {v : W}
      → (m >>= f) w ≡ (next b, v)
      → (a : A) × (u : W) × (m w ≡ (next a, u)) × (f a u ≡ (next b, v))
  unfolding ◌>>=◌
  bind-eq-next m f w h = let (a, e, k) = continue_inv (m w).0 (m w).1 f h in (a, (m w).1, cc e, k)

  -- The same for a proof that goes on with what both parts gave.
  pub through {κ} :
      (m : Act W R A) (f : A → Act W R B) (w : W) {b : B} {v : W} {C : Type κ}
      → (m >>= f) w ≡ (next b, v)
      → ((a : A) (u : W) → m w ≡ (next a, u) → f a u ≡ (next b, v) → C)
      → C
  through m f w h k = let (a, u, first, rest) = bind-eq-next m f w h in k a u first rest

  continue_next :
      (r : Flow R A) (w : W) (f : A → Act W R B) (a : A) → r ≡ next a → continue r f w ≡ f a w
  continue_next r w f a e = rw e

  pub bind-next :
      (m : Act W R A) (f : A → Act W R B) (w : W) {a : A} {v : W}
      → m w ≡ (next a, v)
      → (m >>= f) w ≡ f a v
  unfolding ◌>>=◌
  bind-next m f w {a} {v} e = rw e

  pub bind-stop :
      (m : Act W R A) (f : A → Act W R B) (w : W) {q : R} {v : W}
      → m w ≡ (stop q, v)
      → (m >>= f) w ≡ (stop q, v)
  unfolding ◌>>=◌
  bind-stop m f w {q} {v} e = rw e refl

  -- A handler that does not go on makes what comes behind it irrelevant.
  continue_halted :
      (r : Flow R A) (w : W) (f g : A → Act W R B)
      → ((a : A) → r ≢ next a)
      → continue r f w ≡ continue r g w
  continue_halted (next a) w f g h = absurd (h a refl)
  continue_halted (stop r) w f g h = refl
  continue_halted panicked w f g h = refl

  pub bind_halted :
      (m : Act W R A) (f g : A → Act W R B) (w : W)
      → ((a : A) → (m w).0 ≢ next a)
      → (m >>= f) w ≡ (m >>= g) w
  unfolding ◌>>=◌
  bind_halted m f g w h = continue_halted (m w).0 (m w).1 f g h

module _ {ℓ} {W R A B C : Type ℓ} where
  continue_halted_twice :
      (r : Flow R A) (w : W) (f g : A → Act W R B) (h k : B → Act W R C)
      → ((a : A) → r ≢ next a)
      → (continue r f >>= h) w ≡ (continue r g >>= k) w
  unfolding ◌>>=◌
  continue_halted_twice (next a) w f g h k halted = absurd (halted a refl)
  continue_halted_twice (stop r) w f g h k halted = refl
  continue_halted_twice panicked w f g h k halted = refl

  pub bind_halted_twice :
      (m : Act W R A) (f g : A → Act W R B) (h k : B → Act W R C) (w : W)
      → ((a : A) → (m w).0 ≢ next a)
      → ((m >>= f) >>= h) w ≡ ((m >>= g) >>= k) w
  unfolding ◌>>=◌
  bind_halted_twice m f g h k w halted = continue_halted_twice (m w).0 (m w).1 f g h k halted

module _ {ℓ} {W R A : Type ℓ} where
  pub pure-eq-next : (a : A) {b : A} (w : W) {v : W} → pure {R = R} a w ≡ (next b, v) → a ≡ b
  pure-eq-next a w h = cc

  pub expect-eq-next :
      (o : Option A) {a : A} (w : W) {v : W} → expect {R = R} o w ≡ (next a, v) → o ≡ some a
  expect-eq-next none w h = cc
  expect-eq-next (some a) w h = cc

module _ {ℓ} {R A : Type ℓ} where
  Flow-cases : (r : Flow R A) → ((a : A) × (r ≡ next a)) ⊎ ((a : A) → r ≢ next a)
  Flow-cases (next a) = inl (a, refl)
  Flow-cases (stop r) = inr (λ a. cc)
  Flow-cases panicked = inr (λ a. cc)

module _ {ℓ} {W R A : Type ℓ} where
  -- A handler goes on, or it does not.
  pub Act-cases :
      (m : Act W R A) (w : W)
      → ((a : A) × (u : W) × (m w ≡ (next a, u))) ⊎ ((a : A) → (m w).0 ≢ next a)
  Act-cases m w = elim (Flow-cases (m w).0) [
    | inl (a, e) ↦ inl (a, (m w).1, λ i. (e i, (m w).1))
    | inr halted ↦ inr halted
  ]

module _ {ℓ} {W R B : Type ℓ} where
  infixl 5 ◌>>◌
  abbrev pub ◌>>◌ : Act W R (Unit {ℓ}) → Act W R B → Act W R B
  m >> k = m >>= λ _. k
