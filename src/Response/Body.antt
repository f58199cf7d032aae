-- ===== src/Response/Body.antt =====
-- `Body for GuardBody` of `src/body.rs`. The traits `Body` of the wrapped service's body and of
-- `http_body_util::Full` are parameters; a `Full` is the bytes that it has left.
use tower_guard_rs.Base.{
  ℕ, zero, suc, Text, Bool, true, false, Option, some, List, [], ◌∷◌, length, is_empty,
  if◌then◌else◌, ◌≡◌, refl, ap,
}
use mathlib.Core.List.{map}
use tower_guard_rs.Response.{GuardBody, passthrough, generated}

-- `Poll<Option<Result<Frame<Bytes>, E>>>`.
pub data Polled (E : Type 0) : Type 0 where
  stalled : Polled E
  ended : Polled E
  bytes : Text → Polled E
  trailer : Polled E
  failed : E → Polled E

-- `map_err`.
unfoldable pub map_err : {E F : Type 0} → (E → F) → Polled E → Polled F
map_err into stalled = stalled
map_err into ended = ended
map_err into (bytes b) = bytes b
map_err into trailer = trailer
map_err into (failed e) = failed (into e)

pub record SizeHint : Type 0 where
  pub lower : ℕ
  pub upper : Option ℕ

-- The trait `http_body::Body`; polling runs on the world.
pub record Body (W E B : Type 0) : Type 0 where
  pub poll_frame : B → W → Polled E × B × W
  pub is_end_stream : B → Bool
  pub size_hint : B → SizeHint

-- What `http_body_util::Full` documents: one chunk of data, if there is any, and then the end.
pub record IsFull {W E : Type 0} (full : Body W E Text) : Type 0 where
  pub chunk : (t : Text) (w : W) → is_empty t ≡ false → full.poll_frame t w ≡ (bytes t, [], w)
  pub end : (w : W) → full.poll_frame [] w ≡ (ended, [], w)
  pub at_end : (t : Text) → full.is_end_stream t ≡ is_empty t
  pub exact : (t : Text) → full.size_hint t ≡ record { lower = length t; upper = some (length t) }

-- The results of a number of polls, and the body and the world behind them.
abbrev pub polls :
    {W E B : Type 0} → (B → W → Polled E × B × W) → ℕ → B → W → List (Polled E) × B × W
polls poll zero b w = ([], b, w)
polls poll (suc n) b w =
    let (r, b', w') = poll b w in let (rs, b'', w'') = polls poll n b' w' in (r ∷ rs, b'', w'')

abbrev pub ends : {E : Type 0} → ℕ → List (Polled E)
ends zero = []
ends (suc n) = ended ∷ ends n

module _ {W E F B BoxError : Type 0} (inner : Body W E B) (full : Body W F Text)
    (into_inner : E → BoxError) (into_full : F → BoxError) where
  unfoldable pub poll_frame : GuardBody B → W → Polled BoxError × GuardBody B × W
  unfolding map_err
  poll_frame (passthrough b) w =
      let (r, b', w') = inner.poll_frame b w in (map_err into_inner r, passthrough b', w')
  poll_frame (generated t) w =
      let (r, t', w') = full.poll_frame t w in (map_err into_full r, generated t', w')

  unfoldable pub is_end_stream : GuardBody B → Bool
  is_end_stream (passthrough b) = inner.is_end_stream b
  is_end_stream (generated t) = full.is_end_stream t

  unfoldable pub size_hint : GuardBody B → SizeHint
  size_hint (passthrough b) = inner.size_hint b
  size_hint (generated t) = full.size_hint t

  -- However often it is polled, a passed-through body gives what the wrapped service's body gives, with
  -- its errors converted, and stays what that body has become.
  pub poll_frame-passthrough :
      (n : ℕ) (b : B) (w : W)
      → polls poll_frame n (passthrough b) w ≡ (
          let (rs, b', w') = polls inner.poll_frame n b w in
          (map (map_err into_inner) rs, passthrough b', w'))
  unfolding poll_frame
  poll_frame-passthrough zero b w = refl
  poll_frame-passthrough (suc n) b w =
      let (r, b', w') = inner.poll_frame b w in
      ap (λ (p : List (Polled BoxError) × GuardBody B × W). (map_err into_inner r ∷ p.0, p.1, p.2))
        (poll_frame-passthrough n b' w')

  polls-spent :
      (n : ℕ) (w : W)
      → IsFull full
      → polls poll_frame n (generated []) w ≡ (ends n, generated [], w)
  unfolding poll_frame map_err
  polls-spent zero w laws = refl
  polls-spent (suc n) w laws = rw (laws.end w) (
      ap (λ (p : List (Polled BoxError) × GuardBody B × W). (ended ∷ p.0, p.1, p.2))
        (polls-spent n w laws))

  -- Where a full body gives its bytes in one chunk, if it has any, and then its end, and knows its size:
  -- however often it is polled, a generated body does the same and then gives only its end, without
  -- waiting or failing; its size hint is the number of its bytes, and its stream is at its end when they
  -- are gone.
  pub poll_frame-generated :
      (n : ℕ) (t : Text) (w : W)
      → IsFull full
      → (polls poll_frame (suc n) (generated t) w
          ≡ ((if is_empty t then ended else bytes t) ∷ ends n, generated [], w))
        × (size_hint (generated t) ≡ record { lower = length t; upper = some (length t) })
        × (is_end_stream (generated t) ≡ is_empty t)
        × (is_end_stream (generated []) ≡ true)
  unfolding poll_frame map_err is_end_stream size_hint
  poll_frame-generated n t w laws = (polled t, laws.exact t, laws.at_end t, laws.at_end [])
    where
      polled :
          (t : Text)
          → polls poll_frame (suc n) (generated t) w
            ≡ ((if is_empty t then ended else bytes t) ∷ ends n, generated [], w)
      polled [] = polls-spent (suc n) w laws
      polled (c ∷ t) = rw (laws.chunk (c ∷ t) w refl) (
          ap (λ (p : List (Polled BoxError) × GuardBody B × W). (bytes (c ∷ t) ∷ p.0, p.1, p.2))
            (polls-spent n w laws))
