-- ===== src/Service/Buffer/Laws.antt =====
-- `buffer_body` against an independent reading of the frames.
use tower_guard_rs.Base.{
  ℕ, ◌<◌, ◌≤◌, Text, Bool, true, false, List, [], ◌∷◌, ◌++◌, length, length-append, append_assoc,
  append-nil, ltb, if◌then◌else◌, unwrap_or, ◌≡◌, refl, arith,
}
use tower_guard_rs.Service.Buffer.{
  Frame, payload, trailers, broken, Buffering, whole, failed, too_large, read, non_empty,
  buffer_loop, buffer_body,
}

-- All data in front of the first error.
abbrev pub readable : List Frame → Text
readable [] = []
readable (payload bytes ∷ frames) = bytes ++ readable frames
readable (trailers ∷ frames) = readable frames
readable (broken ∷ frames) = []

abbrev pub has_error : List Frame → Bool
has_error [] = false
has_error (payload bytes ∷ frames) = has_error frames
has_error (trailers ∷ frames) = has_error frames
has_error (broken ∷ frames) = true

abbrev outcome : List Frame → ℕ → Text → Buffering
outcome frames cap buffered =
    if ltb cap (length (buffered ++ readable frames))
    then failed too_large
    else if has_error frames
    then failed read
    else whole (non_empty (buffered ++ readable frames))

buffer_loop-outcome :
    (frames : List Frame) (cap : ℕ) (buffered : Text)
    → length buffered ≤ cap
    → buffer_loop frames cap buffered ≡ outcome frames cap buffered
unfolding buffer_loop
buffer_loop-outcome [] cap buffered h = rw append-nil (ground arith)
buffer_loop-outcome (payload bytes ∷ frames) cap buffered h = ground (
  arith,
  length-append buffered bytes,
  length-append (buffered ++ bytes) (readable frames),
  append_assoc buffered bytes (readable frames),
  buffer_loop-outcome frames cap (buffered ++ bytes),
)
buffer_loop-outcome (trailers ∷ frames) cap buffered h = buffer_loop-outcome frames cap buffered h
buffer_loop-outcome (broken ∷ frames) cap buffered h = rw append-nil (ground arith)

-- What buffering a body answers, for every sequence of frames and every cap: too large exactly where
-- the data in front of the first error is longer than the cap, else a read error where there is one,
-- else the whole data, and nothing where it is empty.
pub buffer_body_lem :
    (frames : List Frame) (cap : ℕ)
    → buffer_body frames cap ≡ (
        if ltb cap (length (readable frames))
        then failed too_large
        else if has_error frames
        then failed read
        else whole (non_empty (readable frames)))
unfolding buffer_body
buffer_body_lem frames cap = buffer_loop-outcome frames cap [] (omega arith)

-- What is handed on for a body that was read is the body.
pub unwrap_or-non_empty : (t : Text) → unwrap_or [] (non_empty t) ≡ t
unwrap_or-non_empty [] = refl
unwrap_or-non_empty (c ∷ t) = refl

pub buffer_body-oversize :
    (frames : List Frame) (cap : ℕ)
    → cap < length (readable frames)
    → buffer_body frames cap ≡ failed too_large
buffer_body-oversize frames cap long = rw (buffer_body_lem frames cap) (ground arith)

pub buffer_body-broken :
    (frames : List Frame) (cap : ℕ)
    → length (readable frames) ≤ cap
    → has_error frames ≡ true
    → buffer_body frames cap ≡ failed read
buffer_body-broken frames cap bound cut = rw (buffer_body_lem frames cap, cut) (ground arith)
