-- ===== src/Service/Buffer.antt =====
-- `buffer_body` of `src/service.rs`: a request body is read frame by frame under a cap.
pub mod Laws
use tower_guard_rs.Base.{
  ℕ, ◌+◌, Text, Option, none, some, List, [], ◌∷◌, ◌++◌, length, is_empty, ltb, if◌then◌else◌,
}

-- What `body.frame().await` gives: data, trailers, or the stream's error.
pub data Frame : Type 0 where
  payload : Text → Frame
  trailers : Frame
  broken : Frame

pub data BufferFailure : Type 0 where
  too_large read : BufferFailure

-- `Result<Option<Bytes>, BufferFailure>`.
pub data Buffering : Type 0 where
  whole : Option Text → Buffering
  failed : BufferFailure → Buffering

abbrev pub non_empty : Text → Option Text
non_empty t = if is_empty t then none else some t

-- The loop; the second text is what is buffered so far.
buffer_loop : List Frame → ℕ → Text → Buffering
buffer_loop [] cap buffered = whole (non_empty buffered)
buffer_loop (payload bytes ∷ frames) cap buffered =
    let rest = buffer_loop frames cap (buffered ++ bytes) in
    if ltb cap (length buffered + length bytes) then failed too_large else rest
buffer_loop (trailers ∷ frames) cap buffered = buffer_loop frames cap buffered
buffer_loop (broken ∷ frames) cap buffered = failed read

unfoldable pub buffer_body : List Frame → ℕ → Buffering
unfolding buffer_loop
buffer_body frames cap = buffer_loop frames cap []
