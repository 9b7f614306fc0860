-- ===== src/Stratum/Frame.antt =====
-- src/stratum.rs: `read_frame`, which cuts the bytes of the connection into lines. What `fill_buf` makes
-- available is a list of chunks; where it ends, or at an empty chunk, the input has ended.
pub mod Newlines
pub mod Chunks
mod Tests
use rust_miner.Base.{ℕ, zero, suc, ◌+◌, ◌*◌, Bool, true, false, not, Option, none, some, List, []}
use rust_miner.Base.{◌∷◌, ◌++◌, length, take, drop, ltb, ◌==◌, if◌then◌else◌}

abbrev pub max_stratum_frame_bytes : ℕ
max_stratum_frame_bytes = 1024 * 1024

-- `Ok(None)`, `Ok(Some(_))` and the error for a frame over the limit.
pub data Frame : Type 0 where
  at_end too_long : Frame
  line : List ℕ → Frame

abbrev pub further : ℕ → Option ℕ → Option ℕ
further n none = none
further n (some p) = some (n + p)

-- `position(|byte| *byte == b'\n')`.
pub newline_at : List ℕ → Option ℕ
newline_at [] = none
newline_at (byte ∷ bytes) =
    let later = newline_at bytes in if byte == 10 then some 0 else further 1 later

-- `Vec::pop`, and a test of `Vec::last`.
pub pop : List ℕ → List ℕ
pop [] = []
pop (x ∷ []) = []
pop (x ∷ y ∷ ys) = x ∷ pop (y ∷ ys)

pub ends_in : ℕ → List ℕ → Bool
ends_in byte [] = false
ends_in byte (x ∷ []) = x == byte
ends_in byte (x ∷ y ∷ ys) = ends_in byte (y ∷ ys)

abbrev pub without_return : List ℕ → List ℕ
without_return frame = if ends_in 13 frame then pop frame else frame

-- What `consume` leaves of a chunk; one that is used up is gone.
abbrev pub unread : List ℕ → List (List ℕ) → List (List ℕ)
unread [] chunks = chunks
unread (x ∷ xs) chunks = (x ∷ xs) ∷ chunks

abbrev pub end_of : List ℕ → Frame
end_of [] = at_end
end_of (x ∷ xs) = line (x ∷ xs)

-- A round of the loop; `rest` is what the next round returns.
abbrev pub on_newline :
    Option ℕ → List ℕ → List (List ℕ) → List ℕ → Frame × List (List ℕ) → Frame × List (List ℕ)
on_newline none chunk chunks frame rest =
    if ltb max_stratum_frame_bytes (length frame + length chunk)
    then (too_long, chunk ∷ chunks)
    else rest
on_newline (some p) chunk chunks frame rest =
    if ltb max_stratum_frame_bytes (length frame + (p + 1)) then (too_long, chunk ∷ chunks) else (
      line (without_return (pop (frame ++ take (p + 1) chunk))),
      unread (drop (p + 1) chunk) chunks,
    )

-- The loop, with the bytes of the frame so far; the chunks that it leaves are the second part.
pub read_frame : List (List ℕ) → List ℕ → Frame × List (List ℕ)
read_frame [] frame = (end_of frame, [])
read_frame ([] ∷ chunks) frame = (end_of frame, [] ∷ chunks)
read_frame ((x ∷ xs) ∷ chunks) frame =
    let rest = read_frame chunks (frame ++ x ∷ xs) in
    on_newline (newline_at (x ∷ xs)) (x ∷ xs) chunks frame rest
