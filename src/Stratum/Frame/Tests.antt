-- ===== src/Stratum/Frame/Tests.antt =====
-- Tests of `read_frame`: two lines in three chunks.
use rust_miner.Base.{ℕ, ◌≡◌, ◌≢◌, refl, List, [], ◌∷◌}
use rust_miner.Stratum.Frame.{too_long, line, read_frame, newline_at, pop, ends_in}
use rust_miner.Stratum.Frame.Chunks.{
  frame_in, bytes_behind, joined, read_frame-frame_in, read_frame-bytes_behind,
}

abbrev chunks : List (List ℕ)
chunks = (65 ∷ 66 ∷ []) ∷ (67 ∷ 13 ∷ 10 ∷ 68 ∷ []) ∷ (69 ∷ 10 ∷ []) ∷ []

reads_a_line : read_frame chunks [] ≡ (line (65 ∷ 66 ∷ 67 ∷ []), (68 ∷ []) ∷ (69 ∷ 10 ∷ []) ∷ [])
unfolding read_frame newline_at pop ends_in
reads_a_line = refl

is_no_error : (read_frame chunks []).0 ≢ too_long
unfolding read_frame newline_at pop ends_in
is_no_error e = cc

read_frame-frame_in_example : (read_frame chunks []).0 ≡ frame_in (joined chunks)
read_frame-frame_in_example = read_frame-frame_in chunks tt

read_frame-bytes_behind_example : joined (read_frame chunks []).1 ≡ bytes_behind (joined chunks)
read_frame-bytes_behind_example = read_frame-bytes_behind chunks tt is_no_error
