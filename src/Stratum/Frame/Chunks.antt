-- ===== src/Stratum/Frame/Chunks.antt =====
-- A frame of src/stratum.rs does not depend on how its bytes come in chunks.
use rust_miner.Base.{
  ℕ, suc, ◌+◌, ◌≤◌, ◌<◌, ◌≡◌, ◌≢◌, refl, sym, ◌∙◌, ap, subst, true, false, inl, inr, Option, none,
  some, List, [],
}
use rust_miner.Base.{
  ◌∷◌, ◌++◌, length, length-append, take, drop, ltb, if◌then◌else◌, Bool-cases, ltb→lt, ltb→le,
  Option-cases, arith,
}
use mathlib.Core.List.{append-nil, append_assoc}
use rust_miner.Stratum.Frame.Newlines.{
  newline_at-append_none, newline_at-append_some, take-newline, drop-newline,
}
use rust_miner.Stratum.Frame.{
  Frame, at_end, too_long, line, further, newline_at, without_return, unread, end_of, on_newline,
  read_frame, max_stratum_frame_bytes,
}

-- The first frame of all the bytes at once.
abbrev cut : Option ℕ → List ℕ → Frame
cut none bytes = if ltb max_stratum_frame_bytes (length bytes) then too_long else end_of bytes
cut (some p) bytes =
    if ltb max_stratum_frame_bytes (p + 1) then too_long else line (without_return (take p bytes))

pub frame_in : List ℕ → Frame
frame_in bytes = cut (newline_at bytes) bytes

abbrev behind : Option ℕ → List ℕ → List ℕ
behind none bytes = []
behind (some p) bytes = drop (p + 1) bytes

-- The bytes behind the first newline.
pub bytes_behind : List ℕ → List ℕ
bytes_behind bytes = behind (newline_at bytes) bytes

abbrev pub joined : List (List ℕ) → List ℕ
joined [] = []
joined (chunk ∷ chunks) = chunk ++ joined chunks

abbrev pub AreChunks : List (List ℕ) → Type 0
AreChunks [] = Unit
AreChunks ([] ∷ chunks) = ⊥
AreChunks ((x ∷ xs) ∷ chunks) = AreChunks chunks

joined-unread :
    (rest : List ℕ) (chunks : List (List ℕ)) → joined (unread rest chunks) ≡ rest ++ joined chunks
joined-unread [] chunks = refl
joined-unread (x ∷ xs) chunks = refl

-- A frame and what is left are those of all the bytes at once; what an error leaves is not said.
abbrev Agrees : Frame × List (List ℕ) → List ℕ → Type 0
Agrees (at_end, left) bytes = (frame_in bytes ≡ at_end) × (joined left ≡ bytes_behind bytes)
Agrees (line l, left) bytes = (frame_in bytes ≡ line l) × (joined left ≡ bytes_behind bytes)
Agrees (too_long, left) bytes = frame_in bytes ≡ too_long

-- With the limit passed before a newline was seen, all the bytes have no frame within it.
over_limit :
    (bytes : List ℕ) (r : Option ℕ) (n : ℕ)
    → max_stratum_frame_bytes < n
    → n ≤ length bytes
    → cut (further n r) bytes ≡ too_long
over_limit bytes none n over le =
    let e : ltb max_stratum_frame_bytes (length bytes) ≡ true = ground arith in rw e refl
over_limit bytes (some p) n over le =
    let e : ltb max_stratum_frame_bytes (n + p + 1) ≡ true = ground arith in rw e refl

at_end-Agrees :
    (frame : List ℕ) (left : List (List ℕ))
    → newline_at frame ≡ none
    → length frame ≤ max_stratum_frame_bytes
    → joined left ≡ []
    → Agrees (end_of frame, left) frame
unfolding frame_in bytes_behind
at_end-Agrees [] left clean le empty =
    (ap (λ r. cut r []) clean, empty ∙ sym (ap (λ r. behind r []) clean))
at_end-Agrees (x ∷ xs) left clean le empty =
    let few : ltb max_stratum_frame_bytes (suc (length xs)) ≡ false = ground arith in
    (ap (λ r. cut r (x ∷ xs)) clean ∙ rw few refl, empty ∙ sym (ap (λ r. behind r (x ∷ xs)) clean))

module _ (frame chunk : List ℕ) (chunks : List (List ℕ)) (rest : Frame × List (List ℕ))
    (clean : newline_at frame ≡ none) where
  abbrev bytes : List ℕ
  bytes = frame ++ (chunk ++ joined chunks)

  -- A chunk with a newline ends the frame, or passes the limit.
  newline-Agrees :
      (p : ℕ)
      → newline_at chunk ≡ some p
      → Agrees (on_newline (some p) chunk chunks frame rest) bytes
  unfolding frame_in bytes_behind
  newline-Agrees p q =
      let (same, l) = newline_at-append_some chunk (joined chunks) p q in
      let place : newline_at bytes ≡ some (length frame + p) =
        newline_at-append_none frame (chunk ++ joined chunks) clean
        ∙ ap (further (length frame)) same in
      elim (Bool-cases (ltb max_stratum_frame_bytes (length frame + (p + 1)))) [
        | inl over ↦
            let over' : ltb max_stratum_frame_bytes (length frame + p + 1) ≡ true = ground arith in
            rw over (ap (λ r. cut r bytes) place ∙ rw over' refl)
        | inr fits ↦
            let fits' : ltb max_stratum_frame_bytes (length frame + p + 1) ≡ false = ground arith in
            rw fits (
              ap (λ r. cut r bytes) place
                  ∙ rw fits' (
                      ap (λ l. line (without_return l))
                        (take-newline frame chunk (joined chunks) p l)),
              joined-unread (drop (p + 1) chunk) chunks
                  ∙ sym (
                      ap (λ r. behind r bytes) place
                      ∙ drop-newline frame chunk (joined chunks) p l),
            )
      ]

  whole : (frame ++ chunk) ++ joined chunks ≡ bytes
  whole = append_assoc frame chunk (joined chunks)

  still_clean : newline_at chunk ≡ none → newline_at (frame ++ chunk) ≡ none
  still_clean q = newline_at-append_none frame chunk clean ∙ ap (further (length frame)) q

  -- A chunk without one goes on, or passes the limit.
  more-Agrees :
      newline_at chunk ≡ none
      → (length (frame ++ chunk) ≤ max_stratum_frame_bytes
          → Agrees rest ((frame ++ chunk) ++ joined chunks))
      → Agrees (on_newline none chunk chunks frame rest) bytes
  unfolding frame_in
  more-Agrees q go =
      let size = length-append frame chunk in
      elim (Bool-cases (ltb max_stratum_frame_bytes (length frame + length chunk))) [
        | inl over ↦
            let l = ltb→lt _ _ over in
            rw over (
              subst (λ b. frame_in b ≡ too_long) whole
                (ap (λ r. cut r ((frame ++ chunk) ++ joined chunks))
                    (newline_at-append_none (frame ++ chunk) (joined chunks) (still_clean q))
                  ∙ over_limit ((frame ++ chunk) ++ joined chunks) (newline_at (joined chunks))
                      (length (frame ++ chunk)) (omega arith)
                      (omega (arith, length-append (frame ++ chunk) (joined chunks)))))
        | inr fits ↦
            let l = ltb→le _ _ fits in rw fits (subst (Agrees rest) whole (go (omega arith)))
      ]

no_newline : newline_at [] ≡ none
unfolding newline_at
no_newline = refl

read_frame-Agrees :
    (chunks : List (List ℕ)) (frame : List ℕ)
    → AreChunks chunks
    → newline_at frame ≡ none
    → length frame ≤ max_stratum_frame_bytes
    → Agrees (read_frame chunks frame) (frame ++ joined chunks)
unfolding read_frame
read_frame-Agrees [] frame a clean le =
    subst (Agrees (end_of frame, [])) (sym (append-nil frame))
      (at_end-Agrees frame [] clean le refl)
read_frame-Agrees ([] ∷ chunks) frame a clean le = absurd a
read_frame-Agrees ((x ∷ xs) ∷ chunks) frame a clean le = elim (Option-cases (newline_at (x ∷ xs))) [
  | inl q ↦ rw q (
      more-Agrees frame (x ∷ xs) chunks _ clean q (λ l.
        read_frame-Agrees chunks (frame ++ x ∷ xs) a
          (still_clean frame (x ∷ xs) chunks (at_end, []) clean q) l))
  | inr (p, q) ↦
      rw q (newline-Agrees frame (x ∷ xs) chunks (read_frame chunks (frame ++ x ∷ xs)) clean p q)
]

-- For chunks that are not empty, `read_frame` returns the first frame of all the bytes together,
-- however they are cut into chunks: the bytes up to the first newline, or all if there is none,
-- without a carriage return before the newline, the end if there are none, an error over the limit.
pub read_frame-frame_in :
    (chunks : List (List ℕ))
    → AreChunks chunks
    → (read_frame chunks []).0 ≡ frame_in (joined chunks)
read_frame-frame_in chunks a =
    let result = read_frame chunks [] in
    from result.0 result.1 (read_frame-Agrees chunks [] a no_newline (omega arith))
  where
    from :
        (f : Frame) (left : List (List ℕ))
        → Agrees (f, left) (joined chunks)
        → f ≡ frame_in (joined chunks)
    from at_end left g = sym g.0
    from too_long left g = sym g
    from (line l) left g = sym g.0

-- For chunks that are not empty, what `read_frame` leaves unread, unless it is an error, is what is
-- behind the first newline of all the bytes together.
pub read_frame-bytes_behind :
    (chunks : List (List ℕ))
    → AreChunks chunks
    → (read_frame chunks []).0 ≢ too_long
    → joined (read_frame chunks []).1 ≡ bytes_behind (joined chunks)
read_frame-bytes_behind chunks a fine =
    let result = read_frame chunks [] in
    from result.0 result.1 fine (read_frame-Agrees chunks [] a no_newline (omega arith))
  where
    from :
        (f : Frame) (left : List (List ℕ))
        → f ≢ too_long
        → Agrees (f, left) (joined chunks)
        → joined left ≡ bytes_behind (joined chunks)
    from at_end left h g = g.1
    from too_long left h g = absurd (h refl)
    from (line l) left h g = g.1
