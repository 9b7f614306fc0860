-- ===== src/Solver/Trim.antt =====
-- src/solver/cpu_lean.rs: lean trimming over a bitmap of the live edges.
pub mod Initial
pub mod Loops
pub mod Round
pub mod Words
pub mod Collect
pub mod Safe
pub mod Keeps
use rust_miner.Base.{ℕ, zero, suc, ◌+◌, ◌-◌, ◌*◌, ◌/◌, ◌%◌, ◌^◌, bit_and, Bool, true, false, not}
use rust_miner.Base.{◌&&◌, Option, none, some, List, [], ◌∷◌, ◌++◌, replicate, set, ltb, ◌==◌}
use rust_miner.Base.{if◌then◌else◌, Result, ok, err}
use rust_miner.Siphash.{endpoint}
use rust_miner.Verify.{mate_node}
use rust_miner.Solver.{GraphParams, SolveError, unsupported, cpu_capped}
use rust_miner.Solver.Bitmap.{test_bit, set_bit, clear_bit}

-- The first loop of a round: the nodes on `side` of the live edges, with `left` edges to go.
unfoldable pub mark : GraphParams → ℕ → List ℕ → ℕ → ℕ → List ℕ → List ℕ
mark request side alive zero edge occupied = occupied
mark request side alive (suc left) edge occupied = mark request side alive left (suc edge) (
    if test_bit alive edge
    then set_bit occupied (endpoint request.keys request.edge_bits edge side)
    else occupied)

-- The second loop: a live edge with no complementary node among the marked ones is killed.
unfoldable pub sweep : GraphParams → ℕ → List ℕ → ℕ → ℕ → List ℕ → ℕ → List ℕ × ℕ
sweep request side occupied zero edge alive killed = (alive, killed)
sweep request side occupied (suc left) edge alive killed =
    let mate = mate_node (endpoint request.keys request.edge_bits edge side) in
    let dead = test_bit alive edge && not (test_bit occupied mate) in
    sweep request side occupied left (suc edge) (if dead then clear_bit alive edge else alive)
      (if dead then killed + 1 else killed)

abbrev pub edge_count : GraphParams → ℕ
edge_count request = 2 ^ request.edge_bits

abbrev pub word_count : GraphParams → ℕ
word_count request = (edge_count request + 63) / 64

-- One round, from a cleared `occupied`.
unfoldable pub trim_round : GraphParams → ℕ → List ℕ → List ℕ × ℕ
trim_round request round alive =
    let side = bit_and round 1 in
    let occupied =
      mark request side alive (edge_count request) 0 (replicate (word_count request) 0) in
    sweep request side occupied (edge_count request) 0 alive 0

-- `cancel round` is what the load of the flag at the start of that round reads.
unfoldable pub trim_rounds : GraphParams → (ℕ → Bool) → ℕ → ℕ → List ℕ → Option (List ℕ)
trim_rounds request cancel zero round alive = some alive
trim_rounds request cancel (suc left) round alive =
    let (alive', killed) = trim_round request round alive in
    let rest = trim_rounds request cancel left (suc round) alive' in
    if cancel round then none else if killed == 0 then some alive' else rest

-- All edges alive; below 64 edges the first word is cut.
unfoldable pub initial_alive : GraphParams → List ℕ
initial_alive request =
    let alive = replicate (word_count request) (2 ^ 64 - 1) in
    if ltb (edge_count request) 64 then set alive 0 (2 ^ edge_count request - 1) else alive

-- `u64::trailing_zeros` of a word that is not 0, with fuel for its 64 bits.
unfoldable pub trailing_zeros : ℕ → ℕ → ℕ
trailing_zeros zero word = 0
trailing_zeros (suc fuel) word =
    let rest = trailing_zeros fuel (word / 2) in if word % 2 == 1 then 0 else suc rest

-- `while word != 0`: each round drops the lowest bit, so 64 rounds are enough.
unfoldable pub collect_word : ℕ → ℕ → ℕ → ℕ → List ℕ
collect_word zero count word_index word = []
collect_word (suc fuel) count word_index word =
    let edge = word_index * 64 + trailing_zeros 64 word in
    let rest = collect_word fuel count word_index (bit_and word (word - 1)) in
    if word == 0 then [] else if ltb edge count then edge ∷ rest else rest

unfoldable pub collect : ℕ → ℕ → List ℕ → List ℕ
collect count word_index [] = []
collect count word_index (word ∷ words) =
    collect_word 64 count word_index word ++ collect count (suc word_index) words

-- What follows the rounds.
abbrev pub survivors_of : GraphParams → Option (List ℕ) → Option (List ℕ)
survivors_of request none = none
survivors_of request (some alive) = some (collect (edge_count request) 0 alive)

-- The conversion of the word count to `usize` cannot fail for at most 32 edge bits.
unfoldable pub trim_survivors_cancellable :
    GraphParams → ℕ → (ℕ → Bool) → Result SolveError (Option (List ℕ))
trim_survivors_cancellable request max_edge_bits cancel =
    if ltb max_edge_bits request.edge_bits
    then err (unsupported (cpu_capped max_edge_bits))
    else ok
        (survivors_of request (trim_rounds request cancel request.rounds 0 (initial_alive request)))
