-- ===== src/Verify.antt =====
-- src/verify.rs: proofs, the exact cycle verifier, and the lookup tables of the survivor search.
-- The share difficulty is in the child `Difficulty`.
pub mod Spec
pub mod Nonces
pub mod Scan
pub mod Mates
pub mod Walk
pub mod Correct
pub mod Sorting
pub mod Difficulty
pub mod Lookup
mod Tests
use rust_miner.Base.{ℕ, zero, suc, ◌+◌, ◌^◌, bit_xor, Bool, true, false, not, ◌&&◌, ◌||◌}
use rust_miner.Base.{Option, none, some, List, [], ◌∷◌, ◌++◌, map, length, get_or, set, replicate}
use rust_miner.Base.{ltb, leb, ◌==◌, if◌then◌else◌, Result, ok, err, ◌>>=◌, ◌>>◌, ok_or}
use rust_miner.Siphash.{SipKeys, endpoint}

pub record Proof : Type 0 where
  pub nonces : List ℕ

unfoldable pub insert : ℕ → List ℕ → List ℕ
insert n [] = n ∷ []
insert n (m ∷ ms) = let rest = insert n ms in if leb n m then n ∷ m ∷ ms else m ∷ rest

-- `sort_unstable` of the standard library: numbers in ascending order.
unfoldable pub sort : List ℕ → List ℕ
unfolding insert
sort [] = []
sort (n ∷ ns) = insert n (sort ns)

unfoldable pub sorted : List ℕ → Proof
unfolding sort
sorted nonces = record { nonces = sort nonces }

pub data VerifyError : Type 0 where
  bad_edge_bits : VerifyError
  bad_proof_size : ℕ → ℕ → VerifyError
  range : VerifyError
  not_sorted_distinct : VerifyError
  endpoint_degree : VerifyError
  not_single_cycle : VerifyError

-- The two sides of the graph, which index the arrays `[_; 2]`; `other` is `side ^ 1`.
pub data Side : Type 0 where
  u_side v_side : Side

abbrev pub other : Side → Side
other u_side = v_side
other v_side = u_side

abbrev pub number : Side → ℕ
number u_side = 0
number v_side = 1

abbrev pub at : Side → ℕ × ℕ → ℕ
at u_side p = p.0
at v_side p = p.1

-- The complementary node, `node ^ 1`.
unfoldable pub mate_node : ℕ → ℕ
mate_node node = bit_xor node 1

-- The endpoints of an edge, `[u32; 2]`.
unfoldable pub edge_ends : SipKeys → ℕ → ℕ → ℕ × ℕ
edge_ends keys edge_bits edge = (endpoint keys edge_bits edge 0, endpoint keys edge_bits edge 1)

abbrev not_above : Option ℕ → ℕ → Bool
not_above none nonce = false
not_above (some previous) nonce = leb nonce previous

-- The loop over the nonces, with the one before.
unfoldable pub check_nonces : ℕ → Option ℕ → List ℕ → Result VerifyError (Unit {0})
check_nonces limit previous [] = ok tt
check_nonces limit previous (nonce ∷ nonces) =
    let rest = check_nonces limit (some nonce) nonces in
    if leb limit nonce
    then err range
    else if not_above previous nonce
    then err not_sorted_distinct
    else rest

abbrev record_mate : Option ℕ → ℕ → Result VerifyError (Option ℕ)
record_mate none j = ok (some j)
record_mate (some _) j = err endpoint_degree

-- The loop over the candidates from index `j`, with `found`: a second mate is an error.
unfoldable pub scan_mates :
    Side → ℕ → ℕ → ℕ → List (ℕ × ℕ) → Option ℕ → Result VerifyError (Option ℕ)
scan_mates side wanted i j [] found = ok found
scan_mates side wanted i j (candidate ∷ candidates) found = do
  let hit = not (i == j) && (at side candidate == wanted)
  found' ← if hit then record_mate found j else ok found
  scan_mates side wanted i (suc j) candidates found'

unfoldable pub mate_of : List (ℕ × ℕ) → ℕ → ℕ × ℕ → Side → Result VerifyError ℕ
mate_of endpoints i ends side = do
  found ← scan_mates side (mate_node (at side ends)) i 0 endpoints none
  ok_or found endpoint_degree

-- The rows of `mate` from index `i`.
unfoldable pub find_mates : List (ℕ × ℕ) → ℕ → List (ℕ × ℕ) → Result VerifyError (List (ℕ × ℕ))
find_mates endpoints i [] = ok []
find_mates endpoints i (ends ∷ rest) = do
  a ← mate_of endpoints i ends u_side
  b ← mate_of endpoints i ends v_side
  mates ← find_mates endpoints (suc i) rest
  ok ((a, b) ∷ mates)

abbrev all_true : List Bool → Bool
all_true [] = true
all_true (seen ∷ rest) = seen && all_true rest

abbrev is_u_side : Side → Bool
is_u_side u_side = true
is_u_side v_side = false

-- The walk with `n` rounds to go. No index is out of range, so no default is ever read.
unfoldable pub walk : ℕ → List (ℕ × ℕ) → List Bool → ℕ → Side → Result VerifyError (Unit {0})
walk zero mates visited index side =
    if not (index == 0) || not (is_u_side side) || not (all_true visited)
    then err not_single_cycle
    else ok tt
walk (suc n) mates visited index side =
    let rest =
      walk n mates (set visited index true) (at side (get_or mates index (0, 0))) (other side) in
    if get_or visited index false then err not_single_cycle else rest

unfoldable pub verify_cycle : SipKeys → ℕ → ℕ → Proof → Result VerifyError (Unit {0})
verify_cycle keys edge_bits cycle_length proof =
    if not (leb 1 edge_bits && leb edge_bits 32)
    then err bad_edge_bits
    else if not (length proof.nonces == cycle_length)
    then err (bad_proof_size cycle_length (length proof.nonces))
    else do
      check_nonces (2 ^ edge_bits) none proof.nonces
      let endpoints = map (edge_ends keys edge_bits) proof.nonces
      mates ← find_mates endpoints 0 endpoints
      walk cycle_length mates (replicate cycle_length false) 0 u_side
