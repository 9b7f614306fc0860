-- ===== src/Lib.antt =====
-- rust-miner: a Cuckatoo miner for Grin Stratum pools.
--
-- A pool (src/stratum.rs) hands out jobs; src/coordinator.rs turns a job and a nonce into a request,
-- a backend (src/solver/) looks for a cycle in the graph that the request's keys define, and a proof
-- is checked by src/verify.rs before it is sent. An edge of the graph is a number below
-- `2 ^ edge_bits`; src/siphash.rs gives its two endpoints, and two edges meet on a side where their
-- nodes differ in the lowest bit only.
--
-- - Base: names that all share, lists and tests over the native numbers, `Result`, bits.
-- - Siphash (src/siphash.rs): `sip_round`, `siphash24`, `endpoint`; `gpu_sip_keys` is
--   `From<SipKeys> for GpuSipKeys`. A `u64` is a number and each wrap-around is written out.
-- - Keys (src/keys.rs): `derive_keys`. BLAKE2b-256 is a third-party crate: a record with the function,
--   that a digest has 32 bytes, and that each is below 256.
-- - Verify (src/verify.rs): `verify_cycle` with one function for each of its loops (`check_nonces`,
--   `find_mates` with `scan_mates`, `walk`); Verify/Difficulty holds `proof_hash` and
--   `unscaled_proof_difficulty`, Verify/Lookup `endpoint_index`. Verify/Spec says what a proof is
--   without the code.
-- - Solver (src/solver/mod.rs): requests, `validate_request`, outcomes. The text of a message is a
--   constructor with the numbers it shows.
-- - Solver/Bitmap, Solver/Trim, Solver/Search, Solver/CpuLean (src/solver/cpu_lean.rs): the bitmaps of
--   64-bit words, `trim_survivors_cancellable`, `find_cycle` and `solve`. The cancellation flag is
--   what each load of it reads: `cancel round` at the start of a round, `late_cancel` behind them.
-- - Solver/Peel (src/solver/peel.rs): `peel_two_core`. The groups of a side are a record; the table
--   `mate_group` is the function `mate_at`, which has the same entries.
-- - Solver/Radix, Solver/D2 (src/solver/d2.rs): the counting sort of the survivors by a node, the arcs
--   over pairs of edges and the search for 42 edges. The arrays of the search are passed down.
-- - Solver/Wgpu (src/solver/gpu_wgpu.rs): the host side of the wgpu backend, as built without the
--   `diagnostics` feature: `slean_sizing`, `prepare_trim` (Prepare), the loop of `TrimRun::run`
--   (Rounds), `verdict_at_round` and `solve` (Verdict). A `Device` is what one trimming reads from
--   the GPU: whether a round completed, the survivors of a fine transition, the words of the bitmap,
--   and what each load of the flag reads. `solve` has one for the early verdict and one for the full
--   one.
-- - Solver/Wgpu/Fine (src/solver/gpu_fine.rs): the offsets of the buckets in the arenas of
--   `allocate_fine_storage` and `prepare_fine_fixed_storage`.
-- - Solver/Metal (src/solver/gpu_metal.rs): `new` and `solve` over a trimming that is a parameter.
-- - Stratum (src/stratum.rs): jobs, shares and the pool's answers. `hex::decode` is a parameter.
--   Stratum/Frame: `read_frame` over the chunks that `fill_buf` makes available. Stratum/Json: what
--   the client reads of a JSON value; serde_json's values and decoding are a parameter.
--   Stratum/Client: the state that client and reader share, and the task of `spawn_reader` by where it
--   stands. Stratum/Calls: `connect`, `reconnect`, `get_job`, `submit` and the `request` that these
--   make, by where the client stands. The two run at the same time, so a run is a list of moves, each
--   of one of them, up to the next access of what they share; a move carries what the connection
--   does. `abort` ends a reader where it waits. A oneshot channel is an id among those that wait, or a
--   value that was sent.
-- - Coordinator (src/coordinator.rs): `mine` over rounds. A round is the result of a solve and what the
--   client answers behind it (`Answers`): connected or not, the job in the channel, the job that a
--   reconnect brings, the reply to a share. `after_solve` is the branch of `select!` for the end of
--   the solve, Coordinator/Select the others, with the flag that they set. The result of a run is the
--   shares sent, in order, and the state or the error. A round that never ends and a panic are not
--   rounds.
-- - Launch (src/main.rs, src/cli.rs): `make_solver` on a machine that is what the opening of a device
--   gives, and `parse_power_of_two`.
-- - Gate (src/main.rs, `Command::Gate`): `gate` over a solver that is a function of the request.
--
-- Fuel: `dfs` runs on one more than the number of survivors. A path marks its survivors as used, so
-- it is never longer. `dfs_arcs` runs on 21, the length of a path of pairs. `group_runs` runs on the
-- number of edges, of which each round takes one, and `drain` on the number of groups, since none
-- enters the queue twice. `slean_sizing` doubles its parts at most 33 times before they pass `2 ^
-- 32` edges, and `run_rounds` runs on the number of rounds, since each pass of the loop ends at a
-- later round. The loops that drop the lowest bit of a word and count its zeros have as many rounds
-- as a word has bits. All other loops recurse on what they count or pass.
--
-- Sizes: `usize` has 64 bits, so that the conversion of the word count does not fail. The ids of the
-- requests of a client do not wrap around: `2 ^ 64` requests are out of reach.
--
-- Not modelled: the rest of src/main.rs and src/cli.rs (output, argument declarations), build.rs,
-- and of the GPU backends the code that fills command encoders and buffers, the rest of
-- src/solver/gpu_fine.rs, and the diagnostics with their feature. The GPU kernels and the calls of
-- the drivers are outside: their results come from the device.
pub mod Base
pub mod Siphash
pub mod Keys
pub mod Verify
pub mod Solver
pub mod Stratum
pub mod Coordinator
pub mod Launch
pub mod Gate
