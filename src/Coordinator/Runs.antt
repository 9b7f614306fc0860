-- ===== src/Coordinator/Runs.antt =====
-- src/coordinator.rs: what holds of every run of the loop.
use rust_miner.Base.{ℕ, ◌+◌, ◌%◌, ◌^◌, ◌≤◌, ◌<◌, ◌≡◌, refl, subst, true, not, inl, inr, ◌⊎◌, arith}
use rust_miner.Base.{
  Option, none, some, List, [], ◌∷◌, ltb→lt, ◌==◌, ==→≡, Result, ok, err, ok_inj, Bool-cases,
}
use rust_miner.Keys.{Blake2b256}
use rust_miner.Solver.{SolveError, SolveOutcome}
use rust_miner.Stratum.{Job}
use rust_miner.Coordinator.{MineConfig, MineState, Answers, Step, Round, Mined, then_rounds}
use rust_miner.Coordinator.{after_solve, wants_more, mine_rounds, from_start, mine}
use rust_miner.Coordinator.Progress.{
  counted, IsMove, advanced, kept, restarted, IsStep, failed, solved, after_solve-IsStep,
}

-- Bounds of the loop's variables.
pub record IsRun (config : MineConfig) (s : MineState) : Type 0 where
  pub errors : s.errors < 3
  pub nonce : s.nonce < 2 ^ 64
  pub graphs : (config.max_graphs ≡ 0) ⊎ (s.graphs ≤ config.max_graphs)

module _ (blake : Blake2b256) (decode : List ℕ → Option (List ℕ)) (config : MineConfig)
    (start : config.nonce_start < 2 ^ 64) where
  -- One more graph is within the bound while the loop wants more.
  one_more :
      (s : MineState)
      → wants_more blake decode config s ≡ true
      → (config.max_graphs ≡ 0) ⊎ ((s.graphs + 1) % 2 ^ 64 ≤ config.max_graphs)
  one_more s more = elim (Bool-cases (config.max_graphs == 0)) [
    | inl z ↦ inl (==→≡ config.max_graphs 0 z)
    | inr z ↦ let l = ltb→lt s.graphs config.max_graphs (rw z at more) in inr (omega arith)
  ]

  IsMove-IsRun :
      (s s' : MineState) (answers : Answers) (outcome : SolveOutcome)
      → IsMove decode config (counted s) answers outcome s'
      → IsRun config s
      → (config.max_graphs ≡ 0) ⊎ ((s.graphs + 1) % 2 ^ 64 ≤ config.max_graphs)
      → IsRun config s'
  IsMove-IsRun s s' answers outcome (advanced l) r g = record {
    errors = omega arith;
    nonce = l;
    graphs = g;
  }
  IsMove-IsRun s s' answers outcome (kept e) r g = record {
    errors = omega arith;
    nonce = r.nonce;
    graphs = g;
  }
  IsMove-IsRun s s' answers outcome (restarted job bytes o t) r g = record {
    errors = omega arith;
    nonce = start;
    graphs = g;
  }

  IsStep-IsRun :
      (s s' : MineState) (answers : Answers) (result : Result SolveError SolveOutcome)
      → IsStep decode config s answers result s'
      → wants_more blake decode config s ≡ true
      → IsRun config s
      → IsRun config s'
  IsStep-IsRun s s' answers result (failed e few fits) more r = record {
    errors = few;
    nonce = fits;
    graphs = r.graphs;
  }
  IsStep-IsRun s s' answers result (solved {outcome} e move) more r =
      IsMove-IsRun s s' answers outcome move r (one_more s more)

  then_rounds-IsRun :
      (step : Step) (rest : MineState → Mined) (s' : MineState)
      → ((t : MineState) → step.1 ≡ ok t → (rest t).1 ≡ ok s' → IsRun config s')
      → (then_rounds step rest).1 ≡ ok s'
      → IsRun config s'
  then_rounds-IsRun (sent, err e) rest s' later h = cc
  then_rounds-IsRun (sent, ok t) rest s' later h = later t refl h

  mine_rounds-IsRun :
      (s s' : MineState) (rounds : List Round)
      → IsRun config s
      → (mine_rounds blake decode config s rounds).1 ≡ ok s'
      → IsRun config s'
  unfolding mine_rounds
  mine_rounds-IsRun s s' [] r h = subst (IsRun config) (ok_inj h) r
  mine_rounds-IsRun s s' (round ∷ rounds) r h =
      elim (Bool-cases (wants_more blake decode config s)) [
        | inl more ↦
            then_rounds-IsRun (after_solve blake decode config s round.answers round.result) _ s'
              (λ t now later.
                mine_rounds-IsRun t s' rounds
                  (IsStep-IsRun s t round.answers round.result
                    (after_solve-IsStep blake decode config s t round.answers round.result now) more
                    r)
                  later)
              (rw more at h)
        | inr enough ↦ subst (IsRun config) (ok_inj (rw enough at h)) r
      ]

  from_start-IsRun :
      (job : Job) (rounds : List Round) (bytes : Option (List ℕ)) (s' : MineState)
      → (from_start blake decode config job rounds bytes).1 ≡ ok s'
      → IsRun config s'
  from_start-IsRun job rounds none s' h = cc
  from_start-IsRun job rounds (some bytes) s' h =
      mine_rounds-IsRun _ s' rounds
        (record { errors = omega arith; nonce = start; graphs = inr (omega arith) }) h

-- With a configured nonce that is a `u64`, wherever `mine` stands after any rounds, fewer than three
-- GPU errors came in a row, the nonce is a `u64`, and no more graphs were searched than configured,
-- unless that number is 0.
pub mine-IsRun :
    (blake : Blake2b256) (decode : List ℕ → Option (List ℕ)) (config : MineConfig)
    (got : Option Job) (fresh : Job) (latest : Option Job) (rounds : List Round) (s : MineState)
    → config.nonce_start < 2 ^ 64
    → (mine blake decode config got fresh latest rounds).1 ≡ ok s
    → IsRun config s
unfolding mine
mine-IsRun blake decode config got fresh latest rounds s start h =
    elim (Bool-cases (not (config.cycle_length == 42))) [
      | inl wrong ↦ absurd (let h' = rw wrong at h in cc)
      | inr right ↦ from_start-IsRun blake decode config start _ rounds _ s (rw right at h)
    ]
