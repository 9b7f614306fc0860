-- ===== src/Stratum/Calls/Replies.antt =====
-- src/stratum.rs: which replies reach a request.
use rust_miner.Base.{ℕ, ◌≡◌, ◌≢◌, ap, ◌∙◌, subst, Option, some, List}
use rust_miner.Base.{Bool-cases, Option-cases, inl, inr}
use rust_miner.Stratum.Json.{Json, ClientError, closed, timed_out, response_id}
use rust_miner.Stratum.Client.{
  Task, login_task, job_task, submit_task, holds, waiting, replied, answer_to, Control, Client,
  start,
}
use rust_miner.Stratum.Calls.{Choice, abandon, is_bad, Move, client_control, client_step, run}
use rust_miner.Stratum.Calls.Genuine.{start-IsGenuine, run-IsGenuine}

module _ (json : Json) (decode : List ℕ → Option (List ℕ)) where
  open json use {Value}

  abandoned :
      (t task : Task) (error : ClientError) (c : Client json) (p : List ℕ) (value : Value)
      → (abandon json t error (record c { pending = p })).control ≢ replied task value
  abandoned login_task task error c p value h = cc
  abandoned job_task task error c p value h = cc
  abandoned submit_task task error c p value h = cc

  taken :
      (c : Client json) (task : Task) (id : ℕ) (choice : Choice) (response : Value)
      → c.control ≡ waiting task id
      → (client_control json decode (waiting task id) choice c).control ≡ replied task response
      → answer_to json id c.inbox ≡ some response
  unfolding client_control
  taken c task id choice response w h = elim (Option-cases (answer_to json id c.inbox)) [
    | inr (value, there) ↦ there ∙ ap some (the_value value (rw there at h))
    | inl silent ↦ absurd (elim (Bool-cases (holds id c.pending)) [
      | inr dropped ↦ abandoned task task closed c c.pending response (rw (silent, dropped) at h)
      | inl held ↦ elim (Bool-cases (is_bad choice)) [
        | inl late ↦ abandoned task task timed_out c _ response (rw (silent, held, late) at h)
        | inr early ↦ cc (rw (silent, held, early) at h, w)
      ]
    ])
  ]
    where
      the_value :
          (value : Value)
          → ◌≡◌ {A = Control json} (replied task value) (replied task response)
          → value ≡ response
      the_value value e = cc

  -- In every run from `connect`, whatever the pool sends, a request takes up no reply but one that
  -- carries its id.
  pub run-replies :
      (moves : List Move) (choice : Choice) (task : Task) (id : ℕ) (response : Value)
      → let c = run json decode moves (start json) in
        c.control ≡ waiting task id
        → (client_step json decode choice c).control ≡ replied task response
        → response_id json response ≡ some id
  unfolding client_step
  run-replies moves choice task id response w h =
      (run-IsGenuine json decode moves (start json) (start-IsGenuine json decode)).addressed id
        response
        (taken c task id choice response w (
          subst (λ k. (client_control json decode k choice c).control ≡ replied task response) w h))
    where
      c : Client json
      c = run json decode moves (start json)
