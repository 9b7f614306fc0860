-- ===== src/Stratum/Calls/Notices.antt =====
-- src/stratum.rs: what `is_connected` says of the reader in every run.
use rust_miner.Base.{ℕ, ◌≡◌, refl, Bool, true, false, not, Option, List, [], ◌∷◌}
use rust_miner.Base.{inl, inr, Bool-cases}
use rust_miner.Stratum.Json.{Json}
use rust_miner.Stratum.Client.{
  Task, login_task, job_task, submit_task, finished, Control, idle, bumped, marked, stopped,
  cleared, spawned, ready, writing, waiting, replied, publishing, giving_up, Client, start,
  reader_step,
}
use rust_miner.Stratum.Calls.{Move, reader_moves, client_moves, client_step, step, run}
use rust_miner.Stratum.Calls.Sound.{Deaf, IsSound, start-IsSound}
use rust_miner.Stratum.Calls.Reader.{reader-IsSound}
use rust_miner.Stratum.Calls.Caller.{client-IsSound}

module _ (json : Json) where
  open json use {Value}

  abbrev is_login : Task → Bool
  is_login login_task = true
  is_login job_task = false
  is_login submit_task = false

  -- The login is over, and no reconnect is under way.
  abbrev pub is_linked : Control json → Bool
  is_linked idle = true
  is_linked bumped = false
  is_linked marked = false
  is_linked stopped = false
  is_linked cleared = false
  is_linked spawned = false
  is_linked (ready task) = not (is_login task)
  is_linked (writing task id) = not (is_login task)
  is_linked (waiting task id) = not (is_login task)
  is_linked (replied task value) = not (is_login task)
  is_linked (publishing job) = true
  is_linked (giving_up error) = false

  linked-hears :
      (k : Control json) (inbox : List (ℕ × Value)) → is_linked k ≡ true → ¬ Deaf json k inbox
  linked-hears idle inbox h d = d
  linked-hears (ready job_task) inbox h d = d
  linked-hears (ready submit_task) inbox h d = d
  linked-hears (writing job_task id) inbox h d = d
  linked-hears (writing submit_task id) inbox h d = d
  linked-hears (waiting job_task id) inbox h d = d
  linked-hears (waiting submit_task id) inbox h d = d
  linked-hears (replied task value) inbox h d = d
  linked-hears (publishing job) inbox h d = d
  linked-hears _ inbox h d = cc

  module _ (decode : List ℕ → Option (List ℕ)) where
    pub step-IsSound :
        (move : Move) (c : Client json) → IsSound json c → IsSound json (step json decode move c)
    unfolding step reader_step client_step
    step-IsSound (reader_moves input) c s = reader-IsSound json decode c.reader input c refl s
    step-IsSound (client_moves choice) c s = client-IsSound json decode c.control choice c refl s

    run-IsSound :
        (moves : List Move) (c : Client json)
        → IsSound json c
        → IsSound json (run json decode moves c)
    unfolding run
    run-IsSound [] c s = s
    run-IsSound (move ∷ moves) c s = run-IsSound moves _ (step-IsSound move c s)

    -- In every run of a client and its reader, whatever the connection does: when the login is over
    -- and no reconnect is under way, the end of the reader shows in `is_connected`.
    pub run-notices :
        (moves : List Move)
        → let c = run json decode moves (start json) in
          is_linked c.control ≡ true → c.reader ≡ finished → c.connected ≡ false
    run-notices moves linked over = elim (Bool-cases c.connected) [
      | inl up ↦ absurd (linked-hears c.control c.inbox linked (sound.noticed over up))
      | inr down ↦ down
    ]
      where
        c : Client json
        c = run json decode moves (start json)

        sound : IsSound json c
        sound = run-IsSound moves (start json) (start-IsSound json)
