-- ===== src/Stratum/Calls/Answers.antt =====
-- src/stratum.rs: a reply reaches the request that waits for it.
use rust_miner.Base.{ℕ, ◌≡◌, refl, ap, ◌∙◌, true, false, Option, some, List, []}
use rust_miner.Base.{◌∷◌, ≡→==}
use rust_miner.Stratum.Frame.{Frame, line}
use rust_miner.Stratum.Json.{Json, is_job_push, response_id}
use rust_miner.Stratum.Client.{
  Task, waiting, replied, holds, remove, answer_to, Client, is_current, at_read, at_top, at_frame,
  at_value, dispatch, reader_phase, reader_step,
}
use rust_miner.Stratum.Calls.{
  Choice, reader_moves, client_moves, client_control, client_step, step, run,
}

module _ (json : Json) (decode : List ℕ → Option (List ℕ)) where
  open json use {Value, from_slice}

  module _ (bytes : List ℕ) (value : Value) (task : Task) (id : ℕ) (c : Client json)
      (reads : c.reader ≡ at_read) (current : is_current json c ≡ true)
      (waits : c.control ≡ waiting task id) (held : holds id c.pending ≡ true)
      (parsed : from_slice bytes ≡ some value) (plain : is_job_push json value ≡ false)
      (own : response_id json value ≡ some id) where
    abbrev delivered : Client json
    delivered = record c {
      reader = at_top;
      pending = remove id c.pending;
      inbox = (id, value) ∷ c.inbox;
    }

    dispatch-delivered : dispatch json decode value (record c { reader = at_top }) ≡ delivered
    unfolding dispatch
    dispatch-delivered = rw (plain, own, held) refl

    read_frame_step :
        reader_step json decode (some (line bytes)) c ≡ record c { reader = at_frame bytes }
    unfolding reader_step reader_phase
    read_frame_step = ap (λ p. reader_phase json decode p (some (line bytes)) c) reads

    parse_step :
        (input : Option Frame)
        → reader_step json decode input (record c { reader = at_frame bytes })
          ≡ record c { reader = at_value value }
    unfolding reader_step reader_phase
    parse_step input = rw (current, parsed) refl

    dispatch_step :
        (input : Option Frame)
        → reader_step json decode input (record c { reader = at_value value }) ≡ delivered
    unfolding reader_step reader_phase
    dispatch_step input = dispatch-delivered

    take_up :
        (choice : Choice) → (client_step json decode choice delivered).control ≡ replied task value
    unfolding client_step client_control answer_to
    take_up choice =
        ap (λ k. (client_control json decode k choice delivered).control) waits
        ∙ rw (≡→== id id refl) refl

    -- A reply is not lost: while a request waits for its id and the reader of the connection reads, a
    -- frame with the reply, which is not a job push, is what the request returns after three steps of
    -- the reader and one of the client, whether its time is over or not.
    pub run-answers :
        (y z : Option Frame) (choice : Choice)
        → (run json decode
            (reader_moves (some (line bytes))
              ∷ reader_moves y
              ∷ reader_moves z
              ∷ client_moves choice
              ∷ [])
            c).control
          ≡ replied task value
    unfolding run step
    run-answers y z choice = rw (read_frame_step, parse_step y, dispatch_step z) (take_up choice)
