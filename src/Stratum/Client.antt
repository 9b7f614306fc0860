-- ===== src/Stratum/Client.antt =====
-- src/stratum.rs: the client, its reader task and what they share. The two run at the same time: a
-- run is a list of moves, each one step of the reader or of the client between two accesses of the
-- shared state. What the connection does is in the move.
use rust_miner.Base.{ℕ, Bool, false, ◌||◌, Option, none, some, List, []}
use rust_miner.Base.{◌∷◌, ◌==◌, if◌then◌else◌}
use rust_miner.Stratum.{Job, SubmitOutcome}
use rust_miner.Stratum.Frame.{Frame, at_end, too_long, line}
use rust_miner.Stratum.Json.{
  Json, ClientError, is_job_push, pushed_job, usable, response_id, and_then,
}

-- Which operation a request is part of; the login is part of `connect` and of `reconnect`.
pub data Task : Type 0 where
  login_task job_task submit_task : Task

pub data Operation : Type 0 where
  reconnect get_job submit : Operation

-- What an operation returns.
pub data Returned : Type 0 where
  logged_in : Returned
  got_job : Job → Returned
  submitted : SubmitOutcome → Returned
  failed : ClientError → Returned

-- The removal of an id from the map of waiting requests, and a test for it.
unfoldable pub remove : ℕ → List ℕ → List ℕ
remove id [] = []
remove id (x ∷ xs) = if x == id then remove id xs else x ∷ remove id xs

unfoldable pub holds : ℕ → List ℕ → Bool
holds id [] = false
holds id (x ∷ xs) = (x == id) || holds id xs

module _ (json : Json) where
  open json use {Value, from_slice}

  -- Where the reader stands: before the first test of the generation, in `read_frame`, before the
  -- second test, before the dispatch, and in the three steps behind the loop.
  pub data Phase : Type 0 where
    at_top at_read at_close at_report at_down finished : Phase
    at_frame : List ℕ → Phase
    at_value : Value → Phase

  -- Where the client stands: between operations; in `reconnect` behind the new generation, the lost
  -- connection, the end of the reader and the shutdown; behind `spawn_reader`; in `request` before
  -- the id, the write and the answer; behind the answer; in `get_job` before the job is published;
  -- and before a refused login marks the connection as lost.
  pub data Control : Type 0 where
    idle bumped marked stopped cleared spawned : Control
    ready : Task → Control
    writing waiting : Task → ℕ → Control
    replied : Task → Value → Control
    publishing : Job → Control
    giving_up : ClientError → Control

  -- `pending` holds the ids with a sender, `inbox` what was sent to each receiver. `next_id` is a
  -- `u64` in the code, but no wrap-around is modelled: `2 ^ 64` requests are out of reach.
  pub record Client : Type 0 where
    pub generation : ℕ
    pub connected : Bool
    pub job : Option Job
    pub pending : List ℕ
    pub inbox : List (ℕ × Value)
    pub next_id : ℕ
    pub reader : Phase
    pub reader_generation : ℕ
    pub control : Control
    pub returned : Option Returned

  -- What a receiver holds.
  unfoldable pub answer_to : ℕ → List (ℕ × Value) → Option Value
  answer_to id [] = none
  answer_to id ((j, value) ∷ rest) = if j == id then some value else answer_to id rest

  -- `connect` behind `spawn_reader`.
  unfoldable pub start : Client
  start = record {
    generation = 1;
    connected = false;
    job = none;
    pending = [];
    inbox = [];
    next_id = 1;
    reader = at_top;
    reader_generation = 1;
    control = spawned;
    returned = none;
  }

  abbrev pub is_current : Client → Bool
  is_current c = c.generation == c.reader_generation

  module _ (decode : List ℕ → Option (List ℕ)) where
    -- A push of a usable job is published, any other ignored; a reply goes to the request that waits
    -- for its id.
    abbrev pub publish : Option Job → Client → Client
    publish none c = c
    publish (some pushed) c = record c { job = some pushed }

    abbrev pub deliver : Option ℕ → Value → Client → Client
    deliver none value c = c
    deliver (some id) value c =
        if holds id c.pending
        then record c { pending = remove id c.pending; inbox = (id, value) ∷ c.inbox }
        else c

    unfoldable pub dispatch : Value → Client → Client
    dispatch value c =
        if is_job_push json value
        then publish (and_then json (usable json decode) (pushed_job json value)) c
        else deliver (response_id json value) value c

    -- `none` is an error of the connection.
    abbrev after_read : Option Frame → Phase
    after_read (some (line bytes)) = at_frame bytes
    after_read (some at_end) = at_close
    after_read (some too_long) = at_close
    after_read none = at_close

    abbrev after_parse : Option Value → Phase
    after_parse none = at_top
    after_parse (some value) = at_value value

    -- One step of the task of `spawn_reader`.
    unfoldable pub reader_phase : Phase → Option Frame → Client → Client
    reader_phase at_top input c = record c { reader = if is_current c then at_read else at_close }
    reader_phase at_read input c = record c { reader = after_read input }
    reader_phase (at_frame bytes) input c = record c {
      reader = if is_current c then after_parse (from_slice bytes) else at_close;
    }
    reader_phase (at_value value) input c = dispatch value (record c { reader = at_top })
    reader_phase at_close input c = record c { pending = []; reader = at_report }
    reader_phase at_report input c = record c {
      reader = if is_current c then at_down else finished;
    }
    reader_phase at_down input c = record c { connected = false; reader = finished }
    reader_phase finished input c = c

    unfoldable pub reader_step : Option Frame → Client → Client
    unfolding reader_phase dispatch
    reader_step input c = reader_phase c.reader input c
