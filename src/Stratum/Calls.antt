-- ===== src/Stratum/Calls.antt =====
-- src/stratum.rs: the operations of the client, step by step, and runs of both tasks.
pub mod Sound
pub mod Reader
pub mod Caller
pub mod Notices
pub mod Link
pub mod Genuine
pub mod Replies
pub mod Answers
mod Tests
use rust_miner.Base.{ℕ, ◌+◌, ◌%◌, ◌^◌, Bool, true, false, not, Option, none, some, List, [], ◌∷◌}
use rust_miner.Base.{Result, ok, err, ltb, if◌then◌else◌}
use rust_miner.Stratum.{Job}
use rust_miner.Stratum.Frame.{Frame}
use rust_miner.Stratum.Json.{
  Json, ClientError, not_connected, not_written, closed, timed_out, ensure_ok, submit_outcome,
  job_reply,
}
use rust_miner.Stratum.Client.{
  Task, login_task, job_task, submit_task, Operation, reconnect, get_job, submit, Returned,
  logged_in, got_job, submitted, failed, remove, holds, Phase, at_top, at_read, at_close, at_report,
  at_down, finished, at_frame, at_value, Control, idle, bumped, marked, stopped, cleared, spawned,
  ready, writing, waiting, replied, publishing, giving_up, Client, answer_to, reader_step,
}

-- What decides a step of the client: the operation that is called, whether the connection or the
-- write succeeds, and whether the 30 seconds of a request are over.
pub data Choice : Type 0 where
  call : Operation → Choice
  good bad : Choice

-- One step of the reader, with what `read_frame` returns to it, or of the client.
pub data Move : Type 0 where
  reader_moves : Option Frame → Move
  client_moves : Choice → Move

abbrev pub is_bad : Choice → Bool
is_bad bad = true
is_bad good = false
is_bad (call operation) = false

module _ (json : Json) where
  open json use {Value}

  abbrev pub finish : Returned → Client json → Client json
  finish result c = record c { control = idle; returned = some result }

  -- A login that fails marks the connection as lost before it returns.
  abbrev pub abandon : Task → ClientError → Client json → Client json
  abandon login_task e c = record c { control = giving_up e }
  abandon job_task e c = finish (failed e) c
  abandon submit_task e c = finish (failed e) c

  -- `abort` takes effect where the reader waits; `stop_reader` returns when it has ended.
  abbrev pub can_stop : Phase json → Bool
  can_stop at_read = true
  can_stop (at_value value) = true
  can_stop at_close = true
  can_stop finished = true
  can_stop at_top = false
  can_stop (at_frame bytes) = false
  can_stop at_report = false
  can_stop at_down = false

  abbrev pub on_call : Choice → Client json → Client json
  on_call (call reconnect) c = record c {
    generation = (c.generation + 1) % 2 ^ 64;
    control = bumped;
  }
  on_call (call get_job) c = record c { control = ready job_task }
  on_call (call submit) c = record c { control = ready submit_task }
  on_call good c = c
  on_call bad c = c

  -- The new connection has a map of its own.
  abbrev pub connect_stream : Bool → Client json → Client json
  connect_stream false c = finish (failed not_connected) c
  connect_stream true c = record c {
    pending = [];
    reader = at_top;
    reader_generation = c.generation;
    control = spawned;
  }

  abbrev pub after_write : Bool → Task → ℕ → Client json → Client json
  after_write true task id c = record c { control = waiting task id }
  after_write false task id c =
      abandon task not_written (record c { pending = remove id c.pending })

  -- A sender that is gone without a value was dropped.
  abbrev pub receive : Option Value → Bool → Task → ℕ → Client json → Client json
  receive (some value) late task id c = record c { control = replied task value }
  receive none late task id c =
      if not (holds id c.pending)
      then abandon task closed c
      else if late
      then abandon task timed_out (record c { pending = remove id c.pending })
      else c

  abbrev pub after_login : Result ClientError (Unit {0}) → Client json → Client json
  after_login (ok tt) c = finish logged_in c
  after_login (err e) c = record c { control = giving_up e }

  -- A job that was pushed in the meantime goes before a lower one.
  abbrev pub keep_pushed : Job → Option Job → Client json → Client json
  keep_pushed job none c = record c { control = publishing job }
  keep_pushed job (some pushed) c =
      if ltb job.height pushed.height
      then finish (got_job pushed) c
      else record c { control = publishing job }

  abbrev pub after_job : Result ClientError Job → Client json → Client json
  after_job (err e) c = finish (failed e) c
  after_job (ok job) c = keep_pushed job c.job c

  module _ (decode : List ℕ → Option (List ℕ)) where
    abbrev pub after_answer : Task → Value → Client json → Client json
    after_answer login_task response c = after_login (ensure_ok json response) c
    after_answer job_task response c = after_job (job_reply json decode response) c
    after_answer submit_task response c = finish (submitted (submit_outcome json response)) c

    pub client_control : Control json → Choice → Client json → Client json
    client_control idle choice c = on_call choice c
    client_control bumped choice c = record c { connected = false; control = marked }
    client_control marked choice c =
        if can_stop c.reader then record c { reader = finished; control = stopped } else c
    client_control stopped choice c = record c { pending = []; control = cleared }
    client_control cleared choice c = connect_stream (not (is_bad choice)) c
    client_control spawned choice c = record c { connected = true; control = ready login_task }
    client_control (ready task) choice c = record c {
      next_id = c.next_id + 1;
      pending = c.next_id ∷ c.pending;
      control = writing task c.next_id;
    }
    client_control (writing task id) choice c = after_write (not (is_bad choice)) task id c
    client_control (waiting task id) choice c =
        receive (answer_to json id c.inbox) (is_bad choice) task id c
    client_control (replied task response) choice c = after_answer task response c
    client_control (publishing job) choice c = finish (got_job job) (record c { job = some job })
    client_control (giving_up e) choice c = finish (failed e) (record c { connected = false })

    pub client_step : Choice → Client json → Client json
    unfolding client_control
    client_step choice c = client_control c.control choice c

    pub step : Move → Client json → Client json
    step (reader_moves input) c = reader_step json decode input c
    step (client_moves choice) c = client_step choice c

    pub run : List Move → Client json → Client json
    run [] c = c
    run (move ∷ moves) c = run moves (step move c)
