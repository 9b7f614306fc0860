-- ===== src/Stratum/Calls/Link.antt =====
-- src/stratum.rs: the connection as an automaton of its own, and runs of the client as runs of it.
use rust_miner.Base.{◌≡◌, refl, ◌∙◌, ap, Bool, true, false, Option, none, some, List, []}
use rust_miner.Base.{◌∷◌, Result, ok, err, ltb, ℕ, Bool-cases, Option-cases, inl, inr}
use mathlib.Core.Path.{ap₂}
use rust_miner.Stratum.{Job}
use rust_miner.Stratum.Frame.{Frame}
use rust_miner.Stratum.Json.{
  Json, ClientError, not_written, closed, timed_out, job_reply, ensure_ok, is_job_push, pushed_job,
  usable, and_then, response_id,
}
use rust_miner.Stratum.Client.{
  Task, job_task, submit_task, reconnect, get_job, submit, idle, bumped, marked, stopped, cleared,
  spawned, ready, writing, waiting, publishing, giving_up, answer_to, Phase, finished, Control,
  Client, replied, login_task, start, holds, dispatch, publish, deliver, at_top, at_read, at_frame,
  at_value, at_close, at_report, at_down, reader_phase, reader_step,
}
use rust_miner.Stratum.Calls.{
  Choice, call, good, bad, abandon, after_login, after_job, keep_pushed, receive, is_bad, can_stop,
  Move, reader_moves, client_moves, client_control, client_step, step, run,
}
use rust_miner.Stratum.Calls.Sound.{IsSound, start-IsSound}
use rust_miner.Stratum.Calls.Notices.{step-IsSound}

-- A connection that is set up, that waits for the login, that was lost before the login was over, and
-- that serves requests, or has been lost.
pub data Link : Type 0 where
  setting_up logging_in cut_off up down : Link

pub data Event : Type 0 where
  quiet reconnects opens accepted refused lost : Event

unfoldable pub react : Event → Link → Link
react quiet link = link
react reconnects link = setting_up
react opens link = logging_in
react accepted logging_in = up
react accepted link = down
react refused link = down
react lost logging_in = cut_off
react lost up = down
react lost link = link

unfoldable pub follow : List Event → Link → Link
follow [] link = link
follow (event ∷ events) link = follow events (react event link)

pub data Stage : Type 0 where
  setup login service : Stage

abbrev pub link_of : Stage → Bool → Link
link_of setup connected = setting_up
link_of login true = logging_in
link_of login false = cut_off
link_of service true = up
link_of service false = down

abbrev task_stage : Task → Stage
task_stage login_task = login
task_stage job_task = service
task_stage submit_task = service

module _ (json : Json) where
  abbrev pub stage : Control json → Stage
  stage idle = service
  stage bumped = setup
  stage marked = setup
  stage stopped = setup
  stage cleared = setup
  stage spawned = setup
  stage (ready task) = task_stage task
  stage (writing task id) = task_stage task
  stage (waiting task id) = task_stage task
  stage (replied task value) = task_stage task
  stage (publishing job) = service
  stage (giving_up error) = login

  -- What the client and its `connected` say of the connection.
  abbrev pub view : Client json → Link
  view c = link_of (stage c.control) c.connected

  abbrev login_event : Result ClientError (Unit {0}) → Event
  login_event (ok _) = accepted
  login_event (err e) = quiet

  abbrev pub client_event : Control json → Choice → Event
  client_event idle (call reconnect) = reconnects
  client_event cleared bad = refused
  client_event spawned choice = opens
  client_event (replied login_task value) choice = login_event (ensure_ok json value)
  client_event (giving_up error) choice = refused
  client_event _ choice = quiet

  abbrev pub reader_event : Phase json → Event
  reader_event at_down = lost
  reader_event _ = quiet

  -- What a move is for the connection: a call of `reconnect`, the reader of a new stream, a login
  -- that the pool accepts, its failure or that of the stream, the loss that a reader reports.
  abbrev pub event_of : Move → Client json → Event
  event_of (reader_moves input) c = reader_event c.reader
  event_of (client_moves choice) c = client_event c.control choice

  module _ (decode : List ℕ → Option (List ℕ)) where
    unfoldable pub events_of : List Move → Client json → List Event
    events_of [] c = []
    events_of (move ∷ moves) c = event_of move c ∷ events_of moves (step json decode move c)

    -- Where the client stands and its `connected` are left alone.
    abbrev Leaves : Client json → Client json → Type 0
    Leaves c c' = (c'.control ≡ c.control) × (c'.connected ≡ c.connected)

    Leaves-view : (c c' : Client json) → Leaves c c' → view c' ≡ view c
    Leaves-view c c' (same, kept) = ap₂ (λ k b. link_of (stage k) b) same kept

    dispatch-Leaves :
        (value : json.Value) (c : Client json) → Leaves c (dispatch json decode value c)
    unfolding dispatch
    dispatch-Leaves value c = elim (Bool-cases (is_job_push json value)) [
      | inl push ↦ rw push (published (and_then json (usable json decode) (pushed_job json value)))
      | inr reply ↦ rw reply (delivered (response_id json value))
    ]
      where
        published : (o : Option Job) → Leaves c (publish json decode o c)
        published none = (refl, refl)
        published (some job) = (refl, refl)

        delivered : (o : Option ℕ) → Leaves c (deliver json decode o value c)
        delivered none = (refl, refl)
        delivered (some id) = elim (Bool-cases (holds id c.pending)) [
          | inl held ↦ rw held (refl, refl)
          | inr free ↦ rw free (refl, refl)
        ]

    loses : (s : Stage) (b : Bool) → link_of s false ≡ react lost (link_of s b)
    unfolding react
    loses setup b = refl
    loses login true = refl
    loses login false = refl
    loses service true = refl
    loses service false = refl

    reader-view :
        (p : Phase json) (input : Option Frame) (c : Client json)
        → view (reader_phase json decode p input c) ≡ react (reader_event p) (view c)
    unfolding reader_phase react
    reader-view (at_value value) input c =
        Leaves-view (record c { reader = at_top })
          (dispatch json decode value (record c { reader = at_top }))
          (dispatch-Leaves value (record c { reader = at_top }))
    reader-view at_down input c = loses (stage c.control) c.connected
    reader-view at_top input c = refl
    reader-view at_read input c = refl
    reader-view (at_frame bytes) input c = refl
    reader-view at_close input c = refl
    reader-view at_report input c = refl
    reader-view finished input c = refl

    -- What a step of the client does to a connection, from where the client stands.
    abbrev From : Control json → Event → Client json → Client json → Type 0
    From k event c c' = view c' ≡ react event (link_of (stage k) c.connected)

    unmoved : (k : Control json) (c : Client json) → c.control ≡ k → From k quiet c c
    unfolding react
    unmoved k c e = ap (λ t. link_of (stage t) c.connected) e

    abandon-From :
        (task : Task) (error : ClientError) (c : Client json) (p : List ℕ)
        → From (ready task) quiet c (abandon json task error (record c { pending = p }))
    unfolding react
    abandon-From login_task error c p = refl
    abandon-From job_task error c p = refl
    abandon-From submit_task error c p = refl

    login-From :
        (value : json.Value) (c : Client json) (r : Result ClientError (Unit {0}))
        → From (replied login_task value) (login_event r) c (after_login json r c)
    unfolding react
    login-From value c (err error) = refl
    login-From value c (ok tt) = entered c.connected
      where
        entered : (b : Bool) → link_of service b ≡ react accepted (link_of login b)
        entered true = refl
        entered false = refl

    job-From :
        (value : json.Value) (c : Client json) (r : Result ClientError Job)
        → From (replied job_task value) quiet c (after_job json r c)
    unfolding react
    job-From value c (err error) = refl
    job-From value c (ok job) = newest c.job
      where
        newest : (o : Option Job) → From (replied job_task value) quiet c (keep_pushed json job o c)
        newest none = refl
        newest (some pushed) = elim (Bool-cases (ltb job.height pushed.height)) [
          | inl higher ↦ rw higher refl
          | inr other ↦ rw other refl
        ]

    receive-From :
        (task : Task) (id : ℕ) (choice : Choice) (c : Client json)
        → c.control ≡ waiting task id
        → From
            (ready task)
            quiet
            c
            (receive json (answer_to json id c.inbox) (is_bad choice) task id c)
    unfolding react
    receive-From task id choice c e = elim (Option-cases (answer_to json id c.inbox)) [
      | inr (value, told) ↦ rw told refl
      | inl silent ↦ rw silent (elim (Bool-cases (holds id c.pending)) [
        | inr dropped ↦ rw dropped (abandon-From task closed c c.pending)
        | inl held ↦ rw held (elim (Bool-cases (is_bad choice)) [
          | inl late ↦ rw late (abandon-From task timed_out c _)
          | inr early ↦ rw early (unmoved (waiting task id) c e)
        ])
      ])
    ]

    client-From :
        (k : Control json) (choice : Choice) (c : Client json)
        → c.control ≡ k
        → IsSound json c
        → From k (client_event k choice) c (client_control json decode k choice c)
    unfolding client_control react
    client-From idle good c e s = unmoved idle c e
    client-From idle bad c e s = unmoved idle c e
    client-From idle (call reconnect) c e s = refl
    client-From idle (call get_job) c e s = refl
    client-From idle (call submit) c e s = refl
    client-From bumped choice c e s = refl
    client-From marked choice c e s = elim (Bool-cases (can_stop json c.reader)) [
      | inl stops ↦ rw stops refl
      | inr runs ↦ rw runs (unmoved marked c e)
    ]
    client-From stopped choice c e s = refl
    client-From cleared good c e s = refl
    client-From cleared (call operation) c e s = refl
    client-From cleared bad c e s = ap (λ b. link_of service b) (s.down (rw e))
    client-From spawned choice c e s = refl
    client-From (ready login_task) choice c e s = refl
    client-From (ready job_task) choice c e s = refl
    client-From (ready submit_task) choice c e s = refl
    client-From (writing task id) bad c e s = abandon-From task not_written c _
    client-From (writing task id) good c e s = refl
    client-From (writing task id) (call operation) c e s = refl
    client-From (waiting task id) choice c e s = receive-From task id choice c e
    client-From (replied login_task value) choice c e s = login-From value c (ensure_ok json value)
    client-From (replied job_task value) choice c e s =
        job-From value c (job_reply json decode value)
    client-From (replied submit_task value) choice c e s = refl
    client-From (publishing job) choice c e s = refl
    client-From (giving_up error) choice c e s = refl

    step-view :
        (move : Move) (c : Client json)
        → IsSound json c
        → view (step json decode move c) ≡ react (event_of move c) (view c)
    unfolding step reader_step client_step
    step-view (reader_moves input) c s = reader-view c.reader input c
    step-view (client_moves choice) c s = client-From c.control choice c refl s

    follows :
        (moves : List Move) (c : Client json)
        → IsSound json c
        → view (run json decode moves c) ≡ follow (events_of moves c) (view c)
    unfolding run events_of follow
    follows [] c s = refl
    follows (move ∷ moves) c s =
        follows moves (step json decode move c) (step-IsSound json decode move c s)
        ∙ ap (follow (events_of moves (step json decode move c))) (step-view move c s)

    -- In every run of a client and its reader from `connect`, whatever the connection does, the
    -- connection that the client shows is the state to which the automaton of a connection comes by
    -- the events of the run: calls of `reconnect`, a stream that opens, a login that the pool
    -- accepts or that fails, and a loss that the reader reports.
    pub run_refines :
        (moves : List Move)
        → view (run json decode moves (start json))
          ≡ follow (events_of moves (start json)) setting_up
    unfolding start
    run_refines moves = follows moves (start json) (start-IsSound json)
