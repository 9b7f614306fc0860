-- ===== src/Stratum/Calls/Tests.antt =====
-- Runs of src/stratum.rs over a small type of JSON values: a login, a push, an answer and a loss.
use Prim.Native.String.{String}
use text.Mathlib.Text.{◌==◌ as ◌=s=◌}
use rust_miner.Base.{ℕ, ◌≡◌, refl, Bool, true, false, Option, none, some, List, [], ◌∷◌, ◌++◌, ◌==◌}
use rust_miner.Base.{if◌then◌else◌}
use rust_miner.Stratum.{Job}
use rust_miner.Stratum.Frame.{line, at_end}
use rust_miner.Stratum.Json.{Json, response_id, ensure_ok}
use rust_miner.Stratum.Client.{
  Client, start, reader_step, answer_to, holds, remove, job_task, replied, get_job,
}
use rust_miner.Stratum.Calls.{
  Move, reader_moves, client_moves, good, bad, call, run, client_step, step,
}
use rust_miner.Stratum.Calls.Notices.{run-notices}
use rust_miner.Stratum.Calls.Link.{view, follow, events_of, setting_up, down, run_refines}
use rust_miner.Stratum.Calls.Replies.{run-replies}
use rust_miner.Stratum.Calls.Answers.{run-answers}

-- A reply with an id, a push of a job with a height, and a text or a number in them.
data Message : Type 0 where
  nothing : Message
  words : String → Message
  number : ℕ → Message
  reply push : ℕ → Message
  job : ℕ → Message

abbrev is_nothing : Message → Bool
is_nothing nothing = true
is_nothing _ = false

abbrev field : String → Message → Option Message
field key (reply id) =
    if key =s= "id" then some (number id) else if key =s= "result" then some (job 7) else none
field key (push height) =
    if key =s= "method"
    then some (words "job")
    else if key =s= "params"
    then some (job height)
    else none
field key _ = none

abbrev text_in : Message → Option String
text_in (words t) = some t
text_in _ = none

abbrev number_in : Message → Option ℕ
number_in (number n) = some n
number_in _ = none

abbrev job_at : Message → Option Job
job_at (job height) =
    some (record { height = height; job_id = 0; difficulty = 1; pre_pow = 48 ∷ 48 ∷ [] })
job_at _ = none

-- A byte that is 100 or more is a push, any other a reply.
abbrev message_of : List ℕ → Option Message
message_of [] = none
message_of (b ∷ bs) = some (if b == 100 then push 100 else reply b)

abbrev messages : Json
messages = record {
  Value = Message;
  null = nothing;
  get = field;
  is_null = is_nothing;
  as_str = text_in;
  as_u64 = number_in;
  from_slice = message_of;
  job_of = job_at;
  rpc_error_of = λ m. none;
  to_string = λ m. [];
}

abbrev plain_text : List ℕ → Option (List ℕ)
plain_text t = some t

abbrev hears : ℕ → List Move
hears b =
    reader_moves (some (line (b ∷ [])))
    ∷ reader_moves none
    ∷ reader_moves none
    ∷ reader_moves none
    ∷ []

-- `connect`: the login is sent, and answered.
abbrev logs_in : List Move
logs_in =
    client_moves good ∷ client_moves good ∷ client_moves good ∷ reader_moves none ∷ hears 1
    ++ client_moves good ∷ client_moves good ∷ []

-- The pool closes the connection.
abbrev hangs_up : List Move
hangs_up =
    reader_moves (some at_end) ∷ reader_moves none ∷ reader_moves none ∷ reader_moves none ∷ []

abbrev after : List Move → Client messages
after moves = run messages plain_text moves (start messages)

login_connects : (after logs_in).connected ≡ true
unfolding run step client_step reader_step start response_id ensure_ok answer_to holds remove
login_connects = refl

run-notices_example : (after (logs_in ++ hangs_up)).connected ≡ false
run-notices_example =
    run-notices messages plain_text (logs_in ++ hangs_up)
      (unfold run step client_step reader_step start response_id ensure_ok answer_to holds remove in
        refl)
      (unfold run step client_step reader_step start response_id ensure_ok answer_to holds remove in
        refl)

abbrev whole_life : List Move
whole_life = logs_in ++ hangs_up

goes_down : view messages (after whole_life) ≡ down
unfolding run step client_step reader_step start response_id ensure_ok answer_to holds remove
goes_down = refl

run_refines_example :
    view messages (after whole_life)
    ≡ follow (events_of messages plain_text whole_life (start messages)) setting_up
run_refines_example = run_refines messages plain_text whole_life

-- A push behind the login.
abbrev pushed : List Move
pushed =
    logs_in ++ reader_moves (some (line (100 ∷ []))) ∷ reader_moves none ∷ reader_moves none ∷ []

push_published : (after pushed).job ≡ job_at (job 100)
unfolding run step client_step reader_step start response_id ensure_ok answer_to holds remove
push_published = refl

-- A request for a job, which waits for its answer.
abbrev asks : List Move
asks = logs_in ++ client_moves (call get_job) ∷ client_moves good ∷ client_moves good ∷ []

abbrev waiting_client : Client messages
waiting_client = after asks

run-answers_example :
    (run messages plain_text
      (reader_moves (some (line (2 ∷ [])))
        ∷ reader_moves none
        ∷ reader_moves none
        ∷ client_moves bad
        ∷ [])
      waiting_client).control
    ≡ replied job_task (reply 2)
run-answers_example =
    run-answers messages plain_text (2 ∷ []) (reply 2) job_task 2 waiting_client
      (unfold run step client_step reader_step start response_id ensure_ok answer_to holds remove in
        refl)
      (unfold run step client_step reader_step start response_id ensure_ok answer_to holds remove in
        refl)
      (unfold run step client_step reader_step start response_id ensure_ok answer_to holds remove in
        refl)
      (unfold run step client_step reader_step start response_id ensure_ok answer_to holds remove in
        refl)
      refl refl (unfold response_id in refl) none none bad

abbrev answered : List Move
answered = asks ++ reader_moves (some (line (2 ∷ []))) ∷ reader_moves none ∷ reader_moves none ∷ []

run-replies_example : response_id messages (reply 2) ≡ some 2
run-replies_example =
    run-replies messages plain_text answered good job_task 2 (reply 2)
      (unfold run step client_step reader_step start response_id ensure_ok answer_to holds remove in
        refl)
      (unfold run step client_step reader_step start response_id ensure_ok answer_to holds remove in
        refl)
