-- ===== src/Coordinator/Select.antt =====
-- src/coordinator.rs: the events that `select!` meets while a solve runs, and the flag that they set.
use rust_miner.Base.{
  Bool, true, false, not, ◌||◌, Option, none, some, List, [], ◌∷◌, ◌≡◌, sym, arith, if◌then◌else◌,
}
use rust_miner.Stratum.{Job}
use rust_miner.Coordinator.{job_is_stale}

-- A change of the job channel, with the job in it, or of the connection channel; `none` on the
-- outside is a channel that was closed.
pub data Event : Type 0 where
  job_changed : Option (Option Job) → Event
  connection_changed : Option Bool → Event

pub record Watch : Type 0 where
  pub cancel : Bool
  pub job_channel_open : Bool
  pub connection_channel_open : Bool

abbrev pub start_watch : Watch
start_watch = record { cancel = false; job_channel_open = true; connection_channel_open = true }

abbrev pub names_stale : Job → Option Job → Bool
names_stale current none = false
names_stale current (some latest) = job_is_stale current latest

-- One branch of `select!` besides the end of the solve; a closed channel has its branch off.
pub on_event : Job → Watch → Event → Watch
on_event current w (job_changed none) =
    if w.job_channel_open then record w { cancel = true; job_channel_open = false } else w
on_event current w (job_changed (some latest)) =
    if w.job_channel_open then record w { cancel = w.cancel || names_stale current latest } else w
on_event current w (connection_changed none) =
    if w.connection_channel_open
    then record w { cancel = true; connection_channel_open = false }
    else w
on_event current w (connection_changed (some connected)) =
    if w.connection_channel_open then record w { cancel = w.cancel || not connected } else w

pub watch : Job → Watch → List Event → Watch
watch current w [] = w
watch current w (event ∷ events) = watch current (on_event current w event) events

-- A stale job, a lost connection, or a closed channel.
abbrev pub is_alarming : Job → Event → Bool
is_alarming current (job_changed none) = true
is_alarming current (job_changed (some latest)) = names_stale current latest
is_alarming current (connection_changed none) = true
is_alarming current (connection_changed (some connected)) = not connected

abbrev pub any_alarming : Job → List Event → Bool
any_alarming current [] = false
any_alarming current (event ∷ events) = is_alarming current event || any_alarming current events

-- A channel is closed only after the flag was set.
record IsWatch (w : Watch) : Type 0 where
  job_closed : w.job_channel_open ≡ false → w.cancel ≡ true
  connection_closed : w.connection_channel_open ≡ false → w.cancel ≡ true

on_event-IsWatch :
    (current : Job) (w : Watch) (event : Event) → IsWatch w → IsWatch (on_event current w event)
unfolding on_event
on_event-IsWatch current w (job_changed none) i = ground (arith, i.job_closed, i.connection_closed)
on_event-IsWatch current w (job_changed (some latest)) i =
    ground (arith, i.job_closed, i.connection_closed)
on_event-IsWatch current w (connection_changed none) i =
    ground (arith, i.job_closed, i.connection_closed)
on_event-IsWatch current w (connection_changed (some c)) i =
    ground (arith, i.job_closed, i.connection_closed)

on_event-cancel :
    (current : Job) (w : Watch) (event : Event)
    → IsWatch w
    → (on_event current w event).cancel ≡ (w.cancel || is_alarming current event)
unfolding on_event
on_event-cancel current w (job_changed none) i = ground (arith, i.job_closed, i.connection_closed)
on_event-cancel current w (job_changed (some latest)) i =
    ground (arith, i.job_closed, i.connection_closed)
on_event-cancel current w (connection_changed none) i =
    ground (arith, i.job_closed, i.connection_closed)
on_event-cancel current w (connection_changed (some c)) i =
    ground (arith, i.job_closed, i.connection_closed)

watch-cancel_from :
    (current : Job) (w : Watch) (events : List Event)
    → IsWatch w
    → (watch current w events).cancel ≡ (w.cancel || any_alarming current events)
unfolding watch
watch-cancel_from current w [] i = ground arith
watch-cancel_from current w (event ∷ events) i =
    let later =
      watch-cancel_from current (on_event current w event) events
        (on_event-IsWatch current w event i) in
    let now = on_event-cancel current w event i in ground (arith, later, now)

-- The flag is set exactly if one of the events was a job at another height, a lost connection, or
-- the end of a channel.
pub watch-cancel :
    (current : Job) (events : List Event)
    → (watch current start_watch events).cancel ≡ any_alarming current events
watch-cancel current events =
    watch-cancel_from current start_watch events
      (record { job_closed = λ e. sym e; connection_closed = λ e. sym e })
