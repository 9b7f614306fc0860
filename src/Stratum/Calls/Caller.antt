-- ===== src/Stratum/Calls/Caller.antt =====
-- src/stratum.rs: the steps of the client keep what holds between the steps.
use rust_miner.Base.{
  ℕ, ◌+◌, ◌≤◌, ◌≡◌, ◌≢◌, refl, Bool, true, false, Option, none, some, List, [], ◌∷◌, arith, ◌+◌,
}
use rust_miner.Base.{Result, ok, err, ltb, subst, inl, inr, Bool-cases, Option-cases}
use rust_miner.Stratum.{Job}
use rust_miner.Stratum.Json.{
  Json, ClientError, not_written, closed, timed_out, ensure_ok, job_reply,
}
use rust_miner.Stratum.Client.{reconnect, get_job, submit, Returned}
use rust_miner.Stratum.Client.{
  Task, login_task, job_task, submit_task, holds, at_top, finished, Control, idle, bumped, marked,
  stopped, cleared, spawned, ready, writing, waiting, replied, publishing, giving_up, Client,
  answer_to,
}
use rust_miner.Stratum.Calls.{
  Choice, call, good, bad, client_control, can_stop, is_bad, receive, after_login, after_job,
  keep_pushed, abandon, after_answer,
}
use rust_miner.Stratum.Calls.Sound.{holds-remove, Deaf, is_down, is_settled, is_ended, IsSound}

module _ (json : Json) where
  open json use {Value}

  module _ (decode : List ℕ → Option (List ℕ)) where
    -- What a step of the client that leaves the reader and the receivers alone has to show.
    placed :
        (c : Client json) {k : Control json} {up : Bool} {pending : List ℕ} {job : Option Job}
        {returned : Option Returned}
        → (c.reader ≡ finished → up ≡ true → Deaf json k c.inbox)
        → (is_down json k ≡ true → up ≡ false)
        → (is_settled json k ≡ true → c.reader ≢ finished → c.generation ≡ c.reader_generation)
        → (is_ended json k ≡ true → c.reader ≡ finished)
        → ((id : ℕ) → c.next_id ≤ id → holds id pending ≡ false)
        → IsSound json c
        → IsSound json (record c {
          connected = up;
          job = job;
          pending = pending;
          control = k;
          returned = returned;
        })
    placed c deaf down settled ended fresh s = record {
      noticed = deaf;
      down = down;
      settled = settled;
      ended = ended;
      fresh_inbox = s.fresh_inbox;
      fresh_pending = fresh;
    }

    abandon-IsSound :
        (task : Task) (error : ClientError) (c : Client json) (p : List ℕ)
        → ((id : ℕ) → c.next_id ≤ id → holds id p ≡ false)
        → is_settled json c.control ≡ true
        → (c.reader ≡ finished → c.connected ≡ true → Deaf json (ready task) c.inbox)
        → IsSound json c
        → IsSound json (abandon json task error (record c { pending = p }))
    abandon-IsSound login_task error c p fresh settled deaf s =
        placed c (λ h k. tt) (λ h. cc) (λ h. s.settled settled) (λ h. cc) fresh s
    abandon-IsSound job_task error c p fresh settled deaf s =
        placed c deaf (λ h. cc) (λ h. s.settled settled) (λ h. cc) fresh s
    abandon-IsSound submit_task error c p fresh settled deaf s =
        placed c deaf (λ h. cc) (λ h. s.settled settled) (λ h. cc) fresh s

    -- A step of an operation behind the login.
    kept :
        (c : Client json) {k : Control json} {job : Option Job} {returned : Option Returned}
        → is_settled json c.control ≡ true
        → (Deaf json c.control c.inbox → Deaf json k c.inbox)
        → is_down json k ≡ false
        → is_ended json k ≡ false
        → IsSound json c
        → IsSound json (record c { job = job; control = k; returned = returned })
    kept c settled deaf up running s =
        placed c (λ h k. deaf (s.noticed h k)) (λ h. cc) (λ h. s.settled settled) (λ h. cc)
          s.fresh_pending s

    -- A step behind an answer, which was not given to a client that misses the end of its reader.
    answered :
        (c : Client json) {task : Task} {value : Value} {k : Control json}
        {returned : Option Returned}
        → c.control ≡ replied task value
        → (⊥ → Deaf json k c.inbox)
        → is_down json k ≡ false
        → is_ended json k ≡ false
        → IsSound json c
        → IsSound json (record c { control = k; returned = returned })
    answered c e deaf up running s = kept c (rw e) (rw e deaf) up running s

    login-IsSound :
        (r : Result ClientError (Unit {0})) (value : Value) (c : Client json)
        → c.control ≡ replied login_task value
        → IsSound json c
        → IsSound json (after_login json r c)
    login-IsSound (ok tt) value c e s = answered c e (λ h. h) refl refl s
    login-IsSound (err error) value c e s = answered c e (λ h. tt) refl refl s

    job-IsSound :
        (r : Result ClientError Job) (value : Value) (c : Client json)
        → c.control ≡ replied job_task value
        → IsSound json c
        → IsSound json (after_job json r c)
    job-IsSound (err error) value c e s = answered c e (λ h. h) refl refl s
    job-IsSound (ok job) value c e s = pushed-IsSound c.job
      where
        pushed-IsSound : (o : Option Job) → IsSound json (keep_pushed json job o c)
        pushed-IsSound none = answered c e (λ h. h) refl refl s
        pushed-IsSound (some pushed) = elim (Bool-cases (ltb job.height pushed.height)) [
          | inl higher ↦ rw higher (answered c e (λ h. h) refl refl s)
          | inr other ↦ rw other (answered c e (λ h. h) refl refl s)
        ]

    answer-IsSound :
        (task : Task) (value : Value) (c : Client json)
        → c.control ≡ replied task value
        → IsSound json c
        → IsSound json (after_answer json decode task value c)
    answer-IsSound login_task value c e s = login-IsSound (ensure_ok json value) value c e s
    answer-IsSound job_task value c e s = job-IsSound (job_reply json decode value) value c e s
    answer-IsSound submit_task value c e s = answered c e (λ h. h) refl refl s

    connected-IsSound :
        (c : Client json)
        → c.connected ≡ false
        → IsSound json c
        → IsSound json (record c {
          pending = [];
          reader = at_top;
          reader_generation = c.generation;
          control = spawned;
        })
    unfolding holds
    connected-IsSound c low s = record {
      noticed = λ h. cc;
      down = λ h. low;
      settled = λ h k. refl;
      ended = λ h. cc;
      fresh_inbox = s.fresh_inbox;
      fresh_pending = λ id h. refl;
    }

    -- A request that is given up leaves the end of the reader unseen only in a login.
    unanswered :
        (task : Task) (id : ℕ) (inbox : List (ℕ × Value))
        → (Deaf json (writing task id) inbox → Deaf json (ready task) inbox)
          × (Deaf json (waiting task id) inbox → Deaf json (ready task) inbox)
    unanswered login_task id inbox = (λ h. tt, λ h. tt)
    unanswered job_task id inbox = (λ h. h, λ h. h)
    unanswered submit_task id inbox = (λ h. h, λ h. h)

    requested-IsSound :
        (task : Task) (c : Client json)
        → c.control ≡ ready task
        → IsSound json c
        → IsSound json (record c {
          next_id = c.next_id + 1;
          pending = c.next_id ∷ c.pending;
          control = writing task c.next_id;
        })
    unfolding holds
    requested-IsSound task c e s = record {
      noticed = λ h k. unheard task (subst (λ t. Deaf json t c.inbox) e (s.noticed h k));
      down = λ h. cc;
      settled = λ h. s.settled (rw e);
      ended = λ h. cc;
      fresh_inbox = λ id h. s.fresh_inbox id (omega arith);
      fresh_pending = λ id h. ground (arith, s.fresh_pending id);
    }
      where
        unheard : (t : Task) → Deaf json (ready t) c.inbox → Deaf json (writing t c.next_id) c.inbox
        unheard login_task h = s.fresh_inbox c.next_id (omega arith)
        unheard job_task h = h
        unheard submit_task h = h

    written-IsSound :
        (task : Task) (id : ℕ) (c : Client json)
        → c.control ≡ writing task id
        → IsSound json c
        → IsSound json (record c { control = waiting task id })
    written-IsSound login_task id c e s = kept c (rw e) (rw e (λ h. h)) refl refl s
    written-IsSound job_task id c e s = kept c (rw e) (rw e (λ h. h)) refl refl s
    written-IsSound submit_task id c e s = kept c (rw e) (rw e (λ h. h)) refl refl s

    received-IsSound :
        (task : Task) (id : ℕ) (choice : Choice) (c : Client json)
        → c.control ≡ waiting task id
        → IsSound json c
        → IsSound json (receive json (answer_to json id c.inbox) (is_bad choice) task id c)
    received-IsSound task id choice c e s = elim (Option-cases (answer_to json id c.inbox)) [
      | inl silent ↦ rw silent (elim (Bool-cases (holds id c.pending)) [
        | inr dropped ↦
            rw dropped (abandon-IsSound task closed c c.pending s.fresh_pending (rw e) deaf s)
        | inl held ↦ rw held (elim (Bool-cases (is_bad choice)) [
          | inl late ↦ rw late (
              abandon-IsSound task timed_out c _
                (λ j h. holds-remove id j c.pending (s.fresh_pending j h)) (rw e) deaf s)
          | inr early ↦ rw early s
        ])
      ])
      | inr (value, told) ↦ rw told (kept c (rw e) (rw e (heard task value told)) refl refl s)
    ]
      where
        deaf : c.reader ≡ finished → c.connected ≡ true → Deaf json (ready task) c.inbox
        deaf h k =
            (unanswered task id c.inbox).1 (subst (λ t. Deaf json t c.inbox) e (s.noticed h k))

        heard :
            (t : Task) (value : Value)
            → answer_to json id c.inbox ≡ some value
            → Deaf json (waiting t id) c.inbox
            → ⊥
        heard login_task value told h = cc
        heard job_task value told h = h
        heard submit_task value told h = h

    pub client-IsSound :
        (k : Control json) (choice : Choice) (c : Client json)
        → c.control ≡ k
        → IsSound json c
        → IsSound json (client_control json decode k choice c)
    unfolding client_control
    client-IsSound idle good c e s = s
    client-IsSound idle bad c e s = s
    client-IsSound idle (call reconnect) c e s = record {
      noticed = λ h k. tt;
      down = λ h. cc;
      settled = λ h. cc;
      ended = λ h. cc;
      fresh_inbox = s.fresh_inbox;
      fresh_pending = s.fresh_pending;
    }
    client-IsSound idle (call get_job) c e s = kept c (rw e) (rw e (λ h. h)) refl refl s
    client-IsSound idle (call submit) c e s = kept c (rw e) (rw e (λ h. h)) refl refl s
    client-IsSound bumped choice c e s =
        placed c (λ h k. cc) (λ h. refl) (λ h. cc) (λ h. cc) s.fresh_pending s
    client-IsSound marked choice c e s = elim (Bool-cases (can_stop json c.reader)) [
      | inl stops ↦ rw stops (record {
        noticed = λ h k. absurd (ground (arith, s.down));
        down = λ h. ground (arith, s.down);
        settled = λ h. cc;
        ended = λ h. refl;
        fresh_inbox = s.fresh_inbox;
        fresh_pending = s.fresh_pending;
      })
      | inr runs ↦ rw runs s
    ]
    client-IsSound stopped choice c e s =
        placed c (λ h k. absurd (ground (arith, s.down))) (λ h. ground (arith, s.down)) (λ h. cc)
          (λ h. ground (arith, s.ended)) (λ id h. unfold holds in refl) s
    client-IsSound cleared good c e s = connected-IsSound c (s.down (rw e)) s
    client-IsSound cleared (call operation) c e s = connected-IsSound c (s.down (rw e)) s
    client-IsSound cleared bad c e s =
        placed c (λ h k. absurd (ground (arith, s.down))) (λ h. cc)
          (λ h running. absurd (running (s.ended (rw e)))) (λ h. cc) s.fresh_pending s
    client-IsSound spawned choice c e s =
        placed c (λ h k. tt) (λ h. cc) (λ h. s.settled (rw e)) (λ h. cc) s.fresh_pending s
    client-IsSound (ready task) choice c e s = requested-IsSound task c e s
    client-IsSound (writing task id) good c e s = written-IsSound task id c e s
    client-IsSound (writing task id) (call operation) c e s = written-IsSound task id c e s
    client-IsSound (writing task id) bad c e s =
        abandon-IsSound task not_written c _
          (λ j h. holds-remove id j c.pending (s.fresh_pending j h)) (rw e)
          (λ h k.
            (unanswered task id c.inbox).0 (subst (λ t. Deaf json t c.inbox) e (s.noticed h k)))
          s
    client-IsSound (waiting task id) choice c e s = received-IsSound task id choice c e s
    client-IsSound (replied task value) choice c e s = answer-IsSound task value c e s
    client-IsSound (publishing job) choice c e s = kept c (rw e) (rw e (λ h. h)) refl refl s
    client-IsSound (giving_up error) choice c e s =
        placed c (λ h k. cc) (λ h. refl) (λ h. s.settled (rw e)) (λ h. cc) s.fresh_pending s
