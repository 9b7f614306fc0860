-- ===== src/Stratum/Calls/Genuine.antt =====
-- src/stratum.rs: what holds of the replies and the jobs in every run of a client and its reader.
use rust_miner.Base.{ℕ, ◌≡◌, ◌≢◌, refl, ap, ◌∙◌, subst, Bool, Option, none, some, List, [], ◌∷◌}
use rust_miner.Base.{
  Result, ok, err, ltb, arith, Bool-cases, Option-cases, inl, inr, ==→≡, ◌==◌, some_inj,
}
use rust_miner.Stratum.{Job, pre_pow_bytes}
use rust_miner.Stratum.Frame.{Frame}
use rust_miner.Stratum.Json.{
  Json, ClientError, not_written, closed, timed_out, job_reply, ensure_ok, is_job_push, pushed_job,
  usable, and_then, response_id,
}
use rust_miner.Stratum.Client.{
  Task, login_task, job_task, submit_task, reconnect, get_job, submit, Returned, got_job, holds,
  idle, bumped, marked, stopped, cleared, spawned, ready, writing, waiting, replied, publishing,
  giving_up, answer_to, Phase, finished, Control, Client, start, dispatch, publish, deliver, at_top,
  at_value, reader_phase, reader_step,
}
use rust_miner.Stratum.Calls.{
  Choice, call, good, bad, abandon, after_answer, after_login, after_job, keep_pushed, receive,
  is_bad, can_stop, Move, reader_moves, client_moves, client_control, client_step, step, run,
}

module _ (json : Json) (decode : List ℕ → Option (List ℕ)) where
  open json use {Value}

  -- The template of the job can be decoded.
  abbrev pub IsUsable : Job → Type 0
  IsUsable job = pre_pow_bytes decode job ≢ none

  abbrev pub IsPublished : Option Job → Type 0
  IsPublished none = Unit {0}
  IsPublished (some job) = IsUsable job

  abbrev IsPublishing : Control json → Type 0
  IsPublishing (publishing job) = IsUsable job
  IsPublishing _ = Unit {0}

  abbrev pub IsHandedOut : Option Returned → Type 0
  IsHandedOut (some (got_job job)) = IsUsable job
  IsHandedOut _ = Unit {0}

  pub record IsGenuine (c : Client json) : Type 0 where
    pub addressed :
        (id : ℕ) (value : Value)
        → answer_to json id c.inbox ≡ some value
        → response_id json value ≡ some id
    published : IsPublished c.job
    publishing_lem : IsPublishing c.control
    handed_out : IsHandedOut c.returned

  pub start-IsGenuine : IsGenuine (start json)
  unfolding start answer_to
  start-IsGenuine = record {
    addressed = λ id value h. cc;
    published = tt;
    publishing_lem = tt;
    handed_out = tt;
  }

  -- A step that leaves the receivers alone.
  turned :
      (c : Client json) {g ng id : ℕ} {up : Bool} {job : Option Job} {p : List ℕ} {r : Phase json}
      {k : Control json} {returned : Option Returned}
      → IsPublished job
      → IsPublishing k
      → IsHandedOut returned
      → IsGenuine c
      → IsGenuine (record c {
        generation = g;
        connected = up;
        job = job;
        pending = p;
        next_id = id;
        reader = r;
        reader_generation = ng;
        control = k;
        returned = returned;
      })
  turned c public current handed s = record {
    addressed = s.addressed;
    published = public;
    publishing_lem = current;
    handed_out = handed;
  }

  usable-IsPublished : (job : Job) → IsPublished (usable json decode job)
  usable-IsPublished job = elim (Option-cases (pre_pow_bytes decode job)) [
    | inl bad_template ↦ rw bad_template tt
    | inr (bytes, template) ↦ rw template (λ h. cc)
  ]

  pushed-IsPublished : (o : Option Job) → IsPublished (and_then json (usable json decode) o)
  pushed-IsPublished none = tt
  pushed-IsPublished (some job) = usable-IsPublished job

  told :
      (id : ℕ) (value : Value) (c : Client json)
      → response_id json value ≡ some id
      → IsGenuine c
      → (j : ℕ) (v : Value) → answer_to json j ((id, value) ∷ c.inbox) ≡ some v
      → response_id json v ≡ some j
  unfolding answer_to
  told id value c e s j v h = elim (Bool-cases (id == j)) [
    | inl same ↦
        let it : value ≡ v = some_inj (rw same at h) in
        subst (λ t. response_id json t ≡ some j) it (e ∙ ap some (==→≡ id j same))
    | inr other ↦ s.addressed j v (rw other at h)
  ]

  dispatch-IsGenuine :
      (value : Value) (c : Client json) → IsGenuine c → IsGenuine (dispatch json decode value c)
  unfolding dispatch
  dispatch-IsGenuine value c s = elim (Bool-cases (is_job_push json value)) [
    | inl push ↦ rw push (shared _ (pushed-IsPublished (pushed_job json value)))
    | inr reply ↦ rw reply (delivered (response_id json value) refl)
  ]
    where
      shared : (o : Option Job) → IsPublished o → IsGenuine (publish json decode o c)
      shared none h = s
      shared (some job) h = turned c h s.publishing_lem s.handed_out s

      delivered :
          (o : Option ℕ) → response_id json value ≡ o → IsGenuine (deliver json decode o value c)
      delivered none e = s
      delivered (some id) e = elim (Bool-cases (holds id c.pending)) [
        | inr free ↦ rw free s
        | inl held ↦ rw held (record {
          addressed = told id value c e s;
          published = s.published;
          publishing_lem = s.publishing_lem;
          handed_out = s.handed_out;
        })
      ]

  reader-IsGenuine :
      (p : Phase json) (input : Option Frame) (c : Client json)
      → IsGenuine c
      → IsGenuine (reader_phase json decode p input c)
  unfolding reader_phase
  reader-IsGenuine (at_value value) input c s =
      dispatch-IsGenuine value (record c { reader = at_top })
        (turned c s.published s.publishing_lem s.handed_out s)
  reader-IsGenuine finished input c s = s
  reader-IsGenuine p input c s = turned c s.published s.publishing_lem s.handed_out s

  -- The steps of the client.
  abandon-IsGenuine :
      (task : Task) (error : ClientError) (c : Client json) (p : List ℕ)
      → IsGenuine c
      → IsGenuine (abandon json task error (record c { pending = p }))
  abandon-IsGenuine login_task error c p s = turned c s.published tt s.handed_out s
  abandon-IsGenuine job_task error c p s = turned c s.published tt tt s
  abandon-IsGenuine submit_task error c p s = turned c s.published tt tt s

  received-IsGenuine :
      (task : Task) (id : ℕ) (choice : Choice) (c : Client json)
      → IsGenuine c
      → IsGenuine (receive json (answer_to json id c.inbox) (is_bad choice) task id c)
  received-IsGenuine task id choice c s = elim (Option-cases (answer_to json id c.inbox)) [
    | inr (value, told) ↦ rw told (turned c s.published tt s.handed_out s)
    | inl silent ↦ rw silent (elim (Bool-cases (holds id c.pending)) [
      | inr dropped ↦ rw dropped (abandon-IsGenuine task closed c c.pending s)
      | inl held ↦ rw held (elim (Bool-cases (is_bad choice)) [
        | inl late ↦ rw late (abandon-IsGenuine task timed_out c _ s)
        | inr early ↦ rw early s
      ])
    ])
  ]

  login-IsGenuine :
      (r : Result ClientError (Unit {0})) (c : Client json)
      → IsGenuine c
      → IsGenuine (after_login json r c)
  login-IsGenuine (ok tt) c s = turned c s.published tt tt s
  login-IsGenuine (err error) c s = turned c s.published tt s.handed_out s

  job-IsGenuine :
      (r : Result ClientError Job) (c : Client json)
      → ((job : Job) → r ≡ ok job → IsUsable job)
      → IsGenuine c
      → IsGenuine (after_job json r c)
  job-IsGenuine (err error) c good_template s = turned c s.published tt tt s
  job-IsGenuine (ok job) c good_template s = newest c.job s.published
    where
      newest : (o : Option Job) → IsPublished o → IsGenuine (keep_pushed json job o c)
      newest none h = turned c s.published (good_template job refl) s.handed_out s
      newest (some pushed) h = elim (Bool-cases (ltb job.height pushed.height)) [
        | inl higher ↦ rw higher (turned c s.published tt h s)
        | inr other ↦ rw other (turned c s.published (good_template job refl) s.handed_out s)
      ]

  job_reply-IsUsable :
      (response : Value) (job : Job) → job_reply json decode response ≡ ok job → IsUsable job
  unfolding job_reply
  job_reply-IsUsable response job h = λ z. ground arith

  answer-IsGenuine :
      (task : Task) (value : Value) (c : Client json)
      → IsGenuine c
      → IsGenuine (after_answer json decode task value c)
  answer-IsGenuine login_task value c s = login-IsGenuine (ensure_ok json value) c s
  answer-IsGenuine job_task value c s =
      job-IsGenuine (job_reply json decode value) c (job_reply-IsUsable value) s
  answer-IsGenuine submit_task value c s = turned c s.published tt tt s

  client-IsGenuine :
      (k : Control json) (choice : Choice) (c : Client json)
      → c.control ≡ k
      → IsGenuine c
      → IsGenuine (client_control json decode k choice c)
  unfolding client_control
  client-IsGenuine idle good c e s = s
  client-IsGenuine idle bad c e s = s
  client-IsGenuine idle (call reconnect) c e s = turned c s.published tt s.handed_out s
  client-IsGenuine idle (call get_job) c e s = turned c s.published tt s.handed_out s
  client-IsGenuine idle (call submit) c e s = turned c s.published tt s.handed_out s
  client-IsGenuine bumped choice c e s = turned c s.published tt s.handed_out s
  client-IsGenuine marked choice c e s = elim (Bool-cases (can_stop json c.reader)) [
    | inl stops ↦ rw stops (turned c s.published tt s.handed_out s)
    | inr runs ↦ rw runs s
  ]
  client-IsGenuine stopped choice c e s = turned c s.published tt s.handed_out s
  client-IsGenuine cleared bad c e s = turned c s.published tt tt s
  client-IsGenuine cleared choice c e s = turned c s.published tt s.handed_out s
  client-IsGenuine spawned choice c e s = turned c s.published tt s.handed_out s
  client-IsGenuine (ready task) choice c e s = turned c s.published tt s.handed_out s
  client-IsGenuine (writing task id) bad c e s = abandon-IsGenuine task not_written c _ s
  client-IsGenuine (writing task id) choice c e s = turned c s.published tt s.handed_out s
  client-IsGenuine (waiting task id) choice c e s = received-IsGenuine task id choice c s
  client-IsGenuine (replied task value) choice c e s = answer-IsGenuine task value c s
  client-IsGenuine (publishing job) choice c e s =
      turned c (subst IsPublishing e s.publishing_lem) tt (subst IsPublishing e s.publishing_lem) s
  client-IsGenuine (giving_up error) choice c e s = turned c s.published tt tt s

  pub run-IsGenuine :
      (moves : List Move) (c : Client json) → IsGenuine c → IsGenuine (run json decode moves c)
  unfolding run step reader_step client_step
  run-IsGenuine [] c s = s
  run-IsGenuine (reader_moves input ∷ moves) c s =
      run-IsGenuine moves _ (reader-IsGenuine c.reader input c s)
  run-IsGenuine (client_moves choice ∷ moves) c s =
      run-IsGenuine moves _ (client-IsGenuine c.control choice c refl s)
