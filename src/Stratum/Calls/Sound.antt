-- ===== src/Stratum/Calls/Sound.antt =====
-- src/stratum.rs: what holds between the steps of the reader and of the client.
use rust_miner.Base.{ℕ, ◌≤◌, ◌≡◌, ◌≢◌, refl, Bool, true, false, none, List, [], ◌∷◌, arith}
use rust_miner.Stratum.Json.{Json}
use rust_miner.Stratum.Client.{
  login_task, job_task, submit_task, remove, holds, Phase, finished, Control, idle, bumped, marked,
  stopped, cleared, spawned, ready, writing, waiting, replied, publishing, giving_up, Client,
  answer_to, start,
}
use rust_miner.Stratum.Calls.{}

pub holds-remove : (j id : ℕ) (xs : List ℕ) → holds id xs ≡ false → holds id (remove j xs) ≡ false
unfolding holds remove
holds-remove j id [] h = h
holds-remove j id (x ∷ xs) h = ground (arith, holds-remove j id xs)

module _ (json : Json) where
  open json use {Value}

  -- While a connection is set up, the end of its reader may go unseen, but then the login has no
  -- answer.
  abbrev pub Deaf : Control json → List (ℕ × Value) → Type 0
  Deaf idle inbox = ⊥
  Deaf bumped inbox = Unit {0}
  Deaf marked inbox = ⊥
  Deaf stopped inbox = ⊥
  Deaf cleared inbox = ⊥
  Deaf spawned inbox = ⊥
  Deaf (ready login_task) inbox = Unit {0}
  Deaf (ready job_task) inbox = ⊥
  Deaf (ready submit_task) inbox = ⊥
  Deaf (writing login_task id) inbox = answer_to json id inbox ≡ none
  Deaf (writing job_task id) inbox = ⊥
  Deaf (writing submit_task id) inbox = ⊥
  Deaf (waiting login_task id) inbox = answer_to json id inbox ≡ none
  Deaf (waiting job_task id) inbox = ⊥
  Deaf (waiting submit_task id) inbox = ⊥
  Deaf (replied task value) inbox = ⊥
  Deaf (publishing job) inbox = ⊥
  Deaf (giving_up e) inbox = Unit {0}

  abbrev pub is_down : Control json → Bool
  is_down marked = true
  is_down stopped = true
  is_down cleared = true
  is_down spawned = true
  is_down _ = false

  abbrev pub is_ended : Control json → Bool
  is_ended stopped = true
  is_ended cleared = true
  is_ended _ = false

  abbrev pub is_settled : Control json → Bool
  is_settled bumped = false
  is_settled marked = false
  is_settled stopped = false
  is_settled cleared = false
  is_settled _ = true

  pub record IsSound (c : Client json) : Type 0 where
    pub noticed : c.reader ≡ finished → c.connected ≡ true → Deaf c.control c.inbox
    pub down : is_down c.control ≡ true → c.connected ≡ false
    pub settled :
        is_settled c.control ≡ true → c.reader ≢ finished → c.generation ≡ c.reader_generation
    pub ended : is_ended c.control ≡ true → c.reader ≡ finished
    pub fresh_inbox : (id : ℕ) → c.next_id ≤ id → answer_to json id c.inbox ≡ none
    pub fresh_pending : (id : ℕ) → c.next_id ≤ id → holds id c.pending ≡ false

  pub start-IsSound : IsSound (start json)
  unfolding start answer_to holds
  start-IsSound = record {
    noticed = λ e. cc;
    down = λ e. refl;
    settled = λ e k. refl;
    ended = λ e. cc;
    fresh_inbox = λ id h. refl;
    fresh_pending = λ id h. refl;
  }

  -- A reader that has not ended keeps the facts.
  pub moved :
      (p : Phase json) (c : Client json)
      → p ≢ finished
      → c.reader ≢ finished
      → IsSound c
      → IsSound (record c { reader = p })
  moved p c running was s = record {
    noticed = λ e. absurd (running e);
    down = s.down;
    settled = λ h k. s.settled h was;
    ended = λ h. absurd (was (s.ended h));
    fresh_inbox = s.fresh_inbox;
    fresh_pending = s.fresh_pending;
  }

  pub emptied :
      (p : Phase json) (c : Client json)
      → p ≢ finished
      → c.reader ≢ finished
      → IsSound c
      → IsSound (record c { pending = []; reader = p })
  unfolding holds
  emptied p c running was s = record {
    noticed = λ e. absurd (running e);
    down = s.down;
    settled = λ h k. s.settled h was;
    ended = λ h. absurd (was (s.ended h));
    fresh_inbox = s.fresh_inbox;
    fresh_pending = λ id h. refl;
  }

  -- A reader of an older generation ends silently, but then the connection is being replaced.
  pub overtaken :
      (k : Control json) (inbox : List (ℕ × Value)) {up : Bool}
      → is_settled k ≡ false
      → (is_down k ≡ true → up ≡ false)
      → up ≡ true
      → Deaf k inbox
  overtaken bumped inbox e d h = tt
  overtaken k inbox e d h = ground (arith, d)
