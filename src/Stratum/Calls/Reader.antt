-- ===== src/Stratum/Calls/Reader.antt =====
-- src/stratum.rs: the steps of the reader keep what holds between the steps.
use rust_miner.Base.{ℕ, ◌≡◌, ◌≢◌, refl, true, Option, none, some, List, ◌∷◌, arith}
use rust_miner.Base.{inl, inr, Bool-cases}
use rust_miner.Stratum.Frame.{Frame, line, at_end, too_long}
use rust_miner.Stratum.{Job}
use rust_miner.Stratum.Json.{Json, is_job_push}
use rust_miner.Stratum.Client.{
  remove, holds, Phase, at_top, at_read, at_close, at_report, at_down, finished, at_frame, at_value,
  Client, answer_to, reader_phase, dispatch, publish, deliver, is_current,
}
use rust_miner.Stratum.Calls.{}
use rust_miner.Stratum.Calls.Sound.{holds-remove, IsSound, moved, emptied, overtaken}

module _ (json : Json) where
  open json use {Value}

  module _ (decode : List ℕ → Option (List ℕ)) where
    publish-IsSound :
        (o : Option Job) (c : Client json) → IsSound json c → IsSound json (publish json decode o c)
    publish-IsSound none c s = s
    publish-IsSound (some pushed) c s = record {
      noticed = s.noticed;
      down = s.down;
      settled = s.settled;
      ended = s.ended;
      fresh_inbox = s.fresh_inbox;
      fresh_pending = s.fresh_pending;
    }

    delivered-IsSound :
        (id : ℕ) (value : Value) (c : Client json)
        → c.reader ≢ finished
        → holds id c.pending ≡ true
        → IsSound json c
        → IsSound json (record c { pending = remove id c.pending; inbox = (id, value) ∷ c.inbox })
    unfolding answer_to
    delivered-IsSound id value c running held s = record {
      noticed = λ e. absurd (running e);
      down = s.down;
      settled = s.settled;
      ended = s.ended;
      fresh_inbox = λ j h. ground (arith, s.fresh_inbox j h, s.fresh_pending id);
      fresh_pending = λ j h. holds-remove id j c.pending (s.fresh_pending j h);
    }

    deliver-IsSound :
        (o : Option ℕ) (value : Value) (c : Client json)
        → c.reader ≢ finished
        → IsSound json c
        → IsSound json (deliver json decode o value c)
    deliver-IsSound none value c running s = s
    deliver-IsSound (some id) value c running s = elim (Bool-cases (holds id c.pending)) [
      | inl held ↦ rw held (delivered-IsSound id value c running held s)
      | inr free ↦ rw free s
    ]

    dispatch-IsSound :
        (value : Value) (c : Client json)
        → c.reader ≢ finished
        → IsSound json c
        → IsSound json (dispatch json decode value c)
    unfolding dispatch
    dispatch-IsSound value c running s = elim (Bool-cases (is_job_push json value)) [
      | inl push ↦ rw push (publish-IsSound _ c s)
      | inr reply ↦ rw reply (deliver-IsSound _ value c running s)
    ]

    pub reader-IsSound :
        (p : Phase json) (input : Option Frame) (c : Client json)
        → c.reader ≡ p
        → IsSound json c
        → IsSound json (reader_phase json decode p input c)
    unfolding reader_phase
    reader-IsSound at_top input c e s = moved json _ c (ground arith) (λ h. cc) s
    reader-IsSound at_read none c e s = moved json _ c (λ h. cc) (λ h. cc) s
    reader-IsSound at_read (some (line bytes)) c e s = moved json _ c (λ h. cc) (λ h. cc) s
    reader-IsSound at_read (some at_end) c e s = moved json _ c (λ h. cc) (λ h. cc) s
    reader-IsSound at_read (some too_long) c e s = moved json _ c (λ h. cc) (λ h. cc) s
    reader-IsSound (at_frame bytes) input c e s = moved json _ c (ground arith) (λ h. cc) s
    reader-IsSound (at_value value) input c e s =
        dispatch-IsSound value (record c { reader = at_top }) (λ h. cc)
          (moved json at_top c (λ h. cc) (λ h. cc) s)
    reader-IsSound at_close input c e s = emptied json at_report c (λ h. cc) (λ h. cc) s
    reader-IsSound at_report input c e s = elim (Bool-cases (is_current json c)) [
      | inl same ↦ rw same (moved json at_down c (λ h. cc) (λ h. cc) s)
      | inr other ↦ rw other (record {
        noticed = λ h up. overtaken json c.control c.inbox (ground (arith, s.settled)) s.down up;
        down = s.down;
        settled = λ h k. absurd (k refl);
        ended = λ h. refl;
        fresh_inbox = s.fresh_inbox;
        fresh_pending = s.fresh_pending;
      })
    ]
    reader-IsSound at_down input c e s = record {
      noticed = λ h k. cc;
      down = λ h. refl;
      settled = λ h k. absurd (k refl);
      ended = λ h. refl;
      fresh_inbox = s.fresh_inbox;
      fresh_pending = s.fresh_pending;
    }
    reader-IsSound finished input c e s = s
