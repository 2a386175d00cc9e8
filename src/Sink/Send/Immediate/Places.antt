-- ===== src/Sink/Send/Immediate/Places.antt =====
-- scene/src/output_sink.rs: where `send_immediate` leaves its message.
use flo_scene.Common.{
  ℕ, true, false, [], Option, none, some, ◌≡◌, ◌⊎◌, inl, inr, refl, sym, subst, ap, arith,
  Bool-cases,
}
use flo_scene.SubProgram.{SubProgramId}
use flo_scene.Input.Core.{
  InputStreamCore, accepts, enqueue, sent, refused, send, send_with_overfill,
}
use flo_scene.Scene.Slots.Lists.{set, slot_at}
use flo_scene.Sink.Core.{stream_disconnected, SinkTarget, World, target_input, with_index}
use flo_scene.Sink.Send.{ok, err, Steal, with_input}
use flo_scene.Sink.Send.Immediate.{
  Tried, Sending, try_flush_immediate, try_answer, try_input, try_on, try_send_immediate,
  overfill_answer, overfill_input, overfill_on, or_else, last_resort, flush_and_retry,
  send_immediate,
}

module _ {ℓ} {M : Type ℓ} where
  -- Where `send_immediate` leaves message `m`, with `w` the world in which it was placed: last in
  -- the queue of an input that has room, which is then flushed; last in the queue of an input that
  -- is open but takes no more; nowhere, where the sink discards; in the error, where there is no
  -- input, or it is closed.
  pub data Placed (steal : Steal M) (source : SubProgramId) (m : M) (w : World M) (r : Sending M)
      : Type ℓ where
    discarded :
        w.target ≡ SinkTarget.discard → r.result ≡ ok → r.world ≡ w → Placed steal source m w r
    taken :
        (i : ℕ) (c : InputStreamCore M)
        → target_input w ≡ some (i, c)
        → accepts c ≡ true
        → r.result ≡ ok
        → r.world
          ≡ (try_flush_immediate steal
              (with_input w (set w.inputs i (some (enqueue source m c))))).1
        → Placed steal source m w r
    overfilled :
        (i : ℕ) (c : InputStreamCore M)
        → target_input w ≡ some (i, c)
        → accepts c ≡ false
        → c.closed ≡ false
        → r.result ≡ ok
        → r.world ≡ with_input w (set w.inputs i (some (enqueue source m c)))
        → Placed steal source m w r
    no_input :
        target_input w ≡ none
        → r.result ≡ err (stream_disconnected m)
        → r.world ≡ w
        → Placed steal source m w r
    closed :
        (i : ℕ) (c : InputStreamCore M)
        → target_input w ≡ some (i, c)
        → c.closed ≡ true
        → r.result ≡ err (stream_disconnected m)
        → r.world ≡ w
        → Placed steal source m w r

  abbrev sending : Tried M → Sending M
  sending t = record { world = t.world; result = ok; wakes = t.wakes }

  -- A try either places the message, or changes nothing, and then the last resort would place it.
  data TryPlaced (steal : Steal M) (source : SubProgramId) (m : M) (w : World M) (t : Tried M)
      : Type ℓ where
    done : t.returned ≡ none → Placed steal source m w (sending t) → TryPlaced steal source m w t
    back :
        t ≡ record { world = w; returned = some m; wakes = [] }
        → Placed steal source m w (overfill_on source m w w.target)
        → TryPlaced steal source m w t

  overfill_open :
      (source : SubProgramId) (m : M) (c : InputStreamCore M)
      → c.closed ≡ false
      → send_with_overfill source m c ≡ sent (enqueue source m c) c.when_message_sent
  unfolding send_with_overfill
  overfill_open source m c open_now = ground arith

  overfill_shut :
      (source : SubProgramId) (m : M) (c : InputStreamCore M)
      → c.closed ≡ true
      → send_with_overfill source m c ≡ refused c m
  unfolding send_with_overfill
  overfill_shut source m c shut = ground arith

  overfill_answer-Placed :
      (steal : Steal M) (source : SubProgramId) (m : M) (w : World M) (i : ℕ)
      (c : InputStreamCore M)
      → target_input w ≡ some (i, c)
      → accepts c ≡ false
      → Placed steal source m w (overfill_answer w i (send_with_overfill source m c))
  unfolding overfill_answer
  overfill_answer-Placed steal source m w i c at full = elim (Bool-cases c.closed) [
    | inl shut ↦ rw (overfill_shut source m c shut) (closed i c at shut refl refl)
    | inr open_now ↦
        rw (overfill_open source m c open_now) (overfilled i c at full open_now refl refl)
  ]

  -- For a target with an input, on what `upgrade` gives.
  input-Placed :
      (steal : Steal M) (source : SubProgramId) (m : M) (w : World M)
      (t : Option (ℕ × InputStreamCore M))
      → target_input w ≡ t
      → overfill_on source m w w.target ≡ overfill_input source m w t
      → TryPlaced steal source m w (try_input steal source m w t)
  unfolding try_input try_answer overfill_input send
  input-Placed steal source m w none at over =
      back refl (subst (Placed steal source m w) (sym over) (no_input at refl refl))
  input-Placed steal source m w (some (i, c)) at over = elim (Bool-cases (accepts c)) [
    | inl takes ↦ rw (takes, send) (done refl (taken i c at takes refl refl))
    | inr full ↦
        rw (full, send)
          (back refl (
            subst (Placed steal source m w) (sym over)
              (overfill_answer-Placed steal source m w i c at full)))
  ]

  on-Placed :
      (steal : Steal M) (source : SubProgramId) (m : M) (w : World M) (t : SinkTarget)
      → w.target ≡ t
      → overfill_on source m w w.target ≡ overfill_on source m w t
      → TryPlaced steal source m w (try_on steal source m w t)
  unfolding try_on overfill_on target_input
  on-Placed steal source m w SinkTarget.disconnected is over = back refl (
      subst (Placed steal source m w) (sym over) (
        no_input
          (ap
            (λ t. elim t [
              | SinkTarget.disconnected ↦ none
              | SinkTarget.discard ↦ none
              | SinkTarget.input i ↦ with_index i (slot_at w.inputs i)
              | SinkTarget.close_when_dropped i ↦ with_index i (slot_at w.inputs i)
            ])
            is)
          refl refl))
  on-Placed steal source m w SinkTarget.discard is over = done refl (discarded is refl refl)
  on-Placed steal source m w (SinkTarget.input i) is over =
      input-Placed steal source m w (target_input w) refl over
  on-Placed steal source m w (SinkTarget.close_when_dropped i) is over =
      input-Placed steal source m w (target_input w) refl over

  try-Placed :
      (steal : Steal M) (source : SubProgramId) (m : M) (w : World M)
      → TryPlaced steal source m w (try_send_immediate steal source m w)
  unfolding try_send_immediate
  try-Placed steal source m w = on-Placed steal source m w w.target refl refl

  abbrev flushed : Steal M → World M → World M
  flushed steal w = (try_flush_immediate steal w).1

  -- The second try, and the last resort after it.
  again-Placed :
      (steal : Steal M) (source : SubProgramId) (m : M) (w : World M) (t : Tried M)
      → TryPlaced steal source m w t
      → Placed steal source m w (or_else t (last_resort source))
  unfolding or_else last_resort
  again-Placed steal source m w t (done none_back at) = rw none_back at
  again-Placed steal source m w t (back is at) = rw is at

  first-Placed :
      (steal : Steal M) (source : SubProgramId) (m : M) (w : World M) (t : Tried M)
      (next : M → World M → Sending M)
      → TryPlaced steal source m w t
      → Placed steal source m (flushed steal w) (next m w)
      → Placed steal source m w (or_else t next)
        ⊎ Placed steal source m (flushed steal w) (or_else t next)
  unfolding or_else
  first-Placed steal source m w t next (done none_back at) later = inl (rw none_back at)
  first-Placed steal source m w t next (back is at) later = inr (rw is later)

  -- Whatever the program of the target does when it is run on the stolen thread, once that is done
  -- (`steal` is given here as a function, which may stand for a wait for another thread), the message of
  -- `send_immediate` is placed once: in the world as it is, or else in the world after a flush.
  -- It is last in the queue of the target's input, which had room or was open, or comes back in a
  -- `stream_disconnected` since there is no input or it is closed, or the sink discards it.
  pub send_immediate-Placed :
      (steal : Steal M) (source : SubProgramId) (m : M) (w : World M)
      → Placed steal source m w (send_immediate steal source m w)
        ⊎ Placed steal source m (flushed steal w) (send_immediate steal source m w)
  unfolding send_immediate flush_and_retry
  send_immediate-Placed steal source m w =
      first-Placed steal source m w _ (flush_and_retry steal source) (try-Placed steal source m w) (
        again-Placed steal source m (flushed steal w) _
          (try-Placed steal source m (flushed steal w)))
