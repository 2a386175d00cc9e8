-- ===== src/Input/Run/Fifo.antt =====
-- scene/src/input_stream.rs: messages leave the queue in the order in which they entered it.
use flo_scene.Common.{
  ℕ, Bool, true, false, List, [], ◌∷◌, ◌++◌, some, ◌≡◌, refl, arith, append-nil, append_assoc, ◌⊎◌,
  inl,
}
use flo_scene.SubProgram.{SubProgramId}
use flo_scene.Input.Core.{
  new, block, unblock, set_thread_stealing, send, send_with_overfill, wake_when_slots_available,
  close, wait_for_idle, idle_received,
}
use flo_scene.Input.Stream.{poll_next_with_sources, drop_stream, drop_stream_with_sources}
use flo_scene.Input.Run.{
  Call, sends, overfills, polls, drops, History, start, step, run, run_inv, any_calls,
}

module _ {ℓ} {M : Type ℓ} where
  -- Nothing is lost, doubled or reordered; only a drop of the stream throws messages away, and
  -- after it nothing more is taken.
  pub record IsFifo (h : History M) : Type ℓ where
    pub in_order : h.accepted ≡ h.delivered ++ (h.discarded ++ h.core.waiting_messages)
    pub after_drop :
        ((h.core.dropped ≡ false) × (h.discarded ≡ []))
        ⊎ ((h.core.dropped ≡ true) × (h.core.closed ≡ true) × (h.core.waiting_messages ≡ []))

  -- One lemma for each call that touches the queue, and `ground` for the calls that do not.
  step-IsFifo :
      (c : Call M) (h : History M) {h' : History M} → IsFifo h → step c h ≡ some h' → IsFifo h'
  unfolding step send send_with_overfill wake_when_slots_available poll_next_with_sources close
      block unblock idle_received drop_stream drop_stream_with_sources wait_for_idle
      set_thread_stealing
  step-IsFifo (sends s m) h v e =
      ground (arith, append_assoc h.delivered h.core.waiting_messages ((s, m) ∷ []))
  step-IsFifo (overfills s m) h v e =
      ground (arith, append_assoc h.delivered h.core.waiting_messages ((s, m) ∷ []))
  step-IsFifo (polls w) h {h'} v e = polled h.core.waiting_messages refl
    where
      polled : (q : List (SubProgramId × M)) → h.core.waiting_messages ≡ q → IsFifo h'
      polled [] is = ground (arith, append-nil h.delivered)
      polled (m ∷ rest) is = ground (arith, append_assoc h.delivered (m ∷ []) rest)
  step-IsFifo drops h v e = ground (arith, append-nil (h.discarded ++ h.core.waiting_messages))
  step-IsFifo _ h v e = ground arith

  -- After any history of calls on a new stream, the messages that `send` and `send_with_overfill`
  -- took are, in this order, those that were handed to the owner, those that a drop of the stream
  -- threw away, and those that wait. Only a drop throws messages away.
  pub run-IsFifo :
      (id : SubProgramId) (max_waiting : ℕ) (stealing : Bool) (cs : List (Call M)) {h : History M}
      → run cs (start (new id max_waiting stealing)) ≡ some h
      → IsFifo h
  unfolding new
  run-IsFifo id max_waiting stealing cs =
      run_inv (λ _. Unit {0}) IsFifo (λ c h h' _. step-IsFifo c h) cs _ (any_calls cs)
        (record { in_order = refl; after_drop = inl (refl, refl) })
