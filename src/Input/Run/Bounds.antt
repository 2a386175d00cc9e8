-- ===== src/Input/Run/Bounds.antt =====
-- scene/src/input_stream.rs: how long the queue gets.
use flo_scene.Common.{
  ℕ, ◌+◌, ◌≤◌, Bool, List, [], ◌∷◌, some, ◌≡◌, refl, arith, length, length-append,
}
use flo_scene.SubProgram.{SubProgramId}
use flo_scene.Input.Core.{
  new, block, unblock, set_thread_stealing, send, wake_when_slots_available, close, wait_for_idle,
  idle_received,
}
use flo_scene.Input.Stream.{poll_next_with_sources, drop_stream, drop_stream_with_sources}
use flo_scene.Input.Run.{
  Call, sends, overfills, polls, waits_for_idle, History, start, step, run, AllCalls, run_inv,
}

module _ {ℓ} {M : Type ℓ} where
  -- No call overfills the queue, and no idle request asks for more than `bound` messages.
  abbrev pub Within : ℕ → Call M → Type 0
  Within bound (overfills s m) = ⊥
  Within bound (waits_for_idle n) = n ≤ bound
  Within bound _ = Unit

  record IsBounded (bound : ℕ) (h : History M) : Type 0 where
    usual : h.core.max_waiting ≤ bound
    while_idle : h.core.max_idle_queue_len ≤ bound
    queue : length h.core.waiting_messages ≤ bound + 1

  step-IsBounded :
      (bound : ℕ) (c : Call M) (h h' : History M)
      → Within bound c
      → IsBounded bound h
      → step c h ≡ some h'
      → IsBounded bound h'
  unfolding step send wake_when_slots_available poll_next_with_sources close block unblock
      idle_received drop_stream drop_stream_with_sources wait_for_idle set_thread_stealing
  step-IsBounded bound (sends s m) h h' k v e =
      ground (arith, length-append h.core.waiting_messages ((s, m) ∷ []))
  step-IsBounded bound (overfills s m) h h' k v e = absurd k
  step-IsBounded bound (polls w) h h' k v e = polled h.core.waiting_messages refl
    where
      polled : (q : List (SubProgramId × M)) → h.core.waiting_messages ≡ q → IsBounded bound h'
      polled [] is = ground arith
      polled (m ∷ rest) is = ground arith
  step-IsBounded bound _ h h' k v e = ground arith

  -- A new stream whose calls do not overfill it, and whose idle requests ask for at most `bound`,
  -- never holds more than `bound + 1` messages (`max_waiting` being at most `bound`).
  pub run_bounded :
      (bound : ℕ) (id : SubProgramId) (max_waiting : ℕ) (stealing : Bool) (cs : List (Call M))
      {h : History M}
      → max_waiting ≤ bound
      → AllCalls (Within bound) cs
      → run cs (start (new id max_waiting stealing)) ≡ some h
      → length h.core.waiting_messages ≤ bound + 1
  unfolding new
  run_bounded bound id max_waiting stealing cs fits k e =
      (run_inv (Within bound) (IsBounded bound) (step-IsBounded bound) cs _ k (omega arith) e).queue
