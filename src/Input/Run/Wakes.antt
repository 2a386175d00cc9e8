-- ===== src/Input/Run/Wakes.antt =====
-- scene/src/input_stream.rs: the owner of a stream that sleeps is woken.
use mathlib.Core.Option.{some-injective}
use flo_scene.Common.{
  true, false, Bool-cases, List, [], ◌∷◌, ◌++◌, Option, none, some, ◌≡◌, ◌⊎◌, inl, inr, refl, arith,
  length, if◌then◌else◌, subst, ltb,
}
use flo_scene.SubProgram.{SubProgramId}
use flo_scene.Input.Core.{
  Waker, InputStreamCore, SendResult, block, unblock, set_thread_stealing, accepts, enqueue, sent,
  refused, send, send_with_overfill, wake_when_slots_available, close, wait_for_idle, idle_received,
  option_to_list,
}
use flo_scene.Input.Stream.{pending, poll_next_with_sources, drop_stream}
use flo_scene.Input.Run.{
  Call, sends, overfills, polls, closes, unblocks, drops, drops_with_sources, waits_for_idle,
  History, step, run, AllCalls, run-cons,
}

abbrev wakers_of : Option (List Waker) → List Waker
wakers_of none = []
wakers_of (some ws) = ws

abbrev pub IsIn : Waker → List Waker → Type 0
IsIn w [] = ⊥
IsIn w (v ∷ vs) = (v ≡ w) ⊎ IsIn w vs

last-IsIn : (w : Waker) (vs : List Waker) → IsIn w (vs ++ w ∷ [])
last-IsIn w [] = inl refl
last-IsIn w (v ∷ vs) = inr (last-IsIn w vs)

not_empty : (w : Waker) (vs : List Waker) → ltb 0 (length (vs ++ w ∷ [])) ≡ true
not_empty w [] = ground arith
not_empty w (v ∷ vs) = ground arith

module _ {ℓ} {M : Type ℓ} where
  abbrev waker_of : SendResult M → List Waker
  waker_of (sent c w) = option_to_list w
  waker_of (refused c m) = []

  abbrev second_of : Option (InputStreamCore M × List Waker) → List Waker
  second_of none = []
  second_of (some (c, ws)) = ws

  -- The wakers that a call hands out to its caller, who calls them. Those that polling calls itself
  -- belong to senders.
  unfoldable pub hands_out : Call M → InputStreamCore M → List Waker
  hands_out (sends s m) c = waker_of (send s m c)
  hands_out (overfills s m) c = waker_of (send_with_overfill s m c)
  hands_out closes c = wakers_of (close c).1
  hands_out unblocks c = second_of (unblock c)
  hands_out drops c = (drop_stream c).1
  hands_out (waits_for_idle n) c = (wait_for_idle n c).1
  hands_out _ c = []

  -- One of the calls hands out the waker.
  pub data WokenBy (w : Waker) : List (Call M) → History M → Type ℓ where
    now :
        (c : Call M) (cs : List (Call M)) (h : History M)
        → IsIn w (hands_out c h.core)
        → WokenBy w (c ∷ cs) h
    later :
        (c : Call M) (cs : List (Call M)) (h h' : History M)
        → step c h ≡ some h'
        → WokenBy w cs h'
        → WokenBy w (c ∷ cs) h

  -- The owner does not poll, nor drop its `InputStreamWithSources`.
  abbrev pub Sleeps : Call M → Type 0
  Sleeps (polls w) = ⊥
  Sleeps drops_with_sources = ⊥
  Sleeps _ = Unit

  -- The stream is open and empty, and keeps the waker.
  record IsParked (w : Waker) (h : History M) : Type ℓ where
    kept : h.core.when_message_sent ≡ some w
    queue : h.core.waiting_messages ≡ []
    is_open : h.core.closed ≡ false

  closing :
      (w : Waker) (c : InputStreamCore M)
      → c.when_message_sent ≡ some w
      → IsIn w (hands_out closes c)
  unfolding hands_out close
  closing w c kept =
      rw (kept, not_empty w c.when_slots_available) (last-IsIn w c.when_slots_available)

  step-IsParked :
      (w : Waker) (c : Call M) (h h' : History M)
      → Sleeps c
      → IsParked w h
      → step c h ≡ some h'
      → IsIn w (hands_out c h.core) ⊎ IsParked w h'
  unfolding step send send_with_overfill wake_when_slots_available block unblock hands_out
      idle_received drop_stream wait_for_idle set_thread_stealing
  step-IsParked w (polls x) h h' k p e = absurd k
  step-IsParked w drops_with_sources h h' k p e = absurd k
  step-IsParked w closes h h' k p e = inl (closing w h.core p.kept)
  step-IsParked w drops h h' k p e = inl (rw p.kept (last-IsIn w h.core.when_slots_available))
  step-IsParked w (sends s m) h h' k p e =
      elim (Bool-cases (accepts h.core))
        as (λ x. IsIn w (waker_of (send s m h.core)) ⊎ IsParked w h') [
          | inl takes ↦ inl (rw (takes, p.kept, send) (inl refl))
          | inr not_now ↦ inr (ground (arith, not_now, p.kept, p.queue, p.is_open))
        ]
  step-IsParked w (overfills s m) h h' k p e = inl (rw (p.is_open, p.kept) (inl refl))
  step-IsParked w _ h h' k p e = inr (ground (arith, p.kept, p.queue, p.is_open))

  run-IsParked :
      (w : Waker) (cs : List (Call M)) (h h' : History M)
      → AllCalls Sleeps cs
      → IsParked w h
      → run cs h ≡ some h'
      → WokenBy w cs h ⊎ IsParked w h'
  unfolding run
  run-IsParked w [] h h' k p e = inr (subst (IsParked w) (some-injective _ _ e) p)
  run-IsParked w (c ∷ cs) h h' k p e =
      let (next, to, rest) = run-cons c cs h e in
      elim (step-IsParked w c h next k.0 p to) [
        | inl woken ↦ inl (now c cs h woken)
        | inr parked ↦ elim (run-IsParked w cs next h' k.1 parked rest) [
          | inl woken ↦ inl (later c cs h next to woken)
          | inr still ↦ inr still
        ]
      ]

  poll-IsParked :
      (w : Waker) (h h' : History M)
      → (poll_next_with_sources w h.core).result ≡ pending
      → step (polls w) h ≡ some h'
      → IsParked w h'
  unfolding step poll_next_with_sources
  poll-IsParked w h h' waits e = on_queue h.core.waiting_messages refl
    where
      on_queue : (q : List (SubProgramId × M)) → h.core.waiting_messages ≡ q → IsParked w h'
      on_queue [] is = ground (arith, waits, e)
      on_queue (m ∷ rest) is = ground (arith, waits, e)

  -- No wake-up is lost. After a poll with waker `w` that is answered with pending, and any calls of
  -- others, during which the owner does not poll and its `InputStreamWithSources` is not dropped,
  -- either one of these calls has handed out `w`, or the queue is empty, the stream is open, and the
  -- next message that `send` or `send_with_overfill` takes hands out `w`: `send` takes it exactly
  -- where `accepts` holds, and `send_with_overfill` always.
  pub run_wakes :
      (w : Waker) (h asleep h' : History M) (cs : List (Call M)) (source : SubProgramId)
      (message : M)
      → (poll_next_with_sources w h.core).result ≡ pending
      → step (polls w) h ≡ some asleep
      → AllCalls Sleeps cs
      → run cs asleep ≡ some h'
      → WokenBy w cs asleep
        ⊎ ((h'.core.waiting_messages ≡ [])
            × (h'.core.closed ≡ false)
            × (send source message h'.core ≡ (
                if accepts h'.core
                then sent (enqueue source message h'.core) (some w)
                else refused h'.core message))
            × (send_with_overfill source message h'.core
                ≡ sent (enqueue source message h'.core) (some w)))
  unfolding send send_with_overfill
  run_wakes w h asleep h' cs source message waits first k e =
      elim (run-IsParked w cs asleep h' k (poll-IsParked w h asleep waits first) e) [
        | inl woken ↦ inl woken
        | inr p ↦ inr (p.queue, p.is_open, rw p.kept refl, rw (p.is_open, p.kept) refl)
      ]
