-- ===== src/Input/Run/Guards.antt =====
-- scene/src/input_stream.rs: the counters `blocked` and `waiting_for_idle` against the guards
-- (`BlockedStream`, `IdleInputStreamCore`) that are alive.
use flo_scene.Common.{
  ℕ, zero, suc, ◌<◌, ◌⊎◌, Bool, List, [], ◌∷◌, Option, none, some, ◌≡◌, ◌≢◌, refl, arith, inl, inr,
  Option-cases,
}
use flo_scene.SubProgram.{SubProgramId}
use flo_scene.Input.Core.{
  new, block, unblock, set_thread_stealing, send, send_with_overfill, wake_when_slots_available,
  close, wait_for_idle, idle_received,
}
use flo_scene.Input.Stream.{poll_next_with_sources, drop_stream, drop_stream_with_sources}
use flo_scene.Input.Run.{
  Call, polls, blocks, unblocks, idle_receives, waits_for_idle, History, start, step, run,
}

module _ {ℓ} {M : Type ℓ} where
  -- How many guards of each kind are alive after a call; `none` where a guard is dropped that does
  -- not exist, which no owner of values can do.
  abbrev pub guards_step : Call M → ℕ × ℕ → Option (ℕ × ℕ)
  guards_step blocks (b, i) = some (suc b, i)
  guards_step unblocks (zero, i) = none
  guards_step unblocks (suc b, i) = some (b, i)
  guards_step (waits_for_idle n) (b, i) = some (b, suc i)
  guards_step idle_receives (b, zero) = none
  guards_step idle_receives (b, suc i) = some (b, i)
  guards_step _ g = some g

  unfoldable pub guards : List (Call M) → ℕ × ℕ → Option (ℕ × ℕ)
  guards [] g = some g
  guards (c ∷ cs) g = elim (guards_step c g) [ none ↦ none | some g' ↦ guards cs g' ]

  -- The counters count the guards, and the idle limit is the usual one while nobody waits.
  pub record IsGuarded (g : ℕ × ℕ) (h : History M) : Type 0 where
    pub blocks_counted : h.core.blocked ≡ g.0
    pub waits_counted : h.core.waiting_for_idle ≡ g.1
    pub limit_restored : (0 < g.1) ⊎ (h.core.max_idle_queue_len ≡ h.core.max_waiting)

  step-ne-none :
      (c : Call M) (h : History M) (g g' : ℕ × ℕ)
      → IsGuarded g h
      → guards_step c g ≡ some g'
      → step c h ≢ none
  unfolding step unblock idle_received
  step-ne-none unblocks h (zero, i) g' v e = ground arith
  step-ne-none unblocks h (suc b, i) g' v e = ground arith
  step-ne-none idle_receives h (b, zero) g' v e = ground arith
  step-ne-none idle_receives h (b, suc i) g' v e = ground arith
  step-ne-none _ h g g' v e = ground arith

  step-IsGuarded :
      (c : Call M) (h h' : History M) (g g' : ℕ × ℕ)
      → IsGuarded g h
      → guards_step c g ≡ some g'
      → step c h ≡ some h'
      → IsGuarded g' h'
  unfolding step send send_with_overfill wake_when_slots_available poll_next_with_sources close
      block unblock idle_received drop_stream drop_stream_with_sources wait_for_idle
      set_thread_stealing
  step-IsGuarded unblocks h h' (zero, i) g' v e s = ground arith
  step-IsGuarded unblocks h h' (suc b, i) g' v e s = ground arith
  step-IsGuarded idle_receives h h' (b, zero) g' v e s = ground arith
  step-IsGuarded idle_receives h h' (b, suc i) g' v e s = ground arith
  step-IsGuarded (polls w) h h' g g' v e s = polled h.core.waiting_messages refl
    where
      polled : (q : List (SubProgramId × M)) → h.core.waiting_messages ≡ q → IsGuarded g' h'
      polled [] is = ground arith
      polled (m ∷ rest) is = ground arith
  step-IsGuarded _ h h' g g' v e s = ground arith

  run-IsGuarded :
      (cs : List (Call M)) (h : History M) (g g' : ℕ × ℕ)
      → IsGuarded g h
      → guards cs g ≡ some g'
      → (h' : History M) × (run cs h ≡ some h') × IsGuarded g' h'
  unfolding run guards
  run-IsGuarded [] h g g' v e = (h, refl, ground arith)
  run-IsGuarded (c ∷ cs) h g g' v e = elim (Option-cases (guards_step c g)) [
    | inl missing ↦ absurd (cc (rw (missing, guards) at e))
    | inr (g₁, ge) ↦ elim (Option-cases (step c h)) [
      | inl stuck ↦ absurd (step-ne-none c h g g₁ v ge stuck)
      | inr (h₁, se) ↦
          let (h', later, v') =
            run-IsGuarded cs h₁ g₁ g' (step-IsGuarded c h h₁ g g₁ v ge se) (rw (ge, guards) at e) in
          (h', rw (se, run) later, v')
    ]
  ]

  -- While guards are dropped once each, no call on a new stream panics: neither counter falls below
  -- 0, both count the guards that are alive, and once no idle guard is left the idle limit is again
  -- the stream's own.
  pub run_total :
      (id : SubProgramId) (max_waiting : ℕ) (stealing : Bool) (cs : List (Call M)) (g : ℕ × ℕ)
      → guards cs (0, 0) ≡ some g
      → (h : History M) × (run cs (start (new id max_waiting stealing)) ≡ some h) × IsGuarded g h
  unfolding new
  run_total id max_waiting stealing cs g =
      run-IsGuarded cs _ (0, 0) g
        (record { blocks_counted = refl; waits_counted = refl; limit_restored = inr refl })
