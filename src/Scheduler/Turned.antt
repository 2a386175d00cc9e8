-- ===== src/Scheduler/Turned.antt =====
-- scene/src/scene_core.rs: what a turn of `run_core` does, on each of its branches.
use flo_scene.Common.{
  ℕ, Bool, true, false, ◌&&◌, List, [], ◌∷◌, Option, none, some, ◌≡◌, refl, arith, ◌⊎◌, inl, inr,
  Bool-cases, if◌then◌else◌, is_empty,
}
use flo_scene.Input.Core.{Waker}
use flo_scene.Scene.Slots.{Slots}
use flo_scene.Scene.Slots.Lists.{set, slot_at}
use flo_scene.Scheduler.{
  SceneProcessFuture, waiting, running, SceneProcess, Scheduler, take, is_waiting,
}
use flo_scene.Scheduler.Turns.{
  Turn, over, sleeps, skips, polls, claim, claim_taken, next_awake, no_programs, turn,
}

-- A process that is awake and waits to be polled.
abbrev pub is_ready : Option SceneProcess → Bool
is_ready none = false
is_ready (some p) = p.is_awake && is_waiting p.future

abbrev pub claimed_by : ℕ → SceneProcess → SceneProcess
claimed_by me a = record a { is_awake = false; future = running me }

-- A thread is over only if the scene was stopped or the queue is empty. It sleeps only if the queue is empty. It passes over a process only if the process is not
-- ready, and polls one only if it is; the process goes out of the queue.
pub data Turned (me : ℕ) (s : Scheduler) : Turn → Type 0 where
  is_over : (s.stopped ≡ true) ⊎ (s.awake_processes ≡ []) → Turned me s over
  slept :
      (ws : List (Option Waker))
      → s.awake_processes ≡ []
      → Turned me s (sleeps (record s { thread_wakers = ws }))
  skipped :
      (p : ℕ) (rest : List ℕ)
      → s.awake_processes ≡ p ∷ rest
      → is_ready (slot_at s.processes p) ≡ false
      → Turned me s (skips (record s { awake_processes = rest }))
  polled :
      (p : ℕ) (rest : List ℕ) (a : SceneProcess) (f : ℕ)
      → s.awake_processes ≡ p ∷ rest
      → slot_at s.processes p ≡ some a
      → is_ready (some a) ≡ true
      → a.future ≡ waiting f
      → Turned me s (
          polls f p (record s {
            awake_processes = rest;
            processes = set s.processes p (some (claimed_by me a));
          }))

taken_Turned :
    (me : ℕ) (s : Scheduler) (p : ℕ) (rest : List ℕ) (a : SceneProcess) (u : SceneProcessFuture)
    → a.future ≡ u
    → s.awake_processes ≡ p ∷ rest
    → slot_at s.processes p ≡ some a
    → is_ready (some a) ≡ true
    → Turned me s (claim_taken p (record s { awake_processes = rest }) a (take me u))
unfolding claim_taken take
taken_Turned me s p rest a (waiting f) is queue at go = polled p rest a f queue at go is
taken_Turned me s p rest a (running t) is queue at go = absurd (ground arith)

claim-Turned :
    (me : ℕ) (s : Scheduler) (p : ℕ) (rest : List ℕ) (o : Option SceneProcess)
    → s.awake_processes ≡ p ∷ rest
    → slot_at s.processes p ≡ o
    → Turned me s (claim me p (record s { awake_processes = rest }) o)
unfolding claim
claim-Turned me s p rest none queue at = skipped p rest queue (rw at refl)
claim-Turned me s p rest (some a) queue at = elim (Bool-cases (is_ready (some a))) [
  | inl go ↦ simp go (taken_Turned me s p rest a a.future refl queue at go)
  | inr stop ↦ simp stop (skipped p rest queue (rw at stop))
]

awake_Turned :
    (me idx : ℕ) (w : Waker) (s : Scheduler) (q : List ℕ)
    → s.awake_processes ≡ q
    → Turned me s (next_awake me idx w s q)
unfolding next_awake
awake_Turned me idx w s [] queue = slept (set s.thread_wakers idx (some w)) queue
awake_Turned me idx w s (p ∷ rest) queue =
    claim-Turned me s p rest (slot_at s.processes p) queue refl

-- On the two tests of a turn.
tests_Turned :
    (me : ℕ) (s : Scheduler) (b b' : Bool) (r : Turn)
    → (b ≡ true → s.stopped ≡ true)
    → (b' ≡ true → s.awake_processes ≡ [])
    → Turned me s r
    → Turned me s (if b then over else if b' then over else r)
tests_Turned me s true b' r stop empty t = is_over (inl (stop refl))
tests_Turned me s false true r stop empty t = is_over (inr (empty refl))
tests_Turned me s false false r stop empty t = t

empty_queue : (b : Bool) (q : List ℕ) → b && is_empty q ≡ true → q ≡ []
empty_queue b [] h = refl
empty_queue b (x ∷ q) h = absurd (ground arith)

-- Every turn of `run_core` is over, which it is only if the scene was stopped or the queue is empty;
-- or it finds the queue empty and sleeps; or it takes the first process off the queue, and polls it if
-- it is awake and not being polled, or passes over it if it is not.
pub turn-Turned :
    (me idx : ℕ) (w : Waker) (programs : Slots) (s : Scheduler)
    → Turned me s (turn me idx w programs s)
unfolding turn
turn-Turned me idx w programs s =
    tests_Turned me s s.stopped (no_programs programs && is_empty s.awake_processes) _ (λ h. h)
      (λ h. empty_queue (no_programs programs) s.awake_processes h)
      (awake_Turned me idx w s s.awake_processes refl)
