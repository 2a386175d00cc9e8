-- ===== src/Scheduler/System/Fair.antt =====
-- scene/src/scene_core.rs: a process that is in the queue gets its turn.
use flo_scene.Common.{
  ℕ, suc, ◌+◌, ◌≤◌, ◌<◌, Bool, true, List, [], ◌∷◌, ◌++◌, Option, none, some, ◌≡◌, ◌≢◌, refl, arith,
  ◌==◌, if◌then◌else◌, Bool-cases, Option-cases, inl, inr, subst,
}
use mathlib.Core.Option.{some-injective}
use native.Mathlib.Decide.{ℕ_discrete}
use flo_scene.Input.Core.{Waker}
use flo_scene.Scene.Slots.Lists.{slot_at, slot_at-clear_self}
use flo_scene.Scheduler.{
  SceneProcess, Scheduler, contains, push_missing, start_process, wake, wake_process, stop,
}
use flo_scene.Scheduler.Lists.{contains-append, contains-push_missing, contains-without}
use flo_scene.Scheduler.Turned.{Turned, is_over, slept, skipped, polled, turn-Turned}
use flo_scene.Scheduler.Stole.{Stole, is_stolen, begin_steal-Stole}
use flo_scene.Scheduler.Turns.{Turn, over, sleeps, skips, polls, put_back, finish, register_thread}
use flo_scene.Scheduler.Steals.{stolen, return_stolen, finish_stolen, without}
use flo_scene.Scheduler.System.{
  System, Step, registers, starts, wakes, stops, goes_to_sleep, goes_on, claims, puts_back,
  finishes, steals_thread, returns_stolen, finishes_stolen, wakes_again,
}
use flo_scene.Scheduler.System.Local.{process_at, is_queued}

-- How many are in the queue before `p`.
abbrev pub index_of : ℕ → List ℕ → ℕ
index_of p [] = 0
index_of p (q ∷ qs) = let rest = index_of p qs in if q == p then 0 else suc rest

index_of-append :
    (p x : ℕ) (q : List ℕ) → contains p q ≡ true → index_of p (q ++ x ∷ []) ≡ index_of p q
index_of-append p x [] h = cc
index_of-append p x (y ∷ q) h = ground (arith, index_of-append p x q)

index_of-push_missing :
    (p x : ℕ) (q : List ℕ) → contains p q ≡ true → index_of p (push_missing x q) ≡ index_of p q
index_of-push_missing p x q h = ground (arith, index_of-append p x q)

index_of-without :
    (p x : ℕ) (q : List ℕ) → p ≢ x → contains p q ≡ true → index_of p (without x q) ≤ index_of p q
index_of-without p x [] n h = cc
index_of-without p x (y ∷ q) n h = ground (arith, index_of-without p x q n)

-- With `p` in the queue before a call, and `n` the turns that the call takes: `p` has at least `n`
-- less before it, or it was the first in the queue and the call took it, or its process has ended.
pub data Moved (p n : ℕ) (before : List ℕ) (c : Scheduler) : Type 0 where
  stays :
      contains p c.awake_processes ≡ true
      → index_of p c.awake_processes + n ≤ index_of p before
      → Moved p n before c
  has_turn : before ≡ p ∷ c.awake_processes → Moved p n before c
  has_ended : slot_at c.processes p ≡ none → Moved p n before c

module _ (p : ℕ) (s : System) (h : is_queued s p ≡ true) where
  abbrev queue : List ℕ
  queue = s.core.awake_processes

  unmoved : (c : Scheduler) → c.awake_processes ≡ queue → Moved p 0 queue c
  unmoved c same = rw⁻¹ same (stays (rw same h) (omega arith))

  wake-Moved :
      (x : ℕ) (ws : List (Option Waker)) (o : Option SceneProcess)
      → Moved p 0 queue (wake_process x (record s.core { thread_wakers = ws }) o)
  unfolding wake_process
  wake-Moved x ws none = stays h (omega arith)
  wake-Moved x ws (some a) =
      stays (contains-push_missing p x queue h) (omega (arith, index_of-push_missing p x queue h))

  pop-Moved :
      (x : ℕ) (rest : List ℕ) (c : Scheduler)
      → queue ≡ x ∷ rest
      → c.awake_processes ≡ rest
      → Moved p 1 queue c
  pop-Moved x rest c is left = elim (ℕ_discrete x p) [
    | yes same ↦ has_turn (rw (is, left, same) refl)
    | no other ↦ stays (ground (arith, rw is at h)) (ground (arith, is, left))
  ]

  -- What a turn leaves, and how many processes it takes off the queue.
  abbrev TurnMoves : Turn → Type 0
  TurnMoves over = Unit
  TurnMoves (sleeps c) = Moved p 0 queue c
  TurnMoves (skips c) = Moved p 1 queue c
  TurnMoves (polls f x c) = Moved p 1 queue c

  Turned-Moved : (me : ℕ) (r : Turn) → Turned me s.core r → TurnMoves r
  Turned-Moved me _ (is_over e) = tt
  Turned-Moved me _ (slept ws e) = unmoved _ refl
  Turned-Moved me _ (skipped x rest is idle) = pop-Moved x rest _ is refl
  Turned-Moved me _ (polled x rest a f is at ready e) = pop-Moved x rest _ is refl

  Stole-Moved : (me f x : ℕ) (c : Scheduler) → Stole me s.core (stolen f x c) → Moved p 0 queue c
  Stole-Moved me f x _ (is_stolen _ a _ at e) = unmoved _ refl

  put_back-Moved :
      (x f : ℕ) (c : Scheduler) (us : List ℕ)
      → put_back x f s.core ≡ some (c, us)
      → Moved p 0 queue c
  unfolding put_back
  put_back-Moved x f c us e = elim (Option-cases (slot_at s.core.processes x)) [
    | inl gone ↦ absurd (cc (rw (gone, put_back) at e))
    | inr (a, at) ↦
        let is = some-injective _ _ (rw (at, put_back) at e) in
        subst (λ r. Moved p 0 queue r.0) is
          (elim (Bool-cases a.is_awake) [
            | inl up ↦ simp up (
                stays (contains-push_missing p x queue h)
                  (omega (arith, index_of-push_missing p x queue h)))
            | inr down ↦ simp down (stays h (omega arith))
          ])
  ]

  return_stolen-Moved :
      (x f : ℕ) (c : Scheduler) (us : List ℕ) (b : Bool)
      → return_stolen x f s.core ≡ some (c, us, b)
      → Moved p 0 queue c
  unfolding return_stolen
  return_stolen-Moved x f c us b e = elim (Option-cases (slot_at s.core.processes x)) [
    | inl gone ↦ absurd (cc (rw (gone, return_stolen) at e))
    | inr (a, at) ↦
        let is = some-injective _ _ (rw (at, return_stolen) at e) in
        subst (λ r. Moved p 0 queue r.0) is (stays h (omega arith))
  ]

  finish_stolen-Moved : (x : ℕ) → Moved p 0 queue (finish_stolen x s.core)
  unfolding finish_stolen
  finish_stolen-Moved x = elim (ℕ_discrete p x) [
    | yes same ↦ has_ended (rw same (slot_at-clear_self s.core.processes x))
    | no other ↦
        stays (contains-without p x queue other h)
          (omega (arith, index_of-without p x queue other h))
  ]

-- The turns in a call: 1 if it takes a process off the queue.
abbrev pub turns : {s t : System} → Step s t → ℕ
turns (goes_on me i w ps c e) = 1
turns (claims k me i w ps f p c free e) = 1
turns _ = 0

pub Step-Moved :
    (p : ℕ) {s t : System} (st : Step s t)
    → is_queued s p ≡ true
    → Moved p (turns st) s.core.awake_processes t.core
unfolding register_thread stop wake start_process finish
Step-Moved p {s} registers h = unmoved p s h _ refl
Step-Moved p {s} (starts f) h =
    stays (contains-append p s.core.next_process s.core.awake_processes h)
      (omega (arith, index_of-append p s.core.next_process s.core.awake_processes h))
Step-Moved p {s} (wakes x) h = wake-Moved p s h x _ (process_at s x)
Step-Moved p {s} stops h = unmoved p s h _ refl
Step-Moved p {s} (goes_to_sleep me i w ps c e) h =
    subst (TurnMoves p s h) e (Turned-Moved p s h me _ (turn-Turned me i w ps s.core))
Step-Moved p {s} (goes_on me i w ps c e) h =
    subst (TurnMoves p s h) e (Turned-Moved p s h me _ (turn-Turned me i w ps s.core))
Step-Moved p {s} (claims k me i w ps f x c free e) h =
    subst (TurnMoves p s h) e (Turned-Moved p s h me _ (turn-Turned me i w ps s.core))
Step-Moved p {s} (puts_back k f x c us is e) h = put_back-Moved p s h x f c us e
Step-Moved p {s} (finishes k f x is) h = unmoved p s h _ refl
Step-Moved p {s} (steals_thread k me q ps f x c free e) h =
    Stole-Moved p s h me f x c (subst (Stole me s.core) e (begin_steal-Stole me q ps s.core))
Step-Moved p {s} (returns_stolen k f x c us b is e) h = return_stolen-Moved p s h x f c us b e
Step-Moved p {s} (finishes_stolen k f x is) h = finish_stolen-Moved p s h x
Step-Moved p {s} (wakes_again k x is) h = wake-Moved p s h x _ (process_at s x)

-- A run of calls, by any threads.
pub data Run : System → System → Type 0 where
  ends : {s : System} → Run s s
  proceeds : {s t u : System} → Step s t → Run t u → Run s u

abbrev pub all_turns : {s t : System} → Run s t → ℕ
all_turns ends = 0
all_turns (proceeds st r) = turns st + all_turns r

-- At some call of the run, `p` was the first in the queue and was taken, or its process had ended.
pub data Serves (p : ℕ) : (s t : System) → Run s t → Type 0 where
  takes :
      {s t u : System} (st : Step s t) (r : Run t u)
      → s.core.awake_processes ≡ p ∷ t.core.awake_processes
      → Serves p s u (proceeds st r)
  ended_by :
      {s t u : System} (st : Step s t) (r : Run t u)
      → process_at t p ≡ none
      → Serves p s u (proceeds st r)
  later :
      {s t u : System} (st : Step s t) (r : Run t u) → Serves p t u r → Serves p s u (proceeds st r)

serve_after :
    (p : ℕ) {s t u : System} (st : Step s t) (r : Run t u)
    → (is_queued t p ≡ true → index_of p t.core.awake_processes < all_turns r → Serves p t u r)
    → Moved p (turns st) s.core.awake_processes t.core
    → index_of p s.core.awake_processes < turns st + all_turns r
    → Serves p s u (proceeds st r)
serve_after p st r rest (stays h less) enough = later st r (rest h (omega arith))
serve_after p st r rest (has_turn is) enough = takes st r is
serve_after p st r rest (has_ended gone) enough = ended_by st r gone

-- Whatever calls the threads make, in whatever order: a process that is in the queue is taken off it
-- or has ended, once the threads have taken more turns than there are processes before it.
pub run-Serves :
    (p : ℕ) {s t : System} (r : Run s t)
    → is_queued s p ≡ true
    → index_of p s.core.awake_processes < all_turns r
    → Serves p s t r
run-Serves p ends h enough = absurd (omega arith)
run-Serves p (proceeds st r) h enough =
    serve_after p st r (run-Serves p r) (Step-Moved p st h) enough
