-- ===== src/Scheduler/System/Threads.antt =====
-- scene/src/scene_core.rs: which thread hears of a process that comes into the empty queue.
use flo_scene.Common.{
  ℕ, Bool, List, [], ◌∷◌, Option, none, some, ◌≡◌, inl, inr, refl, ap, subst, ◌++◌, sym,
}
use mathlib.Core.Option.{some-injective}
use flo_scene.Input.Core.{Waker}
use flo_scene.Scene.Slots.Lists.{slot_at}
use flo_scene.Common.{Option-cases}
use flo_scene.Scheduler.{
  SceneProcess, Scheduler, start_process, wake, wake_process, take_waker, stop,
}
use flo_scene.Scheduler.System.Sound.{update_self}
use flo_scene.Scheduler.Turned.{Turned, is_over, slept, skipped, polled, turn-Turned}
use flo_scene.Scheduler.Stole.{Stole, is_stolen, begin_steal-Stole}
use flo_scene.Scheduler.Turns.{Turn, over, sleeps, skips, polls, finish, register_thread}
use flo_scene.Scheduler.Steals.{stolen, return_stolen, finish_stolen, without}
use flo_scene.Scheduler.System.{
  runs, System, Step, registers, starts, wakes, stops, nothing, goes_to_sleep, goes_on, claims,
  puts_back, finishes, steals_thread, returns_stolen, finishes_stolen, wakes_again,
}

-- The waker of a thread that a call returns, or calls when it has let go of the lock.
unfoldable pub called_by : {s t : System} → Step s t → Option Waker
called_by {s} (starts f) = (start_process f s.core).2
called_by {s} (wakes p) = (wake p s.core).1
called_by {s} (wakes_again k p is) = (wake p s.core).1
called_by _ = none

abbrev pub AllNone : List (Option Waker) → Type 0
AllNone [] = Unit {0}
AllNone (none ∷ ws) = AllNone ws
AllNone (some w ∷ ws) = ⊥

-- Of the wakers `ws`, `called` is the first one, and `left` is the table without it; or no thread has
-- left one.
pub data First (ws : List (Option Waker)) (called : Option Waker) (left : List (Option Waker))
    : Type 0 where
  no_one : AllNone ws → called ≡ none → left ≡ ws → First ws called left
  the_first :
      (before after : List (Option Waker)) (w : Waker)
      → AllNone before
      → ws ≡ before ++ some w ∷ after
      → called ≡ some w
      → left ≡ before ++ none ∷ after
      → First ws called left

take_waker-First : (ws : List (Option Waker)) → First ws (take_waker ws).0 (take_waker ws).1
unfolding take_waker
take_waker-First [] = no_one tt refl refl
take_waker-First (some w ∷ ws) = the_first [] ws w tt refl refl refl
take_waker-First (none ∷ ws) = behind (take_waker-First ws)
  where
    behind :
        {o : Option Waker} {left : List (Option Waker)}
        → First ws o left
        → First (none ∷ ws) o (none ∷ left)
    behind (no_one all is kept) = no_one all is (ap (λ r. none ∷ r) kept)
    behind (the_first before after w all at is kept) =
        the_first (none ∷ before) after w all (ap (λ r. none ∷ r) at) is (ap (λ r. none ∷ r) kept)

-- A thread hears of it: the first one whose waker is in the table, which is taken out, if there is one;
-- or the thread that polled the process, which is between two turns again.
pub data Heard {s t : System} (st : Step s t) : Type 0 where
  calls_first : First s.core.thread_wakers (called_by st) t.core.thread_wakers → Heard st
  goes_round : (k p f : ℕ) → s.doing k ≡ runs p f → t.doing k ≡ nothing → Heard st

abbrev IsEmpty : Scheduler → Type 0
IsEmpty c = c.awake_processes ≡ []

wakers_kept :
    (p : ℕ) (s : Scheduler) (ws : List (Option Waker)) (o : Option SceneProcess)
    → (wake_process p (record s { thread_wakers = ws }) o).thread_wakers ≡ ws
unfolding wake_process
wakers_kept p s ws none = refl
wakers_kept p s ws (some a) = refl

woken : (p : ℕ) (s : Scheduler) → First s.thread_wakers (wake p s).1 (wake p s).0.thread_wakers
unfolding wake
woken p s =
    subst (First s.thread_wakers (take_waker s.thread_wakers).0)
      (sym (wakers_kept p s (take_waker s.thread_wakers).1 (slot_at s.processes p)))
      (take_waker-First s.thread_wakers)

-- A turn leaves an empty queue empty.
abbrev LeavesEmpty : Turn → Type 0
LeavesEmpty over = Unit
LeavesEmpty (sleeps c) = IsEmpty c
LeavesEmpty (skips c) = IsEmpty c
LeavesEmpty (polls f p c) = IsEmpty c

turn-LeavesEmpty : (me : ℕ) (s : Scheduler) (r : Turn) → IsEmpty s → Turned me s r → LeavesEmpty r
turn-LeavesEmpty me s _ empty (is_over e) = tt
turn-LeavesEmpty me s _ empty (slept ws e) = empty
turn-LeavesEmpty me s _ empty (skipped p rest is idle) = absurd (cc (empty, is))
turn-LeavesEmpty me s _ empty (polled p rest a f is at ready e) = absurd (cc (empty, is))

steal-IsEmpty : (me f p : ℕ) (s c : Scheduler) → IsEmpty s → Stole me s (stolen f p c) → IsEmpty c
steal-IsEmpty me f p s _ empty (is_stolen _ a _ at e) = empty

return-IsEmpty :
    (p f : ℕ) (s c : Scheduler) (us : List ℕ) (b : Bool)
    → IsEmpty s
    → return_stolen p f s ≡ some (c, us, b)
    → IsEmpty c
unfolding return_stolen
return-IsEmpty p f s c us b empty e = elim (Option-cases (slot_at s.processes p)) [
  | inl gone ↦ absurd (cc (rw (gone, return_stolen) at e))
  | inr (a, at) ↦
      let is = some-injective _ _ (rw (at, return_stolen) at e) in subst (λ r. IsEmpty r.0) is empty
]

finish_stolen-IsEmpty : (p : ℕ) (s : Scheduler) → IsEmpty s → IsEmpty (finish_stolen p s)
unfolding finish_stolen
finish_stolen-IsEmpty p s empty = ap (without p) empty

-- When a call puts a process into the empty queue, a thread hears of it. Either the call returns or
-- calls the first waker in the table of those that threads have left, and takes this one and no other
-- out of the table (if no thread has left one, none is called, and the table stays as it is); or it is
-- the end of a poll, after which the thread that polled is between two turns.
pub Step-Heard :
    (p : ℕ) (q : List ℕ) {s t : System} (st : Step s t)
    → s.core.awake_processes ≡ []
    → t.core.awake_processes ≡ p ∷ q
    → Heard st
unfolding called_by register_thread stop start_process wake finish
Step-Heard p q registers empty full = absurd (cc (empty, full))
Step-Heard p q {s} (starts f) empty full = calls_first (take_waker-First s.core.thread_wakers)
Step-Heard p q {s} (wakes x) empty full = calls_first (woken x s.core)
Step-Heard p q stops empty full = absurd (cc (empty, full))
Step-Heard p q {s} (goes_to_sleep me i w ps c e) empty full = absurd (
    cc (
      full,
      subst LeavesEmpty e (turn-LeavesEmpty me s.core _ empty (turn-Turned me i w ps s.core)),
    ))
Step-Heard p q {s} (goes_on me i w ps c e) empty full = absurd (
    cc (
      full,
      subst LeavesEmpty e (turn-LeavesEmpty me s.core _ empty (turn-Turned me i w ps s.core)),
    ))
Step-Heard p q {s} (claims k me i w ps f x c free e) empty full = absurd (
    cc (
      full,
      subst LeavesEmpty e (turn-LeavesEmpty me s.core _ empty (turn-Turned me i w ps s.core)),
    ))
Step-Heard p q {s} (puts_back k f x c us is e) empty full =
    goes_round k x f is (update_self s.doing k nothing)
Step-Heard p q (finishes k f x is) empty full = absurd (cc (empty, full))
Step-Heard p q {s} (steals_thread k me o ps f x c free e) empty full = absurd (
    cc (
      full,
      steal-IsEmpty me f x s.core c empty
          (subst (Stole me s.core) e (begin_steal-Stole me o ps s.core)),
    ))
Step-Heard p q {s} (returns_stolen k f x c us b is e) empty full =
    absurd (cc (full, return-IsEmpty x f s.core c us b empty e))
Step-Heard p q {s} (finishes_stolen k f x is) empty full =
    absurd (cc (full, finish_stolen-IsEmpty x s.core empty))
Step-Heard p q {s} (wakes_again k x is) empty full = calls_first (woken x s.core)
