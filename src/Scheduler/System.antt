-- ===== src/Scheduler/System.antt =====
-- scene/src/scene_core.rs: the calls on the scheduler in the orders that threads may make them. A
-- poll of a process holds no lock, so that anything may come between its start and its end.
pub mod Local
pub mod Sound
pub mod Steps
pub mod Kept
pub mod Reached
pub mod Lives
pub mod States
pub mod Threads
pub mod Fair
pub mod Safe
use flo_scene.Common.{
  ℕ, Bool, true, false, List, [], ◌∷◌, Option, none, some, ◌≡◌, ◌==◌, if◌then◌else◌,
}
use mathlib.Core.Logic.{ite}
use native.Mathlib.Decide.{ℕ_discrete}
use flo_scene.SubProgram.{SubProgramId}
use flo_scene.Input.Core.{Waker}
use flo_scene.Scene.Slots.{Slots}
use flo_scene.Scheduler.{Scheduler, no_processes, start_process, stop, wake}
use flo_scene.Scheduler.Turns.{
  Turn, over, sleeps, skips, polls, register_thread, turn, put_back, finish,
}
use flo_scene.Scheduler.Steals.{Stolen, stolen, begin_steal, return_stolen, finish_stolen}

-- What is under way outside the lock: the poll of a process by `run_core`, or by a thread that was
-- stolen, with the future; or the call of a process's waker that ends such a steal.
pub data Activity : Type 0 where
  nothing : Activity
  runs steals : ℕ → ℕ → Activity
  rewakes : ℕ → Activity

pub record System : Type 0 where
  pub core : Scheduler
  pub doing : ℕ → Activity

abbrev pub update : (ℕ → Activity) → ℕ → Activity → ℕ → Activity
update doing k a j = if j == k then a else doing j

abbrev pub after_steal : Bool → ℕ → Activity
after_steal is_awake process_id = if is_awake then rewakes process_id else nothing

-- One call, by any thread. The wakers of processes are called at any time, by anyone.
pub data Step (s : System) : System → Type 0 where
  registers : Step s (record s { core = (register_thread s.core).0 })
  starts : (future : ℕ) → Step s (record s { core = (start_process future s.core).0 })
  wakes : (process_id : ℕ) → Step s (record s { core = (wake process_id s.core).0 })
  stops : Step s (record s { core = (stop s.core).0 })
  goes_to_sleep :
      (me idx : ℕ) (w : Waker) (programs : Slots) (c : Scheduler)
      → turn me idx w programs s.core ≡ sleeps c
      → Step s (record s { core = c })
  goes_on :
      (me idx : ℕ) (w : Waker) (programs : Slots) (c : Scheduler)
      → turn me idx w programs s.core ≡ skips c
      → Step s (record s { core = c })
  claims :
      (k me idx : ℕ) (w : Waker) (programs : Slots) (future process_id : ℕ) (c : Scheduler)
      → s.doing k ≡ nothing
      → turn me idx w programs s.core ≡ polls future process_id c
      → Step s (record { core = c; doing = update s.doing k (runs process_id future) })
  puts_back :
      (k future process_id : ℕ) (c : Scheduler) (unparked : List ℕ)
      → s.doing k ≡ runs process_id future
      → put_back process_id future s.core ≡ some (c, unparked)
      → Step s (record { core = c; doing = update s.doing k nothing })
  finishes :
      (k future process_id : ℕ)
      → s.doing k ≡ runs process_id future
      → Step s (record { core = finish process_id s.core; doing = update s.doing k nothing })
  steals_thread :
      (k me : ℕ) (program : SubProgramId) (programs : Slots) (future process_id : ℕ) (c : Scheduler)
      → s.doing k ≡ nothing
      → begin_steal me program programs s.core ≡ stolen future process_id c
      → Step s (record { core = c; doing = update s.doing k (steals process_id future) })
  returns_stolen :
      (k future process_id : ℕ) (c : Scheduler) (unparked : List ℕ) (is_awake : Bool)
      → s.doing k ≡ steals process_id future
      → return_stolen process_id future s.core ≡ some (c, unparked, is_awake)
      → Step s (record { core = c; doing = update s.doing k (after_steal is_awake process_id) })
  finishes_stolen :
      (k future process_id : ℕ)
      → s.doing k ≡ steals process_id future
      → Step s (record { core = finish_stolen process_id s.core; doing = update s.doing k nothing })
  wakes_again :
      (k process_id : ℕ)
      → s.doing k ≡ rewakes process_id
      → Step s (record { core = (wake process_id s.core).0; doing = update s.doing k nothing })

pub data Reach : System → Type 0 where
  here : Reach (record { core = no_processes; doing = λ k. nothing })
  next : {s t : System} → Reach s → Step s t → Reach t
