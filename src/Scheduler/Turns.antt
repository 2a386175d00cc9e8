-- ===== src/Scheduler/Turns.antt =====
-- scene/src/scene_core.rs: `run_core`, one function for each time that its loop holds the lock.
use flo_scene.Common.{
  ℕ, Bool, true, false, not, ◌&&◌, List, [], ◌∷◌, ◌++◌, Option, none, some, ◌==◌, min, is_empty,
  length, if◌then◌else◌,
}
use flo_scene.Input.Core.{Waker}
use flo_scene.Scene.Slots.{Slots, SubProgramCore}
use flo_scene.Scene.Slots.Lists.{set, slot_at, is_full}
use flo_scene.Scheduler.{
  SceneProcessFuture, waiting, SceneProcess, Scheduler, is_waiting, take, push_missing,
}

-- What a thread does next: it is over, it waits for its waker (and looks whether the scene is idle),
-- it goes on with the next process, or it polls the future of a process.
pub data Turn : Type 0 where
  over : Turn
  sleeps : Scheduler → Turn
  skips : Scheduler → Turn
  polls : ℕ → ℕ → Scheduler → Turn

abbrev pub none_left : List (Option SubProgramCore) → Bool
none_left [] = true
none_left (p ∷ ps) = not (is_full p) && none_left ps

-- `next_subprogram == 0 && sub_programs.iter().all(|program| program.is_none())`
unfoldable pub no_programs : Slots → Bool
no_programs programs = programs.next_subprogram == 0 && none_left programs.sub_programs

-- The start of `run_core`: the place of the thread's waker.
unfoldable pub register_thread : Scheduler → Scheduler × ℕ
register_thread s =
    (record s { thread_wakers = s.thread_wakers ++ none ∷ [] }, length s.thread_wakers)

-- What `take` gives is polled; the process is asleep again.
unfoldable pub claim_taken : ℕ → Scheduler → SceneProcess → Option ℕ × SceneProcessFuture → Turn
claim_taken process_id s p (taken, left) =
    let claimed = record s {
      processes = set s.processes process_id (some (record p { is_awake = false; future = left }));
    } in
    elim taken [ none ↦ skips claimed | some future ↦ polls future process_id claimed ]

unfoldable pub claim : ℕ → ℕ → Scheduler → Option SceneProcess → Turn
unfolding claim_taken
claim me process_id s none = skips s
claim me process_id s (some p) =
    if p.is_awake && is_waiting p.future
    then claim_taken process_id s p (take me p.future)
    else skips s

-- From `pop_front` on; `waker_idx` and `waker` are the thread's own.
unfoldable pub next_awake : ℕ → ℕ → Waker → Scheduler → List ℕ → Turn
unfolding claim
next_awake me waker_idx waker s [] =
    sleeps (record s { thread_wakers = set s.thread_wakers waker_idx (some waker) })
next_awake me waker_idx waker s (process_id ∷ rest) =
    claim me process_id (record s { awake_processes = rest }) (slot_at s.processes process_id)

unfoldable pub turn : ℕ → ℕ → Waker → Slots → Scheduler → Turn
unfolding next_awake no_programs
turn me waker_idx waker programs s =
    if s.stopped
    then over
    else if no_programs programs && is_empty s.awake_processes
    then over
    else next_awake me waker_idx waker s s.awake_processes

-- After a poll that is pending, with the threads that it unparks; `none` is the panic of `expect`.
unfoldable pub put_back : ℕ → ℕ → Scheduler → Option (Scheduler × List ℕ)
put_back process_id future s = elim (slot_at s.processes process_id) [
  | none ↦ none
  | some p ↦ some (
    record s {
      processes =
          set s.processes process_id
            (some (record p { future = waiting future; unpark_when_waiting = [] }));
      awake_processes =
          if p.is_awake then push_missing process_id s.awake_processes else s.awake_processes;
    },
    p.unpark_when_waiting,
  )
]

-- After a poll that is ready.
unfoldable pub finish : ℕ → Scheduler → Scheduler
finish process_id s = record s {
  processes = set s.processes process_id none;
  next_process = min s.next_process process_id;
}
