-- ===== src/Scheduler/Steals.antt =====
-- scene/src/scene_core.rs: `steal_thread_for_program`, one function for each time that it holds the
-- lock of the scene.
use flo_scene.Common.{ℕ, Bool, List, [], ◌∷◌, Option, none, some, ◌==◌, min, if◌then◌else◌}
use flo_scene.SubProgram.{SubProgramId}
use flo_scene.Scene.Slots.{Slots, get_sub_program}
use flo_scene.Scene.Slots.Lists.{set, slot_at}
use flo_scene.Scheduler.{
  SceneProcessFuture, waiting, SceneProcess, Scheduler, take, is_running_on_this_thread,
}

-- `TargetProgramEndedBeforeReady`, `CannotReEnterTargetProgram`, a process that runs on another
-- thread (`Ok`), and a future that was taken, with its process.
pub data Stolen : Type 0 where
  ended re_entered elsewhere : Stolen
  stolen : ℕ → ℕ → Scheduler → Stolen

unfoldable pub steal_taken :
    ℕ → ℕ → Scheduler → SceneProcess → Option ℕ × SceneProcessFuture → Stolen
steal_taken me process_id s p (some future, left) =
    stolen future process_id
      (record s { processes = set s.processes process_id (some (record p { future = left })) })
steal_taken me process_id s p (none, left) =
    if is_running_on_this_thread me left then re_entered else elsewhere

unfoldable pub steal_process : ℕ → ℕ → Scheduler → Option SceneProcess → Stolen
unfolding steal_taken
steal_process me process_id s none = ended
steal_process me process_id s (some p) = steal_taken me process_id s p (take me p.future)

-- The program is looked up under a lock of its own, so that `programs` may be older than `s`.
unfoldable pub begin_steal : ℕ → SubProgramId → Slots → Scheduler → Stolen
unfolding steal_process
begin_steal me program programs s = elim (get_sub_program program programs) [
  | none ↦ ended
  | some core ↦ elim core.process_id [
    | none ↦ ended
    | some process_id ↦ steal_process me process_id s (slot_at s.processes process_id)
  ]
]

-- After a poll that is pending: the threads that it unparks, and whether the process is awake, so
-- that the scene is to be woken. `none` is the panic of `unwrap`.
unfoldable pub return_stolen : ℕ → ℕ → Scheduler → Option (Scheduler × List ℕ × Bool)
return_stolen process_id future s = elim (slot_at s.processes process_id) [
  | none ↦ none
  | some p ↦ some (
    record s {
      processes =
          set s.processes process_id
            (some (record p { future = waiting future; unpark_when_waiting = [] }));
    },
    p.unpark_when_waiting,
    p.is_awake,
  )
]

-- `retain(|pid| pid != &process_id)`
abbrev pub without : ℕ → List ℕ → List ℕ
without p [] = []
without p (q ∷ qs) = let rest = without p qs in if q == p then rest else q ∷ rest

-- After a poll that is ready.
unfoldable pub finish_stolen : ℕ → Scheduler → Scheduler
finish_stolen process_id s = record s {
  processes = set s.processes process_id none;
  next_process = min process_id s.next_process;
  awake_processes = without process_id s.awake_processes;
}
