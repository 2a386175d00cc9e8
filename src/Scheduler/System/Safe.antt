-- ===== src/Scheduler/System/Safe.antt =====
-- scene/src/scene_core.rs: the end of a poll finds the process that it began with.
use flo_scene.Common.{ℕ, List, Bool, some, ◌≡◌, refl}
use flo_scene.Scheduler.{SceneProcess, Scheduler}
use flo_scene.Scheduler.Turns.{put_back}
use flo_scene.Scheduler.Steals.{return_stolen}
use flo_scene.Scheduler.System.{runs, steals, System, Reach}
use flo_scene.Scheduler.System.Local.{process_at}
use flo_scene.Scheduler.System.Kept.{run_slot, steal_slot}
use flo_scene.Scheduler.System.Reached.{Reach-IsSound}

put_back_there :
    (s : System) (p f : ℕ) (a : SceneProcess)
    → process_at s p ≡ some a
    → (r : Scheduler × List ℕ) × (put_back p f s.core ≡ some r)
unfolding put_back
put_back_there s p f a at = rw (at, put_back) (_, refl)

return_stolen_there :
    (s : System) (p f : ℕ) (a : SceneProcess)
    → process_at s p ≡ some a
    → (r : Scheduler × List ℕ × Bool) × (return_stolen p f s.core ≡ some r)
unfolding return_stolen
return_stolen_there s p f a at = rw (at, return_stolen) (_, refl)

-- In every state that the calls of any threads lead to, the end of a pending poll does not panic: the
-- process that `run_core` polls, or that a stolen thread polls, is still there, so that neither the
-- `expect` nor the `unwrap` fails.
pub polls_end :
    {s : System} (k p f : ℕ)
    → Reach s
    → (s.doing k ≡ runs p f → (r : Scheduler × List ℕ) × (put_back p f s.core ≡ some r))
      × (s.doing k ≡ steals p f
          → (r : Scheduler × List ℕ × Bool) × (return_stolen p f s.core ≡ some r))
polls_end {s} k p f r = (
  λ is. let (a, at) = run_slot s k p f (Reach-IsSound r) is in put_back_there s p f a at,
  λ is. let (a, at) = steal_slot s k p f (Reach-IsSound r) is in return_stolen_there s p f a at,
)
