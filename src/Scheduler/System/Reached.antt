-- ===== src/Scheduler/System/Reached.antt =====
-- scene/src/scene_core.rs: the scheduler stays in order, however the calls of its threads interleave.
use flo_scene.Common.{refl, subst}
use flo_scene.Scheduler.{no_processes, stop}
use flo_scene.Scheduler.Turned.{Turned, turn-Turned}
use flo_scene.Scheduler.Stole.{Stole, begin_steal-Stole}
use flo_scene.Scheduler.Turns.{register_thread}
use flo_scene.Scheduler.System.{
  System, Step, registers, starts, wakes, stops, goes_to_sleep, goes_on, claims, puts_back,
  finishes, steals_thread, returns_stolen, finishes_stolen, wakes_again, Reach, here, next,
}
use flo_scene.Scheduler.System.Local.{IsSound}
use flo_scene.Scheduler.System.Kept.{
  same_core-IsSound, start-IsSound, wake-IsSound, skip-IsSound, sleep-IsSound, claim-IsSound,
  steal-IsSound, put_back-IsSound, finish-IsSound, finish_stolen-IsSound, return_stolen-IsSound,
  wake_again-IsSound,
}

-- Each call keeps the scheduler sound.
pub Step-IsSound : {s t : System} → Step s t → IsSound s → IsSound t
unfolding register_thread stop
Step-IsSound {s} registers v = same_core-IsSound s _ v refl refl refl
Step-IsSound {s} (starts f) v = start-IsSound s f v
Step-IsSound {s} (wakes p) v = wake-IsSound s p v
Step-IsSound {s} stops v = same_core-IsSound s _ v refl refl refl
Step-IsSound {s} (goes_to_sleep me i w ps c e) v =
    sleep-IsSound s me c v (subst (Turned me s.core) e (turn-Turned me i w ps s.core))
Step-IsSound {s} (goes_on me i w ps c e) v =
    skip-IsSound s me c v (subst (Turned me s.core) e (turn-Turned me i w ps s.core))
Step-IsSound {s} (claims k me i w ps f p c free e) v =
    claim-IsSound s me k f p c v free (subst (Turned me s.core) e (turn-Turned me i w ps s.core))
Step-IsSound {s} (puts_back k f p c us is e) v = put_back-IsSound s k f p c us v is e
Step-IsSound {s} (finishes k f p is) v = finish-IsSound s k f p v is
Step-IsSound {s} (steals_thread k me q ps f p c free e) v =
    steal-IsSound s me k f p c v free (subst (Stole me s.core) e (begin_steal-Stole me q ps s.core))
Step-IsSound {s} (returns_stolen k f p c us b is e) v = return_stolen-IsSound s k f p c us b v is e
Step-IsSound {s} (finishes_stolen k f p is) v = finish_stolen-IsSound s k f p v is
Step-IsSound {s} (wakes_again k p is) v = wake_again-IsSound s k p v is

-- However the calls interleave: the next process goes to the first free slot; a process is marked as
-- running just while one activity holds its future, and never two at once; and a process that is
-- awake and not being polled is in the queue, or a call of its waker is to come.
pub Reach-IsSound : {s : System} → Reach s → IsSound s
unfolding no_processes
Reach-IsSound here = record {
  next_is_first = refl;
  held_is_polled = λ k p h. cc;
  polled_is_held = λ p h. cc;
  held_once = λ k j p h h'. cc;
  ready_is_queued = λ p h. cc;
}
Reach-IsSound (next r st) = Step-IsSound st (Reach-IsSound r)
