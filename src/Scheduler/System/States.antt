-- ===== src/Scheduler/System/States.antt =====
-- scene/src/scene_core.rs: each call is a step of the life of one process.
use flo_scene.Common.{ℕ, Bool, none, some, ◌≡◌, List, refl, sym, arith, subst}
use flo_scene.Scene.Slots.Lists.{skip_full}
use flo_scene.Scheduler.{Scheduler, new_process, start_process, wake, stop}
use flo_scene.Scheduler.Lists.{contains-without, ==_self}
use flo_scene.Scheduler.Turned.{Turned, is_over, slept, skipped, polled, turn-Turned, claimed_by}
use flo_scene.Scheduler.Stole.{Stole, is_stolen, begin_steal-Stole, stolen_by}
use flo_scene.Scheduler.Turns.{Turn, put_back, finish, register_thread}
use flo_scene.Scheduler.Steals.{stolen, return_stolen, finish_stolen}
use flo_scene.Scheduler.System.{
  runs, steals, System, Step, registers, starts, wakes, stops, goes_to_sleep, goes_on, claims,
  puts_back, finishes, steals_thread, returns_stolen, finishes_stolen, wakes_again,
}
use flo_scene.Scheduler.System.Local.{IsSound}
use flo_scene.Scheduler.System.Steps.{
  set-Changes, clear-Changes, start-Changes, wake-Wakes, put_back-PutsBack, return_stolen-Returns,
}
use flo_scene.Scheduler.System.Kept.{run_slot, steal_slot, popped}
use flo_scene.Scheduler.System.Lives.{
  life, spawned, LivesOn, event_of, AfterTurn, changes-LivesOn, same-LivesOn, awaken-Lives,
  claim-Lives, stolen-Lives, back-Lives, over-Lives, spawning, waking, claiming, stealing,
  returning, ending,
}

wake-LivesOn : (s : System) (p : ℕ) → IsSound s → LivesOn s (wake p s.core).0 (some (waking, p))
wake-LivesOn s p v =
    let w = wake-Wakes s p v in
    changes-LivesOn s _ waking p w.was w.becomes w.woken (rw w.awakened (awaken-Lives w.was))

turn-LivesOn : (s : System) (me : ℕ) (r : Turn) → IsSound s → Turned me s.core r → AfterTurn s r
unfolding life
turn-LivesOn s me _ v (is_over _) = tt
turn-LivesOn s me _ v (slept ws queue) = same-LivesOn s _ refl
turn-LivesOn s me _ v (skipped p rest queue idle) = same-LivesOn s _ refl
turn-LivesOn s me _ v (polled p rest a f queue at ready is) =
    changes-LivesOn s _ claiming p (some a) (some (claimed_by me a))
      (set-Changes s _ p v a (claimed_by me a) at refl refl (λ j n h. popped s p rest j queue n h))
      (claim-Lives me a.future a.is_awake ready)

steal-LivesOn :
    (s : System) (me f p : ℕ) (c : Scheduler)
    → IsSound s
    → Stole me s.core (stolen f p c)
    → LivesOn s c (some (stealing, p))
unfolding life
steal-LivesOn s me f p _ v (is_stolen _ a _ at is) =
    changes-LivesOn s _ stealing p (some a) (some (stolen_by me a))
      (set-Changes s _ p v a (stolen_by me a) at refl refl (λ j n h. h))
      (stolen-Lives me f a.future a.is_awake is)

-- The process in the slot, where it is being polled.
module _ (s : System) (k f p : ℕ) (v : IsSound s) where
  put_back-LivesOn :
      (c : Scheduler) (us : List ℕ)
      → s.doing k ≡ runs p f
      → put_back p f s.core ≡ some (c, us)
      → LivesOn s c (some (returning, p))
  unfolding life
  put_back-LivesOn c us is e =
      let (a, at) = run_slot s k p f v is in
      let b = put_back-PutsBack s p f a c us v at e in
      changes-LivesOn s c returning p (some b.was) (some b.becomes) b.changed (
        rw b.is_back (
          back-Lives f b.was.future b.was.is_awake
            (rw b.changed.before at (v.held_is_polled k p (rw is (==_self p))))))

  return_stolen-LivesOn :
      (c : Scheduler) (us : List ℕ) (awake_now : Bool)
      → s.doing k ≡ steals p f
      → return_stolen p f s.core ≡ some (c, us, awake_now)
      → LivesOn s c (some (returning, p))
  unfolding life
  return_stolen-LivesOn c us awake_now is e =
      let (a, at) = steal_slot s k p f v is in
      let b = return_stolen-Returns s p f a c us awake_now v at e in
      changes-LivesOn s c returning p (some b.was) (some b.becomes) b.changed (
        rw b.is_back (
          back-Lives f b.was.future b.was.is_awake
            (rw b.changed.before at (v.held_is_polled k p (rw is (==_self p))))))

  finish-LivesOn : s.doing k ≡ runs p f → LivesOn s (finish p s.core) (some (ending, p))
  unfolding finish life
  finish-LivesOn is =
      let (a, at) = run_slot s k p f v is in
      changes-LivesOn s _ ending p (some a) none (clear-Changes s _ p v a at refl refl (λ j n h. h))
        (over-Lives a.future a.is_awake (rw at at (v.held_is_polled k p (rw is (==_self p)))))

  finish_stolen-LivesOn :
      s.doing k ≡ steals p f → LivesOn s (finish_stolen p s.core) (some (ending, p))
  unfolding finish_stolen life
  finish_stolen-LivesOn is =
      let (a, at) = steal_slot s k p f v is in
      changes-LivesOn s _ ending p (some a) none
        (clear-Changes s _ p v a at refl (omega arith)
          (λ j n h. contains-without j p s.core.awake_processes n h))
        (over-Lives a.future a.is_awake (rw at at (v.held_is_polled k p (rw is (==_self p)))))

-- Seen from the lives of its processes, each call is the step that it is meant to be, of the one
-- process that it is about: `start_process` makes an awake process where there was none; a waker makes
-- its process awake, and one that is being polled will be awake after the poll; `run_core` polls only
-- an awake process, which no longer counts as awake, and a steal only one that is not being polled; a
-- poll leaves its process asleep, or awake if it was woken since, or ends it. The other calls change
-- none.
pub Step-LivesOn : {s t : System} (st : Step s t) → IsSound s → LivesOn s t.core (event_of st)
unfolding register_thread stop life start_process event_of
Step-LivesOn {s} registers v = same-LivesOn s _ refl
Step-LivesOn {s} (starts f) v =
    subst (λ n. LivesOn s (start_process f s.core).0 (some (spawning, n))) (sym v.next_is_first)
      (changes-LivesOn s _ spawning (skip_full s.core.processes) none (some (new_process f))
        (start-Changes s f v) (unfold new_process in spawned))
Step-LivesOn {s} (wakes p) v = wake-LivesOn s p v
Step-LivesOn {s} stops v = same-LivesOn s _ refl
Step-LivesOn {s} (goes_to_sleep me i w ps c e) v =
    subst (AfterTurn s) e (turn-LivesOn s me _ v (turn-Turned me i w ps s.core))
Step-LivesOn {s} (goes_on me i w ps c e) v =
    subst (AfterTurn s) e (turn-LivesOn s me _ v (turn-Turned me i w ps s.core))
Step-LivesOn {s} (claims k me i w ps f p c free e) v =
    subst (AfterTurn s) e (turn-LivesOn s me _ v (turn-Turned me i w ps s.core))
Step-LivesOn {s} (puts_back k f p c us is e) v = put_back-LivesOn s k f p v c us is e
Step-LivesOn {s} (finishes k f p is) v = finish-LivesOn s k f p v is
Step-LivesOn {s} (steals_thread k me q ps f p c free e) v =
    steal-LivesOn s me f p c v (subst (Stole me s.core) e (begin_steal-Stole me q ps s.core))
Step-LivesOn {s} (returns_stolen k f p c us b is e) v = return_stolen-LivesOn s k f p v c us b is e
Step-LivesOn {s} (finishes_stolen k f p is) v = finish_stolen-LivesOn s k f p v is
Step-LivesOn {s} (wakes_again k p is) v = wake-LivesOn s p v
