-- ===== src/Scheduler/System/Lives.antt =====
-- scene/src/scene_core.rs: the life of a process, without the queue, the slots and the futures.
use flo_scene.Common.{ℕ, Bool, true, false, not, ◌&&◌, Option, none, some, ◌≡◌, ◌≢◌, ap, arith}
use flo_scene.Scene.Slots.Lists.{slot_at}
use flo_scene.Scheduler.{SceneProcessFuture, waiting, running, SceneProcess, Scheduler, is_waiting}
use flo_scene.Scheduler.Turns.{Turn, over, sleeps, skips, polls}
use flo_scene.Scheduler.System.{
  System, Step, starts, wakes, claims, puts_back, finishes, steals_thread, returns_stolen,
  finishes_stolen, wakes_again,
}
use flo_scene.Scheduler.System.Local.{process_at}
use flo_scene.Scheduler.System.Sound.{Changes}
use flo_scene.Scheduler.System.Steps.{awaken}

-- A process is absent, or it waits asleep or awake, or it is being polled, and may have been woken
-- since.
pub data Life : Type 0 where
  absent asleep awake polling polling_awake : Life

abbrev pub alive : SceneProcessFuture → Bool → Life
alive (waiting f) false = asleep
alive (waiting f) true = awake
alive (running t) false = polling
alive (running t) true = polling_awake

unfoldable pub life : Option SceneProcess → Life
life none = absent
life (some p) = alive p.future p.is_awake

abbrev pub woken : Life → Life
woken absent = absent
woken asleep = awake
woken awake = awake
woken polling = polling_awake
woken polling_awake = polling_awake

-- What happens to a process.
pub data Event : Type 0 where
  spawning waking claiming stealing returning ending : Event

-- The steps of one life. A process that is woken while it is polled is awake after the poll.
pub data Lives : Event → Life → Life → Type 0 where
  spawned : Lives spawning absent awake
  wakes_up : (l : Life) → Lives waking l (woken l)
  claimed : Lives claiming awake polling
  stolen_asleep : Lives stealing asleep polling
  stolen_awake : Lives stealing awake polling_awake
  is_pending : Lives returning polling asleep
  is_pending_awake : Lives returning polling_awake awake
  ends : Lives ending polling absent
  ends_awake : Lives ending polling_awake absent

-- One process takes the step of its life that the event is, or none does if there is no event.
pub data LivesOn (s : System) (c : Scheduler) : Option (Event × ℕ) → Type 0 where
  none_lives : ((j : ℕ) → life (slot_at c.processes j) ≡ life (process_at s j)) → LivesOn s c none
  one_lives :
      (e : Event) (p : ℕ)
      → Lives e (life (process_at s p)) (life (slot_at c.processes p))
      → ((j : ℕ) → j ≢ p → life (slot_at c.processes j) ≡ life (process_at s j))
      → LivesOn s c (some (e, p))

-- What a call is for the processes.
unfoldable pub event_of : {s t : System} → Step s t → Option (Event × ℕ)
event_of {s} (starts f) = some (spawning, s.core.next_process)
event_of (wakes p) = some (waking, p)
event_of (claims k me i w ps f p c free e) = some (claiming, p)
event_of (puts_back k f p c us is e) = some (returning, p)
event_of (finishes k f p is) = some (ending, p)
event_of (steals_thread k me q ps f p c free e) = some (stealing, p)
event_of (returns_stolen k f p c us b is e) = some (returning, p)
event_of (finishes_stolen k f p is) = some (ending, p)
event_of (wakes_again k p is) = some (waking, p)
event_of _ = none

-- The same of the scheduler that a turn leaves.
abbrev pub AfterTurn : System → Turn → Type 0
AfterTurn s over = Unit
AfterTurn s (sleeps c) = LivesOn s c none
AfterTurn s (skips c) = LivesOn s c none
AfterTurn s (polls f p c) = LivesOn s c (some (claiming, p))

module _ (s : System) (c : Scheduler) where
  pub changes-LivesOn :
      (e : Event) (p : ℕ) (x y : Option SceneProcess)
      → Changes s c p x y
      → Lives e (life x) (life y)
      → LivesOn s c (some (e, p))
  changes-LivesOn e p x y ch l =
      one_lives e p (rw (ch.before, ch.after) l) (λ j n. ap life (ch.others_same j n))

  pub same-LivesOn : c.processes ≡ s.core.processes → LivesOn s c none
  same-LivesOn same = none_lives (λ j. ap (λ ps. life (slot_at ps j)) same)

pub alive-Lives : (u : SceneProcessFuture) (b : Bool) → Lives waking (alive u b) (alive u true)
alive-Lives (waiting f) true = wakes_up awake
alive-Lives (waiting f) false = wakes_up asleep
alive-Lives (running f) true = wakes_up polling_awake
alive-Lives (running f) false = wakes_up polling

pub awaken-Lives : (x : Option SceneProcess) → Lives waking (life x) (life (awaken x))
unfolding life
awaken-Lives none = wakes_up absent
awaken-Lives (some a) = alive-Lives a.future a.is_awake

pub claim-Lives :
    (me : ℕ) (u : SceneProcessFuture) (b : Bool)
    → b && is_waiting u ≡ true
    → Lives claiming (alive u b) (alive (running me) false)
claim-Lives me (waiting f) true h = claimed
claim-Lives me (waiting f) false h = cc
claim-Lives me (running f) b h = absurd (ground arith)

pub stolen-Lives :
    (me f : ℕ) (u : SceneProcessFuture) (b : Bool)
    → u ≡ waiting f
    → Lives stealing (alive u b) (alive (running me) b)
stolen-Lives me f (waiting g) true h = stolen_awake
stolen-Lives me f (waiting g) false h = stolen_asleep
stolen-Lives me f (running g) b h = cc

pub back-Lives :
    (f : ℕ) (u : SceneProcessFuture) (b : Bool)
    → not (is_waiting u) ≡ true
    → Lives returning (alive u b) (alive (waiting f) b)
back-Lives f (running g) true h = is_pending_awake
back-Lives f (running g) false h = is_pending
back-Lives f (waiting g) b h = cc

pub over-Lives :
    (u : SceneProcessFuture) (b : Bool)
    → not (is_waiting u) ≡ true
    → Lives ending (alive u b) absent
over-Lives (running g) true h = ends_awake
over-Lives (running g) false h = ends
over-Lives (waiting g) b h = cc
