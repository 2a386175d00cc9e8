-- ===== src/Scheduler/System/Kept.antt =====
-- scene/src/scene_core.rs: each call on the scheduler leaves it in order.
use flo_scene.Common.{
  ℕ, Bool, true, false, List, ◌∷◌, Option, none, some, ◌≡◌, ◌≢◌, inl, inr, refl, sym, ◌∙◌, arith,
  ap,
}
use flo_scene.Scene.Slots.Lists.{skip_full}
use flo_scene.Scheduler.{SceneProcess, Scheduler, contains, new_process, start_process, wake}
use flo_scene.Scheduler.Turned.{Turned, slept, skipped, polled, is_ready, claimed_by}
use flo_scene.Scheduler.Stole.{Stole, is_stolen, stolen_by}
use flo_scene.Scheduler.Turns.{sleeps, skips, polls, put_back, finish}
use flo_scene.Scheduler.Steals.{stolen, return_stolen, finish_stolen}
use flo_scene.Scheduler.Lists.{contains-append_self, contains-without, ==_self}
use flo_scene.Scheduler.System.{nothing, runs, steals, rewakes, System, update, after_steal}
use flo_scene.Scheduler.System.Local.{
  is_polled, process_at, is_queued, IsSound, quiet, claimed, released,
}
use flo_scene.Scheduler.System.Sound.{
  Changes, about_nothing, about_run, about_steal, about_wake, still-IsSound, swap-IsSound,
}
use flo_scene.Scheduler.System.Steps.{
  same-Changes, set-Changes, clear-Changes, start-Changes, wake-Wakes, put_back-PutsBack,
  return_stolen-Returns,
}

-- A process whose poll is under way is in its slot.
pub slot_of : (o : Option SceneProcess) → is_polled o ≡ true → (a : SceneProcess) × (o ≡ some a)
slot_of none h = cc
slot_of (some a) h = (a, refl)

pub same_core-IsSound :
    (s : System) (c : Scheduler)
    → IsSound s
    → c.processes ≡ s.core.processes
    → c.next_process ≡ s.core.next_process
    → c.awake_processes ≡ s.core.awake_processes
    → IsSound (record s { core = c })
same_core-IsSound s c v same first queue = record {
  next_is_first = first ∙ (v.next_is_first ∙ sym (ap skip_full same));
  held_is_polled = rw same v.held_is_polled;
  polled_is_held = rw same v.polled_is_held;
  held_once = v.held_once;
  ready_is_queued = rw (same, queue) v.ready_is_queued;
}

pub start-IsSound :
    (s : System) (f : ℕ) → IsSound s → IsSound (record s { core = (start_process f s.core).0 })
unfolding start_process
start-IsSound s f v =
    still-IsSound s _ (skip_full s.core.processes) none (some (new_process f)) v
      (start-Changes s f v) refl
      (λ h.
        rw v.next_is_first
          (contains-append_self (skip_full s.core.processes) s.core.awake_processes))

pub wake-IsSound :
    (s : System) (p : ℕ) → IsSound s → IsSound (record s { core = (wake p s.core).0 })
wake-IsSound s p v =
    let w = wake-Wakes s p v in
    still-IsSound s _ p w.was w.becomes v w.woken w.polled_same w.queued_if_ready

-- The process at the front of the queue leaves it.
pub popped :
    (s : System) (p : ℕ) (rest : List ℕ) (j : ℕ)
    → s.core.awake_processes ≡ p ∷ rest
    → j ≢ p
    → is_queued s j ≡ true
    → contains j rest ≡ true
popped s p rest j queue n h = ground (arith, rw queue at h)

pub skip-IsSound :
    (s : System) (me : ℕ) (c : Scheduler)
    → IsSound s
    → Turned me s.core (skips c)
    → IsSound (record s { core = c })
skip-IsSound s me _ v (skipped p rest queue idle) =
    still-IsSound s _ p (process_at s p) (process_at s p) v
      (same-Changes s _ p v refl refl (λ j n h. popped s p rest j queue n h)) refl
      (λ h. absurd (cc (idle, h)))

pub sleep-IsSound :
    (s : System) (me : ℕ) (c : Scheduler)
    → IsSound s
    → Turned me s.core (sleeps c)
    → IsSound (record s { core = c })
sleep-IsSound s me _ v (slept ws queue) = same_core-IsSound s _ v refl refl refl

pub claim-IsSound :
    (s : System) (me k f p : ℕ) (c : Scheduler)
    → IsSound s
    → s.doing k ≡ nothing
    → Turned me s.core (polls f p c)
    → IsSound (record { core = c; doing = update s.doing k (runs p f) })
claim-IsSound s me k f p _ v free (polled _ rest a _ queue at ready is) =
    swap-IsSound s _ p (some a) (some (claimed_by me a)) v
      (set-Changes s _ p v a (claimed_by me a) at refl refl (λ j n h. popped s p rest j queue n h))
      k nothing (runs p f) free about_nothing (about_run f) (claimed (rw is refl) refl (==_self p))
      (λ h. cc)

pub steal-IsSound :
    (s : System) (me k f p : ℕ) (c : Scheduler)
    → IsSound s
    → s.doing k ≡ nothing
    → Stole me s.core (stolen f p c)
    → IsSound (record { core = c; doing = update s.doing k (steals p f) })
steal-IsSound s me k f p _ v free (is_stolen _ a _ at is) =
    swap-IsSound s _ p (some a) (some (stolen_by me a)) v
      (set-Changes s _ p v a (stolen_by me a) at refl refl (λ j n h. h)) k nothing (steals p f) free
      about_nothing (about_steal f) (claimed (rw is refl) refl (==_self p))
      (λ h. absurd (ground arith))

-- A process that is held by the run of a thread, or by a steal, is in its slot.
pub run_slot :
    (s : System) (k p f : ℕ)
    → IsSound s
    → s.doing k ≡ runs p f
    → (a : SceneProcess) × (process_at s p ≡ some a)
run_slot s k p f v is = slot_of (process_at s p) (v.held_is_polled k p (rw is (==_self p)))

pub steal_slot :
    (s : System) (k p f : ℕ)
    → IsSound s
    → s.doing k ≡ steals p f
    → (a : SceneProcess) × (process_at s p ≡ some a)
steal_slot s k p f v is = slot_of (process_at s p) (v.held_is_polled k p (rw is (==_self p)))

pub put_back-IsSound :
    (s : System) (k f p : ℕ) (c : Scheduler) (us : List ℕ)
    → IsSound s
    → s.doing k ≡ runs p f
    → put_back p f s.core ≡ some (c, us)
    → IsSound (record { core = c; doing = update s.doing k nothing })
put_back-IsSound s k f p c us v is e =
    let (a, at) = run_slot s k p f v is in
    let b = put_back-PutsBack s p f a c us v at e in
    swap-IsSound s c p (some b.was) (some b.becomes) v b.changed k (runs p f) nothing is
      (about_run f) about_nothing (released (==_self p) b.waits refl)
      (λ h. inl (b.queued_if_awake h))

pub finish-IsSound :
    (s : System) (k f p : ℕ)
    → IsSound s
    → s.doing k ≡ runs p f
    → IsSound (record { core = finish p s.core; doing = update s.doing k nothing })
unfolding finish
finish-IsSound s k f p v is =
    let (a, at) = run_slot s k p f v is in
    swap-IsSound s _ p (some a) none v (clear-Changes s _ p v a at refl refl (λ j n h. h)) k
      (runs p f) nothing is (about_run f) about_nothing (released (==_self p) refl refl) (λ h. cc)

pub finish_stolen-IsSound :
    (s : System) (k f p : ℕ)
    → IsSound s
    → s.doing k ≡ steals p f
    → IsSound (record { core = finish_stolen p s.core; doing = update s.doing k nothing })
unfolding finish_stolen
finish_stolen-IsSound s k f p v is =
    let (a, at) = steal_slot s k p f v is in
    swap-IsSound s _ p (some a) none v
      (clear-Changes s _ p v a at refl (omega arith)
        (λ j n h. contains-without j p s.core.awake_processes n h))
      k (steals p f) nothing is (about_steal f) about_nothing (released (==_self p) refl refl)
      (λ h. cc)

-- The activity after a steal, by whether the process is awake.
pub after_steal-IsSound :
    (s : System) (k f p : ℕ) (c : Scheduler) (b : Bool) (was becomes : SceneProcess)
    → IsSound s
    → s.doing k ≡ steals p f
    → Changes s c p (some was) (some becomes)
    → is_polled (some becomes) ≡ false
    → is_ready (some becomes) ≡ b
    → IsSound (record { core = c; doing = update s.doing k (after_steal b p) })
after_steal-IsSound s k f p c true was becomes v is changed waits ready =
    swap-IsSound s c p (some was) (some becomes) v changed k (steals p f) (rewakes p) is
      (about_steal f) about_wake (released (==_self p) waits refl) (λ h. inr (==_self p))
after_steal-IsSound s k f p c false was becomes v is changed waits ready =
    swap-IsSound s c p (some was) (some becomes) v changed k (steals p f) nothing is (about_steal f)
      about_nothing (released (==_self p) waits refl) (λ h. absurd (cc (h, ready)))

pub return_stolen-IsSound :
    (s : System) (k f p : ℕ) (c : Scheduler) (us : List ℕ) (b : Bool)
    → IsSound s
    → s.doing k ≡ steals p f
    → return_stolen p f s.core ≡ some (c, us, b)
    → IsSound (record { core = c; doing = update s.doing k (after_steal b p) })
return_stolen-IsSound s k f p c us b v is e =
    let (a, at) = steal_slot s k p f v is in
    let r = return_stolen-Returns s p f a c us b v at e in
    after_steal-IsSound s k f p c b r.was r.becomes v is r.changed r.waits r.ready_if_awake

pub wake_again-IsSound :
    (s : System) (k p : ℕ)
    → IsSound s
    → s.doing k ≡ rewakes p
    → IsSound (record { core = (wake p s.core).0; doing = update s.doing k nothing })
wake_again-IsSound s k p v is =
    let w = wake-Wakes s p v in
    swap-IsSound s _ p w.was w.becomes v w.woken k (rewakes p) nothing is about_wake about_nothing
      (quiet w.polled_same refl) (λ h. inl (w.queued_if_ready h))
