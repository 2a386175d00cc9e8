-- ===== src/Scheduler/System/Steps.antt =====
-- scene/src/scene_core.rs: each call on the scheduler changes one process in order.
use flo_scene.Common.{
  ℕ, Bool, true, false, ◌&&◌, List, [], Option, none, some, ◌≡◌, ◌≢◌, refl, sym, ◌∙◌, ap, min,
  if◌then◌else◌, subst,
}
use mathlib.Core.Option.{some-injective}
use flo_scene.Input.Core.{Waker}
use flo_scene.Scene.Slots.Lists.{
  set, slot_at, skip_full, skip_full-clear, slot_at-lt, slot_at-placed_self, slot_at-placed_ne,
  slot_at-skip_full,
}
use flo_scene.Scheduler.{
  waiting, SceneProcess, Scheduler, contains, push_missing, new_process, start_process,
  wake_process, wake, take_waker,
}
use flo_scene.Scheduler.Turned.{is_ready}
use flo_scene.Scheduler.Turns.{put_back}
use flo_scene.Scheduler.Steals.{return_stolen}
use flo_scene.Scheduler.Lists.{
  slot_at-set_ne, slot_at-set_self, skip_full-set, skip_full-placed-suc, contains-append,
  contains-push_missing, contains-push_missing_self,
}
use flo_scene.Scheduler.System.{System}
use flo_scene.Scheduler.System.Local.{is_polled, process_at, is_queued, IsSound}
use flo_scene.Scheduler.System.Sound.{Changes}

module _ (s : System) (c : Scheduler) (p : ℕ) (v : IsSound s) where
  abbrev KeepsQueue : Type 0
  KeepsQueue = (j : ℕ) → j ≢ p → is_queued s j ≡ true → contains j c.awake_processes ≡ true

  pub same-Changes :
      c.processes ≡ s.core.processes
      → c.next_process ≡ s.core.next_process
      → KeepsQueue
      → Changes s c p (process_at s p) (process_at s p)
  same-Changes same next queue = record {
    before = refl;
    after = ap (λ ps. slot_at ps p) same;
    next_first = next ∙ (v.next_is_first ∙ sym (ap skip_full same));
    others_same = λ j n. ap (λ ps. slot_at ps j) same;
    others_queued = queue;
  }

  pub set-Changes :
      (a b : SceneProcess)
      → process_at s p ≡ some a
      → c.processes ≡ set s.core.processes p (some b)
      → c.next_process ≡ s.core.next_process
      → KeepsQueue
      → Changes s c p (some a) (some b)
  set-Changes a b at is next queue = record {
    before = at;
    after = ap (λ ps. slot_at ps p) is ∙ slot_at-set_self s.core.processes p a (some b) at;
    next_first =
        next ∙ (v.next_is_first ∙ sym (ap skip_full is ∙ skip_full-set s.core.processes p a b at));
    others_same =
        λ j n. ap (λ ps. slot_at ps j) is ∙ slot_at-set_ne s.core.processes p j (some b) n;
    others_queued = queue;
  }

  pub clear-Changes :
      (a : SceneProcess)
      → process_at s p ≡ some a
      → c.processes ≡ set s.core.processes p none
      → c.next_process ≡ min s.core.next_process p
      → KeepsQueue
      → Changes s c p (some a) none
  clear-Changes a at is next queue = record {
    before = at;
    after = ap (λ ps. slot_at ps p) is ∙ slot_at-set_self s.core.processes p a none at;
    next_first =
        next
        ∙ (ap (λ n. min n p) v.next_is_first
            ∙ sym (
                ap skip_full is
                ∙ skip_full-clear s.core.processes p (slot_at-lt s.core.processes p at)));
    others_same = λ j n. ap (λ ps. slot_at ps j) is ∙ slot_at-set_ne s.core.processes p j none n;
    others_queued = queue;
  }

-- `start_process` places the new process in the first free slot, and queues it.
pub start-Changes :
    (s : System) (f : ℕ)
    → IsSound s
    → Changes s (start_process f s.core).0 (skip_full s.core.processes) none (some (new_process f))
unfolding start_process
start-Changes s f v = rw v.next_is_first (record {
  before = slot_at-skip_full s.core.processes;
  after = slot_at-placed_self s.core.processes (new_process f);
  next_first = skip_full-placed-suc s.core.processes (new_process f);
  others_same = λ j n. slot_at-placed_ne s.core.processes (new_process f) j n;
  others_queued = λ j n h. contains-append j _ s.core.awake_processes h;
})

abbrev pub awaken : Option SceneProcess → Option SceneProcess
awaken none = none
awaken (some a) = some (record a { is_awake = true })

-- What the waker of a process does to it, with `c` the scheduler after it.
pub record Wakes (s : System) (p : ℕ) (c : Scheduler) : Type 0 where
  pub was : Option SceneProcess
  pub becomes : Option SceneProcess
  pub woken : Changes s c p was becomes
  pub awakened : becomes ≡ awaken was
  pub polled_same : is_polled becomes ≡ is_polled was
  pub queued_if_ready : is_ready becomes ≡ true → contains p c.awake_processes ≡ true

wake_process-Wakes :
    (s : System) (p : ℕ) (ws : List (Option Waker)) (o : Option SceneProcess)
    → IsSound s
    → process_at s p ≡ o
    → Wakes s p (wake_process p (record s.core { thread_wakers = ws }) o)
unfolding wake_process
wake_process-Wakes s p ws none v at = record {
  was = process_at s p;
  becomes = process_at s p;
  woken = same-Changes s _ p v refl refl (λ j n h. h);
  awakened = rw at refl;
  polled_same = refl;
  queued_if_ready = λ h. absurd (cc (rw at at h));
}
wake_process-Wakes s p ws (some a) v at = record {
  was = some a;
  becomes = some (record a { is_awake = true });
  woken =
      set-Changes s _ p v a (record a { is_awake = true }) at refl refl
        (λ j n h. contains-push_missing j p s.core.awake_processes h);
  awakened = refl;
  polled_same = refl;
  queued_if_ready = λ h. contains-push_missing_self p s.core.awake_processes;
}

pub wake-Wakes : (s : System) (p : ℕ) → IsSound s → Wakes s p (wake p s.core).0
unfolding wake
wake-Wakes s p v =
    wake_process-Wakes s p (take_waker s.core.thread_wakers).1 (process_at s p) v refl

abbrev pub back : SceneProcess → ℕ → SceneProcess
back a f = record a { future = waiting f; unpark_when_waiting = [] }

-- A poll by `run_core` that is pending: the process waits again, and is queued if it is awake.
pub record PutsBack (s : System) (p f : ℕ) (c : Scheduler) : Type 0 where
  pub was : SceneProcess
  pub becomes : SceneProcess
  pub changed : Changes s c p (some was) (some becomes)
  pub is_back : becomes ≡ back was f
  pub waits : is_polled (some becomes) ≡ false
  pub queued_if_awake : is_ready (some becomes) ≡ true → contains p c.awake_processes ≡ true

abbrev queue_if : Bool → ℕ → List ℕ → List ℕ
queue_if b p q = if b then push_missing p q else q

contains-queue_if :
    (b : Bool) (j p : ℕ) (q : List ℕ) → contains j q ≡ true → contains j (queue_if b p q) ≡ true
contains-queue_if true j p q h = contains-push_missing j p q h
contains-queue_if false j p q h = h

queue_if_self :
    (b : Bool) (p : ℕ) (q : List ℕ) → b && true ≡ true → contains p (queue_if b p q) ≡ true
queue_if_self true p q h = contains-push_missing_self p q
queue_if_self false p q h = cc

pub put_back-PutsBack :
    (s : System) (p f : ℕ) (a : SceneProcess) (c : Scheduler) (us : List ℕ)
    → IsSound s
    → process_at s p ≡ some a
    → put_back p f s.core ≡ some (c, us)
    → PutsBack s p f c
unfolding put_back
put_back-PutsBack s p f a c us v at e =
    let is = some-injective _ _ (rw (at, put_back) at e) in
    subst (PutsBack s p f) (ap (λ r. r.0) is) (record {
      was = a;
      becomes = back a f;
      changed =
          set-Changes s _ p v a (back a f) at refl refl
            (λ j n h. contains-queue_if a.is_awake j p s.core.awake_processes h);
      is_back = refl;
      waits = refl;
      queued_if_awake = queue_if_self a.is_awake p s.core.awake_processes;
    })

and_true : (b : Bool) → (b && true) ≡ b
and_true true = refl
and_true false = refl

-- A poll on a stolen thread that is pending: the answer is whether the process is ready.
pub record Returns (s : System) (p f : ℕ) (c : Scheduler) (is_awake : Bool) : Type 0 where
  pub was : SceneProcess
  pub becomes : SceneProcess
  pub changed : Changes s c p (some was) (some becomes)
  pub is_back : becomes ≡ back was f
  pub waits : is_polled (some becomes) ≡ false
  pub ready_if_awake : is_ready (some becomes) ≡ is_awake

pub return_stolen-Returns :
    (s : System) (p f : ℕ) (a : SceneProcess) (c : Scheduler) (us : List ℕ) (b : Bool)
    → IsSound s
    → process_at s p ≡ some a
    → return_stolen p f s.core ≡ some (c, us, b)
    → Returns s p f c b
unfolding return_stolen
return_stolen-Returns s p f a c us b v at e =
    let is = some-injective _ _ (rw (at, return_stolen) at e) in
    subst (λ r. Returns s p f r.0 r.2) is
      (record {
        was = a;
        becomes = back a f;
        changed = set-Changes s _ p v a (back a f) at refl refl (λ j n h. h);
        is_back = refl;
        waits = refl;
        ready_if_awake = and_true a.is_awake;
      })
