-- ===== src/Scheduler.antt =====
-- scene/src/scene_core.rs and process_core.rs: the processes of a scene and the threads that poll
-- them. A future is a number, and so is a thread. `Scheduler` has the fields of `SceneCore` that this
-- part uses; each function is what one call does while it holds the lock.
pub mod Turns
pub mod Steals
pub mod Turned
pub mod Stole
pub mod System
pub mod Idle
pub mod Lists
use flo_scene.Common.{
  ℕ, suc, ◌+◌, Bool, true, false, not, ◌||◌, List, [], ◌∷◌, ◌++◌, Option, none, some, ◌==◌, min,
  drop, if◌then◌else◌,
}
use flo_scene.Input.Core.{Waker}
use flo_scene.Scene.Slots.Lists.{set, grow, skip_full, slot_at}

pub data SceneProcessFuture : Type 0 where
  waiting : ℕ → SceneProcessFuture
  running : ℕ → SceneProcessFuture

pub record SceneProcess : Type 0 where
  pub future : SceneProcessFuture
  pub is_awake : Bool
  pub unpark_when_waiting : List ℕ

pub record Scheduler : Type 0 where
  pub processes : List (Option SceneProcess)
  pub next_process : ℕ
  pub awake_processes : List ℕ
  pub thread_wakers : List (Option Waker)
  pub stopped : Bool

unfoldable pub no_processes : Scheduler
no_processes = record {
  processes = [];
  next_process = 0;
  awake_processes = [];
  thread_wakers = [];
  stopped = false;
}

abbrev pub is_waiting : SceneProcessFuture → Bool
is_waiting (waiting f) = true
is_waiting (running t) = false

abbrev pub is_running_on_this_thread : ℕ → SceneProcessFuture → Bool
is_running_on_this_thread me (waiting f) = false
is_running_on_this_thread me (running t) = t == me

-- `SceneProcessFuture::take` on the thread `me`: the future, if it waits, and what is left.
unfoldable pub take : ℕ → SceneProcessFuture → Option ℕ × SceneProcessFuture
take me (waiting f) = (some f, running me)
take me (running t) = (none, running t)

abbrev pub contains : ℕ → List ℕ → Bool
contains p [] = false
contains p (q ∷ qs) = q == p || contains p qs

-- `if !contains(&pid) { push_back(pid) }`
abbrev pub push_missing : ℕ → List ℕ → List ℕ
push_missing p qs = if contains p qs then qs else qs ++ p ∷ []

-- The loop over `thread_wakers`: the first waker that there is, and the table without it.
unfoldable pub take_waker : List (Option Waker) → Option Waker × List (Option Waker)
take_waker [] = (none, [])
take_waker (some w ∷ ws) = (some w, none ∷ ws)
take_waker (none ∷ ws) = let (w, rest) = take_waker ws in (w, none ∷ rest)

unfoldable pub new_process : ℕ → SceneProcess
new_process future = record { future = waiting future; is_awake = true; unpark_when_waiting = [] }

-- `start_process`, with the handle and the waker that it returns.
unfoldable pub start_process : ℕ → Scheduler → Scheduler × ℕ × Option Waker
unfolding take_waker new_process
start_process future s =
    let process_id = s.next_process in
    let processes = set (grow process_id s.processes) process_id (some (new_process future)) in
    let (waker, thread_wakers) = take_waker s.thread_wakers in
    (
      record s {
        processes = processes;
        next_process = suc process_id + skip_full (drop (suc process_id) processes);
        awake_processes = s.awake_processes ++ process_id ∷ [];
        thread_wakers = thread_wakers;
      },
      process_id,
      waker,
    )

abbrev pub all_wakers : List (Option Waker) → List Waker
all_wakers [] = []
all_wakers (none ∷ ws) = all_wakers ws
all_wakers (some w ∷ ws) = w ∷ all_wakers ws

abbrev pub all_taken : List (Option Waker) → List (Option Waker)
all_taken [] = []
all_taken (w ∷ ws) = none ∷ all_taken ws

-- `SceneCore::stop`, with the wakers that it returns.
unfoldable pub stop : Scheduler → Scheduler × List Waker
stop s = (
  record s { stopped = true; thread_wakers = all_taken s.thread_wakers },
  all_wakers s.thread_wakers,
)

-- The second half of `wake_by_ref`, on what `processes.get_mut` gives.
unfoldable pub wake_process : ℕ → Scheduler → Option SceneProcess → Scheduler
wake_process process_id s none = s
wake_process process_id s (some p) = record s {
  processes = set s.processes process_id (some (record p { is_awake = true }));
  awake_processes = push_missing process_id s.awake_processes;
}

-- `SceneCoreWaker::wake_by_ref`, with the waker that it calls.
unfoldable pub wake : ℕ → Scheduler → Scheduler × Option Waker
unfolding wake_process take_waker
wake process_id s =
    let (waker, thread_wakers) = take_waker s.thread_wakers in
    (
      wake_process process_id (record s { thread_wakers = thread_wakers })
          (slot_at s.processes process_id),
      waker,
    )
