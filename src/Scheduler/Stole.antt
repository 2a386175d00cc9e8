-- ===== src/Scheduler/Stole.antt =====
-- scene/src/scene_core.rs: what it takes to steal a thread for a program.
use flo_scene.Common.{
  ℕ, true, false, Option, none, some, ◌≡◌, refl, Option-cases, inl, inr, Bool-cases,
}
use flo_scene.SubProgram.{SubProgramId}
use flo_scene.Scene.Slots.{Slots, get_sub_program}
use flo_scene.Scene.Slots.Lists.{set, slot_at}
use flo_scene.Scheduler.{
  SceneProcessFuture, waiting, running, SceneProcess, Scheduler, take, is_running_on_this_thread,
}
use flo_scene.Scheduler.Steals.{
  Stolen, ended, re_entered, elsewhere, stolen, begin_steal, steal_process, steal_taken,
}

abbrev pub stolen_by : ℕ → SceneProcess → SceneProcess
stolen_by me a = record a { future = running me }

-- A future is stolen only from a process that is not being polled; one that is being polled is left
-- where it is, with an error if it is this thread that polls it.
pub data Stole (me : ℕ) (s : Scheduler) : Stolen → Type 0 where
  has_ended : Stole me s ended
  is_re_entered :
      (p : ℕ) (a : SceneProcess) (t : ℕ)
      → slot_at s.processes p ≡ some a
      → a.future ≡ running t
      → is_running_on_this_thread me (running t) ≡ true
      → Stole me s re_entered
  is_elsewhere :
      (p : ℕ) (a : SceneProcess) (t : ℕ)
      → slot_at s.processes p ≡ some a
      → a.future ≡ running t
      → is_running_on_this_thread me (running t) ≡ false
      → Stole me s elsewhere
  is_stolen :
      (p : ℕ) (a : SceneProcess) (f : ℕ)
      → slot_at s.processes p ≡ some a
      → a.future ≡ waiting f
      → Stole me s (stolen f p (record s { processes = set s.processes p (some (stolen_by me a)) }))

taken_Stole :
    (me : ℕ) (s : Scheduler) (p : ℕ) (a : SceneProcess) (u : SceneProcessFuture)
    → slot_at s.processes p ≡ some a
    → a.future ≡ u
    → Stole me s (steal_taken me p s a (take me u))
unfolding steal_taken take
taken_Stole me s p a (waiting f) at is = is_stolen p a f at is
taken_Stole me s p a (running t) at is =
    elim (Bool-cases (is_running_on_this_thread me (running t))) [
      | inl here ↦ rw here (is_re_entered p a t at is here)
      | inr there ↦ rw there (is_elsewhere p a t at is there)
    ]

process_Stole :
    (me : ℕ) (s : Scheduler) (p : ℕ) (o : Option SceneProcess)
    → slot_at s.processes p ≡ o
    → Stole me s (steal_process me p s o)
unfolding steal_process
process_Stole me s p none at = has_ended
process_Stole me s p (some a) at = taken_Stole me s p a a.future at refl

pub begin_steal-Stole :
    (me : ℕ) (program : SubProgramId) (programs : Slots) (s : Scheduler)
    → Stole me s (begin_steal me program programs s)
unfolding begin_steal
begin_steal-Stole me program programs s = elim (Option-cases (get_sub_program program programs)) [
  | inl no_program ↦ rw (no_program, begin_steal) has_ended
  | inr (core, is) ↦ elim (Option-cases core.process_id) [
    | inl no_process ↦ rw (is, begin_steal) (rw no_process has_ended)
    | inr (p, has) ↦
        rw (is, begin_steal) (rw has (process_Stole me s p (slot_at s.processes p) refl))
  ]
]
