-- ===== src/Scheduler/System/Local.antt =====
-- scene/src/scene_core.rs: a call changes one process and what is done with it.
use flo_scene.Common.{
  ℕ, Bool, true, false, not, Option, none, some, ◌≡◌, ◌≢◌, ◌⊎◌, inl, inr, sym, ◌∙◌, ◌==◌,
  Bool-cases, ap,
}
use native.Mathlib.Decide.{ℕ_discrete}
use flo_scene.Scene.Slots.Lists.{slot_at, skip_full}
use flo_scene.Scheduler.{SceneProcess, is_waiting, contains}
use flo_scene.Scheduler.Turned.{is_ready}
use flo_scene.Scheduler.System.{Activity, nothing, runs, steals, rewakes, System}

abbrev pub is_polled : Option SceneProcess → Bool
is_polled none = false
is_polled (some p) = not (is_waiting p.future)

abbrev pub holds : ℕ → Activity → Bool
holds p nothing = false
holds p (runs q f) = q == p
holds p (steals q f) = q == p
holds p (rewakes q) = false

abbrev pub is_rewaking : ℕ → Activity → Bool
is_rewaking p (rewakes q) = q == p
is_rewaking p _ = false

abbrev pub process_at : System → ℕ → Option SceneProcess
process_at s p = slot_at s.core.processes p

abbrev pub is_queued : System → ℕ → Bool
is_queued s p = contains p s.core.awake_processes

pub record IsSound (s : System) : Type 0 where
  pub next_is_first : s.core.next_process ≡ skip_full s.core.processes
  pub held_is_polled : (k p : ℕ) → holds p (s.doing k) ≡ true → is_polled (process_at s p) ≡ true
  pub polled_is_held :
      (p : ℕ) → is_polled (process_at s p) ≡ true → (k : ℕ) × (holds p (s.doing k) ≡ true)
  pub held_once : (k j p : ℕ) → holds p (s.doing k) ≡ true → holds p (s.doing j) ≡ true → k ≡ j
  pub ready_is_queued :
      (p : ℕ)
      → is_ready (process_at s p) ≡ true
      → (is_queued s p ≡ true) ⊎ ((k : ℕ) × (is_rewaking p (s.doing k) ≡ true))

-- Whether a process is polled, before and after a call, and whether an activity holds it, before and
-- after.
pub data Change (polled polled' held held' : Bool) : Type 0 where
  quiet : polled' ≡ polled → held' ≡ held → Change polled polled' held held'
  claimed : polled ≡ false → polled' ≡ true → held' ≡ true → Change polled polled' held held'
  released : held ≡ true → polled' ≡ false → held' ≡ false → Change polled polled' held held'

pub record IsLocal (s t : System) (p k : ℕ) : Type 0 where
  pub next_first : t.core.next_process ≡ skip_full t.core.processes
  pub others_same : (j : ℕ) → j ≢ p → process_at t j ≡ process_at s j
  pub others_queued : (j : ℕ) → j ≢ p → is_queued s j ≡ true → is_queued t j ≡ true
  pub doing_same : (i : ℕ) → i ≢ k → t.doing i ≡ s.doing i
  pub others_held : (j : ℕ) → j ≢ p → holds j (t.doing k) ≡ holds j (s.doing k)
  pub others_rewoken :
      (j : ℕ) → j ≢ p → is_rewaking j (s.doing k) ≡ true → is_rewaking j (t.doing k) ≡ true
  pub change :
      Change
        (is_polled (process_at s p))
        (is_polled (process_at t p))
        (holds p (s.doing k))
        (holds p (t.doing k))
  pub ready :
      is_ready (process_at t p) ≡ true → (is_queued t p ≡ true) ⊎ (is_rewaking p (t.doing k) ≡ true)

abbrev ChangesAt : System → System → ℕ → ℕ → Type 0
ChangesAt s t p k =
    Change (is_polled (process_at s p)) (is_polled (process_at t p)) (holds p (s.doing k))
      (holds p (t.doing k))

module _ (s t : System) (p k : ℕ) (v : IsSound s) (l : IsLocal s t p k) where
  -- Before a claim, nobody holds the process.
  unheld : (i : ℕ) → is_polled (process_at s p) ≡ false → holds p (s.doing i) ≡ false
  unheld i idle = elim (Bool-cases (holds p (s.doing i))) [
    | inl held ↦ absurd (cc (v.held_is_polled i p held))
    | inr free ↦ free
  ]

  holds_other : (i j : ℕ) → j ≢ p → holds j (t.doing i) ≡ holds j (s.doing i)
  holds_other i j other = elim (ℕ_discrete i k) [
    | yes same ↦ rw same (l.others_held j other)
    | no far ↦ ap (holds j) (l.doing_same i far)
  ]

  holds_far : (i : ℕ) → i ≢ k → holds p (t.doing i) ≡ holds p (s.doing i)
  holds_far i far = ap (holds p) (l.doing_same i far)

  holds_quiet :
      holds p (t.doing k) ≡ holds p (s.doing k)
      → (i : ℕ) → holds p (t.doing i) ≡ holds p (s.doing i)
  holds_quiet e i = elim (ℕ_discrete i k) [ yes same ↦ rw same e | no far ↦ holds_far i far ]

  -- Once released, the process is held by no activity.
  holds_released :
      holds p (s.doing k) ≡ true
      → holds p (t.doing k) ≡ false
      → (i : ℕ) → holds p (t.doing i) ≡ false
  holds_released held free i = elim (ℕ_discrete i k) [
    | yes same ↦ rw same free
    | no far ↦ elim (Bool-cases (holds p (s.doing i))) [
      | inl also ↦ absurd (far (v.held_once i k p also held))
      | inr not_held ↦ holds_far i far ∙ not_held
    ]
  ]

  -- Once claimed, it is held by activity `k` alone.
  holds_claimed : is_polled (process_at s p) ≡ false → (i : ℕ) → holds p (t.doing i) ≡ true → i ≡ k
  holds_claimed idle i h = elim (ℕ_discrete i k) [
    | yes same ↦ same
    | no far ↦ absurd (cc (unheld i idle, h, holds_far i far))
  ]

  here_polled :
      ChangesAt s t p k → (i : ℕ) → holds p (t.doing i) ≡ true → is_polled (process_at t p) ≡ true
  here_polled (quiet same e) i h = same ∙ v.held_is_polled i p (sym (holds_quiet e i) ∙ h)
  here_polled (claimed idle now held) i h = now
  here_polled (released held free gone) i h = absurd (cc (holds_released held gone i, h))

  here_held :
      ChangesAt s t p k → is_polled (process_at t p) ≡ true → (i : ℕ) × (holds p (t.doing i) ≡ true)
  here_held (quiet same e) polled =
      let (i, h) = v.polled_is_held p (sym same ∙ polled) in (i, holds_quiet e i ∙ h)
  here_held (claimed idle now held) polled = (k, held)
  here_held (released held free gone) polled = absurd (cc (free, polled))

  here_once :
      ChangesAt s t p k
      → (i j : ℕ) → holds p (t.doing i) ≡ true
      → holds p (t.doing j) ≡ true
      → i ≡ j
  here_once (quiet same e) i j hi hj =
      v.held_once i j p (sym (holds_quiet e i) ∙ hi) (sym (holds_quiet e j) ∙ hj)
  here_once (claimed idle now held) i j hi hj =
      holds_claimed idle i hi ∙ sym (holds_claimed idle j hj)
  here_once (released held free gone) i j hi hj = absurd (cc (holds_released held gone i, hi))

  rewoken_other :
      (i j : ℕ) → j ≢ p → is_rewaking j (s.doing i) ≡ true → is_rewaking j (t.doing i) ≡ true
  rewoken_other i j other h = elim (ℕ_discrete i k) [
    | yes same ↦ rw same (l.others_rewoken j other (rw same at h))
    | no far ↦ ap (is_rewaking j) (l.doing_same i far) ∙ h
  ]

  ready_other :
      (j : ℕ)
      → j ≢ p
      → (is_queued s j ≡ true) ⊎ ((i : ℕ) × (is_rewaking j (s.doing i) ≡ true))
      → (is_queued t j ≡ true) ⊎ ((i : ℕ) × (is_rewaking j (t.doing i) ≡ true))
  ready_other j other (inl queued) = inl (l.others_queued j other queued)
  ready_other j other (inr (i, h)) = inr (i, rewoken_other i j other h)

  ready_here :
      (is_queued t p ≡ true) ⊎ (is_rewaking p (t.doing k) ≡ true)
      → (is_queued t p ≡ true) ⊎ ((i : ℕ) × (is_rewaking p (t.doing i) ≡ true))
  ready_here (inl queued) = inl queued
  ready_here (inr h) = inr (k, h)

  pub IsLocal-IsSound : IsSound t
  IsLocal-IsSound = record {
    next_is_first = l.next_first;
    held_is_polled = λ i j h. elim (ℕ_discrete j p) [
      | yes same ↦ rw same (here_polled l.change i (rw same at h))
      | no other ↦
          ap is_polled (l.others_same j other)
          ∙ v.held_is_polled i j (sym (holds_other i j other) ∙ h)
    ];
    polled_is_held = λ j polled. elim (ℕ_discrete j p) [
      | yes same ↦ rw same (here_held l.change (rw same at polled))
      | no other ↦
          let (i, h) = v.polled_is_held j (sym (ap is_polled (l.others_same j other)) ∙ polled) in
          (i, holds_other i j other ∙ h)
    ];
    held_once = λ i i' j h h'. elim (ℕ_discrete j p) [
      | yes same ↦ here_once l.change i i' (rw same at h) (rw same at h')
      | no other ↦
          v.held_once i i' j (sym (holds_other i j other) ∙ h) (sym (holds_other i' j other) ∙ h')
    ];
    ready_is_queued = λ j waits. elim (ℕ_discrete j p) [
      | yes same ↦ rw same (ready_here (l.ready (rw same at waits)))
      | no other ↦
          ready_other j other
            (v.ready_is_queued j (sym (ap is_ready (l.others_same j other)) ∙ waits))
    ];
  }
