-- ===== src/Scheduler/Idle.antt =====
-- scene/src/scene_core.rs: `notify_on_next_idle` and `check_if_idle`, one function for each time that
-- they hold the lock of the scene. A notifier is a number, and what its channel answers is a parameter.
pub mod Notices
use flo_scene.Common.{
  ℕ, ◌+◌, Bool, true, false, not, ◌&&◌, List, [], ◌∷◌, ◌++◌, Option, none, some, ◌==◌,
  if◌then◌else◌,
}
use flo_scene.Input.Core.{InputStreamCore, is_idle}
use flo_scene.Scheduler.{SceneProcess, is_waiting}

pub record Idle : Type 0 where
  pub notify_when_idle : Bool
  pub idle_count : ℕ
  pub when_idle : List (Option ℕ)

-- What `try_send` answers.
pub data SendAnswer : Type 0 where
  is_sent is_disconnected is_full : SendAnswer

unfoldable pub send_idle_notifications_to : ℕ → Idle → Idle
send_idle_notifications_to notifier i = record i { when_idle = i.when_idle ++ some notifier ∷ [] }

-- With the idle count that it returns.
unfoldable pub notify_on_next_idle : Idle → Idle × ℕ
notify_on_next_idle i =
    (record i { notify_when_idle = true; idle_count = i.idle_count + 1 }, i.idle_count)

-- The start of `check_if_idle`, with the count of this check; `none` if no notice is asked for.
unfoldable pub begin_check : Idle → Option (Idle × ℕ)
begin_check i =
    if not i.notify_when_idle
    then none
    else some (record i { idle_count = i.idle_count + 1 }, i.idle_count + 1)

abbrev pub all_inputs_idle {ℓ} : {M : Type ℓ} → List (Option (InputStreamCore M)) → Bool
all_inputs_idle [] = true
all_inputs_idle (none ∷ cs) = all_inputs_idle cs
all_inputs_idle (some c ∷ cs) = is_idle c && all_inputs_idle cs

abbrev pub all_processes_idle : List (Option SceneProcess) → Bool
all_processes_idle [] = true
all_processes_idle (none ∷ ps) = all_processes_idle ps
all_processes_idle (some p ∷ ps) = not p.is_awake && is_waiting p.future && all_processes_idle ps

-- The check with this count takes the notice; `none` if it is not its to take.
unfoldable pub claim_notice : ℕ → Idle → Option Idle
claim_notice count i =
    if not (i.idle_count == count)
    then none
    else if not i.notify_when_idle
    then none
    else some (record i { notify_when_idle = false })

-- The loop that sends the notices: the notifiers that are left.
abbrev pub after_answer : ℕ → SendAnswer → Option ℕ
after_answer notifier is_disconnected = none
after_answer notifier _ = some notifier

unfoldable pub send_notices : (ℕ → SendAnswer) → List (Option ℕ) → List (Option ℕ)
send_notices answer [] = []
send_notices answer (none ∷ ns) = none ∷ send_notices answer ns
send_notices answer (some n ∷ ns) = after_answer n (answer n) ∷ send_notices answer ns

-- The loop that takes out the notifiers that are gone; the list may have grown since.
unfoldable pub remove_notifiers : List (Option ℕ) → List (Option ℕ) → List (Option ℕ)
remove_notifiers [] now = now
remove_notifiers (l ∷ left) [] = []
remove_notifiers (none ∷ left) (n ∷ now) = none ∷ remove_notifiers left now
remove_notifiers (some l ∷ left) (n ∷ now) = n ∷ remove_notifiers left now

unfoldable pub finish_notice : (ℕ → SendAnswer) → Idle → Idle
unfolding send_notices remove_notifiers
finish_notice answer i = record i {
  when_idle = remove_notifiers (send_notices answer i.when_idle) i.when_idle;
}

-- `check_if_idle` where no other call comes between: its answer, and what it leaves.
unfoldable pub check_if_idle {ℓ} :
    {M : Type ℓ}
    → (ℕ → SendAnswer)
    → List (Option (InputStreamCore M))
    → List (Option SceneProcess)
    → Idle
    → Bool × Idle
unfolding begin_check claim_notice finish_notice
check_if_idle answer inputs processes i = elim (begin_check i) [
  | none ↦ (false, i)
  | some (j, count) ↦
      if all_inputs_idle inputs && all_processes_idle processes
      then elim (claim_notice count j) [
        | none ↦ (false, j)
        | some k ↦ (true, finish_notice answer k)
      ]
      else (false, j)
]
