-- ===== src/Outputs/Tasks.antt =====
-- scene/src/subprogram_core.rs: the identifiers of tasks.
use flo_scene.Common.{
  ℕ, zero, suc, ◌+◌, ◌%◌, ◌≤◌, ◌<◌, Bool-cases, false, List, [], ◌∷◌, inl, inr, ◌≡◌, arith,
}
use flo_scene.SubProgram.{SubProgramId, id_eq, with_command_id, with_command_id_lem}
use flo_scene.Outputs.{ProgramOutputs, new_task_id}

-- The identifiers of the next tasks of a program.
unfoldable pub tasks : ℕ → ProgramOutputs → List SubProgramId
unfolding new_task_id
tasks zero p = []
tasks (suc n) p = let (first, q) = new_task_id p in first ∷ tasks n q

-- None of them is `a`.
abbrev pub Differ : SubProgramId → List SubProgramId → Type 0
Differ a [] = Unit {0}
Differ a (b ∷ bs) = (id_eq a b ≡ false) × Differ a bs

abbrev pub AllDiffer : List SubProgramId → Type 0
AllDiffer [] = Unit {0}
AllDiffer (a ∷ bs) = Differ a bs × AllDiffer bs

-- The largest `usize`, and one more.
abbrev pub usize_size : ℕ
usize_size = 18446744073709551616

no_wrap : (s n : ℕ) → s + suc (suc n) ≤ usize_size → (s + 1) % usize_size ≡ s + 1
no_wrap s n fits = omega (arith, fits)

other_task :
    (s : ℕ) (a : SubProgramId) (p : ProgramOutputs)
    → s < p.next_command_sequence
    → id_eq (with_command_id a s) (new_task_id p).0 ≡ false
unfolding new_task_id
other_task s a p lt =
    elim (Bool-cases (id_eq (with_command_id a s) (with_command_id p.id p.next_command_sequence))) [
      | inl same ↦
          absurd
            (omega (arith, ((with_command_id_lem a p.id s p.next_command_sequence).2.0 same).1))
      | inr other ↦ other
    ]

later_tasks :
    (n s : ℕ) (a : SubProgramId) (p : ProgramOutputs)
    → s < p.next_command_sequence
    → p.next_command_sequence + n ≤ usize_size
    → Differ (with_command_id a s) (tasks n p)
unfolding tasks new_task_id
later_tasks zero s a p lt fits = tt
later_tasks (suc zero) s a p lt fits = (other_task s a p lt, tt)
later_tasks (suc (suc m)) s a p lt fits = (
  other_task s a p lt,
  later_tasks (suc m) s a (new_task_id p).1
      (omega (arith, lt, no_wrap p.next_command_sequence m fits))
      (omega (arith, no_wrap p.next_command_sequence m fits)),
)

-- The tasks that a program launches have identifiers that are all different, until the counter of its
-- tasks, which is a `usize`, wraps around.
pub tasks-AllDiffer :
    (n : ℕ) (p : ProgramOutputs) → p.next_command_sequence + n ≤ usize_size → AllDiffer (tasks n p)
unfolding tasks new_task_id
tasks-AllDiffer zero p fits = tt
tasks-AllDiffer (suc zero) p fits = (tt, tt)
tasks-AllDiffer (suc (suc m)) p fits = (
  later_tasks (suc m) p.next_command_sequence p.id (new_task_id p).1
      (omega (arith, no_wrap p.next_command_sequence m fits))
      (omega (arith, no_wrap p.next_command_sequence m fits)),
  tasks-AllDiffer (suc m) (new_task_id p).1 (omega (arith, no_wrap p.next_command_sequence m fits)),
)
