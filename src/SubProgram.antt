-- ===== src/SubProgram.antt =====
-- scene/src/subprogram_id.rs: the identifiers of programs and of the tasks that they launch.
use flo_scene.Common.{ℕ, ◌≡◌, ◌↔◌, Bool, true, false, ◌&&◌, Option, none, some, arith, ◌==◌}

-- A name is the index that `id_for_name` allocates, and a GUID is its 128-bit value.
pub data SubProgramId : Type 0 where
  named : ℕ → SubProgramId
  guid : ℕ → SubProgramId
  named_task : ℕ → ℕ → SubProgramId
  guid_task : ℕ → ℕ → SubProgramId

-- The derived `PartialEq`.
unfoldable pub id_eq : SubProgramId → SubProgramId → Bool
id_eq (named a) (named b) = a == b
id_eq (guid a) (guid b) = a == b
id_eq (named_task a i) (named_task b j) = a == b && i == j
id_eq (guid_task a i) (guid_task b j) = a == b && i == j
id_eq _ _ = false

pub id_eq_iff : (a b : SubProgramId) → (id_eq a b ≡ true) ↔ (a ≡ b)
unfolding id_eq
id_eq_iff (named a) (named b) = ground arith
id_eq_iff _ _ = ground arith

unfoldable pub with_command_id : SubProgramId → ℕ → SubProgramId
with_command_id (named n) s = named_task n s
with_command_id (named_task n _) s = named_task n s
with_command_id (guid g) s = guid_task g s
with_command_id (guid_task g _) s = guid_task g s

unfoldable pub is_subtask : SubProgramId → Bool
is_subtask (named _) = false
is_subtask (guid _) = false
is_subtask (named_task _ _) = true
is_subtask (guid_task _ _) = true

unfoldable pub parent_subprogram : SubProgramId → Option SubProgramId
parent_subprogram (named _) = none
parent_subprogram (guid _) = none
parent_subprogram (named_task p _) = some (named p)
parent_subprogram (guid_task p _) = some (guid p)

-- The program at the root of an identifier.
abbrev pub owner : SubProgramId → SubProgramId
owner (named n) = named n
owner (named_task n _) = named n
owner (guid g) = guid g
owner (guid_task g _) = guid g

-- A task is a subtask of the program that launched it (of that program's owner, where a task
-- launched it), and two tasks have one identifier only if they have one owner and one sequence
-- number.
pub with_command_id_lem :
    (a b : SubProgramId) (s t : ℕ)
    → (is_subtask (with_command_id a s) ≡ true)
      × (parent_subprogram (with_command_id a s) ≡ some (owner a))
      × ((id_eq (with_command_id a s) (with_command_id b t) ≡ true)
          ↔ ((owner a ≡ owner b) × (s ≡ t)))
unfolding with_command_id is_subtask parent_subprogram id_eq
with_command_id_lem (named n) (named m) s t = ground arith
with_command_id_lem _ _ s t = ground arith
