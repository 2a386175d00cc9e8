-- ===== src/Scene/Slots.antt =====
-- scene/src/scene_core.rs, the parts of `start_subprogram` and of `start_process` that hand out
-- slots, the end of a program, and the look-ups through `program_indexes`.
pub mod Lists
pub mod Invariant
pub mod Stale
use flo_scene.Common.{
  ℕ, suc, ◌+◌, Bool, true, false, List, [], ◌∷◌, ◌++◌, Option, none, some, get_elem?, length, min,
  if◌then◌else◌, drop,
}
use flo_scene.Common.Table.{lookup, insert}
use flo_scene.SubProgram.{SubProgramId}
use flo_scene.Scene.Types.{StreamId, TypeId, id_key, with_message_type}
use Lists.{set, grow, skip_full, is_full, slot_at}

-- `SubProgramCore`, as far as connections are made by it. `outputs` is its table of output sinks, of
-- which the type of messages of each sink's core is kept.
pub record SubProgramCore : Type 0 where
  pub id : SubProgramId
  pub input_stream_id : StreamId
  pub process_id : Option ℕ
  pub outputs : List (StreamId × TypeId)

pub record Slots : Type 0 where
  pub sub_programs : List (Option SubProgramCore)
  pub sub_program_inputs : List (Option (StreamId × SubProgramId))
  pub next_subprogram : ℕ
  pub program_indexes : List (SubProgramId × ℕ)

unfoldable pub empty : Slots
empty = record {
  sub_programs = [];
  sub_program_inputs = [];
  next_subprogram = 0;
  program_indexes = [];
}

-- The test at the head of `start_subprogram`.
unfoldable pub is_started : SubProgramId → Slots → Bool
is_started p s = elim (lookup id_key p s.program_indexes) [
  | none ↦ false
  | some h ↦ is_full (slot_at s.sub_programs h)
]

-- The `while` over `next_subprogram` at the end: the first slot from here on that is free.
unfoldable pub advance : List (Option SubProgramCore) → ℕ → ℕ
advance slots next = next + skip_full (drop next slots)

-- What `start_subprogram` does to the slots; `none` is its panic. The handle is `next_subprogram`.
unfoldable pub start_subprogram : SubProgramCore → Slots → Option Slots
unfolding advance
start_subprogram core s =
    if is_started core.id s
    then none
    else let handle = s.next_subprogram in
      let programs = set (grow handle s.sub_programs) handle (some core) in
      let inputs =
        set (grow handle s.sub_program_inputs) handle (some (core.input_stream_id, core.id)) in
      some (record {
        sub_programs = programs;
        sub_program_inputs = inputs;
        next_subprogram = advance programs handle;
        program_indexes = insert id_key core.id handle s.program_indexes;
      })

-- What the process of a program does when the program is over: `program_indexes` is left alone.
unfoldable pub end_subprogram : ℕ → Slots → Slots
end_subprogram handle s = record s {
  sub_programs = set s.sub_programs handle none;
  sub_program_inputs = set s.sub_program_inputs handle none;
  next_subprogram = min s.next_subprogram handle;
}

unfoldable pub get_sub_program : SubProgramId → Slots → Option SubProgramCore
get_sub_program p s = elim (lookup id_key p s.program_indexes) [
  | none ↦ none
  | some h ↦ slot_at s.sub_programs h
]

unfoldable pub get_input_stream_core : SubProgramId → Slots → Option (StreamId × SubProgramId)
get_input_stream_core p s = elim (lookup id_key p s.program_indexes) [
  | none ↦ none
  | some h ↦ slot_at s.sub_program_inputs h
]
