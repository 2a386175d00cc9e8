-- ===== src/Outputs.antt =====
-- scene/src/subprogram_core.rs and scene/src/scene_context.rs: the output sinks of a program, which its
-- streams share.
pub mod Shared
pub mod Reuse
pub mod Run
pub mod Panics
pub mod Tasks
use flo_scene.Common.{
  ℕ, ◌+◌, ◌%◌, Bool, true, false, not, ◌||◌, List, [], ◌∷◌, ◌++◌, map, Option, none, some, ◌⊎◌, inl,
  inr, ltb, ◌==◌, if◌then◌else◌, length, get_elem?,
}
use flo_scene.Common.Table.{lookup, insert, remove}
use flo_scene.SubProgram.{SubProgramId, with_command_id}
use flo_scene.Scene.Types.{
  StreamTarget, StreamId, TypeId, stream_key, with_message_type, for_program, Result, ok, err,
}
use flo_scene.Scene.Filters.{FilterRegistry, target_stream_id}
use flo_scene.Scene.Routing.{SceneCore}
use flo_scene.Scene.Routing.Sinks.{OutputSinkTarget, sink_for_target}

-- An `OutputSinkCore` with its type of messages. What is behind an `Arc` is known by its place in the
-- list of all the cores that were made.
pub record SinkCore : Type 0 where
  pub message_type : TypeId
  pub target : OutputSinkTarget

-- The part of a `SubProgramCore` that has to do with outputs and tasks, all the cores of its sinks, and
-- for each `Arc` of one that is not in the table, the core that it leads to.
pub record ProgramOutputs : Type 0 where
  pub id : SubProgramId
  pub outputs : List (StreamId × ℕ)
  pub output_high_water : ℕ
  pub next_command_sequence : ℕ
  pub cores : List SinkCore
  pub held : List ℕ

unfoldable pub is_held : ℕ → List ℕ → Bool
is_held h [] = false
is_held h (k ∷ ks) = k == h || is_held h ks

-- `downcast` of a core to that of a type of messages.
abbrev pub has_type : TypeId → Option SinkCore → Bool
has_type t none = false
has_type t (some c) = c.message_type == t

abbrev pub downcast_core : TypeId → ℕ → ProgramOutputs → Option ℕ
downcast_core t h p = if has_type t (get_elem? p.cores h) then some h else none

abbrev pub found_core : TypeId → ProgramOutputs → Option ℕ → Option ℕ
found_core t p none = none
found_core t p (some h) = downcast_core t h p

unfoldable pub output_core : TypeId → StreamId → ProgramOutputs → Option ℕ
unfolding lookup
output_core t id p = found_core t p (lookup stream_key id p.outputs)

-- An `Arc` that is made, and one that is dropped.
unfoldable pub hold : ℕ → ProgramOutputs → ProgramOutputs
hold h p = record p { held = h ∷ p.held }

unfoldable pub drop_one : ℕ → List ℕ → List ℕ
drop_one h [] = []
drop_one h (k ∷ ks) = let rest = drop_one h ks in if k == h then ks else k ∷ rest

unfoldable pub let_go : ℕ → ProgramOutputs → ProgramOutputs
unfolding drop_one
let_go h p = record p { held = drop_one h p.held }

abbrev pub add_core : TypeId → StreamId → OutputSinkTarget → ProgramOutputs → ProgramOutputs
add_core t id target p = record p {
  outputs = insert stream_key id (length p.cores) p.outputs;
  cores = p.cores ++ record { message_type = t; target = target } ∷ [];
  held = length p.cores ∷ p.held;
}

-- The `Ok` of a new core and the `Err` of one that was there, with the `Arc` that is returned; `none` is
-- the panic of `unwrap`, where the core that was there is of another type.
abbrev pub existing : Option ℕ → ProgramOutputs → Option ((ℕ ⊎ ℕ) × ProgramOutputs)
existing none p = none
existing (some h) p = some (inr h, record p { held = h ∷ p.held })

unfoldable pub try_create_output_target :
    TypeId → StreamId → OutputSinkTarget → ProgramOutputs → Option ((ℕ ⊎ ℕ) × ProgramOutputs)
unfolding lookup insert
try_create_output_target t id target p = elim (lookup stream_key id p.outputs) [
  | some h ↦ existing (downcast_core t h p) p
  | none ↦ some (inl (length p.cores), add_core t id target p)
]

-- The loop of `release_all_unused_output_sinks` over the keys: the cores that are taken out, and the
-- table. A core has one `Arc` in the table, and no other if none is held.
abbrev pub release_unless :
    Option ℕ → List ℕ → StreamId → List ℕ × List (StreamId × ℕ) → List ℕ × List (StreamId × ℕ)
release_unless none held id (unused, outputs) = (unused, outputs)
release_unless (some h) held id (unused, outputs) =
    if is_held h held then (unused, outputs) else (unused ++ h ∷ [], remove stream_key id outputs)

unfoldable pub release_loop :
    List ℕ → List StreamId → List ℕ × List (StreamId × ℕ) → List ℕ × List (StreamId × ℕ)
unfolding is_held lookup remove
release_loop held [] r = r
release_loop held (id ∷ ids) r =
    release_loop held ids (release_unless (lookup stream_key id r.1) held id r)

unfoldable pub release_all_unused_output_sinks : ProgramOutputs → List ℕ × ProgramOutputs
unfolding release_loop
release_all_unused_output_sinks p =
    let (unused, outputs) = release_loop p.held (map (λ e. e.0) p.outputs) ([], p.outputs) in
    (unused, record p { outputs = outputs; output_high_water = length outputs })

unfoldable pub release_stale_output_sinks : ProgramOutputs → List ℕ × ProgramOutputs
unfolding release_all_unused_output_sinks
release_stale_output_sinks p =
    if ltb (p.output_high_water + 10) (length p.outputs)
    then release_all_unused_output_sinks p
    else ([], p)

-- The counter is a `usize`.
unfoldable pub new_task_id : ProgramOutputs → SubProgramId × ProgramOutputs
new_task_id p = (
  with_command_id p.id p.next_command_sequence,
  record p { next_command_sequence = (p.next_command_sequence + 1) % 18446744073709551616 },
)

-- The `match` of `SceneContext::send` on the core that was made, or was there.
abbrev pub attached : Option ((ℕ ⊎ ℕ) × ProgramOutputs) → Option (Result ℕ × ProgramOutputs)
attached none = none
attached (some (inl h, p)) = some (ok h, (release_stale_output_sinks p).1)
attached (some (inr h, p)) = some (ok h, p)

abbrev pub created :
    TypeId
    → StreamId
    → Result OutputSinkTarget
    → ProgramOutputs
    → Option (Result ℕ × ProgramOutputs)
created t id (err e) p = some (err e, p)
created t id (ok target) p = attached (try_create_output_target t id target p)

-- `SceneContext::send`, for a scene and a program that are alive: the core of the sink, which has an
-- `Arc` of it. The update that tells the scene's subscribers of a new connection is left out.
module _ (filters : FilterRegistry) (defaults : TypeId → Option StreamTarget) where
  abbrev pub stream_for : TypeId → StreamTarget → Result StreamId
  stream_for t StreamTarget.none = ok (with_message_type t)
  stream_for t StreamTarget.any = ok (with_message_type t)
  stream_for t (StreamTarget.program q) = ok (for_program (with_message_type t) q)
  stream_for t (StreamTarget.filtered f q) = target_stream_id f q filters

  abbrev pub send_on :
      SceneCore
      → TypeId
      → StreamTarget
      → Result StreamId
      → ProgramOutputs
      → Option (Result ℕ × ProgramOutputs)
  send_on core t target (err e) p = some (err e, p)
  send_on core t target (ok id) p = elim (output_core t id p) [
    | some h ↦ some (ok h, hold h p)
    | none ↦ created t id (sink_for_target filters defaults t p.id target core) p
  ]

  unfoldable pub send :
      SceneCore → TypeId → StreamTarget → ProgramOutputs → Option (Result ℕ × ProgramOutputs)
  unfolding target_stream_id output_core hold try_create_output_target release_stale_output_sinks
      sink_for_target
  send core t target p = send_on core t target (stream_for t target) p
