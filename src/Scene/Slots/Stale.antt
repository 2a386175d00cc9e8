-- ===== src/Scene/Slots/Stale.antt =====
-- scene/src/scene_core.rs: looking programs up by their identifiers.
use flo_scene.Common.{ℕ, ◌<◌, false, List, Option, none, some, ◌≡◌, ◌≢◌, refl, ◌∙◌, ap, arith}
use flo_scene.Common.Table.{lookup, lookup-insert}
use flo_scene.SubProgram.{id_eq}
use flo_scene.Scene.Types.{id_key}
use flo_scene.Scene.Slots.Lists.{
  skip_full, slot_at, slot_at-placed_self, slot_at-placed_ne, slot_at-skip_full, skip_full-clear,
  slot_at-lt, slot_at-slots_map,
}
use flo_scene.Scene.Slots.Invariant.{
  input_of, IsTidy, starts, ends, Reach, next, Reach-IsTidy, started, started_slots,
}
use flo_scene.Scene.Slots.{
  SubProgramCore, Slots, is_started, start_subprogram, end_subprogram, get_sub_program,
  get_input_stream_core,
}

-- Where an index leads to a running program, all look-ups do.
index_leads :
    (t : Slots) (c d : SubProgramCore) (h : ℕ)
    → IsTidy t
    → lookup id_key c.id t.program_indexes ≡ some h
    → slot_at t.sub_programs h ≡ some d
    → (get_sub_program c.id t ≡ some d)
      × (get_input_stream_core c.id t ≡ some (d.input_stream_id, d.id))
      × (start_subprogram c t ≡ none)
unfolding get_sub_program get_input_stream_core start_subprogram is_started
index_leads t c d h v index at =
    ground (arith, v.inputs_match, slot_at-slots_map input_of t.sub_programs h)

occupied_ne :
    (xs : List (Option SubProgramCore)) (h : ℕ) {c : SubProgramCore}
    → slot_at xs h ≡ some c
    → h ≢ skip_full xs
occupied_ne xs h at same = cc (ap (slot_at xs) same, slot_at-skip_full xs)

-- In every state that a scene gets to by starting and ending programs, a running program is found
-- by its identifier, with its own input, and a second copy of it is refused.
pub running_is_found :
    {s : Slots} (h : ℕ) (c : SubProgramCore)
    → Reach s
    → slot_at s.sub_programs h ≡ some c
    → (get_sub_program c.id s ≡ some c)
      × (get_input_stream_core c.id s ≡ some (c.input_stream_id, c.id))
      × (start_subprogram c s ≡ none)
running_is_found {s} h c r at =
    let v = Reach-IsTidy r in index_leads s c c h v (v.indexed h c at) at

-- A program that starts gets the first free slot, under its identifier; every other running program
-- keeps its slot.
pub start_subprogram_lem :
    {s t : Slots} (c d : SubProgramCore) (h : ℕ)
    → Reach s
    → start_subprogram c s ≡ some t
    → slot_at s.sub_programs h ≡ some d
    → (get_sub_program c.id t ≡ some c)
      × (slot_at t.sub_programs (skip_full s.sub_programs) ≡ some c)
      × (get_sub_program d.id t ≡ some d)
      × (slot_at t.sub_programs h ≡ some d)
start_subprogram_lem {s} {t} c d h r e at =
    let t_is = started_slots c s t (Reach-IsTidy r) e in
    let ne : h ≢ skip_full s.sub_programs = occupied_ne s.sub_programs h at in
    let new : slot_at t.sub_programs (skip_full s.sub_programs) ≡ some c =
      rw t_is (slot_at-placed_self s.sub_programs c) in
    let old : slot_at t.sub_programs h ≡ some d =
      rw t_is (slot_at-placed_ne s.sub_programs c h ne ∙ at) in
    let r' : Reach t = next r (starts c e) in
    ((running_is_found _ c r' new).0, new, (running_is_found h d r' old).0, old)

reused :
    {s t : Slots} (c d : SubProgramCore) (h : ℕ)
    → IsTidy s
    → slot_at s.sub_programs h ≡ some c
    → h < s.next_subprogram
    → id_eq d.id c.id ≡ false
    → t ≡ started d (end_subprogram h s)
    → (slot_at t.sub_programs h ≡ some d) × (lookup id_key c.id t.program_indexes ≡ some h)
unfolding end_subprogram
reused {s} {t} c d h v at low differ t_is =
    let cleared = skip_full-clear s.sub_programs h (slot_at-lt s.sub_programs h at) in
    let first : skip_full (end_subprogram h s).sub_programs ≡ h =
      omega (arith, cleared, v.next_is_first) in
    (
      ground (arith, t_is, first, slot_at-placed_self (end_subprogram h s).sub_programs d),
      ground
          (arith, t_is, first, lookup-insert id_key d.id c.id h s.program_indexes, v.indexed h c),
    )

-- The index of a program that is over is not forgotten. Once another program starts in its slot,
-- the old identifier leads to the new program and to its input, and the old program cannot start
-- again while the new one runs, though it does not run.
pub stale_index :
    {s t : Slots} (c d : SubProgramCore) (h : ℕ)
    → Reach s
    → slot_at s.sub_programs h ≡ some c
    → h < s.next_subprogram
    → id_eq d.id c.id ≡ false
    → start_subprogram d (end_subprogram h s) ≡ some t
    → (get_sub_program c.id t ≡ some d)
      × (get_input_stream_core c.id t ≡ some (d.input_stream_id, d.id))
      × (start_subprogram c t ≡ none)
stale_index {s} {t} c d h r at low differ e =
    let v = Reach-IsTidy r in
    let r₁ : Reach (end_subprogram h s) = next r (ends h c at refl) in
    let r₂ : Reach t = next r₁ (starts d e) in
    let (slot, index) = reused c d h v at low differ (started_slots d _ t (Reach-IsTidy r₁) e) in
    index_leads t c d h (Reach-IsTidy r₂) index slot
