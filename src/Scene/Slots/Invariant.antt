-- ===== src/Scene/Slots/Invariant.antt =====
-- scene/src/scene_core.rs: the slots stay in order, whatever programs start and end.
use flo_scene.Common.{ℕ, false, some, ◌≡◌, refl, sym, ◌∙◌, arith, inl, inr, Bool-cases}
use native.Mathlib.Decide.{ℕ_discrete}
use flo_scene.Common.Table.{lookup, insert, lookup-insert}
use flo_scene.SubProgram.{SubProgramId, id_eq_iff}
use flo_scene.Scene.Types.{StreamId, id_key}
use flo_scene.Scene.Slots.Lists.{
  slots_map, skip_full-slots_map, placed-slots_map, clear-slots_map, slot_at-lt, skip_full, slot_at,
  placed, slot_at-placed_self, slot_at-placed_ne, skip_full-placed, slot_at-clear,
  slot_at-clear_self, skip_full-clear,
}
use flo_scene.Scene.Slots.{
  SubProgramCore, Slots, empty, is_started, start_subprogram, end_subprogram,
}

abbrev pub input_of : SubProgramCore → StreamId × SubProgramId
input_of c = (c.input_stream_id, c.id)

abbrev pub Indexed : Slots → Type 0
Indexed s =
    (h : ℕ) (c : SubProgramCore)
    → slot_at s.sub_programs h ≡ some c
    → lookup id_key c.id s.program_indexes ≡ some h

-- `next_subprogram` is the first free slot, the inputs are those of the programs, slot by
-- slot, and a running program is found by its index.
pub record IsTidy (s : Slots) : Type 0 where
  pub next_is_first : s.next_subprogram ≡ skip_full s.sub_programs
  pub inputs_match : s.sub_program_inputs ≡ slots_map input_of s.sub_programs
  pub indexed : Indexed s

-- A program starts, or the program in slot `h` ends.
pub data Step (s t : Slots) : Type 0 where
  starts : (c : SubProgramCore) → start_subprogram c s ≡ some t → Step s t
  ends :
      (h : ℕ) (c : SubProgramCore)
      → slot_at s.sub_programs h ≡ some c
      → t ≡ end_subprogram h s
      → Step s t

pub data Reach : Slots → Type 0 where
  here : Reach empty
  next : {s t : Slots} → Reach s → Step s t → Reach t

-- The slots once `c` is in the first free one.
abbrev pub started : SubProgramCore → Slots → Slots
started c s = record {
  sub_programs = placed s.sub_programs c;
  sub_program_inputs = slots_map input_of (placed s.sub_programs c);
  next_subprogram = skip_full (placed s.sub_programs c);
  program_indexes = insert id_key c.id (skip_full s.sub_programs) s.program_indexes;
}

module _ (c : SubProgramCore) (s t : Slots) (v : IsTidy s) (e : start_subprogram c s ≡ some t) where
  pub not_started : is_started c.id s ≡ false
  unfolding start_subprogram
  not_started = elim (Bool-cases (is_started c.id s)) [
    | inl yet ↦ absurd (cc (rw (yet, start_subprogram) at e))
    | inr not_yet ↦ not_yet
  ]

  pub started_slots : t ≡ started c s
  unfolding start_subprogram
  started_slots = ground (
    arith,
    not_started,
    v.next_is_first,
    v.inputs_match,
    skip_full-slots_map input_of s.sub_programs,
    placed-slots_map input_of s.sub_programs c,
    skip_full-placed s.sub_programs c,
  )

  start_index :
      (h : ℕ) (d : SubProgramCore)
      → slot_at (placed s.sub_programs c) h ≡ some d
      → lookup id_key d.id (insert id_key c.id (skip_full s.sub_programs) s.program_indexes)
        ≡ some h
  unfolding is_started
  start_index h d at = elim (ℕ_discrete h (skip_full s.sub_programs)) [
    | yes same ↦ ground (
      arith,
      slot_at-placed_self s.sub_programs c,
      lookup-insert id_key c.id d.id (skip_full s.sub_programs) s.program_indexes,
      id_eq_iff c.id d.id,
    )
    | no other ↦ ground (
      arith,
      slot_at-placed_ne s.sub_programs c h other,
      v.indexed h d,
      not_started,
      lookup-insert id_key c.id d.id (skip_full s.sub_programs) s.program_indexes,
      id_eq_iff c.id d.id,
    )
  ]

  pub start-IsTidy : IsTidy t
  start-IsTidy =
      rw started_slots (record { next_is_first = refl; inputs_match = refl; indexed = start_index })

end-IsTidy :
    (s : Slots) (h : ℕ) (c : SubProgramCore)
    → IsTidy s
    → slot_at s.sub_programs h ≡ some c
    → IsTidy (end_subprogram h s)
unfolding end_subprogram
end-IsTidy s h c v at = record {
  next_is_first =
      rw v.next_is_first (sym (skip_full-clear s.sub_programs h (slot_at-lt s.sub_programs h at)));
  inputs_match = rw v.inputs_match (clear-slots_map input_of s.sub_programs h);
  indexed = λ j d is. elim (ℕ_discrete j h) [
    | yes same ↦ ground (arith, slot_at-clear_self s.sub_programs h)
    | no other ↦ v.indexed j d (sym (slot_at-clear s.sub_programs h j other) ∙ is)
  ];
}

pub Step-IsTidy : {s t : Slots} → Step s t → IsTidy s → IsTidy t
Step-IsTidy {s} {t} (starts c e) v = start-IsTidy c s t v e
Step-IsTidy {s} (ends h c at e) v = rw e (end-IsTidy s h c v at)

-- In every state that a scene gets to by starting programs and ending them, `next_subprogram` is
-- the first free slot, the inputs are those of the running programs, slot by slot, and the index of
-- every running program is its slot.
pub Reach-IsTidy : {s : Slots} → Reach s → IsTidy s
Reach-IsTidy here =
    unfold empty in record { next_is_first = refl; inputs_match = refl; indexed = λ h c e. cc }
Reach-IsTidy (next r st) = Step-IsTidy st (Reach-IsTidy r)
