-- ===== src/Outputs/Shared.antt =====
-- scene/src/subprogram_core.rs and scene/src/scene_context.rs: the streams of a program that have one
-- target share one core.
use flo_scene.Common.{
  ℕ, ◌+◌, Bool, Bool-cases, true, false, ◌||◌, List, [], ◌∷◌, map, Option, none, some, inl, inr,
  ◌≡◌, refl, ◌∙◌, ap, subst, arith, ltb, if◌then◌else◌, length, get_elem?,
}
use flo_scene.Common.Table.{lookup, lookup-remove}
use flo_scene.Scene.Types.{StreamId, TypeId, stream_key, stream_id_beq, stream_id_beq_iff}
use flo_scene.Outputs.{
  ProgramOutputs, is_held, has_type, release_unless, release_loop, release_all_unused_output_sinks,
  release_stale_output_sinks,
}

-- The stream has this core, which is of this type, and something holds it.
pub record Shares (t : TypeId) (id : StreamId) (h : ℕ) (p : ProgramOutputs) : Type 0 where
  pub entry : lookup stream_key id p.outputs ≡ some h
  pub typed : has_type t (get_elem? p.cores h) ≡ true
  pub held : is_held h p.held ≡ true

module _ (held : List ℕ) (id : StreamId) where
  -- What a release leaves of an entry.
  abbrev pub kept : Option ℕ → Option ℕ
  kept none = none
  kept (some h) = if is_held h held then some h else none

  kept_twice : (o : Option ℕ) → kept (kept o) ≡ kept o
  kept_twice none = refl
  kept_twice (some h) = ground arith

  release_unless-lookup :
      (j : StreamId) (o : Option ℕ) (r : List ℕ × List (StreamId × ℕ))
      → lookup stream_key j r.1 ≡ o
      → lookup stream_key id (release_unless o held j r).1
        ≡ (if stream_id_beq j id then kept (lookup stream_key id r.1) else lookup stream_key id r.1)
  release_unless-lookup j none (unused, outputs) is = elim (Bool-cases (stream_id_beq j id)) [
    | inl same ↦
        let here : lookup stream_key id outputs ≡ none =
          subst (λ x. lookup stream_key x outputs ≡ none) ((stream_id_beq_iff j id).0 same) is in
        rw (same, here) refl
    | inr other ↦ rw other refl
  ]
  release_unless-lookup j (some h) (unused, outputs) is = elim (Bool-cases (is_held h held)) [
    | inl in_use ↦ elim (Bool-cases (stream_id_beq j id)) [
      | inl same ↦
          let here : lookup stream_key id outputs ≡ some h =
            subst (λ x. lookup stream_key x outputs ≡ some h) ((stream_id_beq_iff j id).0 same)
              is in
          rw (in_use, same, here) (rw in_use refl)
      | inr other ↦ rw (in_use, other) refl
    ]
    | inr unused_one ↦ elim (Bool-cases (stream_id_beq j id)) [
      | inl same ↦
          let here : lookup stream_key id outputs ≡ some h =
            subst (λ x. lookup stream_key x outputs ≡ some h) ((stream_id_beq_iff j id).0 same)
              is in
          rw (unused_one, lookup-remove stream_key j id outputs, same, here) (rw unused_one refl)
      | inr other ↦ rw (unused_one, lookup-remove stream_key j id outputs, other) refl
    ]
  ]

  abbrev is_key : List StreamId → Bool
  is_key [] = false
  is_key (j ∷ ids) = stream_id_beq j id || is_key ids

  release_loop-lookup :
      (ids : List StreamId) (r : List ℕ × List (StreamId × ℕ))
      → lookup stream_key id (release_loop held ids r).1
        ≡ (if is_key ids then kept (lookup stream_key id r.1) else lookup stream_key id r.1)
  unfolding release_loop
  release_loop-lookup [] r = refl
  release_loop-lookup (j ∷ ids) r =
      release_loop-lookup ids (release_unless (lookup stream_key j r.1) held j r)
      ∙ (ap (λ o. if is_key ids then kept o else o)
            (release_unless-lookup j (lookup stream_key j r.1) r refl)
          ∙ both (is_key ids) (stream_id_beq j id) (lookup stream_key id r.1))
    where
      both :
          (a b : Bool) (o : Option ℕ)
          → (if a then kept (if b then kept o else o) else (if b then kept o else o))
            ≡ (if b || a then kept o else o)
      both true true o = kept_twice o
      both true false o = refl
      both false true o = refl
      both false false o = refl

  lookup_no_key :
      (m : List (StreamId × ℕ)) → is_key (map (λ e. e.0) m) ≡ false → lookup stream_key id m ≡ none
  unfolding lookup
  lookup_no_key [] no_key = refl
  lookup_no_key ((j, h) ∷ m) no_key = ground (arith, lookup_no_key m)

  release_keys-lookup :
      (m : List (StreamId × ℕ))
      → lookup stream_key id (release_loop held (map (λ e. e.0) m) ([], m)).1
        ≡ kept (lookup stream_key id m)
  release_keys-lookup m =
      release_loop-lookup (map (λ e. e.0) m) ([], m)
      ∙ elim (Bool-cases (is_key (map (λ e. e.0) m))) [
        | inl key ↦ rw key refl
        | inr no_key ↦ rw (no_key, lookup_no_key m no_key) refl
      ]

-- `release_all_unused_output_sinks` takes out of the table the cores that nothing else holds, and no
-- others: every other stream has the core that it had. The high water mark is the length of the table.
pub release_all_lem :
    (p : ProgramOutputs) (id : StreamId)
    → (lookup stream_key id (release_all_unused_output_sinks p).1.outputs
        ≡ kept p.held id (lookup stream_key id p.outputs))
      × ((release_all_unused_output_sinks p).1.output_high_water
          ≡ length (release_all_unused_output_sinks p).1.outputs)
unfolding release_all_unused_output_sinks
release_all_lem p id = (release_keys-lookup p.held id p.outputs, refl)

module _ (t : TypeId) (id : StreamId) (h : ℕ) where
  pub release_all-Shares :
      (p : ProgramOutputs) → Shares t id h p → Shares t id h (release_all_unused_output_sinks p).1
  unfolding release_all_unused_output_sinks
  release_all-Shares p s = record {
    entry =
        release_keys-lookup p.held id p.outputs
        ∙ (ap (λ o. kept p.held id o) s.entry ∙ rw s.held refl);
    typed = s.typed;
    held = s.held;
  }

  pub release_stale-Shares :
      (p : ProgramOutputs) → Shares t id h p → Shares t id h (release_stale_output_sinks p).1
  unfolding release_stale_output_sinks
  release_stale-Shares p s = on_count (ltb (p.output_high_water + 10) (length p.outputs))
    where
      on_count :
          (b : Bool) → Shares t id h (if b then release_all_unused_output_sinks p else ([], p)).1
      on_count true = release_all-Shares p s
      on_count false = s
