-- ===== src/Outputs/Reuse.antt =====
-- scene/src/scene_context.rs: `send` gives the sink core that a stream has.
use flo_scene.Common.{
  ℕ, zero, suc, Bool-cases, true, List, [], ◌∷◌, ◌++◌, Option, none, some, ◌⊎◌, inl, inr, ◌≡◌, refl,
  sym, ◌∙◌, ap, subst, arith, ==_iff, if◌then◌else◌, length, get_elem?,
}
use flo_scene.Common.Table.{lookup, lookup-insert, lookup-insert_self}
use flo_scene.Scene.Types.{
  StreamTarget, StreamId, TypeId, stream_key, stream_id_beq, stream_id_beq_iff, Result, ok, err,
}
use flo_scene.Scene.Filters.{FilterRegistry}
use flo_scene.Scene.Routing.{SceneCore}
use flo_scene.Scene.Routing.Sinks.{OutputSinkTarget, sink_for_target}
use flo_scene.Outputs.{
  SinkCore, ProgramOutputs, is_held, has_type, downcast_core, found_core, output_core, hold,
  add_core, existing, try_create_output_target, release_stale_output_sinks, stream_for, attached,
  created, send_on, send,
}
use flo_scene.Outputs.Shared.{Shares, release_stale-Shares}

module _ (t : TypeId) where
  typed-append :
      (xs ys : List SinkCore) (n : ℕ)
      → has_type t (get_elem? xs n) ≡ true
      → has_type t (get_elem? (xs ++ ys) n) ≡ true
  typed-append [] ys n h = cc
  typed-append (x ∷ xs) ys zero h = h
  typed-append (x ∷ xs) ys (suc n) h = typed-append xs ys n h

  typed_last :
      (xs : List SinkCore) (target : OutputSinkTarget)
      → has_type t (get_elem? (xs ++ record { message_type = t; target = target } ∷ []) (length xs))
        ≡ true
  typed_last [] target = (==_iff t t).1 refl
  typed_last (x ∷ xs) target = typed_last xs target

module _ (t : TypeId) (id : StreamId) (h : ℕ) where
  held-cons : (k : ℕ) (ks : List ℕ) → is_held h ks ≡ true → is_held h (k ∷ ks) ≡ true
  unfolding is_held
  held-cons k ks is = ground arith

  hold-Shares : (k : ℕ) (p : ProgramOutputs) → Shares t id h p → Shares t id h (hold k p)
  unfolding hold
  hold-Shares k p s = record { entry = s.entry; typed = s.typed; held = held-cons k p.held s.held }

  found_core-Shares : (p : ProgramOutputs) → output_core t id p ≡ some h → Shares t id h (hold h p)
  unfolding output_core hold is_held
  found_core-Shares p is = on_entry (lookup stream_key id p.outputs) refl is
    where
      on_entry :
          (o : Option ℕ)
          → lookup stream_key id p.outputs ≡ o
          → found_core t p o ≡ some h
          → Shares t id h (record p { held = h ∷ p.held })
      on_entry none at is_some = cc
      on_entry (some k) at is_some = elim (Bool-cases (has_type t (get_elem? p.cores k))) [
        | inl typed ↦
            let same : k ≡ h = ground (arith, typed) in
            record {
              entry = at ∙ ap (λ n. some n) same;
              typed = subst (λ n. has_type t (get_elem? p.cores n) ≡ true) same typed;
              held = rw ((==_iff h h).1 refl) refl;
            }
        | inr untyped ↦
            absurd
              (cc (untyped, subst (λ b. (if b then some k else none) ≡ some h) untyped is_some))
      ]

  Shares-output_core : (p : ProgramOutputs) → Shares t id h p → output_core t id p ≡ some h
  unfolding output_core
  Shares-output_core p s = rw (s.entry, s.typed) refl

  add_core-Shares :
      (u : TypeId) (j : StreamId) (target : OutputSinkTarget) (p : ProgramOutputs)
      → lookup stream_key j p.outputs ≡ none
      → Shares t id h p
      → Shares t id h (add_core u j target p)
  add_core-Shares u j target p absent s = record {
    entry = elim (Bool-cases (stream_id_beq j id)) [
      | inl same ↦ absurd (
          cc (
            s.entry,
            subst (λ x. lookup stream_key x p.outputs ≡ none) ((stream_id_beq_iff j id).0 same)
                absent,
          ))
      | inr other ↦ lookup-insert stream_key j id (length p.cores) p.outputs ∙ rw other s.entry
    ];
    typed = typed-append t p.cores _ h s.typed;
    held = held-cons (length p.cores) p.held s.held;
  }

  -- What a step leaves, unless it panics.
  abbrev pub Leaves : {A : Type 0} → Option (A × ProgramOutputs) → Type 0
  Leaves none = Unit {0}
  Leaves (some (a, p)) = Shares t id h p

  try_create-Shares :
      (u : TypeId) (j : StreamId) (target : OutputSinkTarget) (p : ProgramOutputs)
      → Shares t id h p
      → Leaves (try_create_output_target u j target p)
  unfolding try_create_output_target
  try_create-Shares u j target p s = on_entry (lookup stream_key j p.outputs) refl
    where
      on_existing : (o : Option ℕ) → Leaves (existing o p)
      on_existing none = tt
      on_existing (some k) = record {
        entry = s.entry;
        typed = s.typed;
        held = held-cons k p.held s.held;
      }

      on_entry :
          (o : Option ℕ)
          → lookup stream_key j p.outputs ≡ o
          → Leaves (elim o [
            | some k ↦ existing (downcast_core u k p) p
            | none ↦ some (inl (length p.cores), add_core u j target p)
          ])
      on_entry none at = add_core-Shares u j target p at s
      on_entry (some k) at = on_existing (downcast_core u k p)

  attached-Shares : (x : Option ((ℕ ⊎ ℕ) × ProgramOutputs)) → Leaves x → Leaves (attached x)
  attached-Shares none l = tt
  attached-Shares (some (inl k, p)) l = release_stale-Shares t id h p l
  attached-Shares (some (inr k, p)) l = l

  module _ (filters : FilterRegistry) (defaults : TypeId → Option StreamTarget) where
    created-Shares :
        (u : TypeId) (j : StreamId) (x : Result OutputSinkTarget) (p : ProgramOutputs)
        → Shares t id h p
        → Leaves (created u j x p)
    created-Shares u j (err e) p s = s
    created-Shares u j (ok target) p s =
        attached-Shares (try_create_output_target u j target p) (try_create-Shares u j target p s)

    -- A call of `send`, to this target or another one, leaves the stream its core.
    pub send-Shares :
        (core : SceneCore) (u : TypeId) (target : StreamTarget) (p : ProgramOutputs)
        → Shares t id h p
        → Leaves (send filters defaults core u target p)
    unfolding send
    send-Shares core u target p s = on_stream (stream_for filters defaults u target)
      where
        on_core :
            (j : StreamId) (o : Option ℕ)
            → Leaves (elim o [
              | some k ↦ some (ok k, hold k p)
              | none ↦ created u j (sink_for_target filters defaults u p.id target core) p
            ])
        on_core j none =
            created-Shares u j (sink_for_target filters defaults u p.id target core) p s
        on_core j (some k) = hold-Shares k p s

        on_stream : (x : Result StreamId) → Leaves (send_on filters defaults core u target x p)
        on_stream (err e) = s
        on_stream (ok j) = on_core j (output_core u j p)

    pub send_again :
        (core : SceneCore) (target : StreamTarget) (p : ProgramOutputs)
        → stream_for filters defaults t target ≡ ok id
        → Shares t id h p
        → send filters defaults core t target p ≡ some (ok h, hold h p)
    unfolding send
    send_again core target p stream s =
        ap (λ x. send_on filters defaults core t target x p) stream
        ∙ ap
            (λ o. elim o [
              | some k ↦ some (ok k, hold k p)
              | none ↦ created t id (sink_for_target filters defaults t p.id target core) p
            ])
            (Shares-output_core p s)

    new-Shares :
        (target : OutputSinkTarget) (p : ProgramOutputs)
        → length p.cores ≡ h
        → Shares t id h (add_core t id target p)
    unfolding is_held
    new-Shares target p is =
        subst (λ n. Shares t id n (add_core t id target p)) is
          (record {
            entry = lookup-insert_self stream_key id (length p.cores) p.outputs;
            typed = typed_last t p.cores target;
            held = rw ((==_iff (length p.cores) (length p.cores)).1 refl) refl;
          })

    some_pair :
        (k : ℕ) (p q : ProgramOutputs)
        → ◌≡◌ {A = Option (Result ℕ × ProgramOutputs)} (some (ok k, p)) (some (ok h, q))
        → (k ≡ h) × (p ≡ q)
    some_pair k p q is = (cc, cc)

    made :
        (target : OutputSinkTarget) (p q : ProgramOutputs) (o : Option ℕ)
        → lookup stream_key id p.outputs ≡ o
        → found_core t p o ≡ none
        → attached (elim o [
          | some k ↦ existing (downcast_core t k p) p
          | none ↦ some (inl (length p.cores), add_core t id target p)
        ])
          ≡ some (ok h, q)
        → Shares t id h q
    made target p q none at no_core is =
        let parts =
          some_pair (length p.cores) (release_stale_output_sinks (add_core t id target p)).1 q is in
        subst (λ x. Shares t id h x) parts.1
          (release_stale-Shares t id h (add_core t id target p) (new-Shares target p parts.0))
    made target p q (some k) at no_core is =
        absurd (cc (subst (λ o. attached (existing o p) ≡ some (ok h, q)) no_core is))

    created_new :
        (x : Result OutputSinkTarget) (p q : ProgramOutputs)
        → output_core t id p ≡ none
        → created t id x p ≡ some (ok h, q)
        → Shares t id h q
    unfolding output_core try_create_output_target
    created_new (err e) p q no_core is = cc
    created_new (ok target) p q no_core is =
        made target p q (lookup stream_key id p.outputs) refl no_core is

    -- The stream that `send` is called for has the core that it gives.
    pub send-makes :
        (core : SceneCore) (target : StreamTarget) (p q : ProgramOutputs)
        → stream_for filters defaults t target ≡ ok id
        → send filters defaults core t target p ≡ some (ok h, q)
        → Shares t id h q
    unfolding send
    send-makes core target p q stream is =
        on_core (output_core t id p) refl
          (subst (λ x. send_on filters defaults core t target x p ≡ some (ok h, q)) stream is)
      where
        on_core :
            (o : Option ℕ)
            → output_core t id p ≡ o
            → elim o [
              | some k ↦ some (ok k, hold k p)
              | none ↦ created t id (sink_for_target filters defaults t p.id target core) p
            ]
              ≡ some (ok h, q)
            → Shares t id h q
        on_core none no_core is' =
            created_new (sink_for_target filters defaults t p.id target core) p q no_core is'
        on_core (some k) core_is is' =
            let parts = some_pair k (hold k p) q is' in
            subst (λ x. Shares t id h x) parts.1
              (subst (λ n. Shares t id h (hold n p)) (sym parts.0)
                (found_core-Shares p (core_is ∙ ap (λ n. some n) parts.0)))
