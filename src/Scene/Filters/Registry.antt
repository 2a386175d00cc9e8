-- ===== src/Scene/Filters/Registry.antt =====
-- scene/src/filter.rs: what the registry keeps as filters are made.
use flo_scene.Common.{
  ℕ, ◌≤◌, none, some, ◌≡◌, ◌≢◌, refl, arith, ◌==◌, inl, inr, Option-cases, if◌then◌else◌,
}
use flo_scene.Common.Table.{nat_key, lookup, lookup-insert, lookup-insert_self, pair_beq_iff}
use flo_scene.Scene.Types.{FilterHandle, TypeId, StreamId, with_message_type, ok}
use flo_scene.Scene.Filters.{
  FilterRegistry, types_key, no_filters, for_filter, conversion_filter, source_stream_id_any,
  target_stream_id_any,
}

-- A handle that is not given out has no entry, and a cached conversion converts as its key says.
pub record IsRegistry (r : FilterRegistry) : Type 0 where
  pub fresh_source : (h : ℕ) → r.next_filter_handle ≤ h → lookup nat_key h r.source_stream_id ≡ none
  pub fresh_target :
      (h : ℕ) → r.next_filter_handle ≤ h → lookup nat_key h r.stream_id_for_target ≡ none
  pub cached :
      (a b h : ℕ)
      → lookup types_key (a, b) r.existing_filters ≡ some h
      → (lookup nat_key h r.source_stream_id ≡ some (with_message_type a))
        × (lookup nat_key h r.stream_id_for_target ≡ some b)

no_filters-IsRegistry : IsRegistry no_filters
unfolding no_filters lookup
no_filters-IsRegistry = record {
  fresh_source = λ h l. refl;
  fresh_target = λ h l. refl;
  cached = λ a b h e. cc;
}

for_filter-IsRegistry :
    (a b : TypeId) (r : FilterRegistry) → IsRegistry r → IsRegistry (for_filter a b r).1
unfolding for_filter
for_filter-IsRegistry a b r v = record {
  fresh_source = λ h l. ground (
    arith,
    lookup-insert nat_key r.next_filter_handle h (with_message_type a) r.source_stream_id,
    v.fresh_source h,
  );
  fresh_target = λ h l. ground (
    arith,
    lookup-insert nat_key r.next_filter_handle h b r.stream_id_for_target,
    v.fresh_target h,
  );
  cached = λ x y h e. ground (
    arith,
    v.cached x y h,
    v.fresh_source h,
    v.fresh_target h,
    lookup-insert nat_key r.next_filter_handle h (with_message_type a) r.source_stream_id,
    lookup-insert nat_key r.next_filter_handle h b r.stream_id_for_target,
  );
}

-- What `for_filter` gives: the handle's two types, and all that other handles had.
for_filter_known :
    (a b : TypeId) (r : FilterRegistry) (h : FilterHandle)
    → (lookup nat_key h (for_filter a b r).1.source_stream_id ≡ (
        if r.next_filter_handle == h
        then some (with_message_type a)
        else lookup nat_key h r.source_stream_id))
      × (lookup nat_key h (for_filter a b r).1.stream_id_for_target
          ≡ (if r.next_filter_handle == h then some b else lookup nat_key h r.stream_id_for_target))
unfolding for_filter
for_filter_known a b r h = (
  lookup-insert nat_key r.next_filter_handle h (with_message_type a) r.source_stream_id,
  lookup-insert nat_key r.next_filter_handle h b r.stream_id_for_target,
)

module _ (a b : TypeId) (r : FilterRegistry) (v : IsRegistry r) where
  made-IsRegistry :
      lookup types_key (a, b) r.existing_filters ≡ none → IsRegistry (conversion_filter a b r).1
  unfolding conversion_filter
  made-IsRegistry e =
      let w = for_filter-IsRegistry a b r v in
      let new = for_filter_known a b r (for_filter a b r).0 in
      rw (e, conversion_filter)
        (record {
          fresh_source = w.fresh_source;
          fresh_target = w.fresh_target;
          cached = λ x y h is. ground (
            arith,
            w.cached x y h,
            new,
            lookup-insert types_key (a, b) (x, y) (for_filter a b r).0
                (for_filter a b r).1.existing_filters,
            pair_beq_iff nat_key nat_key (a, b) (x, y),
          );
        })

  conversion_filter-IsRegistry : IsRegistry (conversion_filter a b r).1
  unfolding conversion_filter
  conversion_filter-IsRegistry = elim (Option-cases (lookup types_key (a, b) r.existing_filters)) [
    | inl e ↦ made-IsRegistry e
    | inr (h, e) ↦ rw (e, conversion_filter) v
  ]

  conversion_filter_cached :
      lookup types_key (a, b) (conversion_filter a b r).1.existing_filters
      ≡ some (conversion_filter a b r).0
  unfolding conversion_filter
  conversion_filter_cached = elim (Option-cases (lookup types_key (a, b) r.existing_filters)) [
    | inl e ↦ rw (e, conversion_filter) (lookup-insert_self types_key (a, b) _ _)
    | inr (h, e) ↦ rw (e, conversion_filter) e
  ]

-- The registries that making filters leads to.
pub data Made : FilterRegistry → Type 0 where
  nothing : Made no_filters
  filter : {r : FilterRegistry} (a b : TypeId) → Made r → Made (for_filter a b r).1
  conversion : {r : FilterRegistry} (a b : TypeId) → Made r → Made (conversion_filter a b r).1

pub Made-IsRegistry : {r : FilterRegistry} → Made r → IsRegistry r
Made-IsRegistry nothing = no_filters-IsRegistry
Made-IsRegistry (filter {r} a b m) = for_filter-IsRegistry a b r (Made-IsRegistry m)
Made-IsRegistry (conversion {r} a b m) = conversion_filter-IsRegistry a b r (Made-IsRegistry m)

-- A conversion's handle leads to its two message types, and asking for the same conversion again
-- gives the same handle and makes nothing.
pub conversion_filter_lem :
    {r : FilterRegistry} (a b : TypeId)
    → Made r
    → (source_stream_id_any (conversion_filter a b r).0 (conversion_filter a b r).1
        ≡ ok (with_message_type a))
      × (target_stream_id_any (conversion_filter a b r).0 (conversion_filter a b r).1
          ≡ ok (with_message_type b))
      × (conversion_filter a b (conversion_filter a b r).1 ≡ conversion_filter a b r)
unfolding source_stream_id_any target_stream_id_any
conversion_filter_lem {r} a b m =
    let v = Made-IsRegistry m in
    let here = conversion_filter_cached a b r v in
    let types =
      (conversion_filter-IsRegistry a b r v).cached a b (conversion_filter a b r).0 here in
    (rw types.0, rw types.1, unfold conversion_filter in rw (here, conversion_filter))

-- A handle keeps its message types for ever: making another filter changes no handle that is known.
pub for_filter_keeps :
    {r : FilterRegistry} (a b : TypeId) (h : FilterHandle) (s t : StreamId)
    → Made r
    → source_stream_id_any h r ≡ ok s
    → target_stream_id_any h r ≡ ok t
    → (source_stream_id_any h (for_filter a b r).1 ≡ ok s)
      × (target_stream_id_any h (for_filter a b r).1 ≡ ok t)
      × ((for_filter a b r).0 ≢ h)
unfolding source_stream_id_any target_stream_id_any
for_filter_keeps {r} a b h s t m hs ht =
    let v = Made-IsRegistry m in
    let known = for_filter_known a b r h in
    let old : r.next_filter_handle ≢ h = λ e. ground (arith, v.fresh_source h) in
    (ground (arith, known, old), ground (arith, known, old), unfold for_filter in old)
