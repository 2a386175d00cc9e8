-- ===== src/Scene/Filters.antt =====
-- scene/src/filter.rs: the registry of filters. The futures that run a filter are not in it.
pub mod Registry
use flo_scene.Common.{ℕ, ◌+◌, List, [], Option, none, some, map}
use flo_scene.Common.Table.{Eq, pair_eq, nat_key, lookup, insert}
use flo_scene.SubProgram.{SubProgramId}
use flo_scene.Scene.Types.{
  FilterHandle, TypeId, StreamId, with_message_type, for_program, Result, ◌>>=◌, ok, ok_or,
  filter_handle_not_found,
}

-- The static tables: `NEXT_FILTER_HANDLE`, `SOURCE_STREAM_ID`, `STREAM_ID_FOR_TARGET` (a function of
-- the output's message type only, so that type stands for it) and `EXISTING_FILTERS`.
pub record FilterRegistry : Type 0 where
  pub next_filter_handle : ℕ
  pub source_stream_id : List (FilterHandle × StreamId)
  pub stream_id_for_target : List (FilterHandle × TypeId)
  pub existing_filters : List ((TypeId × TypeId) × FilterHandle)

abbrev pub types_key : Eq (TypeId × TypeId)
types_key = pair_eq nat_key nat_key

unfoldable pub no_filters : FilterRegistry
no_filters = record {
  next_filter_handle = 0;
  source_stream_id = [];
  stream_id_for_target = [];
  existing_filters = [];
}

-- `FilterHandle::for_filter`, for a filter from messages of one type to messages of another.
unfoldable pub for_filter : TypeId → TypeId → FilterRegistry → FilterHandle × FilterRegistry
for_filter source target r =
    let handle = r.next_filter_handle in
    (
      handle,
      record r {
        next_filter_handle = handle + 1;
        source_stream_id = insert nat_key handle (with_message_type source) r.source_stream_id;
        stream_id_for_target = insert nat_key handle target r.stream_id_for_target;
      },
    )

-- `FilterHandle::conversion_filter`
unfoldable pub conversion_filter : TypeId → TypeId → FilterRegistry → FilterHandle × FilterRegistry
unfolding for_filter
conversion_filter source target r = elim (lookup types_key (source, target) r.existing_filters) [
  | some existing ↦ (existing, r)
  | none ↦
      let (handle, r') = for_filter source target r in
      (
        handle,
        record r' {
          existing_filters = insert types_key (source, target) handle r'.existing_filters;
        },
      )
]

unfoldable pub source_stream_id_any : FilterHandle → FilterRegistry → Result StreamId
source_stream_id_any h r = ok_or (lookup nat_key h r.source_stream_id) filter_handle_not_found

unfoldable pub target_stream_id_any : FilterHandle → FilterRegistry → Result StreamId
target_stream_id_any h r = do
  t ← ok_or (lookup nat_key h r.stream_id_for_target) filter_handle_not_found
  ok (with_message_type t)

unfoldable pub target_stream_id : FilterHandle → SubProgramId → FilterRegistry → Result StreamId
target_stream_id h p r = do
  t ← ok_or (lookup nat_key h r.stream_id_for_target) filter_handle_not_found
  ok (for_program (with_message_type t) p)
