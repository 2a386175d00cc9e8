-- ===== src/Scene.antt =====
-- scene/src/scene_core.rs: the state that every program of a scene shares.
-- `Types` names sources, targets and streams, and `Results` has lemmas on results. `Filters` is the
-- registry of filters, `Slots` places programs and their inputs, and `Routing` decides where a
-- stream goes.
pub mod Types
pub mod Results
pub mod Filters
pub mod Slots
pub mod Routing
