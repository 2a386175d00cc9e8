-- ===== src/Tests.antt =====
-- Concrete runs, at which the theorems of the other modules are applied.
mod Inputs
mod Scenes
mod Connections
mod Pipes
mod Jsons
mod Sinks
mod Processes
mod Values
mod Commands
mod Sends
