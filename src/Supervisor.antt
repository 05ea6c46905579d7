-- ===== src/Supervisor.antt =====
-- supervisor.py: starts an agent's runtime when mail waits for a nick with no live session.
-- `Sources` is what the supervisor reads from the relay, `Decision` the per-nick state and
-- `decide`, `Pass` the class `Supervisor` with its `tick`, and `Deaf` the alert sweep of a pass.
pub mod Sources
pub mod Decision
pub mod Deaf
pub mod Pass
pub mod Wake
