-- ===== src/Tasks.antt =====
-- The tasks of a node as they run at once (src/node.rs, src/rpc/mod.rs, src/backend/mod.rs): a step of a
-- node is one round of one task's loop, and any task may be next. A round that has to wait, for a
-- message or for room in a channel, is not a step.
pub mod Streamer
pub mod Titles
pub mod Latest
pub mod Listener
pub mod Radio
pub mod Lossy
pub mod Complete
pub mod Shown
mod Tests
