-- ===== src/Server.antt =====
-- The server, server/pacon_server.c: the table of removals under way, and the commit of the changes
-- that clients have queued.
pub mod Removing
pub mod State
pub mod Runs
pub mod Broadcast
pub mod Barriers
pub mod Traverse
pub mod Fsync
pub mod Batch
pub mod Samples
pub mod Commit
pub mod Inline
pub mod Dispatch
pub mod Requests
pub mod Startup
pub mod Protocol
