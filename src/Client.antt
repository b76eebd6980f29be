-- ===== src/Client.antt =====
-- The client library of pacon.c: its state, and one child module for each group of operations. A
-- loop that retries takes fuel; `spin` says that the fuel did not suffice.
pub mod State
pub mod Evict
pub mod Load
pub mod Parent
pub mod Create
pub mod Remove
pub mod Attr
pub mod Names
pub mod Files
pub mod Placing
pub mod NewStats
pub mod Namespace
pub mod Refine
pub mod Parents
pub mod Barriers
pub mod Samples
pub mod Tests
