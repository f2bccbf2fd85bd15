-- ===== src/Tests.antt =====
-- Runs of the model on concrete input, one module for each part.
pub mod Text
pub mod Web
pub mod Wire
pub mod Calls
pub mod Parts
pub mod Sockets
pub mod Json
pub mod Pools
pub mod Server
pub mod Tasks
pub mod Session
pub mod Network
pub mod Timing
