-- ===== src/Portable.antt =====
-- src/ah_there_it_is/portable_stream.py: the bounded reader of portable inventory JSON.
pub mod Programs
pub mod Bytes
pub mod Parser
pub mod Simulation
pub mod Decoding
pub mod Peeks
pub mod Chunks
pub mod Fuel
pub mod Ending
pub mod Reader
