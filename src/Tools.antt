-- ===== src/Tools.antt =====
-- src/ah_there_it_is/agent/tools.py and agent/write_resolution.py: what the agent may write, and when.
pub mod Resolution
pub mod SearchKeys
pub mod Containment
pub mod Sizes
pub mod Nesting
pub mod Unique
pub mod Capabilities
pub mod NewPaths
pub mod Operations
pub mod Writes
pub mod Authority
pub mod Earned
pub mod Sources
pub mod Turns
pub mod Support
pub mod Quiet
pub mod Guarded
pub mod Visible
pub mod Receipts
pub mod Dispatcher
pub mod Lawful
