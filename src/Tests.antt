-- ===== src/Tests.antt =====
-- Concrete inputs: the services of the witnesses, runs by evaluation, and one witness for each
-- property that has hypotheses.
pub mod Services
pub mod Inventory
pub mod Components
pub mod Chat
pub mod Progress
pub mod Undo
pub mod Telegram
pub mod Runner
pub mod Tools
pub mod Places
pub mod Portable
pub mod Dispatch
