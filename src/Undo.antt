-- ===== src/Undo.antt =====
-- src/ah_there_it_is/services/undo.py: the compensation of the preceding turn. The table of agent
-- runs is an argument, since the service only reads it.
pub mod Snapshots
pub mod Compensate
pub mod Quiet
pub mod Parts
pub mod Atomic
pub mod Whole
pub mod Refuses
pub mod Restores
