-- ===== src/Inventory.antt =====
-- src/ah_there_it_is/services/inventory.py: the operations stand in the first five modules, the
-- invariants and the theorems about them in the modules below.
pub mod Checks
pub mod Nodes
pub mod Paths
pub mod Items
pub mod Updates
pub mod Moves
pub mod Photos
pub mod Forest
pub mod Distinct
pub mod Valid
pub mod Atomic
pub mod Progress
pub mod Requests
