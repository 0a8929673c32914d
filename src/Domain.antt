-- ===== src/Domain.antt =====
-- domain/: the controlled values and the validated quantities.
pub mod States
pub mod Quantity
