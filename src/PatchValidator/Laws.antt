-- ===== src/PatchValidator/Laws.antt =====
-- Proofs about the validator of patches.
pub mod Gates
pub mod Confinement
