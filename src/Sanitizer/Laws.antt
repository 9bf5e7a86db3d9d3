-- ===== src/Sanitizer/Laws.antt =====
-- Proofs about the sanitizer of internal/security/sanitizer.go.
pub mod Relation
pub mod Extent
pub mod Search
pub mod Replacement
pub mod Fields
pub mod Passes
pub mod Events
