-- ===== src/Detect/Laws.antt =====
-- Theorems about the detector of internal/detect/detect.go.
pub mod Refinement
pub mod Trigger
pub mod Cooldown
pub mod Validity
pub mod Identifiers
pub mod Sampling
pub mod Affected
