-- ===== src/Obs/Laws.antt =====
-- Proofs about internal/obs: what redaction hides, and when `Setup` falls back.
pub mod Redaction
pub mod Tracing
