-- ===== src/Pipeline/Laws.antt =====
-- Theorems about the flow of internal/pipeline/pipeline.go.
pub mod Order
pub mod Privacy
pub mod Delivery
pub mod Sanitized
pub mod StubAnswers
pub mod Offline
