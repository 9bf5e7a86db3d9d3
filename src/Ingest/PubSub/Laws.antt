-- ===== src/Ingest/PubSub/Laws.antt =====
-- Proofs about the Pub/Sub source.
pub mod Delivery
pub mod Mapping
