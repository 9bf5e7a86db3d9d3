-- ===== src/Ingest.antt =====
-- internal/ingest: the sources of log events.
pub mod Labels
pub mod File
pub mod PubSub
