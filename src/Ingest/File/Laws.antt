-- ===== src/Ingest/File/Laws.antt =====
-- What the file source of internal/ingest/file/file.go delivers.
pub mod Validity
pub mod Growth
