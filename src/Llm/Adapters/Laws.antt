-- ===== src/Llm/Adapters/Laws.antt =====
-- What the vendors' adapters promise to the router.
pub mod Truncation
pub mod Gathering
pub mod Messages
pub mod SchemaName
