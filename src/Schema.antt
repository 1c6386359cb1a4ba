-- ===== src/Schema.antt =====
-- packages/schema: the project format and what is computed from its texts.
pub mod Path
pub mod Types
pub mod Captures
