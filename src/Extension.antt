-- ===== src/Extension.antt =====
-- packages/extension: the browser extension.
pub mod LogText
pub mod MatchHistory
