-- ===== src/BrowserCore.antt =====
-- packages/browser-core: the stored projects of a browser profile, their lifecycle, the
-- installation of rules and their status.
pub mod Types
pub mod FileRoot
pub mod Envelope
pub mod Store
pub mod Install
pub mod Status
pub mod Repository
