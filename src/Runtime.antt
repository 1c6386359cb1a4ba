-- ===== src/Runtime.antt =====
-- packages/runtime: the native host that the extension pairs with.
pub mod Capability
pub mod AddressPolicy
pub mod Authorization
pub mod Addresses
pub mod Envelope
pub mod Framing
pub mod Host
pub mod InputPump
pub mod ProjectStage
pub mod Results
pub mod Url
