-- ===== src/Tests.antt =====
-- Concrete inputs on which the theorems apply.
mod Data
mod Messaging
mod Authorization
mod Extension
mod Repository
mod Install
mod Compiler
mod Captures
mod Runtime
