-- ===== src/Compiler.antt =====
-- packages/compiler: from a validated project to operations, and which operation wins a request.
pub mod Types
pub mod Compile
pub mod Matcher
pub mod Query
