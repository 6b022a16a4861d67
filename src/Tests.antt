-- ===== src/Tests.antt =====
-- Concrete runs, and instances of the theorems on them.
mod Data
mod Records
mod Evidence
mod Store
mod Compiler
mod LlvmIndex
mod Candidates
mod Publication
mod Capture
mod Artifacts
