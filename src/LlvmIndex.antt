-- ===== src/LlvmIndex.antt =====
-- crates/cargo-optic-compiler/src/llvm_index: the index of the definitions in LLVM text.
pub mod Stream
pub mod Token
pub mod Body
pub mod Symbol
pub mod Header
pub mod Alias
pub mod Scanner
pub mod Runs
pub mod Decoding
pub mod Headers
pub mod Aliases
pub mod Bodies
pub mod Braces
pub mod Skipping
pub mod Definitions
pub mod Lines
pub mod Layout
pub mod Scans
pub mod Budget
pub mod Chunks
