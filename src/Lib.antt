-- ===== src/Lib.antt =====
-- Verification library of Cargo Optic, which captures the concrete instances that rustc selects
-- for code generation, with their source and optimized LLVM, and answers queries about them.
--
-- The parts of the program and their files here:
--   Records   crates/cargo-optic-records/src: the durable records. One file per record, named
--             after the Rust type; `new` is the constructor and `try_from` the conversion from the
--             stored form, `Raw` and the type's name. Records/Collection and
--             Records/InstanceManifest are the two halves of instance_manifest.rs, the checks on
--             the whole of a manifest.
--   Evidence  crates/cargo-optic-evidence/src: find.rs, source.rs and llvm.rs, over the interface
--             Evidence.Store of what they use of crates/cargo-optic-store: reading the manifest of
--             a capture.
--   Store     crates/cargo-optic-store/src. RecordIo is record_io.rs; Captures is
--             captures.rs with the file checks of artifacts.rs and `namespace_exists` of
--             initialize.rs; Candidate is candidate.rs, Listing the list of captures.rs; Copying
--             is the chunked copy of artifacts.rs; Publish is publish.rs with what it uses of
--             initialize.rs, record_io.rs and artifacts.rs, over Effects: an operating system, any
--             of whose changes may fail, and the record of the changes made; Laws fills the
--             interface of the queries. The file system (`symlink_metadata`, opening a file,
--             reading a directory) and the decoding of JSON into raw records are parameters. A
--             path is the list of its components below the workspace root.
--   LlvmIndex crates/cargo-optic-compiler/src/llvm_index: the index of the definitions in LLVM
--             text. Stream, Token, Body and Symbol are stream.rs, Header and Alias are header.rs,
--             Scanner is scanner.rs. The state is the unread input, how the reader ends, the
--             offset and the header's start; Chunks is the fixed buffer, and Chunks/Refinement
--             shows that it makes no difference. Braces is a grammar of function bodies, and
--             Skipping shows that they are skipped exactly. Runs and the files in it, Headers,
--             Aliases, Bodies, Definitions, Lines and Scans carry one postcondition through these
--             operations: a run returns with it, or fails with an error of the input.
--   Compiler  crates/cargo-optic-compiler, with its rustc-driver. Protocol is protocol.rs; Writer
--             is the driver's manifest.rs, and Session is the order of its calls in analysis.rs,
--             over a file that may refuse any write; Wire and Decoder are src/manifest/decoder.rs,
--             and Manifest holds what src/manifest/mod.rs assembles. Format is the grammar of
--             records that both sides agree on; the files below Session and Decoder carry it
--             through the writer and the decoder. Attempt is src/attempt.rs over the list of
--             Cargo's messages, Observation is src/observation.rs, Artifacts is src/artifacts.rs
--             over LlvmIndex, and Probe is what src/prepared.rs concludes from an attempt, its
--             files and its observation; Collection is src/collection.rs with the collection of
--             src/prepared.rs.
--   Capture   crates/cargo-optic-capture/src/lib.rs: reuse of the Store's candidate that a probe
--             of Compiler finds fresh, or collection and the Store's publication. Preparation and
--             the processes are the interface Capture.Cargo.
--   Tests     a small capture, and each theorem with conditions applied to it.
--   Prelude   lists, texts, results and sorting.
--
-- How Rust is rendered: a `Result` is a sum with `?` as its bind, an error keeps the values that
-- its message shows, a string or a path is the list of its bytes, a `u64` is a natural number
-- with its bound written where the source checks it. A `HashSet` or a `HashMap` that a loop
-- fills is the list of what was inserted; `sort_by` is insertion, which is stable too.
-- `Path::components` and collecting into a `PathBuf` are modelled for Unix.
--
-- Bounds and fuel: `usize` is taken to have 64 bits. The loop of `resolve_module` runs on fuel,
-- one more round than the module has definitions, and the error that stands for the end of the
-- fuel is never returned. The digits of a number are printed on fuel that is its value plus one.
-- The copy of a range has its length as fuel, for a chunk has one byte at least. The loop of the
-- manifest decoder has the number of unread bytes plus one as fuel: each record takes a byte,
-- its kind. A loop over the LLVM stream has the number of unread bytes plus one as fuel: each
-- round but the last consumes a byte.
--
-- Not modelled: the copy of evidence but for its loop, Store::new, the queries inside rustc that
-- hand data to the driver's writer, the building of the driver, the request with its digest and
-- its Cargo arguments, the environment of Cargo's process, the JSON encoding, the randomness of
-- identifiers (the bytes are an argument), and the command line.
pub mod Capture
pub mod Compiler
pub mod Evidence
pub mod LlvmIndex
pub mod Prelude
pub mod Records
pub mod Store
pub mod Tests
