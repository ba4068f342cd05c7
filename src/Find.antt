-- ===== src/Find.antt =====
-- src/find.c: the interpreters for an executable, found by what the kernel would do and by the
-- detectors that it cannot run.
pub mod Hex
pub mod Number
pub mod Candidates
pub mod Matching
pub mod Interpreters
