-- ===== src/Update.antt =====
-- src/update-binfmts.c: the registry of binary formats.
pub mod Base
pub mod Packaged
pub mod Kernel
pub mod Database
pub mod Enable
pub mod Disable
pub mod Install
pub mod Remove
pub mod Import
pub mod Display
pub mod Options
pub mod Main
