-- ===== src/Lrc.antt =====
-- The built-in components, lrc/: what their keywords do.
pub mod Strings
pub mod Values
pub mod Fuzzypath
pub mod Splicepath
pub mod File
pub mod Process
pub mod Network
pub mod Builtin
