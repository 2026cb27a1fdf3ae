-- ===== src/Tests.antt =====
-- Concrete inputs for the theorems, and runs of the model, part by part.
mod Sample
mod Front
mod Tables
mod Running
mod Leaks
mod Pool
mod Install
mod Macros
mod Whole
mod Rounds
mod Resolving
mod Loading
mod Registering
mod Paths
mod Builtin
