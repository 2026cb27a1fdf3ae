-- ===== src/Parser/RoundTrip.antt =====
-- Reading back what is put down: `interp_syntax_parse` and the functions below it (syntax.c).
pub mod Vals
pub mod Childs
pub mod Whole
