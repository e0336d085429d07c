-- ===== src/Instrument.antt =====
-- internal/instrument: writing mutants into a source file.
pub mod Splice
