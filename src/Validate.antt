-- ===== src/Validate.antt =====
-- internal/validate: which mutants of a batch do not compile.
pub mod Bisect
