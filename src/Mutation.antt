-- ===== src/Mutation.antt =====
-- internal/mutation: the vocabulary of mutants, rules and outcomes.
pub mod Shard
pub mod Span
pub mod Outcome
pub mod Score
pub mod Policy
pub mod Rule
pub mod Identity
pub mod Candidate
pub mod Catalog
