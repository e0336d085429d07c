-- ===== src/Tests.antt =====
-- Concrete runs of the components.
mod Merges
mod Runs
mod Selections
mod Decisions
mod Registries
mod Forests
mod Builds
mod Globs
mod Identities
mod Scores
mod Catalogs
mod Probes
mod Diffs
mod Splices
mod Schedules
mod Reaches
mod Parses
mod Positions
