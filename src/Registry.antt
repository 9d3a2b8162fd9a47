-- ===== src/Registry.antt =====
-- internal/registry: service definitions, the conditions that activate them, and their resolution.
pub mod Types
pub mod Conditions
pub mod TopologicalSort
pub mod Resolver
pub mod Samples
pub mod Validator
pub mod Sources
pub mod Lock
