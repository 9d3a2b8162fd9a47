-- ===== src/Registry/Validator.antt =====
-- internal/registry/validator.go: Validate and ValidateWithTrustLevel. Each child has one of the
-- groups of checks that Validate composes.
pub mod Report
pub mod Patterns
pub mod Search
pub mod Definition
pub mod Container
pub mod Selectors
pub mod Network
pub mod Security
pub mod Permissions
pub mod Fields
pub mod Templates
pub mod Trust
pub mod Evaluation
pub mod Laws
pub mod Dependencies
pub mod Rendered
pub mod Permitted
pub mod Granted
