-- ===== src/Registry/Sources.antt =====
-- internal/registry/types.go, registry.go, source.go, git.go and embedded.go: the sources of service
-- definitions, as they are configured and as the registry asks them.
pub mod Configuration
pub mod Managed
pub mod Lookup
pub mod Listing
pub mod Order
pub mod WellFormed
pub mod Reachable
pub mod Supplied
pub mod Confined
pub mod Offered
mod Tests
use sdbx.Base.{String, Bool, List, Option, Result, Message}
use sdbx.Base.Int.{ℤ}
use sdbx.Registry.Types.{ServiceDefinition}
use sdbx.Registry.Validator.Trust.{TrustLevel}

pub record Source : Type 0 where
  pub name : String
  pub source_type : String
  pub url : String
  pub path : String
  pub ref : String
  pub signing_key : String
  pub ssh_key : String
  pub priority : ℤ
  pub enabled : Bool
  pub trust : TrustLevel
  pub legacy_branch : String
  pub legacy_ssh_key : String
  pub legacy_verified : Bool

-- What `LoadService` returns: a definition, ErrServiceNotFound, or another error.
pub data Loaded : Type 0 where
  found : ServiceDefinition → Loaded
  not_found : Loaded
  load_failed : String → Loaded

-- The services of a source as they stand on its disk.
pub record Services : Type 0 where
  pub load_service : String → Loaded
  pub list_services : Result String (List String)
  pub service_path : String → String

pub record SourceProvider : Type 0 where
  pub name : String
  pub source_type : String
  pub priority : ℤ
  pub is_enabled : Bool
  pub trust_level : TrustLevel
  pub services : Services
