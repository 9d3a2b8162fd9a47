-- ===== src/Registry/Types/Resolved.antt =====
-- internal/registry/types.go: the resolution graph, its errors and warnings.
use sdbx.Base.{String, Bool, List, Option, Message}
use sdbx.Base.Maps.{Map}
use sdbx.Registry.Types.{ServiceDefinition}

pub record ResolvedService : Type 0 where
  pub name : String
  pub source : String
  pub source_path : String
  pub definition : ServiceDefinition
  pub definition_hash : String
  pub final_definition : ServiceDefinition
  pub dependencies : List String
  pub enabled : Bool

pub record ResolutionWarning : Type 0 where
  pub service : String
  pub field : String
  pub message : Message

-- The errors that a service is reported with, and their causes.
pub data Cause : Type 0 where
  unknown_service : String → Cause
  validation_failed : List (String × Message) → Cause
  circular_dependency : Cause
  other_cause : String → Cause
  refused : Message → Cause
  invalid_service : String → String → List (String × Message) → Cause

pub record ResolutionError : Type 0 where
  pub service : String
  pub message : Message
  pub cause : Option Cause

pub record ResolutionGraph : Type 0 where
  pub services : Map ResolvedService
  pub order : List String
  pub errors : List ResolutionError
  pub warnings : List ResolutionWarning

pub record ValidationError : Type 0 where
  pub field : String
  pub message : Message
  pub severity : String
