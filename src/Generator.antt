-- ===== src/Generator.antt =====
-- internal/generator/generator.go: what its entry points do to the configuration of their caller. The
-- files that they write are a parameter.
use sdbx.Base.{
  String, List, [], ◌∷◌, Option, none, some, Result, Check, if◌then◌else◌, ◌≡◌, refl, true, Bool,
  false,
}
use sdbx.Base.Maps.{Map, lookup, insert}
use sdbx.Config.{Config, is_addon_enabled}
use sdbx.Registry.Types.Resolved.{Cause, ResolutionGraph, ResolvedService}
use sdbx.Registry.Resolver.{Catalog}

-- Whether a service of the graph is written into cfg.ActiveServices.
abbrev is_activated : Option ResolvedService → Bool
is_activated none = false
is_activated (some resolved) = resolved.enabled

-- The loop of `activateConfigServices` over graph.Order.
unfoldable pub activate_each : ResolutionGraph → List String → Map Bool → Map Bool
activate_each graph [] active = active
activate_each graph (name ∷ names) active =
    activate_each graph names
      (if is_activated (lookup name graph.services) then insert name true active else active)

-- cfg.ActiveServices is written, and nothing else.
unfoldable pub activate_config_services : ResolutionGraph → Config → Config
activate_config_services graph c = record c {
  active_services = some (activate_each graph graph.order []);
}

-- The configuration behind an entry point: each of them calls `Plan`, which writes to it if it
-- resolved a graph without an error, whatever fails later.
unfoldable pub planned : Option ResolutionGraph → Config → Config
planned none c = c
planned (some graph) c = activate_config_services graph c

-- The entry points of internal/generator, on the files of the project. Beside its result, an answer
-- has the graph that `Plan` resolved, `none` if it was not reached or failed.
pub record Generator (Lock Image Files : Type 0) : Type 0 where
  pub generate_runtime_files :
      Config → String → Catalog → Files → Check Cause × Option ResolutionGraph × Files
  pub regenerate_runtime_with_updated_lock :
      Config
      → String
      → Catalog
      → Lock
      → String
      → Image
      → Files
      → Result Cause Lock × Option ResolutionGraph × Files

-- `IsAddonEnabled` does not read what `Plan` writes.
pub is_addon_enabled-planned :
    (g : Option ResolutionGraph) (c : Config) (name : String)
    → is_addon_enabled (planned g c) name ≡ is_addon_enabled c name
unfolding planned activate_config_services is_addon_enabled
is_addon_enabled-planned none c name = refl
is_addon_enabled-planned (some graph) c name = refl
