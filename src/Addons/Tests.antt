-- ===== src/Addons/Tests.antt =====
-- Runs of the addon manager with a generator that writes and with one that fails.
use sdbx.Base.Maps.{lookup, insert}
use sdbx.Generator.{Generator, planned, activate_config_services, activate_each}
use sdbx.Base.{
  String, List, [], ◌∷◌, ◌||◌, ◌==◌, none, some, ok, err, ◌≡◌, refl, true, false, if◌then◌else◌,
}
use sdbx.Config.{Config, default_config, is_addon_enabled, enable_addon, disable_addon, contains}
use sdbx.Registry.Types.{ServiceDefinition}
use sdbx.Registry.Types.Resolved.{unknown_service, other_cause, ResolutionGraph}
use sdbx.Registry.Resolver.{Catalog}
use sdbx.Registry.Samples.{catalog, authelia, entry}
use sdbx.Addons.{
  Manager, Generator, AddonResult, Error, regenerate_failed, generator_failed, ready, set_addons,
  regenerate, regenerate_locked, generated, settle, apply, apply_ready, apply_changed, enable,
  disable, enable_change, disable_change, is_addon, bulk_action, bulk_change, enable_each, mutated,
  settle_bulk, bulk_ready, bulk_enable, after_plan,
}
use sdbx.Addons.Rollback.{enable_restores, disable_restores, IsRolledBack}
use sdbx.Addons.Bulk.{bulk_enable_restores}

abbrev addon : ServiceDefinition
addon = record authelia {
  conditions = record { always = false; require_addon = true; require_config = "" };
}

abbrev addons : Catalog
addons = record catalog {
  get_service = λ name.
      if name == "bazarr" || name == "lidarr"
      then ok (addon, "embedded")
      else err (unknown_service name);
}

-- What `Plan` resolves in the runs: a graph of one service.
abbrev planned_graph : ResolutionGraph
planned_graph = record {
  services = ("bazarr", entry "bazarr" addon []) ∷ [];
  order = "bazarr" ∷ [];
  errors = [];
  warnings = [];
}

-- The files are the lists of addons that they were generated from, the last one first.
abbrev Written : Type 0
Written = List (List String)

abbrev writing : Generator (Unit {0}) (Unit {0}) Written
writing = record {
  generate_runtime_files = λ c dir catalog files. (ok tt, some planned_graph, c.addons ∷ files);
  regenerate_runtime_with_updated_lock =
      λ c dir catalog lock version image files. (ok lock, some planned_graph, c.addons ∷ files);
}

abbrev full : Generator (Unit {0}) (Unit {0}) Written
full = record writing {
  generate_runtime_files =
      λ c dir catalog files. (err (other_cause "disk full"), some planned_graph, files);
}

abbrev config : Config
config = record default_config { addons = "lidarr" ∷ [] }

abbrev manager : Manager (Unit {0}) (Unit {0})
manager = record {
  project_dir = "/srv/sdbx";
  config = some config;
  registry = some addons;
  lock = none;
  cli_version = "1.0.0";
  image_resolver = none;
}

abbrev failed : Error
failed = regenerate_failed (generator_failed (other_cause "disk full"))

running : Unit {0}
unfolding enable disable apply apply_ready apply_changed settle regenerate regenerate_locked
    generated enable_change disable_change is_addon is_addon_enabled contains enable_addon
    disable_addon ready set_addons bulk_enable bulk_ready settle_bulk mutated enable_each
    bulk_change bulk_action after_plan planned activate_config_services activate_each lookup insert
running = tt

enable-full : (enable full "bazarr" manager []).result ≡ err failed
unfolding running
enable-full = refl

enable_restores_example : IsRolledBack full manager [] (enable full "bazarr" manager []).manager
enable_restores_example = enable_restores full "bazarr" manager [] enable-full

-- The addon is rolled back, and is still an active service of the configuration.
kept_active : (enable full "bazarr" manager []).manager ≡ record manager {
  config = some (record config { active_services = some (("bazarr", true) ∷ []) });
}
unfolding running
kept_active = refl

disable-full : (disable full "lidarr" manager []).result ≡ err failed
unfolding running
disable-full = refl

disable_restores_example : IsRolledBack full manager [] (disable full "lidarr" manager []).manager
disable_restores_example = disable_restores full "lidarr" manager [] disable-full

abbrev enabled : AddonResult
enabled = record { name = "bazarr"; action = "enable"; changed = true; regenerated = true }

enable_files : (enable writing "bazarr" manager []).files ≡ ("lidarr" ∷ "bazarr" ∷ []) ∷ []
unfolding running
enable_files = refl

abbrev disabled : AddonResult
disabled = record { name = "lidarr"; action = "disable"; changed = true; regenerated = true }

abbrev request : List String
request = "bazarr" ∷ "nosuch" ∷ "lidarr" ∷ []

bulk_enable-full : (bulk_enable full request manager []).outcome.result ≡ err failed
unfolding running
bulk_enable-full = refl

bulk_enable_restores_example :
    IsRolledBack full manager [] (bulk_enable full request manager []).outcome.manager
bulk_enable_restores_example = bulk_enable_restores full request manager [] bulk_enable-full
