-- ===== src/Addons.antt =====
-- internal/addons/manager.go: enabling and disabling addons, with the regeneration of the project
-- files and the rollback when it fails. The generators and the files they write are parameters.
pub mod Rollback
pub mod Effect
pub mod Bulk
mod Tests
use sdbx.Base.{
  String, Bool, true, false, ◌==◌, not, ◌||◌, List, [], ◌∷◌, ◌++◌, Option, none, some, Result, ok,
  err, Check, fine, if◌then◌else◌, any,
}
use sdbx.Config.{Config, is_addon_enabled, enable_addon, disable_addon}
use sdbx.Registry.Types.{ServiceDefinition}
use sdbx.Registry.Types.Resolved.{Cause, ResolutionGraph}
use sdbx.Registry.Resolver.{Catalog}
use sdbx.Generator.{Generator, planned}

pub data Error : Type 0 where
  project_directory_required config_required registry_required not_initialised : Error
  addon_not_found : String → Error
  regenerate_failed : Error → Error
  lock_requires_version_and_resolver : Error
  generator_failed : Cause → Error

-- `Result` of the package.
pub record AddonResult : Type 0 where
  pub name : String
  pub action : String
  pub changed : Bool
  pub regenerated : Bool

pub record BulkResult : Type 0 where
  pub name : String
  pub action : String

pub record Manager (Lock Image : Type 0) : Type 0 where
  pub project_dir : String
  pub config : Option Config
  pub registry : Option Catalog
  pub lock : Option Lock
  pub cli_version : String
  pub image_resolver : Option Image

-- Whether the registry has a definition of the name that only an addon is activated by.
abbrev addon_found : Result Cause (ServiceDefinition × String) → Bool
addon_found (err cause) = false
addon_found (ok (def, _)) = def.conditions.require_addon

unfoldable pub is_addon : Catalog → String → Bool
is_addon catalog name = addon_found (catalog.get_service name)

-- The function that `Enable` and `Disable` pass; `none` is a change that was not needed.
unfoldable pub enable_change : String → Config → Option Config
enable_change name c = if is_addon_enabled c name then none else some (enable_addon name c)

unfoldable pub disable_change : String → Config → Option Config
disable_change name c = if not (is_addon_enabled c name) then none else some (disable_addon name c)

-- What a call returns, with the manager and the files behind it.
pub record Outcome (Lock Image Files A : Type 0) : Type 0 where
  pub result : Result Error A
  pub manager : Manager Lock Image
  pub files : Files

-- What `BulkEnable` returns: its list is there beside an error too.
pub record BulkOutcome (Lock Image Files : Type 0) : Type 0 where
  pub results : List BulkResult
  pub outcome : Outcome Lock Image Files (Unit {0})

-- What the loop of `BulkEnable` does with one name.
unfoldable pub bulk_action : Catalog → Config → String → String
bulk_action catalog c name =
    if not (is_addon catalog name)
    then "missing-from-registry"
    else if is_addon_enabled c name
    then "already-enabled"
    else "enabled"

unfoldable pub bulk_change : Catalog → Config → String → Config
bulk_change catalog c name =
    if bulk_action catalog c name == "enabled" then enable_addon name c else c

-- The loop: the configuration behind it, and what was done with each name.
unfoldable pub enable_each : Catalog → List String → Config → Config × List BulkResult
enable_each catalog [] c = (c, [])
enable_each catalog (name ∷ names) c =
    let (after, results) = enable_each catalog names (bulk_change catalog c name) in
    (after, record { name = name; action = bulk_action catalog c name } ∷ results)

-- The variable `mutated` of the loop.
unfoldable pub mutated : List BulkResult → Bool
mutated results = any (λ r. r.action == "enabled") results

module _ {Lock Image : Type 0} where
  -- The guards at the start of `apply`, in turn.
  unfoldable pub ready : Manager Lock Image → Result Error (Config × Catalog)
  ready m = if m.project_dir == "" then err project_directory_required else elim m.config [
    | none ↦ err config_required
    | some c ↦ elim m.registry [ none ↦ err registry_required | some r ↦ ok (c, r) ]
  ]

  -- m.Config.Addons = addons
  unfoldable pub set_addons : List String → Manager Lock Image → Manager Lock Image
  set_addons addons m = record m {
    config = elim m.config [ none ↦ none | some c ↦ some (record c { addons = addons }) ];
  }

  -- What `Plan` has done to *m.Config.
  unfoldable pub after_plan : Option ResolutionGraph → Manager Lock Image → Manager Lock Image
  after_plan graph m = record m {
    config = elim m.config [ none ↦ none | some c ↦ some (planned graph c) ];
  }

module _ {Lock Image Files : Type 0} where
  abbrev pub returns :
      {A : Type 0} → Result Error A → Manager Lock Image → Files → Outcome Lock Image Files A
  returns r m files = record { result = r; manager = m; files = files }

  -- What `regenerate` does with the answers of the two generators. The configuration that they were
  -- called with is that of the manager, so it has what `Plan` wrote, errors included.
  generated :
      Manager Lock Image
      → Check Cause × Option ResolutionGraph × Files
      → Outcome Lock Image Files (Unit {0})
  generated m (err cause, graph, files) =
      returns (err (generator_failed cause)) (after_plan graph m) files
  generated m (ok _, graph, files) = returns (ok tt) (after_plan graph m) files

  relocked :
      Manager Lock Image
      → Result Cause Lock × Option ResolutionGraph × Files
      → Outcome Lock Image Files (Unit {0})
  relocked m (err cause, graph, files) =
      returns (err (generator_failed cause)) (after_plan graph m) files
  relocked m (ok lock, graph, files) =
      returns (ok tt) (record (after_plan graph m) { lock = some lock }) files

  -- Behind the regeneration of a single change: the rollback, or the final result.
  unfoldable pub settle :
      AddonResult
      → List String
      → Outcome Lock Image Files (Unit {0})
      → Outcome Lock Image Files AddonResult
  settle r previous o = elim o.result [
    | err e ↦ returns (err (regenerate_failed e)) (set_addons previous o.manager) o.files
    | ok _ ↦ returns (ok (record r { changed = true; regenerated = true })) o.manager o.files
  ]

  -- The results are returned beside the error.
  unfoldable pub settle_bulk :
      List BulkResult
      → List String
      → Outcome Lock Image Files (Unit {0})
      → BulkOutcome Lock Image Files
  settle_bulk results previous o = elim o.result [
    | err e ↦ record {
      results = results;
      outcome = returns (err (regenerate_failed e)) (set_addons previous o.manager) o.files;
    }
    | ok _ ↦ record { results = results; outcome = o }
  ]

  module _ (gen : Generator Lock Image Files) where
    regenerate_locked :
        Option Lock
        → Option Image
        → Config
        → Catalog
        → Manager Lock Image
        → Files
        → Outcome Lock Image Files (Unit {0})
    unfolding generated relocked
    regenerate_locked none image c catalog m files =
        generated m (gen.generate_runtime_files c m.project_dir catalog files)
    regenerate_locked (some lock) none c catalog m files =
        returns (err lock_requires_version_and_resolver) m files
    regenerate_locked (some lock) (some image) c catalog m files =
        if m.cli_version == ""
        then returns (err lock_requires_version_and_resolver) m files
        else relocked m (
            gen.regenerate_runtime_with_updated_lock c m.project_dir catalog lock m.cli_version
              image files)

    unfoldable pub regenerate :
        Config → Catalog → Manager Lock Image → Files → Outcome Lock Image Files (Unit {0})
    unfolding regenerate_locked
    regenerate c catalog m files = regenerate_locked m.lock m.image_resolver c catalog m files

    unfoldable pub apply_changed :
        AddonResult
        → Config
        → Catalog
        → Option Config
        → Manager Lock Image
        → Files
        → Outcome Lock Image Files AddonResult
    apply_changed r c catalog none m files = returns (ok r) m files
    apply_changed r c catalog (some changed) m files =
        settle r c.addons (regenerate changed catalog (record m { config = some changed }) files)

    unfoldable pub apply_ready :
        String
        → String
        → (Config → Option Config)
        → Result Error (Config × Catalog)
        → Manager Lock Image
        → Files
        → Outcome Lock Image Files AddonResult
    apply_ready name action mutate (err e) m files = returns (err e) m files
    apply_ready name action mutate (ok (c, catalog)) m files =
        if not (is_addon catalog name)
        then returns (err (addon_not_found name)) m files
        else apply_changed
            (record { name = name; action = action; changed = false; regenerated = false }) c
            catalog (mutate c) m files

    unfoldable pub apply :
        String
        → String
        → (Config → Option Config)
        → Manager Lock Image
        → Files
        → Outcome Lock Image Files AddonResult
    apply name action mutate m files = apply_ready name action mutate (ready m) m files

    unfoldable pub enable :
        String → Manager Lock Image → Files → Outcome Lock Image Files AddonResult
    enable name = apply name "enable" (enable_change name)

    unfoldable pub disable :
        String → Manager Lock Image → Files → Outcome Lock Image Files AddonResult
    disable name = apply name "disable" (disable_change name)

    unfoldable pub bulk_ready :
        List String
        → Result Error (Config × Catalog)
        → Manager Lock Image
        → Files
        → BulkOutcome Lock Image Files
    bulk_ready names (err e) m files = record {
      results = [];
      outcome = returns (err not_initialised) m files;
    }
    bulk_ready names (ok (c, catalog)) m files =
        let (changed, results) = enable_each catalog names c in
        if not (mutated results)
        then record { results = results; outcome = returns (ok tt) m files }
        else settle_bulk results c.addons
            (regenerate changed catalog (record m { config = some changed }) files)

    unfoldable pub bulk_enable :
        List String → Manager Lock Image → Files → BulkOutcome Lock Image Files
    bulk_enable names m files = bulk_ready names (ready m) m files
