-- ===== src/Settings/Manager.antt =====
-- internal/settings/manager.go: Set, with its validation, the regeneration of the project and the
-- rollback. The generator and the files are those of the addon manager.
use sdbx.Generator.{Generator, planned}
use sdbx.Base.{
  String, Bool, true, ◌==◌, not, ◌&&◌, Option, none, some, Result, ok, err, Check, fine, ◌>>◌,
  if◌then◌else◌,
}
use sdbx.Config.{Config}
use sdbx.Config.Checks.{Host}
use sdbx.Config.Validate.{validate}
use sdbx.Registry.Types.Resolved.{Cause, ResolutionGraph}
use sdbx.Registry.Resolver.{Catalog}
use sdbx.Settings.Strconv.{parse_bool}
use sdbx.Settings.{
  Error, project_directory_required, config_required, registry_required, not_boolean,
  vpn_not_acknowledged, invalid_config, lock_required, lock_requires_version_and_resolver,
  regenerate_failed, generator_failed, apply,
}

pub record Manager (Lock Image : Type 0) : Type 0 where
  pub project_dir : String
  pub config : Option Config
  pub registry : Option Catalog
  pub lock : Option Lock
  pub cli_version : String
  pub image_resolver : Option Image
  pub allow_unprotected_downloads : Bool

-- `Result` of the package.
pub record SettingsResult : Type 0 where
  pub key : String
  pub value : String
  pub regenerated : Bool

pub record Outcome (Lock Image Files A : Type 0) : Type 0 where
  pub result : Result Error A
  pub manager : Manager Lock Image
  pub files : Files

acknowledged : Bool → Option Bool → Check Error
acknowledged allow none = err (not_boolean "vpn_enabled")
acknowledged allow (some enabled) =
    if not enabled && not allow then err vpn_not_acknowledged else fine

-- The check of a change of vpn_enabled.
unfoldable pub check_vpn : Bool → String → String → Check Error
unfolding acknowledged
check_vpn allow key v = if key == "vpn_enabled" then acknowledged allow (parse_bool v) else fine

module _ {Lock Image : Type 0} where
  -- The guards at the start of `Set`, in turn.
  unfoldable pub ready : Manager Lock Image → Result Error (Config × Catalog)
  ready m = if m.project_dir == "" then err project_directory_required else elim m.config [
    | none ↦ err config_required
    | some c ↦ elim m.registry [ none ↦ err registry_required | some r ↦ ok (c, r) ]
  ]

  -- What `Plan` has done to *m.Config.
  unfoldable pub after_plan : Option ResolutionGraph → Manager Lock Image → Manager Lock Image
  after_plan graph m = record m {
    config = elim m.config [ none ↦ none | some c ↦ some (planned graph c) ];
  }

module _ {Lock Image Files : Type 0} where
  abbrev pub returns :
      {A : Type 0} → Result Error A → Manager Lock Image → Files → Outcome Lock Image Files A
  returns r m files = record { result = r; manager = m; files = files }

  -- What `regenerate` does with the answer of the generator. The configuration that it was called
  -- with is that of the manager, so it has what `Plan` wrote, errors included.
  unfoldable pub relocked :
      Manager Lock Image
      → Result Cause Lock × Option ResolutionGraph × Files
      → Outcome Lock Image Files (Unit {0})
  relocked m (err cause, graph, files) =
      returns (err (generator_failed cause)) (after_plan graph m) files
  relocked m (ok lock, graph, files) =
      returns (ok tt) (record (after_plan graph m) { lock = some lock }) files

  -- *m.Config = *previous, where the regeneration fails.
  unfoldable pub settle :
      String
      → String
      → Config
      → Outcome Lock Image Files (Unit {0})
      → Outcome Lock Image Files SettingsResult
  settle key v previous o = elim o.result [
    | err e ↦
        returns (err (regenerate_failed e)) (record o.manager { config = some previous }) o.files
    | ok _ ↦ returns (ok (record { key = key; value = v; regenerated = true })) o.manager o.files
  ]

  module _ (host : Host) (gen : Generator Lock Image Files) where
    unfoldable pub regenerate_locked :
        Option Lock
        → Option Image
        → Config
        → Catalog
        → Manager Lock Image
        → Files
        → Outcome Lock Image Files (Unit {0})
    regenerate_locked none image c catalog m files = returns (err lock_required) m files
    regenerate_locked (some lock) none c catalog m files =
        returns (err lock_requires_version_and_resolver) m files
    regenerate_locked (some lock) (some image) c catalog m files =
        if m.cli_version == ""
        then returns (err lock_requires_version_and_resolver) m files
        else relocked m (
            gen.regenerate_runtime_with_updated_lock c m.project_dir catalog lock m.cli_version
              image files)

    unfoldable pub regenerate :
        Config → Catalog → Manager Lock Image → Files → Outcome Lock Image Files (Unit {0})
    regenerate c catalog m files = regenerate_locked m.lock m.image_resolver c catalog m files

    -- The configuration is changed; an invalid one is put back.
    unfoldable pub set_changed :
        String
        → String
        → Config
        → Config
        → Catalog
        → Manager Lock Image
        → Files
        → Outcome Lock Image Files SettingsResult
    set_changed key v previous changed catalog m files = elim (validate host changed) [
      | err e ↦ returns (err (invalid_config e)) (record m { config = some previous }) files
      | ok _ ↦
          settle key v previous
            (regenerate changed catalog (record m { config = some changed }) files)
    ]

    unfoldable pub set_ready :
        String
        → String
        → Result Error (Config × Catalog)
        → Manager Lock Image
        → Files
        → Outcome Lock Image Files SettingsResult
    set_ready key v (err e) m files = returns (err e) m files
    set_ready key v (ok (c, catalog)) m files =
        elim (check_vpn m.allow_unprotected_downloads key v >> apply c key v) [
          | err e ↦ returns (err e) m files
          | ok changed ↦ set_changed key v c changed catalog m files
        ]

    unfoldable pub set :
        String → String → Manager Lock Image → Files → Outcome Lock Image Files SettingsResult
    set key v m files = set_ready key v (ready m) m files
