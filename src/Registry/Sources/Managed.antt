-- ===== src/Registry/Sources/Managed.antt =====
-- internal/registry/registry.go: New, AddSource, RemoveSource and GetSource, on the list of sources
-- that a registry keeps.
use sdbx.Base.{
  String, Bool, true, ◌==◌, not, List, [], ◌∷◌, ◌++◌, Option, none, some, Message, Result, ok, err,
  ◌>>◌, ◌>>=◌, any, if◌then◌else◌,
}
use sdbx.Base.Int.{ℤ, pos, negsuc, gt, above}
use sdbx.Registry.Validator.Report.{say_of}
use sdbx.Registry.Sources.{Source, Services, SourceProvider}
use sdbx.Registry.Sources.Configuration.{
  ParsedUrl, validate_source_config, validate_configured_sources, within,
}

-- What the registry reads from outside: the catalog in the binary, a directory or a checkout with the
-- services of a source, time.ParseDuration and url.Parse.
pub record Outside : Type 0 where
  pub catalog : Services
  pub local_services : Source → Services
  pub git_services : Source → Services
  pub parse_duration : String → Option ℤ
  pub parse_url : String → Result String ParsedUrl

-- One element of the sort: before the first one of lower priority.
unfoldable pub insert_source : SourceProvider → List SourceProvider → List SourceProvider
insert_source s [] = s ∷ []
insert_source s (t ∷ ts) =
    let rest = insert_source s ts in if gt s.priority t.priority then s ∷ t ∷ ts else t ∷ rest

unfoldable pub sort_onto : List SourceProvider → List SourceProvider → List SourceProvider
unfolding insert_source
sort_onto sorted [] = sorted
sort_onto sorted (s ∷ ss) = sort_onto (insert_source s sorted) ss

-- sort.Slice by descending priority, as the insertion sort that it is for up to 12 sources.
unfoldable pub sort_by_priority : List SourceProvider → List SourceProvider
unfolding sort_onto
sort_by_priority sources = sort_onto [] sources

-- 24 hours, in nanoseconds.
abbrev pub day : ℤ
day = pos 86400000000000

abbrev pub positive_duration : String → Option ℤ → Result Message ℤ
positive_duration raw none = err (say_of "source cache TTL must be a positive duration: %q" raw)
positive_duration raw (some ttl) =
    if above ttl 0
    then ok ttl
    else err (say_of "source cache TTL must be a positive duration: %q" raw)

unfoldable pub has_name : String → List SourceProvider → Bool
has_name name sources = any (λ s. s.name == name) sources

-- `GetSource`
unfoldable pub get_source : String → List SourceProvider → Result Message SourceProvider
get_source name [] = err (say_of "source %s not found" name)
get_source name (src ∷ sources) = if src.name == name then ok src else get_source name sources

-- `RemoveSource`
unfoldable pub remove_source : String → List SourceProvider → Result Message (List SourceProvider)
remove_source name [] = err (say_of "source %s not found" name)
remove_source name (src ∷ sources) =
    let rest = remove_source name sources in
    if src.name == name
    then (if src.source_type == "embedded"
        then err (say_of "cannot remove built-in source: %s" name)
        else ok sources)
    else rest >>= λ kept. ok (src ∷ kept)

module _ (outside : Outside) where
  abbrev pub embedded_source : SourceProvider
  embedded_source = record {
    name = "embedded";
    source_type = "embedded";
    priority = negsuc 0;
    is_enabled = true;
    trust_level = record { allow_catalog_permissions = "*" ∷ []; allowed_registries = "*" ∷ [] };
    services = outside.catalog;
  }

  unfoldable pub parse_source_cache_ttl : String → Result Message ℤ
  parse_source_cache_ttl raw =
      if raw == "" then ok day else positive_duration raw (outside.parse_duration raw)

  abbrev pub provider_of : Source → String → Services → SourceProvider
  provider_of src source_type services = record {
    name = src.name;
    source_type = source_type;
    priority = src.priority;
    is_enabled = src.enabled;
    trust_level = src.trust;
    services = services;
  }

  unfoldable pub create_source_provider : Source → Result Message SourceProvider
  create_source_provider src =
      validate_source_config outside.parse_url src
      >> (if src.source_type == "local"
          then ok (provider_of src "local" (outside.local_services src))
          else if src.source_type == "git"
          then ok (provider_of src "git" (outside.git_services src))
          else err (say_of "unsupported configurable source type %q" src.source_type))

  -- The loop of `New`: the providers of the enabled sources.
  unfoldable pub create_enabled : List Source → Result Message (List SourceProvider)
  create_enabled [] = ok []
  create_enabled (src ∷ sources) =
      let rest = create_enabled sources in
      if not src.enabled then rest else elim (create_source_provider src) [
        | err reason ↦ err (within "failed to create source %s: " src.name reason)
        | ok provider ↦ rest >>= λ providers. ok (provider ∷ providers)
      ]

  -- `New` on the TTL and the sources of a configuration.
  unfoldable pub new_registry : String → List Source → Result Message (List SourceProvider)
  new_registry ttl configured = parse_source_cache_ttl ttl >>= λ _.
      validate_configured_sources outside.parse_url configured
      >> (create_enabled configured >>= λ providers.
          ok (sort_by_priority (providers ++ (embedded_source ∷ []))))

  -- `AddSource`
  unfoldable pub add_source : Source → List SourceProvider → Result Message (List SourceProvider)
  add_source src sources =
      if has_name src.name sources
      then err (say_of "source %s already exists" src.name)
      else create_source_provider src >>= λ provider.
          ok (sort_by_priority (sources ++ (provider ∷ [])))
