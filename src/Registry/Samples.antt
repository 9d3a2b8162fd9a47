-- ===== src/Registry/Samples.antt =====
-- Service definitions, a catalog and graphs for the tests.
use sdbx.Base.{String, true, false, List, [], ◌∷◌, ◌==◌, none, ok, err, if◌then◌else◌}
use sdbx.Base.Int.{pos}
use sdbx.Registry.Types.{ServiceDefinition, ConditionalDependency, Conditions}
use sdbx.Registry.Types.Resolved.{ResolvedService, unknown_service}
use sdbx.Registry.Resolver.{Catalog, ServiceInfo}

abbrev pub always_on : Conditions
always_on = record { always = true; require_addon = false; require_config = "" }

abbrev pub definition : String → List String → List ConditionalDependency → ServiceDefinition
definition name required conditional = record {
  api_version = "sdbx.one/v1";
  kind = "Service";
  metadata = record {
    name = name;
    version = "1";
    category = "media";
    description = "";
    homepage = "";
    documentation = "";
    maintainer = "";
    tags = [];
  };
  application_auth = record { mode = "none" };
  presentation = record { launcher = none };
  permissions = [];
  spec = record {
    image = record { repository = name; tag = "latest"; registry = "" };
    container = record {
      name_template = "";
      restart = "";
      hostname = "";
      user = "";
      command = "";
      working_dir = "";
      shm_size = "";
      sysctls = [];
      custom_labels = [];
      privileged = false;
      read_only_root = false;
      tmpfs = [];
      pids_limit = pos 0;
      stop_grace = "";
      capabilities = record { add = []; drop = [] };
      devices = [];
      conditional_devices = [];
      init = false;
    };
    environment = record { static = []; conditional = []; env_file = [] };
    volumes = [];
    ports = record { static = []; conditional = [] };
    networking = record { networks = []; mode = ""; mode_template = "" };
    health_check = none;
    health_check_camel = none;
    dependencies = record { required = required; conditional = conditional };
  };
  routing = record {
    enabled = true;
    port = pos 80;
    subdomain = name;
    path = "/x";
    path_routing = record { strategy = ""; url_base_env_var = "" };
    auth = record { mode = "protected" };
    force_subdomain = false;
    traefik = record { network = "" };
  };
  secrets = [];
  integrations = record { cloudflared = none; unpackerr = none };
  conditions = always_on;
}

abbrev pub on_vpn : ConditionalDependency
on_vpn = record { name = "gluetun"; condition = ""; when = "{{ .Config.VPNEnabled }}" }

abbrev pub authelia : ServiceDefinition
authelia = definition "authelia" [] []

abbrev pub traefik : ServiceDefinition
traefik = definition "traefik" ("authelia" ∷ []) (on_vpn ∷ [])

abbrev info : String → ServiceInfo
info name = record {
  name = name;
  description = "";
  category = "media";
  version = "1";
  source = "embedded";
  is_addon = false;
}

abbrev pub catalog : Catalog
catalog = record {
  list_services = ok (info "traefik" ∷ info "authelia" ∷ []);
  get_service = λ name.
      if name == "traefik"
      then ok (traefik, "embedded")
      else if name == "authelia"
      then ok (authelia, "embedded")
      else err (unknown_service name);
  validate_for_source = λ _ _. [];
  service_path = λ source name. "";
  calculate_hash = λ _. "sha256:";
}

abbrev pub entry : String → ServiceDefinition → List String → ResolvedService
entry name def dependencies = record {
  name = name;
  source = "embedded";
  source_path = "";
  definition = def;
  definition_hash = "sha256:";
  final_definition = def;
  dependencies = dependencies;
  enabled = true;
}
