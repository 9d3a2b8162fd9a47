-- ===== src/Registry/Validator/Evaluation.antt =====
-- The definitions of the validator that a test on a concrete definition computes with.
use sdbx.Base.{has_prefix, trim_space, split}
use sdbx.Base.Order.{sort_strings}
use sdbx.Base.Paths.{clean, render, is_abs}
use sdbx.Config.{contains}
use sdbx.Config.Patterns.{is_safe_route_path, last_is}
use sdbx.Registry.Conditions.{
  selectors, canonical_catalog_condition, is_supported_catalog_condition,
  is_supported_dependency_condition,
}
use sdbx.Registry.Resolver.{has_errors, filter_by_severity}
use sdbx.Registry.Validator.Report.{
  report, advise, each, decimal, item, has_infix, holds_text, before, trim_quotes,
}
use sdbx.Registry.Validator.Patterns.{
  capability_permission_pattern, secret_permission_pattern, network_permission_pattern,
  service_network_permission_pattern, service_override_permission_pattern, route_permission_pattern,
  launcher_icon_pattern, is_valid_service_name, is_valid_subdomain, image_repository_pattern,
  image_tag_pattern,
}
use sdbx.Registry.Validator.Search.{
  service_references, config_references, root_references, catalog_secrets_reference,
}
use sdbx.Registry.Validator.Definition.{
  is_valid_category, validate_metadata, validate_launcher, validate_presentation,
  validate_unpackerr, validate_integrations,
}
use sdbx.Registry.Validator.Container.{
  is_clean_path, validate_tmpfs, validate_volume, validate_value_source,
  validate_environment_value_source, validate_static, validate_conditional, validate_health_check,
  validate_container, validate_spec,
}
use sdbx.Registry.Validator.Selectors.{
  validate_selectors, validate_canonical, validate_when, validate_device, repeated,
  validate_dependency_name, note_dependency, validate_conditional_dependencies,
  validate_dependencies, validate_conditional_parts, validate_conditions,
}
use sdbx.Registry.Validator.Network.{
  is_valid_route_path, validate_route, validate_routing, validate_networks, declared_networks,
  validate_networking,
}
use sdbx.Registry.Validator.Security.{
  image_reference, repository_registry, declared_registry, validate_reference,
  is_docker_socket_path, validate_image, validate_socket, warn_privileges, validate_memory_device,
  validate_security,
}
use sdbx.Registry.Validator.Permissions.{
  required_catalog_path_permission, needs, distinct, required_catalog_permissions,
  is_valid_catalog_permission, validate_declared, declare, validate_declarations, validate_required,
  validate_permissions,
}
use sdbx.Registry.Validator.Fields.{catalog_string_fields}
use sdbx.Registry.Validator.Templates.{
  note, note_references, note_template, note_field, note_fields, validate_catalog_templates,
}
use sdbx.Registry.Validator.Trust.{
  validate, grants, catalog_permission_granted, validate_grants, validate_trusted_registry,
  validate_with_trust_level,
}

unfoldable pub evaluation : Unit {0}
unfolding selectors has_prefix trim_space split sort_strings clean render is_abs contains
    is_safe_route_path last_is canonical_catalog_condition is_supported_catalog_condition
    is_supported_dependency_condition has_errors filter_by_severity report advise each decimal item
    has_infix holds_text before trim_quotes capability_permission_pattern secret_permission_pattern
    network_permission_pattern service_network_permission_pattern
    service_override_permission_pattern route_permission_pattern launcher_icon_pattern
    is_valid_service_name is_valid_subdomain image_repository_pattern image_tag_pattern
    service_references config_references root_references catalog_secrets_reference is_valid_category
    validate_metadata validate_launcher validate_presentation validate_unpackerr
    validate_integrations is_clean_path validate_tmpfs validate_volume validate_value_source
    validate_environment_value_source validate_static validate_conditional validate_health_check
    validate_container validate_spec validate_selectors validate_canonical validate_when
    validate_device repeated validate_dependency_name note_dependency
    validate_conditional_dependencies validate_dependencies validate_conditional_parts
    validate_conditions is_valid_route_path validate_route validate_routing validate_networks
    declared_networks validate_networking image_reference repository_registry declared_registry
    validate_reference is_docker_socket_path validate_image validate_socket warn_privileges
    validate_memory_device validate_security required_catalog_path_permission needs distinct
    required_catalog_permissions is_valid_catalog_permission validate_declared declare
    validate_declarations validate_required validate_permissions catalog_string_fields note
    note_references note_template note_field note_fields validate_catalog_templates validate grants
    catalog_permission_granted validate_grants validate_trusted_registry validate_with_trust_level
evaluation = tt
