-- ===== src/Registry/Validator/Permitted.antt =====
-- internal/registry/validator.go: a definition that passes declares what it needs, once, and nothing
-- else; under a trust level, all of it is granted.
use sdbx.Base.{
  ℕ, suc, ◌≤◌, String, Bool, true, false, ◌==◌, ◌!=◌, ◌&&◌, ◌||◌, List, [], ◌∷◌, ◌≡◌, ◌≢◌, refl,
  sym, ◌∙◌, ◌⊎◌, All, arith, eq_iff, ltb, All-map,
}
use sdbx.Base.Order.{count, sort_strings, count-sort_strings}
use sdbx.Config.{contains}
use sdbx.Registry.Types.{ServiceDefinition}
use sdbx.Registry.TopologicalSort.Counting.{one_if, contains-count}
use sdbx.Registry.Resolver.{has_errors}
use sdbx.Registry.Validator.Report.{report}
use sdbx.Registry.Validator.Laws.{IsQuiet, IsQuiet-append, report-append}
use sdbx.Registry.Validator.Container.{Library}
use sdbx.Registry.Validator.Permissions.{
  needs, distinct, required_catalog_permissions, is_valid_catalog_permission, override_of,
  validate_declared, declare, validate_declarations, validate_required, validate_permissions,
}

count-distinct :
    (p : String) (ps : List String) → count p (distinct ps) ≡ one_if (p != "" && contains ps p)
unfolding distinct contains
count-distinct p [] = ground arith
count-distinct p (q ∷ ps) = ground (
  arith,
  count-distinct p ps,
  count-distinct q ps,
  contains-count (distinct ps) q,
  eq_iff q "",
  eq_iff p "",
  eq_iff q p,
)

ltb-one_if : (n : ℕ) (b : Bool) → n ≡ one_if b → ltb 0 n ≡ b
ltb-one_if n b h = ground arith

-- The required permissions are the texts that the definition needs, and no empty one.
pub contains-required :
    (lib : Library) (def : ServiceDefinition) (p : String)
    → contains (required_catalog_permissions lib def) p ≡ (p != "" && contains (needs lib def) p)
unfolding required_catalog_permissions
contains-required lib def p =
    contains-count (sort_strings (distinct (needs lib def))) p
    ∙ ltb-one_if _ _
        (count-sort_strings p (distinct (needs lib def)) ∙ count-distinct p (needs lib def))

module _ (name : String) (required : List String) where
  -- A permission that is known, was not declared before, and is needed or is the override.
  abbrev IsUsed : String → Type 0
  IsUsed p = (p ≡ override_of name) ⊎ (contains required p ≡ true)

  validate_declared-quiet :
      (i : ℕ) (declared : List String) (p : String)
      → IsQuiet (validate_declared name required i declared p)
      → (is_valid_catalog_permission p ≡ true) × (contains declared p ≡ false) × IsUsed p
  unfolding validate_declared report has_errors
  validate_declared-quiet i declared p h =
      (ground arith, ground arith, ground (arith, eq_iff p (override_of name)))

  -- What the loop has established of the permissions behind it.
  record IsDeclared (declared ps final : List String) : Type 0 where
    valid : All (λ p. is_valid_catalog_permission p ≡ true) ps
    used : All IsUsed ps
    once : (p : String) → contains declared p ≡ false → count p ps ≤ 1
    never : (p : String) → contains declared p ≡ true → count p ps ≡ 0
    all : (p : String) → contains final p ≡ (contains declared p || contains ps p)

  contains-declare :
      (declared : List String) (p q : String)
      → is_valid_catalog_permission p ≡ true
      → contains (declare name required declared p) q ≡ (q == p || contains declared q)
  unfolding declare contains
  contains-declare declared p q valid = ground (arith, eq_iff q p, eq_iff p q)

  step-all :
      (declared : List String) (p : String) (ps : List String) (q : String)
      → is_valid_catalog_permission p ≡ true
      → (contains (declare name required declared p) q || contains ps q)
        ≡ (contains declared q || contains (p ∷ ps) q)
  unfolding contains
  step-all declared p ps q valid =
      ground (arith, contains-declare declared p q valid, eq_iff q p, eq_iff p q)

  step-never :
      (declared : List String) (p : String) (ps : List String) (q : String)
      → contains declared p ≡ false
      → contains declared q ≡ true
      → is_valid_catalog_permission p ≡ true
      → ((r : String) → contains (declare name required declared p) r ≡ true → count r ps ≡ 0)
      → count q (p ∷ ps) ≡ 0
  step-never declared p ps q new held valid never =
      ground (arith, contains-declare declared p q valid, never q, eq_iff q p, eq_iff p q)

  step-once :
      (declared : List String) (p : String) (ps : List String) (q : String)
      → contains declared p ≡ false
      → contains declared q ≡ false
      → is_valid_catalog_permission p ≡ true
      → ((r : String) → contains (declare name required declared p) r ≡ false → count r ps ≤ 1)
      → ((r : String) → contains (declare name required declared p) r ≡ true → count r ps ≡ 0)
      → count q (p ∷ ps) ≤ 1
  step-once declared p ps q new free valid once never =
      ground (arith, contains-declare declared p q valid, once q, never q, eq_iff q p, eq_iff p q)

  validate_declarations-IsDeclared :
      (i : ℕ) (declared ps : List String)
      → IsQuiet (validate_declarations name required i declared ps).0
      → IsDeclared declared ps (validate_declarations name required i declared ps).1
  unfolding validate_declarations declare contains
  validate_declarations-IsDeclared i declared [] h = record {
    valid = tt;
    used = tt;
    once = λ p _. omega arith;
    never = λ p _. refl;
    all = λ p. ground arith;
  }
  validate_declarations-IsDeclared i declared (p ∷ ps) h =
      let (here, later) = IsQuiet-append (validate_declared name required i declared p) _ h in
      let (valid, new, used) = validate_declared-quiet i declared p here in
      let rest =
        validate_declarations-IsDeclared (suc i) (declare name required declared p) ps later in
      record {
        valid = (valid, rest.valid);
        used = (used, rest.used);
        once = λ q free. step-once declared p ps q new free valid rest.once rest.never;
        never = λ q held. step-never declared p ps q new held valid rest.never;
        all = λ q. rest.all q ∙ step-all declared p ps q valid;
      }

validate_required-All :
    (declared ps : List String)
    → IsQuiet (validate_required declared ps)
    → (p : String) → contains ps p ≡ true
    → contains declared p ≡ true
unfolding validate_required contains
validate_required-All declared [] h p held = ground arith
validate_required-All declared (q ∷ ps) h p held =
    let (found, later) = report-append _ _ _ _ h in
    ground (arith, validate_required-All declared ps later p, eq_iff q p, eq_iff p q)

-- The permissions of a definition that reports no error.
pub record HasExactPermissions (lib : Library) (def : ServiceDefinition) : Type 0 where
  pub valid : All (λ p. is_valid_catalog_permission p ≡ true) def.permissions
  pub once : (p : String) → count p def.permissions ≤ 1
  pub used :
      All
        (λ p. (p ≡ override_of def.metadata.name) ⊎ (contains (needs lib def) p ≡ true))
        def.permissions
  pub declared :
      (p : String) → p ≢ "" → contains (needs lib def) p ≡ true → contains def.permissions p ≡ true

used-needs :
    (lib : Library) (def : ServiceDefinition) (p : String)
    → IsUsed def.metadata.name (required_catalog_permissions lib def) p
    → (p ≡ override_of def.metadata.name) ⊎ (contains (needs lib def) p ≡ true)
used-needs lib def p h = ground (arith, contains-required lib def p)

-- A definition whose permissions are checked without an error declares no unknown permission, none
-- twice, only permissions that it needs or the override of its own name, and every permission that
-- it needs.
pub validate_permissions-HasExactPermissions :
    (lib : Library) (def : ServiceDefinition)
    → IsQuiet (validate_permissions lib def)
    → HasExactPermissions lib def
unfolding validate_permissions contains
validate_permissions-HasExactPermissions lib def h =
    let required = required_catalog_permissions lib def in
    let checked = validate_declarations def.metadata.name required 0 [] def.permissions in
    let (loop, missing) = IsQuiet-append checked.0 (validate_required checked.1 required) h in
    let it =
      validate_declarations-IsDeclared def.metadata.name required 0 [] def.permissions loop in
    record {
      valid = it.valid;
      once = λ p. it.once p refl;
      used = All-map _ _ def.permissions (used-needs lib def) it.used;
      declared = λ p nonempty need.
          sym (it.all p)
          ∙ validate_required-All checked.1 required missing p
              (contains-required lib def p ∙ ground (arith, eq_iff p ""));
    }
