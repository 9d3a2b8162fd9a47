-- ===== src/Registry/Validator/Dependencies.antt =====
-- internal/registry/validator.go: the conditions and dependencies of a definition that passes.
use sdbx.Base.{
  ℕ, suc, ◌≤◌, String, true, false, ◌==◌, ◌!=◌, not, ◌&&◌, ◌||◌, List, [], ◌∷◌, ◌++◌, Option, none,
  some, ◌≡◌, ◌≢◌, refl, All, arith, eq_iff, nat_eq, ◌<>◌, Bool-cases, Option-cases, inl, inr,
}
use sdbx.Base.Maps.{Map, lookup, insert, lookup-insert, is_some, has}
use sdbx.Base.Order.{count}
use sdbx.Config.{contains}
use sdbx.Registry.Types.{ServiceDefinition, Conditions, ConditionalDependency}
use sdbx.Registry.Conditions.{
  selectors, canonical_catalog_condition, is_supported_dependency_condition,
}
use sdbx.Registry.Validator.Report.{item}
use sdbx.Registry.Validator.Patterns.{is_valid_service_name}
use sdbx.Registry.Validator.Laws.{IsQuiet, IsQuiet-append, past, report-IsQuiet, report-append}
use sdbx.Registry.Validator.Selectors.{
  validate_selectors, validate_when, validate_canonical, validate_dependency_name, note_dependency,
  validate_conditional_dependencies, validate_dependencies, validate_conditions,
  supported_dependency_startup_conditions, repeated, supported_require_config,
  validate_conditional_parts,
}

-- A name that can be depended on.
abbrev pub IsDependency : String → String → Type 0
IsDependency self name = (is_valid_service_name name ≡ true) × (name ≢ self)

-- What guards a conditional dependency.
abbrev pub IsGuarded : ConditionalDependency → Type 0
IsGuarded d =
    (is_supported_dependency_condition (canonical_catalog_condition d.when) ≡ true)
    × (contains supported_dependency_startup_conditions d.condition ≡ true)

true-ne-false : true ≢ false
true-ne-false h = cc

repeated-none :
    (field name : String) (o : Option String) → IsQuiet (repeated field name o) → is_some o ≡ false
unfolding repeated
repeated-none field name none h = refl
repeated-none field name (some previous) h = report-IsQuiet true field _ h

validate_dependency_name-IsDependency :
    (self : String) (seen : Map String) (field name : String)
    → IsQuiet (validate_dependency_name self seen field name)
    → IsDependency self name × (has name seen ≡ false)
unfolding validate_dependency_name
validate_dependency_name-IsDependency self seen field name h =
    elim (Bool-cases (is_valid_service_name name)) [
      | inr bad ↦ absurd (true-ne-false (report-IsQuiet true field _ (rw bad at h)))
      | inl good ↦
          let (other, rest) = report-append (name == self) field _ _ (rw good at h) in
          (
            (good, ground (arith, eq_iff name self)),
            repeated-none field name (lookup name seen) rest,
          )
    ]

noted :
    (seen : Map String) (field name : String)
    → is_valid_service_name name ≡ true
    → has name seen ≡ false
    → note_dependency seen field name ≡ insert name field seen
unfolding note_dependency
noted seen field name valid new = elim (Option-cases (lookup name seen)) [
  | inl e ↦ rw (valid, e) refl
  | inr (v, e) ↦ absurd (true-ne-false (rw e at new))
]

has-note :
    (seen : Map String) (field name x : String)
    → is_valid_service_name name ≡ true
    → has name seen ≡ false
    → has x (note_dependency seen field name) ≡ (name == x || has x seen)
unfolding note_dependency
has-note seen field name x valid new =
    rw (noted seen field name valid new, lookup-insert name x field seen) (ground arith)

canonical-supported :
    (field condition : String)
    → IsQuiet (validate_canonical field true true condition)
    → is_supported_dependency_condition condition ≡ true
unfolding validate_canonical
canonical-supported field condition h = elim (Bool-cases (condition == "")) [
  | inl empty ↦ absurd (true-ne-false (report-IsQuiet true field _ (rw empty at h)))
  | inr some_text ↦
      let refused =
        report-IsQuiet (not (is_supported_dependency_condition condition)) field _
          (rw some_text at h) in
      ground arith
]

validate_when-supported :
    (field condition : String)
    → IsQuiet (validate_when field condition true true)
    → is_supported_dependency_condition (canonical_catalog_condition condition) ≡ true
unfolding validate_when
validate_when-supported field condition h =
    canonical-supported field (canonical_catalog_condition condition) h

-- What the loops have established of the names that are left.
record IsNoted (self : String) (seen : Map String) (names : List String) : Type 0 where
  good : All (IsDependency self) names
  once : (x : String) → count x names ≤ 1
  never : (x : String) → has x seen ≡ true → count x names ≡ 0

IsNoted-cons :
    (self : String) (seen : Map String) (field name : String) (names : List String)
    → IsQuiet (validate_dependency_name self seen field name)
    → IsNoted self (note_dependency seen field name) names
    → IsNoted self seen (name ∷ names)
IsNoted-cons self seen field name names h rest =
    let (good, new) = validate_dependency_name-IsDependency self seen field name h in
    record {
      good = (good, rest.good);
      once = λ x.
          ground (
            arith,
            rest.once x,
            rest.never x,
            has-note seen field name x good.0 new,
            eq_iff name x,
          );
      never = λ x held.
          ground (arith, rest.never x, has-note seen field name x good.0 new, eq_iff name x);
    }

abbrev pub names_of : List ConditionalDependency → List String
names_of [] = []
names_of (d ∷ ds) = d.name ∷ names_of ds

validate_conditional_dependencies-IsNoted :
    (self : String) (seen : Map String) (i : ℕ) (ds : List ConditionalDependency)
    → IsQuiet (validate_conditional_dependencies self seen i ds)
    → IsNoted self seen (names_of ds) × All IsGuarded ds
unfolding validate_conditional_dependencies
validate_conditional_dependencies-IsNoted self seen i [] h =
    (record { good = tt; once = λ x. omega arith; never = λ x _. refl }, tt)
validate_conditional_dependencies-IsNoted self seen i (d ∷ ds) h =
    let field = item "spec.dependencies.conditional" i "" in
    let (name, rest) =
      IsQuiet-append (validate_dependency_name self seen (field <> ".name") d.name) _ h in
    let (guard, rest) = IsQuiet-append (validate_when (field <> ".when") d.when true true) _ rest in
    let (startup, rest) =
      report-append (not (contains supported_dependency_startup_conditions d.condition)) _ _ _
        rest in
    let (noted, guarded) =
      validate_conditional_dependencies-IsNoted self
        (note_dependency seen (field <> ".name") d.name) (suc i) ds rest in
    (
      IsNoted-cons self seen (field <> ".name") d.name (names_of ds) name noted,
      ((validate_when-supported (field <> ".when") d.when guard, ground arith), guarded),
    )

validate_dependencies-IsNoted :
    (self : String) (seen : Map String) (i : ℕ) (names : List String)
    (ds : List ConditionalDependency)
    → IsQuiet (validate_dependencies self seen i names ds)
    → IsNoted self seen (names ++ names_of ds) × All IsGuarded ds
unfolding validate_dependencies
validate_dependencies-IsNoted self seen i [] ds h =
    validate_conditional_dependencies-IsNoted self seen 0 ds h
validate_dependencies-IsNoted self seen i (name ∷ names) ds h =
    let field = item "spec.dependencies.required" i "" in
    let (first, rest) = IsQuiet-append (validate_dependency_name self seen field name) _ h in
    let (noted, guarded) =
      validate_dependencies-IsNoted self (note_dependency seen field name) (suc i) names ds rest in
    (IsNoted-cons self seen field name (names ++ names_of ds) first noted, guarded)

-- The activation and the dependencies of a definition that reports no error.
pub record HasConditions (def : ServiceDefinition) : Type 0 where
  pub one_selector : selectors def.conditions ≡ 1
  pub dependencies :
      All
        (IsDependency def.metadata.name)
        (def.spec.dependencies.required ++ names_of def.spec.dependencies.conditional)
  pub once :
      (name : String)
      → count name (def.spec.dependencies.required ++ names_of def.spec.dependencies.conditional)
        ≤ 1
  pub guarded : All IsGuarded def.spec.dependencies.conditional

validate_selectors-one : (c : Conditions) → IsQuiet (validate_selectors c) → selectors c ≡ 1
unfolding validate_selectors
validate_selectors-one c h =
    let (_, rest) =
      report-append
        (c.require_config != "" && not (contains supported_require_config c.require_config)) _ _ _
        h in
    let refused = report-IsQuiet (not (nat_eq (selectors c) 1)) _ _ rest in ground arith

-- A definition whose conditions are checked without an error sets exactly one activation selector;
-- every name that it depends on is a valid name other than its own, and no name occurs twice, also
-- not once as a required and once as a conditional dependency; every conditional dependency has a
-- supported condition and a supported startup condition.
pub validate_conditions-HasConditions :
    (def : ServiceDefinition) → IsQuiet (validate_conditions def) → HasConditions def
unfolding validate_conditions
validate_conditions-HasConditions def h =
    let (selected, rest) = IsQuiet-append (validate_selectors def.conditions) _ h in
    let (noted, guarded) =
      validate_dependencies-IsNoted def.metadata.name [] 0 def.spec.dependencies.required
        def.spec.dependencies.conditional (past (validate_conditional_parts def.spec) _ rest) in
    record {
      one_selector = validate_selectors-one def.conditions selected;
      dependencies = noted.good;
      once = noted.once;
      guarded = guarded;
    }
