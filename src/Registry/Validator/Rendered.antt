-- ===== src/Registry/Validator/Rendered.antt =====
-- internal/registry/validator.go: what the patterns find in the templates of a definition
-- that passes.
use mathlib.Core.Path.{subst}
use sdbx.Base.{
  String, Bool, true, false, not, ◌&&◌, List, [], ◌∷◌, Message, Option, none, some, ◌≡◌, ◌≢◌, refl,
  ap, ◌∙◌, ◌⊎◌, inl, inr, All, arith, Bool-cases, ◌<>◌,
}
use sdbx.Config.{contains}
use sdbx.Registry.Types.{ServiceDefinition}
use sdbx.Registry.Validator.Report.{report, say_of, holds_text}
use sdbx.Registry.Validator.Search.{config_references, root_references, catalog_secrets_reference}
use sdbx.Registry.Validator.Container.{Library}
use sdbx.Registry.Validator.Fields.{Field, catalog_string_fields}
use sdbx.Registry.Validator.Laws.{IsQuiet, IsQuiet-append, report-IsQuiet}
use sdbx.Registry.Validator.Templates.{
  allowed_config_fields, templatable_fields, Findings, note, note_references, note_syntax,
  root_allowed, config_allowed, note_template, note_field, note_fields, validate_catalog_templates,
}

-- A template that parses, and in which the patterns for .Secrets, for roots and for fields of .Config
-- find nothing that is not allowed.
pub record IsUnmatched (lib : Library) (value : String) : Type 0 where
  pub parses : lib.parse_error value ≡ none
  pub no_secrets : catalog_secrets_reference value ≡ false
  pub roots : All (λ field. root_allowed field ≡ true) (root_references value)
  pub config : All (λ field. contains allowed_config_fields field ≡ true) (config_references value)

-- A field without a template, or one that may hold one, with a safe template.
abbrev pub IsAllowedField : Library → Field → Type 0
IsAllowedField lib (field, value) =
    (holds_text value "{{" ≡ false)
    ⊎ ((contains templatable_fields field ≡ true) × IsUnmatched lib value)

-- A step that adds errors only, and adds one to nothing where what it looks for holds.
abbrev IsStep {ℓ} : (Findings → Findings) → Type ℓ → Type ℓ
IsStep step P =
    (f : Findings) → IsQuiet (step f).errors → IsQuiet f.errors × (f.seen ≡ [] → P × (step f ≡ f))

true-ne-false : true ≢ false
true-ne-false h = cc

nothing_seen :
    (bad : Bool) (key : String) (f : Findings)
    → f.seen ≡ []
    → (bad && not (contains f.seen key)) ≡ false
    → bad ≡ false
unfolding contains
nothing_seen bad key f empty h =
    let left : (bad && not (contains [] key)) ≡ false =
      subst (λ seen. (bad && not (contains seen key)) ≡ false) empty h in
    ground arith

note-IsStep :
    (bad : Bool) (key : String) (message : Message) → IsStep (note bad key message) (bad ≡ false)
unfolding note contains
note-IsStep bad key message f h = elim (Bool-cases (bad && not (contains f.seen key))) [
  | inl e ↦
      let (_, error) = IsQuiet-append f.errors (report true "templates" message) (rw e at h) in
      absurd (true-ne-false (report-IsQuiet true "templates" message error))
  | inr e ↦ (rw e at h, λ empty. (nothing_seen bad key f empty e, rw e refl))
]

then_step {ℓ κ} :
    {P : Type ℓ} {Q : Type κ} (first second : Findings → Findings)
    → IsStep first P
    → IsStep second Q
    → IsStep (λ f. second (first f)) (P × Q)
then_step first second p q f h =
    let (between, clean) = q (first f) h in
    let (before, first_clean) = p f between in
    (
      before,
      λ empty.
          let (holds, same) = first_clean empty in
          let (also, unchanged) = clean (ap (λ g. g.seen) same ∙ empty) in
          ((holds, also), unchanged ∙ same),
    )

weaken {ℓ κ} :
    {P : Type ℓ} {Q : Type κ} (step : Findings → Findings) → (P → Q) → IsStep step P → IsStep step Q
weaken step to p f h =
    let (before, clean) = p f h in
    (before, λ empty. let (holds, same) = clean empty in (to holds, same))

skip {ℓ} : {P : Type ℓ} → P → IsStep (λ f. f) P
skip p f h = (h, λ _. (p, refl))

note_references-IsStep :
    (allowed : String → Bool) (prefix format : String) (fields : List String)
    → IsStep
        (note_references allowed prefix format fields)
        (All (λ field. allowed field ≡ true) fields)
unfolding note_references
note_references-IsStep allowed prefix format [] = skip tt
note_references-IsStep allowed prefix format (field ∷ fields) =
    weaken _ (λ (bad, rest). (ground arith, rest))
      (then_step (note (not (allowed field)) (prefix <> field) (say_of format field))
        (note_references allowed prefix format fields)
        (note-IsStep (not (allowed field)) (prefix <> field) (say_of format field))
        (note_references-IsStep allowed prefix format fields))

note_syntax-IsStep : (value : String) (o : Option String) → IsStep (note_syntax value o) (o ≡ none)
unfolding note_syntax
note_syntax-IsStep value none = skip refl
note_syntax-IsStep value (some message) =
    weaken _ (λ bad. absurd (true-ne-false bad))
      (note-IsStep true ("syntax:" <> value)
        (say_of "catalog template syntax is invalid: %v" message))

module _ (lib : Library) where
  note_template-IsStep : (value : String) → IsStep (note_template lib value) (IsUnmatched lib value)
  unfolding note_template
  note_template-IsStep value =
      weaken _
        (λ (((parses, no_secrets), roots), config). record {
          parses = parses;
          no_secrets = no_secrets;
          roots = roots;
          config = config;
        })
        (then_step _ _
          (then_step _ _
            (then_step _ _ (note_syntax-IsStep value (lib.parse_error value))
              (note-IsStep (catalog_secrets_reference value) "Secrets" _))
            (note_references-IsStep root_allowed "root." _ (root_references value)))
          (note_references-IsStep config_allowed "Config." _ (config_references value)))

  note_field-IsStep : (field : Field) → IsStep (note_field lib field) (IsAllowedField lib field)
  unfolding note_field
  note_field-IsStep (field, value) = elim (Bool-cases (holds_text value "{{")) [
    | inr plain ↦ rw plain (skip (inl refl))
    | inl template ↦ elim (Bool-cases (contains templatable_fields field)) [
      | inl allowed ↦
          rw (template, allowed) (weaken _ (λ safe. inr (refl, safe)) (note_template-IsStep value))
      | inr refused ↦
          rw (template, refused)
            (weaken _ (λ bad. absurd (true-ne-false bad))
              (note-IsStep true ("unsupported:" <> field)
                (say_of "catalog templates are not supported in %s" field)))
    ]
  ]

  note_fields-IsStep :
      (fields : List Field) → IsStep (note_fields lib fields) (All (IsAllowedField lib) fields)
  unfolding note_fields
  note_fields-IsStep [] = skip tt
  note_fields-IsStep (field ∷ fields) =
      then_step (note_field lib field) (note_fields lib fields) (note_field-IsStep field)
        (note_fields-IsStep fields)

  -- In a definition whose templates are checked without an error, each text that holds "{{" stands
  -- in a field that may hold a template; it parses; the pattern of a use of .Secrets has no match in
  -- it; each match of the pattern of a root names Config or Name; and each match of the pattern of a
  -- field of .Config names a listed field. What a template reads without a match of these patterns,
  -- through "$" or a variable, is not limited by them.
  pub validate_catalog_templates-All :
      (def : ServiceDefinition)
      → IsQuiet (validate_catalog_templates lib def)
      → All (IsAllowedField lib) (catalog_string_fields def)
  unfolding validate_catalog_templates
  validate_catalog_templates-All def h =
      let (_, clean) =
        note_fields-IsStep (catalog_string_fields def) (record { seen = []; errors = [] }) h in
      (clean refl).0
