-- ===== src/Addons/Bulk.antt =====
-- internal/addons/manager.go: `BulkEnable` reports on every name, enables what it reports as
-- enabled, and undoes all of it if the regeneration fails.
use sdbx.Generator.{Generator}
use sdbx.Registry.Types.Resolved.{ResolutionGraph}
use sdbx.Base.{
  String, true, false, ◌==◌, List, [], ◌∷◌, ◌++◌, map, some, Result, ok, err, ◌≡◌, refl, sym, ◌∙◌,
  ◌⊎◌, inl, inr, Bool-cases, Result-cases, keep, or-false, Option,
}
use mathlib.Core.List.{append-nil, append_assoc}
use sdbx.Config.{Config, is_addon_enabled, enable_addon}
use sdbx.Registry.Resolver.{Catalog}
use sdbx.Addons.{
  Error, Manager, Outcome, BulkResult, BulkOutcome, ready, set_addons, regenerate, bulk_action,
  bulk_change, enable_each, mutated, settle_bulk, bulk_ready, bulk_enable, is_addon,
}
use sdbx.Addons.Rollback.{
  ready-config, set_addons_back, regenerate-IsRegenerated, IsGenerated, IsRolledBack,
  untouched-IsRolledBack, called-IsRolledBack,
}

-- One result for each name, in the order of the request.
abbrev pub names_of : List BulkResult → List String
names_of results = map (λ r. r.name) results

-- The names that the results report as enabled.
abbrev pub enabled_of : List BulkResult → List String
enabled_of results = names_of (keep (λ r. r.action == "enabled") results)

bulk_change-addons :
    (catalog : Catalog) (c : Config) (name : String)
    → (bulk_action catalog c name == "enabled") ≡ true
    → bulk_change catalog c name ≡ record c { addons = c.addons ++ (name ∷ []) }
unfolding bulk_change bulk_action enable_addon
bulk_change-addons catalog c name h = elim (Bool-cases (is_addon catalog name)) [
  | inl e ↦ elim (Bool-cases (is_addon_enabled c name)) [
    | inl f ↦ cc (rw (e, f) at h)
    | inr f ↦ rw (e, f) refl
  ]
  | inr e ↦ cc (rw e at h)
]

bulk_change-same :
    (catalog : Catalog) (c : Config) (name : String)
    → (bulk_action catalog c name == "enabled") ≡ false
    → bulk_change catalog c name ≡ c
unfolding bulk_change
bulk_change-same catalog c name h = rw h refl

-- The loop appends the names that it reports as enabled to the addons, and changes nothing else.
enable_each-addons :
    (catalog : Catalog) (names : List String) (c : Config)
    → (enable_each catalog names c).0
      ≡ record c { addons = c.addons ++ enabled_of (enable_each catalog names c).1 }
unfolding enable_each
enable_each-addons catalog [] c = λ i. record c { addons = sym (append-nil c.addons) i }
enable_each-addons catalog (name ∷ names) c =
    let more = enable_each-addons catalog names (bulk_change catalog c name) in
    let rest = enabled_of (enable_each catalog names (bulk_change catalog c name)).1 in
    elim (Bool-cases (bulk_action catalog c name == "enabled")) [
      | inl e ↦
          let change = bulk_change-addons catalog c name e in
          rw e (
            more
            ∙ (λ i. record (change i) { addons = (change i).addons ++ rest })
            ∙ (λ i. record c { addons = append_assoc c.addons (name ∷ []) rest i }))
      | inr e ↦
          let same = bulk_change-same catalog c name e in
          rw e (more ∙ (λ i. record (same i) { addons = (same i).addons ++ rest }))
    ]

-- Without a name reported as enabled, `mutated` stays false.
not_mutated : (results : List BulkResult) → mutated results ≡ false → enabled_of results ≡ []
unfolding mutated
not_mutated [] h = refl
not_mutated (r ∷ results) h =
    let (here, later) = or-false (r.action == "enabled") (mutated results) h in
    rw here (not_mutated results later)

module _ {Lock Image Files : Type 0} (gen : Generator Lock Image Files) where
  -- What a call that succeeds has done. The results tell it: `changed` is the configuration with the
  -- names that they report as enabled in addition.
  pub record IsBulkDone (names : List String) (m : Manager Lock Image) (files : Files)
      (o : BulkOutcome Lock Image Files) : Type 0 where
    pub before : Config
    pub catalog : Catalog
    pub was : ready m ≡ ok (before, catalog)
    pub reported : names_of o.results ≡ names
    pub changed : Config
    pub added : changed ≡ record before { addons = before.addons ++ enabled_of o.results }
    pub written :
        (mutated o.results ≡ false) × (o.outcome.manager ≡ m) × (o.outcome.files ≡ files)
        ⊎ (mutated o.results ≡ true)
          × (graph : Option ResolutionGraph) × IsGenerated gen changed catalog
              (record m { config = some changed })
              files
              graph
              o.outcome.manager
              o.outcome.files

  settle_bulk-err :
      (results : List BulkResult) (previous : List String) (o : Outcome Lock Image Files (Unit {0}))
      {e : Error}
      → (settle_bulk results previous o).outcome.result ≡ err e
      → (d : Error) × (o.result ≡ err d)
        × ((settle_bulk results previous o).outcome.manager ≡ set_addons previous o.manager)
  unfolding settle_bulk
  settle_bulk-err results previous o h = elim (Result-cases o.result) [
    | inl (a, e) ↦ cc (rw e at h)
    | inr (d, e) ↦ (d, e, rw e refl)
  ]

  bulk_ready-err :
      (names : List String) (guard : Result Error (Config × Catalog)) (m : Manager Lock Image)
      (files : Files) {e : Error}
      → ready m ≡ guard
      → (bulk_ready gen names guard m files).outcome.result ≡ err e
      → IsRolledBack gen m files (bulk_ready gen names guard m files).outcome.manager
  unfolding bulk_ready
  bulk_ready-err names (err d) m files was h = untouched-IsRolledBack gen m files
  bulk_ready-err names (ok (c, catalog)) m files was h =
      let changed = (enable_each catalog names c).0 in
      let mid = record m { config = some changed } in
      elim (Bool-cases (mutated (enable_each catalog names c).1)) [
        | inl e ↦
            let (d, failed, rolled) =
              settle_bulk-err (enable_each catalog names c).1 c.addons
                (regenerate gen changed catalog mid files) (rw e at h) in
            let it = regenerate-IsRegenerated gen changed catalog mid files in
            rw e (
              called-IsRolledBack gen m _ files changed catalog it.graph
                (rolled
                  ∙ (λ i. set_addons c.addons (it.undone failed i))
                  ∙ set_addons_back m c changed it.graph (ready-config m was).0
                      (λ i. record (enable_each-addons catalog names c i) { addons = c.addons }))
                (it.failed failed))
        | inr e ↦ cc (rw e at h)
      ]

  -- Where `BulkEnable` fails, the manager is as it was before the call, its lock and its addons
  -- included, although names are reported as enabled; only the active services of its configuration
  -- may be those that the generator planned before it failed.
  pub bulk_enable_restores :
      (names : List String) (m : Manager Lock Image) (files : Files) {e : Error}
      → (bulk_enable gen names m files).outcome.result ≡ err e
      → IsRolledBack gen m files (bulk_enable gen names m files).outcome.manager
  unfolding bulk_enable
  bulk_enable_restores names m files h = bulk_ready-err names (ready m) m files refl h
