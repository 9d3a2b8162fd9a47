-- ===== src/Transaction/UniquePaths.antt =====
-- internal/generator/transaction.go: `uniqueCleanPaths` keeps every cleaned path once.
use sdbx.Base.{
  String, Bool, true, false, ◌||◌, List, [], ◌∷◌, ◌≡◌, refl, inl, inr, All, All-map, arith,
  Bool-cases, or-false,
}
use sdbx.Base.Paths.{CleanPath, clean, path_eq}
use sdbx.Base.Paths.Laws.{path_eq_refl}
use sdbx.Transaction.{is_seen, unique_from, unique_clean_paths}

abbrev pub HasDistinctPaths : List CleanPath → Type 0
HasDistinctPaths [] = Unit
HasDistinctPaths (p ∷ ps) = All (λ q. path_eq p q ≡ false) ps × HasDistinctPaths ps

record IsUnique (seen : List CleanPath) (paths : List String) (result : List CleanPath)
    : Type 0 where
  fresh : All (λ q. is_seen q seen ≡ false) result
  distinct : HasDistinctPaths result
  covered : All (λ path. (is_seen (clean path) seen || is_seen (clean path) result) ≡ true) paths

IsUnique-skip :
    (seen : List CleanPath) (path : String) (paths : List String) (result : List CleanPath)
    → is_seen (clean path) seen ≡ true
    → IsUnique seen paths result
    → IsUnique seen (path ∷ paths) result
IsUnique-skip seen path paths result old u = record {
  fresh = u.fresh;
  distinct = u.distinct;
  covered = (rw old refl, u.covered);
}

later : (a b c : Bool) → ((a || b) || c) ≡ true → (b || (a || c)) ≡ true
later a b c h = ground arith

here : (a b c : Bool) → b ≡ true → (a || (b || c)) ≡ true
here a b c h = ground arith

IsUnique-take :
    (seen : List CleanPath) (path : String) (paths : List String) (result : List CleanPath)
    → is_seen (clean path) seen ≡ false
    → IsUnique (clean path ∷ seen) paths result
    → IsUnique seen (path ∷ paths) (clean path ∷ result)
IsUnique-take seen path paths result new u = record {
  fresh = (new, All-map _ (λ q. is_seen q seen ≡ false) result (λ q h. (or-false _ _ h).1) u.fresh);
  distinct = (
    All-map _ (λ q. path_eq (clean path) q ≡ false) result (λ q h. (or-false _ _ h).0) u.fresh,
    u.distinct,
  );
  covered = (
    here (is_seen (clean path) seen) _ _ (path_eq_refl (clean path)),
    All-map _ _ paths
        (λ other h.
          later (path_eq (clean path) (clean other)) (is_seen (clean other) seen)
            (is_seen (clean other) result) h)
        u.covered,
  );
}

unique_from-IsUnique :
    (seen : List CleanPath) (paths : List String) → IsUnique seen paths (unique_from seen paths)
unfolding unique_from
unique_from-IsUnique seen [] = record { fresh = tt; distinct = tt; covered = tt }
unique_from-IsUnique seen (path ∷ paths) = elim (Bool-cases (is_seen (clean path) seen)) [
  | inl old ↦ rw old (IsUnique-skip seen path paths _ old (unique_from-IsUnique seen paths))
  | inr new ↦
      rw new (IsUnique-take seen path paths _ new (unique_from-IsUnique (clean path ∷ seen) paths))
]

-- `uniqueCleanPaths` returns no cleaned path twice, and the cleaned path of every path that it is
-- given.
pub unique_clean_paths-HasDistinctPaths :
    (paths : List String)
    → HasDistinctPaths (unique_clean_paths paths)
      × All (λ path. is_seen (clean path) (unique_clean_paths paths) ≡ true) paths
unfolding unique_clean_paths
unique_clean_paths-HasDistinctPaths paths =
    let u = unique_from-IsUnique [] paths in (u.distinct, u.covered)
