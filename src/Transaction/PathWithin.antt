-- ===== src/Transaction/PathWithin.antt =====
-- internal/generator/transaction.go: `pathWithin` of two absolute paths is the prefix test on their
-- cleaned elements.
use sdbx.Base.{
  String, true, List, [], ◌∷◌, ◌++◌, ◌≡◌, refl, ap, ◌∙◌, ◌↔◌, All, Bool-cases, inl, inr,
}
use mathlib.Core.Path.{subst}
use sdbx.Base.Paths.{
  CleanPath, Element, dotdot, is_abs, clean, rel, strip, relative, up_for_each, parts_eq,
}
use sdbx.Base.Paths.Laws.{IsPlain, clean-IsPlain, strip-prefix, strip-append}
use sdbx.Transaction.{path_within, stays_inside}

abbrev pub IsBelow : List Element → List Element → Type 0
IsBelow root target = (rest : List Element) × (target ≡ root ++ rest)

relative-inside : (o : List Element × List Element) → stays_inside (relative o) ≡ true → o.0 ≡ []
unfolding relative up_for_each
relative-inside ([], ts) h = refl
relative-inside (b ∷ bs, ts) h = elim (Bool-cases (parts_eq (b ∷ bs) (dotdot ∷ []))) [
  | inl e ↦ cc (rw e at h)
  | inr e ↦ cc (rw e at h)
]

stays_inside-plain : (ts : List Element) → All IsPlain ts → stays_inside (relative ([], ts)) ≡ true
unfolding relative up_for_each
stays_inside-plain [] h = refl
stays_inside-plain (t ∷ ts) (p, h) = rw p.not_dotdot refl

clean-rooted : (s : String) → is_abs s ≡ true → (clean s).rooted ≡ true
unfolding clean
clean-rooted s h = h

rel-rooted :
    (p q : CleanPath)
    → p.rooted ≡ true
    → q.rooted ≡ true
    → rel p q ≡ relative (strip p.parts q.parts)
unfolding rel
rel-rooted p q h k = rw (h, k) refl

All-drop : (ps qs : List Element) → All IsPlain (ps ++ qs) → All IsPlain qs
All-drop [] qs h = h
All-drop (p ∷ ps) qs (_, h) = All-drop ps qs h

-- `pathWithin` holds of two absolute paths exactly when the elements of the cleaned root are a
-- prefix of the elements of the cleaned target.
pub path_within_iff :
    (root target : String)
    → is_abs root ≡ true
    → is_abs target ≡ true
    → (path_within root target ≡ true) ↔ IsBelow (clean root).parts (clean target).parts
unfolding path_within
path_within_iff root target h k =
    let same =
      rel-rooted (clean root) (clean target) (clean-rooted root h) (clean-rooted target k) in
    let gone = strip (clean root).parts (clean target).parts in
    (
      λ inside.
          let empty = relative-inside gone (subst (λ r. stays_inside r ≡ true) same inside) in
          (
            gone.1,
            strip-prefix (clean root).parts (clean target).parts gone.1 (λ i. (empty i, gone.1)),
          ),
      λ (rest, below).
          let left : gone ≡ ([], rest) =
            ap (strip (clean root).parts) below ∙ strip-append (clean root).parts rest in
          let names =
            All-drop (clean root).parts rest
              (subst (λ ps. All IsPlain ps) below (clean-IsPlain target k)) in
          ap stays_inside (same ∙ ap relative left) ∙ stays_inside-plain rest names,
    )
