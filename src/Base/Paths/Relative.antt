-- ===== src/Base/Paths/Relative.antt =====
-- The shape of a cleaned relative path: names behind a run of ".." elements.
use sdbx.Base.Tests.{Bool-cases}
use mathlib.Core.Path.{◌≡◌, refl, ◌∙◌}
use mathlib.Core.Logic.{◌⊎◌, inl, inr}
use mathlib.Core.Bool.{true, false}
use mathlib.Core.Option.{Option, none, some}
use mathlib.Core.List.{List, [], ◌∷◌, ◌++◌, reverse, reverse-cons}
use Prim.Native.String.{String}
use sdbx.Base.Lists.{All}
use sdbx.Base.Text.{codes, codes_eq, split}
use sdbx.Base.Paths.{Element, dot, dotdot, is_abs, up, step, resolve, clean}
use sdbx.Base.Paths.Laws.{IsPlain, All-reverse}

abbrev IsUp : Element → Type 0
IsUp e = codes_eq e dotdot ≡ true

-- The stack of `resolve`, its last element first.
abbrev Shape : List Element → Type 0
Shape [] = Unit
Shape (e ∷ es) = IsPlain e × Shape es ⊎ IsUp e × All IsUp es

Shape-of_up : (es : List Element) → All IsUp es → Shape es
Shape-of_up [] h = tt
Shape-of_up (e ∷ es) h = inr h

Shape-up : (es : List Element) → Shape es → Shape (up false es)
unfolding up
Shape-up [] h = inr (refl, tt)
Shape-up (e ∷ es) (inl (p, h)) = rw p.not_dotdot h
Shape-up (e ∷ es) (inr (u, h)) = rw u (inr (refl, (u, h)))

Shape-step : (es : List Element) (e : Element) → Shape es → Shape (step false es e)
unfolding step
Shape-step es [] h = h
Shape-step es (c ∷ e) h = elim (Bool-cases (codes_eq (c ∷ e) dot)) [
  | inl d ↦ rw d h
  | inr d ↦ elim (Bool-cases (codes_eq (c ∷ e) dotdot)) [
    | inl u ↦ rw (d, u) (Shape-up es h)
    | inr u ↦ rw (d, u) (inl (record { named = λ e. cc; not_dot = d; not_dotdot = u }, h))
  ]
]

Shape-resolve : (es ps : List Element) → Shape es → Shape (resolve false es ps)
unfolding resolve
Shape-resolve es [] h = h
Shape-resolve es (p ∷ ps) h = Shape-resolve (step false es p) ps (Shape-step es p h)

abbrev or_else : Option Element → Element → Option Element
or_else none e = some e
or_else (some f) e = some f

abbrev bottom : List Element → Option Element
bottom [] = none
bottom (e ∷ es) = or_else (bottom es) e

abbrev pub first : List Element → Option Element
first [] = none
first (e ∷ es) = some e

first-append : (es : List Element) (e : Element) → first (es ++ (e ∷ [])) ≡ or_else (first es) e
first-append [] e = refl
first-append (f ∷ es) e = refl

first-reverse : (es : List Element) → first (reverse es) ≡ bottom es
first-reverse [] = refl
first-reverse (e ∷ es) =
    rw reverse-cons (first-append (reverse es) e ∙ (λ i. or_else (first-reverse es i) e))

abbrev pub NotUp : Option Element → Type 0
NotUp none = Unit
NotUp (some e) = codes_eq e dotdot ≡ false

NotUp-or_else : (o : Option Element) (e : Element) → NotUp (or_else o e) → NotUp o
NotUp-or_else none e h = tt
NotUp-or_else (some f) e h = h

not-NotUp_of_up :
    (e : Element) (es : List Element) → IsUp e → All IsUp es → ¬ NotUp (bottom (e ∷ es))
not-NotUp_of_up e [] u h n = cc
not-NotUp_of_up e (f ∷ es) u h n =
    not-NotUp_of_up f es h.0 h.1 (NotUp-or_else (bottom (f ∷ es)) e n)

All-IsPlain : (es : List Element) → Shape es → NotUp (bottom es) → All IsPlain es
All-IsPlain [] h n = tt
All-IsPlain (e ∷ es) (inl (p, h)) n = (p, All-IsPlain es h (NotUp-or_else (bottom es) e n))
All-IsPlain (e ∷ es) (inr (u, h)) n = absurd (not-NotUp_of_up e es u h n)

-- If a cleaned relative path does not begin with "..", all its elements are names.
pub clean-IsPlain_of_first :
    (s : String) → is_abs s ≡ false → NotUp (first (clean s).parts) → All IsPlain (clean s).parts
unfolding clean
clean-IsPlain_of_first s rel n = rw rel (
    All-reverse _ (
      All-IsPlain _ (Shape-resolve [] (split b'/' (codes s)) tt)
        (rw (← first-reverse) (rw (rel) at n))))
