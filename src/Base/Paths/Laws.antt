-- ===== src/Base/Paths/Laws.antt =====
-- What cleaning guarantees of a rooted path, and when one path lies below another.
use Prim.Native.String.{String}
use mathlib.Core.Path.{◌≡◌, refl}
use mathlib.Core.Logic.{◌≢◌}
use mathlib.Core.Bool.{true, false}
use mathlib.Core.List.{List, [], ◌∷◌, ◌++◌, reverse, reverse-cons}
use native.Mathlib.Omega.{arith}
use sdbx.Base.Lists.{All, All-append}
use sdbx.Base.Text.{codes, codes_eq, codes_eq→eq, codes_eq_refl, split}
use sdbx.Base.Paths.{
  Element, CleanPath, dot, dotdot, is_abs, step, resolve, clean, parts_eq, path_eq, strip,
}

-- An element that names a file: not "", "." or "..".
pub record IsPlain (e : Element) : Type 0 where
  pub named : e ≢ []
  pub not_dot : codes_eq e dot ≡ false
  pub not_dotdot : codes_eq e dotdot ≡ false

step-IsPlain :
    (stack : List Element) (e : Element) → All IsPlain stack → All IsPlain (step true stack e)
unfolding step
step-IsPlain stack [] h = h
step-IsPlain [] (c ∷ e) h = ground arith
step-IsPlain (top ∷ rest) (c ∷ e) h = ground arith

resolve-IsPlain :
    (stack es : List Element) → All IsPlain stack → All IsPlain (resolve true stack es)
unfolding resolve
resolve-IsPlain stack [] h = h
resolve-IsPlain stack (e ∷ es) h = resolve-IsPlain (step true stack e) es (step-IsPlain stack e h)

pub All-reverse : (es : List Element) → All IsPlain es → All IsPlain (reverse es)
All-reverse [] h = h
All-reverse (e ∷ es) h =
    rw reverse-cons (All-append IsPlain (reverse es) (e ∷ []) (All-reverse es h.1) (h.0, tt))

-- The elements of a cleaned absolute path are names: none is empty, "." or "..".
pub clean-IsPlain : (s : String) → is_abs s ≡ true → All IsPlain (clean s).parts
unfolding clean
clean-IsPlain s h = rw h (All-reverse _ (resolve-IsPlain [] (split b'/' (codes s)) tt))

pub parts_eq→eq : (ps qs : List Element) → parts_eq ps qs ≡ true → ps ≡ qs
parts_eq→eq [] [] h = refl
parts_eq→eq [] (q ∷ qs) h = ground arith
parts_eq→eq (p ∷ ps) [] h = ground arith
parts_eq→eq (p ∷ ps) (q ∷ qs) h = ground (arith, codes_eq→eq p q, parts_eq→eq ps qs)

pub parts_eq_refl : (ps : List Element) → parts_eq ps ps ≡ true
parts_eq_refl [] = refl
parts_eq_refl (p ∷ ps) = ground (arith, codes_eq_refl p, parts_eq_refl ps)

pub path_eq→eq : (p q : CleanPath) → path_eq p q ≡ true → p ≡ q
unfolding path_eq
path_eq→eq p q h = ground (arith, parts_eq→eq p.parts q.parts)

pub path_eq_refl : (p : CleanPath) → path_eq p p ≡ true
unfolding path_eq
path_eq_refl p = ground (arith, parts_eq_refl p.parts)

-- Nothing of the base is left exactly when the target goes on from it.
pub strip-prefix : (bs ts rest : List Element) → strip bs ts ≡ ([], rest) → ts ≡ bs ++ rest
unfolding strip
strip-prefix [] ts rest h = ground arith
strip-prefix (b ∷ bs) [] rest h = ground arith
strip-prefix (b ∷ bs) (t ∷ ts) rest h = ground (arith, codes_eq→eq b t, strip-prefix bs ts rest)

pub strip-append : (bs rest : List Element) → strip bs (bs ++ rest) ≡ ([], rest)
unfolding strip
strip-append [] rest = refl
strip-append (b ∷ bs) rest = ground (arith, codes_eq_refl b, strip-append bs rest)
