-- ===== src/Base/Paths.antt =====
-- Go's path/filepath on Unix, lexically: a cleaned path is its root flag and its elements.
pub mod Laws
pub mod Relative
use Prim.Native.Nat.{ℕ, ◌+◌}
use Prim.Native.String.{String}
use mathlib.Core.Path.{◌≡◌, refl}
use mathlib.Core.Bool.{Bool, true, false, ◌&&◌, beq}
use mathlib.Core.Option.{Option, none, some}
use mathlib.Core.List.{List, [], ◌∷◌, ◌++◌, reverse}
use sdbx.Base.Tests.{nat_eq, if◌then◌else◌}
use sdbx.Base.Text.{codes, codes_eq, split}

abbrev pub Element : Type 0
Element = List ℕ

pub record CleanPath : Type 0 where
  pub rooted : Bool
  pub parts : List Element

abbrev pub dot : Element
dot = b'.' ∷ []

abbrev pub dotdot : Element
dotdot = b'.' ∷ b'.' ∷ []

-- filepath.IsAbs
unfoldable pub is_abs : String → Bool
is_abs s = elim (codes s) [ [] ↦ false | c ∷ _ ↦ nat_eq c b'/' ]

-- A ".." element, at the elements read so far, the last one first.
unfoldable pub up : Bool → List Element → List Element
up rooted [] = if rooted then [] else dotdot ∷ []
up rooted (top ∷ rest) = if codes_eq top dotdot then dotdot ∷ top ∷ rest else rest

unfoldable pub step : Bool → List Element → Element → List Element
unfolding up
step rooted stack [] = stack
step rooted stack (c ∷ part) =
    if codes_eq (c ∷ part) dot
    then stack
    else if codes_eq (c ∷ part) dotdot
    then up rooted stack
    else (c ∷ part) ∷ stack

unfoldable pub resolve : Bool → List Element → List Element → List Element
unfolding step
resolve rooted stack [] = stack
resolve rooted stack (part ∷ parts) = resolve rooted (step rooted stack part) parts

-- filepath.Clean
unfoldable pub clean : String → CleanPath
unfolding is_abs resolve split
clean s = record {
  rooted = is_abs s;
  parts = reverse (resolve (is_abs s) [] (split b'/' (codes s)));
}

-- filepath.Join(p, s)
unfoldable pub join : CleanPath → String → CleanPath
unfolding resolve split
join p s = record {
  rooted = p.rooted;
  parts = reverse (resolve p.rooted (reverse p.parts) (split b'/' (codes s)));
}

abbrev pub parts_eq : List Element → List Element → Bool
parts_eq [] [] = true
parts_eq [] (q ∷ qs) = false
parts_eq (p ∷ ps) [] = false
parts_eq (p ∷ ps) (q ∷ qs) = codes_eq p q && parts_eq ps qs

-- Equality of two cleaned paths as texts.
unfoldable pub path_eq : CleanPath → CleanPath → Bool
path_eq p q = beq p.rooted q.rooted && parts_eq p.parts q.parts

-- The elements of two paths behind their longest common prefix.
unfoldable pub strip : List Element → List Element → List Element × List Element
strip [] ts = ([], ts)
strip (b ∷ bs) [] = (b ∷ bs, [])
strip (b ∷ bs) (t ∷ ts) = let rest = strip bs ts in if codes_eq b t then rest else (b ∷ bs, t ∷ ts)

unfoldable pub up_for_each : List Element → List Element
up_for_each [] = []
up_for_each (_ ∷ bs) = dotdot ∷ up_for_each bs

unfoldable pub relative : List Element × List Element → Option (List Element)
relative (bs, ts) = if parts_eq bs (dotdot ∷ []) then none else some (up_for_each bs ++ ts)

-- filepath.Rel of two cleaned paths; `none` is its error.
unfoldable pub rel : CleanPath → CleanPath → Option (List Element)
unfolding strip relative up_for_each
rel base target =
    if beq base.rooted target.rooted then relative (strip base.parts target.parts) else none

join_parts : List Element → List ℕ
join_parts [] = []
join_parts (p ∷ []) = p
join_parts (p ∷ q ∷ ps) = p ++ (b'/' ∷ join_parts (q ∷ ps))

-- The text of a cleaned path.
unfoldable pub render : CleanPath → List ℕ
unfolding join_parts
render p =
    if p.rooted
    then b'/' ∷ join_parts p.parts
    else elim p.parts [ [] ↦ dot | q ∷ qs ↦ join_parts (q ∷ qs) ]

-- Everything up to the last slash.
up_to_slash : List ℕ → List ℕ
up_to_slash [] = []
up_to_slash (c ∷ s) =
    let rest = up_to_slash s in
    elim rest [ [] ↦ (if nat_eq c b'/' then c ∷ [] else []) | d ∷ ds ↦ c ∷ d ∷ ds ]

clean_codes : List ℕ → CleanPath
unfolding resolve split
clean_codes s =
    let rooted : Bool = elim s [ [] ↦ false | c ∷ _ ↦ nat_eq c b'/' ] in
    record { rooted = rooted; parts = reverse (resolve rooted [] (split b'/' s)) }

-- filepath.Dir(s) == s
unfoldable pub is_own_dir : String → Bool
unfolding render up_to_slash clean_codes
is_own_dir s = codes_eq (render (clean_codes (up_to_slash (codes s)))) (codes s)

-- The number of separators in the text of a cleaned path.
unfoldable pub slashes : List ℕ → ℕ
slashes [] = 0
slashes (c ∷ s) = (if nat_eq c b'/' then 1 else 0) + slashes s

clean_test : clean "/a/./b//../c/" ≡ record { rooted = true; parts = codes "a" ∷ codes "c" ∷ [] }
unfolding clean
clean_test = refl

clean_escape : clean "x/../../y" ≡ record { rooted = false; parts = dotdot ∷ codes "y" ∷ [] }
unfolding clean
clean_escape = refl

own_dir_test : (is_own_dir "/" ≡ true) × (is_own_dir "//" ≡ false) × (is_own_dir "/a" ≡ false)
unfolding is_own_dir
own_dir_test = (refl, refl, refl)
