-- ===== src/Base/Int.antt =====
-- Go's `int` where the program lets it be negative.
use Prim.Native.Nat.{ℕ}
use mathlib.Core.Bool.{Bool, true, false}
use mathlib.Core.Path.{◌≡◌, refl}
use native.Mathlib.Omega.{arith}
use sdbx.Base.Tests.{ltb}

-- `negsuc n` is -(n + 1).
pub data ℤ : Type 0 where
  pos : ℕ → ℤ
  negsuc : ℕ → ℤ

-- i < n, for a constant n that is not negative.
abbrev pub below : ℤ → ℕ → Bool
below (pos k) n = ltb k n
below (negsuc _) n = true

-- i > n, for a constant n that is not negative.
abbrev pub above : ℤ → ℕ → Bool
above (pos k) n = ltb n k
above (negsuc _) n = false

-- i > j
abbrev pub gt : ℤ → ℤ → Bool
gt (pos m) (pos n) = ltb n m
gt (pos m) (negsuc n) = true
gt (negsuc m) (pos n) = false
gt (negsuc m) (negsuc n) = ltb m n

-- If not i > j and not j > k, then not i > k.
pub gt-false_trans : (i j k : ℤ) → gt i j ≡ false → gt j k ≡ false → gt i k ≡ false
gt-false_trans (pos m) (pos n) (pos l) h k = ground arith
gt-false_trans (pos m) (pos n) (negsuc l) h k = cc
gt-false_trans (pos m) (negsuc n) l h k = cc
gt-false_trans (negsuc m) (pos n) (pos l) h k = refl
gt-false_trans (negsuc m) (pos n) (negsuc l) h k = cc
gt-false_trans (negsuc m) (negsuc n) (pos l) h k = refl
gt-false_trans (negsuc m) (negsuc n) (negsuc l) h k = ground arith

-- Not both i > j and j > i.
pub gt_asym : (i j : ℤ) → gt i j ≡ true → gt j i ≡ false
gt_asym (pos m) (pos n) h = ground arith
gt_asym (pos m) (negsuc n) h = refl
gt_asym (negsuc m) (pos n) h = cc
gt_asym (negsuc m) (negsuc n) h = ground arith
