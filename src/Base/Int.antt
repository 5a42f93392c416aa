-- ===== src/Base/Int.antt =====
-- Signed integers, as far as the sources test their sign.
use mathlib.Core.Path.{◌≡◌, refl}
use mathlib.Core.Bool.{Bool, true, false}
use native.Mathlib.Omega.{arith}
use operating_systems_agh_la.Base.Tests.{ltb}
use Prim.Native.Nat.{ℕ}

-- `negsuc n` is -(n + 1).
pub data ℤ : Type 0 where
  pos : ℕ → ℤ
  negsuc : ℕ → ℤ

-- `a > b`
abbrev pub greater : ℤ → ℤ → Bool
greater (pos a) (pos b) = ltb b a
greater (pos a) (negsuc b) = true
greater (negsuc a) (pos b) = false
greater (negsuc a) (negsuc b) = ltb a b

pub greater_asym : (a b : ℤ) → greater a b ≡ true → greater b a ≡ false
greater_asym (pos a) (pos b) g = ground arith
greater_asym (pos a) (negsuc b) g = refl
greater_asym (negsuc a) (pos b) g = ground arith
greater_asym (negsuc a) (negsuc b) g = ground arith

pub greater_irrefl : (a : ℤ) → greater a a ≡ false
greater_irrefl (pos a) = ground arith
greater_irrefl (negsuc a) = ground arith

pub not_greater_trans :
    (a b c : ℤ) → greater a b ≡ false → greater b c ≡ false → greater a c ≡ false
not_greater_trans (pos a) (pos b) (pos c) f g = ground arith
not_greater_trans (pos a) (pos b) (negsuc c) f g = ground arith
not_greater_trans (pos a) (negsuc b) c f g = ground arith
not_greater_trans (negsuc a) b (pos c) f g = refl
not_greater_trans (negsuc a) (pos b) (negsuc c) f g = ground arith
not_greater_trans (negsuc a) (negsuc b) (negsuc c) f g = ground arith
