-- ===== src/Base/Maps.antt =====
-- Maps from numbers, as functions.
use Prim.Native.Nat.{ℕ}
use operating_systems_agh_la.Base.Tests.{◌==◌, if◌then◌else◌}

-- a map with one entry replaced
abbrev pub update {ℓ} : {A : Type ℓ} → (ℕ → A) → ℕ → A → ℕ → A
update f p v q = if q == p then v else f q
