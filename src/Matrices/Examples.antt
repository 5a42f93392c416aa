-- ===== src/Matrices/Examples.antt =====
-- The functions of lab02/zad2/src/matrixes.c on matrices of two rows and two columns.
use operating_systems_agh_la.Base.{ℕ, ◌+◌, ◌*◌, ◌≡◌, refl, none, some, ltb, if◌then◌else◌, arith}
use operating_systems_agh_la.Matrices.{Ptr, Rows, Cells, Arithmetic, mul_matrix}
use operating_systems_agh_la.Matrices.Fill.{Ends}
use operating_systems_agh_la.Matrices.Results.{IsMatrix, DistinctRows, Result, dot, mul_matrix-dot}

abbrev numbers : Arithmetic ℕ
numbers = record { null = 0; add = λ a b. a + b; mul = λ a b. a * b }

-- The matrix `m` has the rows `10 * m` and `10 * m + 1`, of two cells each.
abbrev rows : Rows
rows m i = if ltb i 2 then some (10 * m + i) else none

abbrev cells : Cells ℕ
cells p l = if ltb l 2 then some (p + l) else none

abbrev row_of : Ptr → ℕ → Ptr
row_of m i = 10 * m + i

abbrev entries : Ptr → ℕ → ℕ → ℕ
entries m i j = 10 * m + i + j

matrix : (m : Ptr) → IsMatrix rows m 2 2 (row_of m) (entries m) cells
matrix m = record { row_at = λ i lt. ground arith; entry = λ i j lt lt'. ground arith }

distinct : (m : Ptr) → DistinctRows 2 (row_of m)
distinct m i i' lt lt' e = omega arith

mul_matrix-dot_example :
    Ends
      (Result rows 3 2 2 (row_of 3) (λ i j. dot numbers (entries 1) (entries 2) i j 2) cells)
      (mul_matrix numbers rows 1 2 2 2 2 2 3 cells)
mul_matrix-dot_example =
    mul_matrix-dot numbers rows 3 2 2 (row_of 3) (entries 3) cells (matrix 3) (distinct 3) 1 2
      (row_of 1) (row_of 2) (entries 1) (entries 2) 2 (matrix 1) (matrix 2)
      (λ i i' lt lt' e. omega arith) (λ i i' lt lt' e. omega arith) 2

-- 10 * 20 + 11 * 21
dot-first : dot numbers (entries 1) (entries 2) 0 0 2 ≡ 431
unfolding dot
dot-first = refl
