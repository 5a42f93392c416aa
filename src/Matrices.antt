-- ===== src/Matrices.antt =====
-- Sums and products of matrices, lab02/zad2/src/matrixes.c. A matrix is the address of an array of
-- addresses of rows; the cells of a row are numbers of the machine's `type`, whose operations are
-- parameters. The functions write cells only, so that the arrays of addresses stay as they are.
pub mod Fill
pub mod Results
mod Examples
use operating_systems_agh_la.Base.{ℕ, zero, suc, Option, none, some, ◌==◌, ◌&&◌, if◌then◌else◌}

abbrev pub Ptr : Type 0
Ptr = ℕ

pub record Arithmetic (D : Type 0) : Type 0 where
  pub null : D
  pub add : D → D → D
  pub mul : D → D → D

-- `matrix[i]`, or `none` outside the memory
abbrev pub Rows : Type 0
Rows = Ptr → ℕ → Option Ptr

-- `row[j]` likewise
abbrev pub Cells : Type 0 → Type 0
Cells D = Ptr → ℕ → Option D

infixl 5 ◌>>=◌
abbrev pub ◌>>=◌ : {A B : Type 0} → Option A → (A → Option B) → Option B
none >>= f = none
some x >>= f = f x

abbrev pub put : {D : Type 0} → Cells D → Ptr → ℕ → D → Cells D
put c p j v q l = if (q == p) && (l == j) then some v else c q l

-- `for(i = first; rounds more of them; ++i) body`
pub for_loop : {S : Type 0} → (rounds first : ℕ) → (ℕ → S → Option S) → S → Option S
for_loop zero i body c = some c
for_loop (suc n) i body c = do c' ← body i c; for_loop n (suc i) body c'

module _ {D : Type 0} (ar : Arithmetic D) (rows : Rows) where
  -- `m[i][j]` and `m[i][j] = v`, with a fault outside the memory
  pub load_cell : Ptr → (i j : ℕ) → Cells D → Option D
  load_cell m i j c = do r ← rows m i; c r j

  pub store_cell : Ptr → (i j : ℕ) → D → Cells D → Option (Cells D)
  store_cell m i j v c = do r ← rows m i; _ ← c r j; some (put c r j v)

  pub add_cell : (a b result : Ptr) → (i j : ℕ) → Cells D → Option (Cells D)
  unfolding load_cell store_cell
  add_cell a b result i j c = do
    x ← load_cell a i j c
    y ← load_cell b i j c
    store_cell result i j (ar.add x y) c

  -- A negative `row` or `col` is as good as 0.
  pub add_matrix : (a b result : Ptr) → (row col : ℕ) → Cells D → Option (Cells D)
  unfolding add_cell
  add_matrix a b result row col = for_loop row 0 λ i. for_loop col 0 λ j. add_cell a b result i j

  pub add_product : (a b result : Ptr) → (i j k : ℕ) → Cells D → Option (Cells D)
  unfolding load_cell store_cell
  add_product a b result i j k c = do
    x ← load_cell result i j c
    y ← load_cell a i k c
    z ← load_cell b k j c
    store_cell result i j (ar.add x (ar.mul y z)) c

  pub mul_cell : (a b result : Ptr) → (col_a : ℕ) → (i j : ℕ) → Cells D → Option (Cells D)
  unfolding add_product
  mul_cell a b result col_a i j c = do
    c' ← store_cell result i j ar.null c
    for_loop col_a 0 (add_product a b result i j) c'

  -- The parameter `rowB` is not used.
  pub mul_matrix :
      (a : Ptr)
      → (row_a col_a : ℕ) → (b : Ptr) → (row_b col_b : ℕ) → (result : Ptr) → Cells D
      → Option (Cells D)
  unfolding mul_cell
  mul_matrix a row_a col_a b row_b col_b result =
      for_loop row_a 0 λ i. for_loop col_b 0 λ j. mul_cell a b result col_a i j
