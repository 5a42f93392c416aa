-- ===== src/Matrices/Results.antt =====
-- `add_matrix` and `mul_matrix` of lab02/zad2/src/matrixes.c against sums written out.
use operating_systems_agh_la.Base.{
  ℕ, zero, suc, ◌<◌, ◌≡◌, refl, ◌≢◌, inl, false, some, ◌==◌, ◌&&◌, arith, ◌∙◌,
}
use operating_systems_agh_la.Matrices.{
  Ptr, Rows, Cells, Arithmetic, for_loop, load_cell, store_cell, add_cell, add_matrix, add_product,
  mul_cell, mul_matrix,
}
use operating_systems_agh_la.Matrices.Fill.{
  Ends, Ends-bind, Ends-mono, for_loop-Ends, Wrote, Filled, Before, fill-Filled,
}

-- The matrix at `m` has the rows `p` and the entries `v`.
pub record IsMatrix {D : Type 0} (rows : Rows) (m : Ptr) (row col : ℕ) (p : ℕ → Ptr) (v : ℕ → ℕ → D)
    (c : Cells D) : Type 0 where
  pub row_at : (i : ℕ) → i < row → rows m i ≡ some (p i)
  pub entry : (i j : ℕ) → i < row → j < col → c (p i) j ≡ some (v i j)

-- No two rows of a matrix are the same memory.
abbrev pub DistinctRows : ℕ → (ℕ → Ptr) → Type 0
DistinctRows row p = (i i' : ℕ) → i < row → i' < row → p i ≡ p i' → i ≡ i'

-- A row of one matrix is no row of the other.
abbrev pub ApartRows : (n : ℕ) → (ℕ → Ptr) → (row : ℕ) → (ℕ → Ptr) → Type 0
ApartRows n p row r = (i i' : ℕ) → i < n → i' < row → p i ≢ r i'

-- A row of one matrix may be the same row of the other, but no other row.
abbrev pub RowByRow : ℕ → (p r : ℕ → Ptr) → Type 0
RowByRow row p r = (i i' : ℕ) → i < row → i' < row → p i ≡ r i' → i ≡ i'

-- The result has the entries `v`, and no other cell has changed.
pub record Result {D : Type 0} (rows : Rows) (m : Ptr) (row col : ℕ) (r : ℕ → Ptr) (v : ℕ → ℕ → D)
    (c d : Cells D) : Type 0 where
  pub matrix : IsMatrix rows m row col r v d
  pub others : (q : Ptr) (l : ℕ) → ((i : ℕ) → i < row → l < col → q ≢ r i) → d q l ≡ c q l

-- The first `k` products of the row `i` with the column `j`, added from the left to 0.
unfoldable pub dot : {D : Type 0} → Arithmetic D → (x y : ℕ → ℕ → D) → (i j k : ℕ) → D
dot ar x y i j zero = ar.null
dot ar x y i j (suc k) = ar.add (dot ar x y i j k) (ar.mul (x i k) (y k j))

module _ {D : Type 0} (ar : Arithmetic D) (rows : Rows) where
  load_cell-some :
      (m : Ptr) (i j : ℕ) (p : Ptr) (v : D) (c : Cells D)
      → rows m i ≡ some p
      → c p j ≡ some v
      → load_cell ar rows m i j c ≡ some v
  unfolding load_cell
  load_cell-some m i j p v c e e' = rw (e, e')

  store_cell-Wrote :
      (m : Ptr) (i j : ℕ) (p : Ptr) (old v : D) (c : Cells D)
      → rows m i ≡ some p
      → c p j ≡ some old
      → Ends (Wrote p j v c) (store_cell ar rows m i j v c)
  unfolding store_cell
  store_cell-Wrote m i j p old v c e e' =
      rw (e, e') record { value = ground arith; others = λ q l miss. rw miss refl }

  module _ (m : Ptr) (row col : ℕ) (r : ℕ → Ptr) (old : ℕ → ℕ → D) (c : Cells D)
      (is : IsMatrix rows m row col r old c) (distinct : DistinctRows row r) where
    reached : (i j i' : ℕ) → i < row → Before col i j i' j → i' < row
    reached i j i' in_row b = ground arith

    inside : (i' l : ℕ) → Before col row 0 i' l → i' < row
    inside i' l b = ground arith

    column : (i' l : ℕ) → Before col row 0 i' l → l < col
    column i' l b = ground arith

    not-Before : (i j i' : ℕ) → Before col i j i' j → i ≡ i' → ⊥
    not-Before i j i' b e = ground arith

    -- A cell of the result before it is written.
    fresh :
        (v : ℕ → ℕ → D) (i j : ℕ) (d : Cells D)
        → i < row
        → j < col
        → Filled r v col c i j d
        → d (r i) j ≡ some (old i j)
    fresh v i j d in_row in_col f =
        f.others (r i) j
          (λ i' b e. not-Before i j i' b (distinct i i' in_row (reached i j i' in_row b) e))
        ∙ is.entry i j in_row in_col

    Filled-Result :
        (v : ℕ → ℕ → D) (d : Cells D) → Filled r v col c row 0 d → Result rows m row col r v c d
    Filled-Result v d f = record {
      matrix = record {
        row_at = is.row_at;
        entry = λ i j in_row in_col. f.done i j (inl (in_row, in_col));
      };
      others = λ q l u. f.others q l (λ i' b. u i' (inside i' l b) (column i' l b));
    }

    -- A cell of another matrix, where its row may be the same row of the result.
    unread :
        (v : ℕ → ℕ → D) (i j : ℕ) (d : Cells D) (p : ℕ → Ptr)
        → i < row
        → RowByRow row p r
        → Filled r v col c i j d
        → d (p i) j ≡ c (p i) j
    unread v i j d p in_row apart f =
        f.others (p i) j
          (λ i' b e. not-Before i j i' b (apart i i' in_row (reached i j i' in_row b) e))

    module _ (a b : Ptr) (pa pb : ℕ → Ptr) (x y : ℕ → ℕ → D) where
      -- Each entry of the result is the sum of the two entries, if the rows of the result are
      -- different memory. The result may be one of the operands.
      pub add_matrix-sum :
          IsMatrix rows a row col pa x c
          → IsMatrix rows b row col pb y c
          → RowByRow row pa r
          → RowByRow row pb r
          → Ends
              (Result rows m row col r (λ i j. ar.add (x i j) (y i j)) c)
              (add_matrix ar rows a b m row col c)
      unfolding add_matrix add_cell
      add_matrix-sum is_a is_b apart_a apart_b =
          Ends-mono (Filled r sum col c row 0) (Result rows m row col r sum c)
            (add_matrix ar rows a b m row col c)
            (fill-Filled r sum row col c distinct (add_cell ar rows a b m) λ i j d in_row in_col f.
              rw
                (
                  load_cell-some a i j (pa i) (x i j) d (is_a.row_at i in_row)
                      (unread sum i j d pa in_row apart_a f ∙ is_a.entry i j in_row in_col),
                  load_cell-some b i j (pb i) (y i j) d (is_b.row_at i in_row)
                      (unread sum i j d pb in_row apart_b f ∙ is_b.entry i j in_row in_col),
                )
                (store_cell-Wrote m i j (r i) (old i j) (sum i j) d (is.row_at i in_row)
                  (fresh sum i j d in_row in_col f)))
            (Filled-Result sum)
        where
          sum : ℕ → ℕ → D
          sum i j = ar.add (x i j) (y i j)

    module _ (a b : Ptr) (pa pb : ℕ → Ptr) (x y : ℕ → ℕ → D) (n : ℕ)
        (is_a : IsMatrix rows a row n pa x c) (is_b : IsMatrix rows b n col pb y c)
        (apart_a : ApartRows row pa row r) (apart_b : ApartRows n pb row r) where
      product : ℕ → ℕ → D
      product i j = dot ar x y i j n

      -- A cell of an operand, after some cells of the result are written.
      operand :
          (v : ℕ → ℕ → D) (w : D) (i j l : ℕ) (d e : Cells D) (q : Ptr)
          → i < row
          → ((i' : ℕ) → i' < row → q ≢ r i')
          → Filled r v col c i j d
          → Wrote (r i) j w d e
          → e q l ≡ c q l
      operand v w i j l d e q in_row apart f wrote =
          wrote.others q l (miss q (r i) l j (apart i in_row))
          ∙ f.others q l (λ i' b. apart i' (bounded i' b))
        where
          miss : (q p : Ptr) (l k : ℕ) → q ≢ p → ((q == p) && (l == k)) ≡ false
          miss q p l k ne = ground arith

          bounded : (i' : ℕ) → Before col i j i' l → i' < row
          bounded i' b = ground arith

      -- The loop over `k` at one cell.
      add_product-Wrote :
          (i j k : ℕ) (d e : Cells D)
          → i < row
          → j < col
          → k < n
          → Filled r product col c i j d
          → Wrote (r i) j (dot ar x y i j k) d e
          → Ends (Wrote (r i) j (dot ar x y i j (suc k)) d) (add_product ar rows a b m i j k e)
      unfolding add_product dot
      add_product-Wrote i j k d e in_row in_col in_k f w =
          rw
            (
              load_cell-some m i j (r i) (dot ar x y i j k) e (is.row_at i in_row) w.value,
              load_cell-some a i k (pa i) (x i k) e (is_a.row_at i in_row) (
                  operand product (dot ar x y i j k) i j k d e (pa i) in_row
                    (λ i' lt. apart_a i i' in_row lt) f w
                  ∙ is_a.entry i k in_row in_k),
              load_cell-some b k j (pb k) (y k j) e (is_b.row_at k in_k) (
                  operand product (dot ar x y i j k) i j j d e (pb k) in_row
                    (λ i' lt. apart_b k i' in_k lt) f w
                  ∙ is_b.entry k j in_k in_col),
            )
            (Ends-mono (Wrote (r i) j next e) (Wrote (r i) j next d)
              (store_cell ar rows m i j next e)
              (store_cell-Wrote m i j (r i) (dot ar x y i j k) next e (is.row_at i in_row) w.value)
              λ e' w'. record {
                value = w'.value;
                others = λ q l miss. w'.others q l miss ∙ w.others q l miss;
              })
        where
          next : D
          next = ar.add (dot ar x y i j k) (ar.mul (x i k) (y k j))

      mul_cell-Wrote :
          (i j : ℕ) (d : Cells D)
          → i < row
          → j < col
          → Filled r product col c i j d
          → Ends (Wrote (r i) j (product i j) d) (mul_cell ar rows a b m n i j d)
      unfolding mul_cell product dot
      mul_cell-Wrote i j d in_row in_col f =
          Ends-bind (Wrote (r i) j ar.null d) (Wrote (r i) j (product i j) d)
            (store_cell ar rows m i j ar.null d) (for_loop n 0 (add_product ar rows a b m i j))
            (store_cell-Wrote m i j (r i) (old i j) ar.null d (is.row_at i in_row)
              (fresh product i j d in_row in_col f))
            λ e w.
              for_loop-Ends (λ k. Wrote (r i) j (dot ar x y i j k) d)
                (add_product ar rows a b m i j) n e
                (λ k e' in_k w'. add_product-Wrote i j k d e' in_row in_col in_k f w') w

      -- Each entry of the result is the sum of the products of a row with a column, added from the
      -- left to 0, if the rows of the result are different memory, and none is a row of an operand.
      pub mul_matrix-dot :
          (row_b : ℕ)
          → Ends
              (Result rows m row col r (λ i j. dot ar x y i j n) c)
              (mul_matrix ar rows a row n b row_b col m c)
      unfolding mul_matrix product
      mul_matrix-dot row_b =
          Ends-mono (Filled r product col c row 0) (Result rows m row col r product c)
            (mul_matrix ar rows a row n b row_b col m c)
            (fill-Filled r product row col c distinct (mul_cell ar rows a b m n) mul_cell-Wrote)
            (Filled-Result product)
