-- ===== src/MemManagement/Bst/Find.antt =====
-- `bst_find_min_node` and `bst_find_max_node` of lab02/zad1/src/bst.c.
use operating_systems_agh_la.Base.{
  ℕ, zero, suc, ◌+◌, ◌<◌, ◌≤◌, ◌≡◌, refl, sym, subst, ◌≢◌, ◌⊎◌, inl, inr, true, some, arith, leb,
  Bool-cases, if◌then◌else◌,
}
use operating_systems_agh_la.MemManagement.Heap.{Ptr, null, Block, BstNode, bst_node, Heap, ok}
use operating_systems_agh_la.MemManagement.Heap.Returns.{Returns, returns}
use operating_systems_agh_la.MemManagement.Bst.{
  Bst, min_loop, bst_find_min_node, max_loop, bst_find_max_node,
}
use operating_systems_agh_la.MemManagement.Bst.Tree
use operating_systems_agh_la.MemManagement.Bst.Tree.{
  Tree, leaf, node, addr, has, count, TreeAt, IsTree, load_tree-ok, ne_null,
}
use operating_systems_agh_la.MemManagement.Bst.Order.{All, All-mono, Ordered}

-- A node of the tree whose block has `q` units or more.
pub record Suits (h : Heap) (q : ℕ) (t : Tree) (p : Ptr) : Type 0 where
  pub inside : has p t ≡ true
  pub ne_null : p ≢ null
  pub content : BstNode
  pub holds : h.trees p ≡ some content
  pub enough : q ≤ content.content.block_quantity

-- What the loop of `bst_find_min_node` returns.
min_spine : ℕ → Ptr → Tree → Ptr
min_spine q result leaf = result
min_spine q result (node a d l r) = if leb q d.block_quantity then min_spine q a l else result

min_loop-spine :
    (k : ℕ) (h : Heap) (par : Ptr) (q : ℕ) (result : Ptr) (t : Tree)
    → count t < k
    → TreeAt h par t
    → min_loop k q result (addr t) h ≡ ok (min_spine q result t) h
unfolding min_loop min_spine
min_loop-spine zero h par q result t fuel at = absurd (omega arith)
min_loop-spine (suc k) h par q result leaf fuel at = refl
min_loop-spine (suc k) h par q result (node a d l r) fuel at =
    elim (Bool-cases (leb q d.block_quantity)) [
      | inl fits ↦
          rw (Tree.ne_null at.0, load_tree-ok h at.0 at.1, fits)
            (min_loop-spine k h a q a l (omega arith) at.2)
      | inr short ↦ rw (Tree.ne_null at.0, load_tree-ok h at.0 at.1, short)
    ]

Suits-left :
    (h : Heap) (q : ℕ) (a : Ptr) (d : Block) (l r : Tree) (p : Ptr)
    → Suits h q l p
    → Suits h q (node a d l r) p
Suits-left h q a d l r p s = record {
  inside = ground (arith, s.inside);
  ne_null = s.ne_null;
  content = s.content;
  holds = s.holds;
  enough = s.enough;
}

Suits-root :
    (h : Heap) (par : Ptr) (q : ℕ) (a : Ptr) (d : Block) (l r : Tree)
    → TreeAt h par (node a d l r)
    → leb q d.block_quantity ≡ true
    → Suits h q (node a d l r) a
Suits-root h par q a d l r at fits = record {
  inside = ground arith;
  ne_null = at.0;
  content = bst_node d (addr l) (addr r) par;
  holds = at.1;
  enough = ground arith;
}

min_spine-Suits :
    (h : Heap) (par : Ptr) (q : ℕ) (result : Ptr) (t : Tree)
    → TreeAt h par t
    → (min_spine q result t ≡ result) ⊎ Suits h q t (min_spine q result t)
unfolding min_spine
min_spine-Suits h par q result leaf at = inl refl
min_spine-Suits h par q result (node a d l r) at = elim (Bool-cases (leb q d.block_quantity)) [
  | inr short ↦ rw short (inl refl)
  | inl fits ↦ rw fits (
      inr (elim (min_spine-Suits h a q a l at.2) [
        | inl e ↦ rw e (Suits-root h par q a d l r at fits)
        | inr s ↦ Suits-left h q a d l r (min_spine q a l) s
      ]))
]

-- The outcome of `bst_find_min_node`: it looks at the left spine only, from the root. It returns
-- NULL if the tree is empty or the root's block is too small, whatever stands to its right, and
-- else a node of the tree whose block is large enough.
abbrev pub MinFound : Heap → ℕ → Tree → Ptr → Type 0
MinFound h q leaf p = p ≡ null
MinFound h q (node a d l r) p =
    if leb q d.block_quantity then Suits h q (node a d l r) p else p ≡ null

MinFound-spine :
    (h : Heap) (par : Ptr) (q : ℕ) (t : Tree) → TreeAt h par t → MinFound h q t (min_spine q null t)
unfolding min_spine
MinFound-spine h par q leaf at = refl
MinFound-spine h par q (node a d l r) at = elim (Bool-cases (leb q d.block_quantity)) [
  | inr short ↦ rw short refl
  | inl fits ↦ rw fits (elim (min_spine-Suits h a q a l at.2) [
    | inl e ↦ rw e (Suits-root h par q a d l r at fits)
    | inr s ↦ Suits-left h q a d l r (min_spine q a l) s
  ])
]

-- `bst_find_min_node` ends, changes nothing, and finds what `MinFound` says.
pub bst_find_min_node-MinFound :
    (h : Heap) (par : Ptr) {b : Bst} (t : Tree) (q : ℕ)
    → IsTree h par b t
    → Returns (λ p g. (g ≡ h) × MinFound h q t p) (bst_find_min_node b q h)
unfolding bst_find_min_node
bst_find_min_node-MinFound h par {b} t q is =
    subst
      (λ r.
        Returns (λ p g. (g ≡ h) × MinFound h q t p)
          (bst_find_min_node (record { root = r; size = b.size }) q h))
      (sym is.root) (at_root t is.nodes is.size)
  where
    at_root :
        (u : Tree)
        → TreeAt h par u
        → b.size ≡ count u
        → Returns
            (λ p g. (g ≡ h) × MinFound h q u p)
            (bst_find_min_node (record { root = addr u; size = b.size }) q h)
    at_root leaf at e = returns (refl, refl)
    at_root (node a d l r) at e =
        rw
          (
            Tree.ne_null at.0,
            min_loop-spine (b.size + 1) h par q null (node a d l r) (omega arith) at,
          )
          (returns (refl, MinFound-spine h par q (node a d l r) at))

max_spine : Ptr → Tree → Ptr
max_spine pref leaf = pref
max_spine pref (node a d l r) = max_spine a r

max_loop-spine :
    (k : ℕ) (h : Heap) (par : Ptr) (pref : Ptr) (t : Tree)
    → count t < k
    → TreeAt h par t
    → max_loop k pref (addr t) h ≡ ok (max_spine pref t) h
unfolding max_loop max_spine
max_loop-spine zero h par pref t fuel at = absurd (omega arith)
max_loop-spine (suc k) h par pref leaf fuel at = refl
max_loop-spine (suc k) h par pref (node a d l r) fuel at =
    rw (Tree.ne_null at.0, load_tree-ok h at.0 at.1) (max_loop-spine k h a a r (omega arith) at.3)

-- A node of the tree whose block no other block of the tree exceeds.
pub record Largest (h : Heap) (t : Tree) (p : Ptr) : Type 0 where
  pub inside : has p t ≡ true
  pub ne_null : p ≢ null
  pub content : BstNode
  pub holds : h.trees p ≡ some content
  pub largest : All (λ c. c.block_quantity ≤ content.content.block_quantity) t

Largest-right :
    (h : Heap) (a : Ptr) (d : Block) (l : Tree) (b : Ptr) (e : Block) (x y : Tree) (p : Ptr)
    → Ordered (node a d l (node b e x y))
    → Largest h (node b e x y) p
    → Largest h (node a d l (node b e x y)) p
Largest-right h a d l b e x y p o rest = record {
  inside = ground (arith, rest.inside);
  ne_null = rest.ne_null;
  content = rest.content;
  holds = rest.holds;
  largest = (
    omega (arith, rest.largest.0, o.1.0),
    All-mono l (λ c lt. omega (arith, rest.largest.0, o.1.0)) o.0,
    rest.largest,
  );
}

max_spine-Largest :
    (h : Heap) (par pref a : Ptr) (d : Block) (l r : Tree)
    → TreeAt h par (node a d l r)
    → Ordered (node a d l r)
    → Largest h (node a d l r) (max_spine pref (node a d l r))
unfolding max_spine
max_spine-Largest h par pref a d l leaf at o = record {
  inside = ground arith;
  ne_null = at.0;
  content = bst_node d (addr l) null par;
  holds = at.1;
  largest = (omega arith, All-mono l (λ c lt. omega arith) o.0, tt);
}
max_spine-Largest h par pref a d l (node b e x y) at o =
    Largest-right h a d l b e x y (max_spine a (node b e x y)) o
      (max_spine-Largest h a a b e x y at.3 o.3)

-- The outcome of `bst_find_max_node`: a node with the largest block of the tree, which has `q`
-- units or more; or NULL, when every block of the tree has fewer.
abbrev pub MaxFound : Heap → ℕ → Tree → Ptr → Type 0
MaxFound h q t p =
    (Suits h q t p × Largest h t p) ⊎ ((p ≡ null) × All (λ c. c.block_quantity < q) t)

-- On an ordered tree `bst_find_max_node` ends, changes nothing, and finds what `MaxFound` says.
pub bst_find_max_node-MaxFound :
    (h : Heap) (par : Ptr) {b : Bst} (t : Tree) (q : ℕ)
    → IsTree h par b t
    → Ordered t
    → Returns (λ p g. (g ≡ h) × MaxFound h q t p) (bst_find_max_node b q h)
unfolding bst_find_max_node
bst_find_max_node-MaxFound h par {b} t q is o =
    subst
      (λ r.
        Returns (λ p g. (g ≡ h) × MaxFound h q t p)
          (bst_find_max_node (record { root = r; size = b.size }) q h))
      (sym is.root) (at_root t is.nodes is.size o)
  where
    at_root :
        (u : Tree)
        → TreeAt h par u
        → b.size ≡ count u
        → Ordered u
        → Returns
            (λ p g. (g ≡ h) × MaxFound h q u p)
            (bst_find_max_node (record { root = addr u; size = b.size }) q h)
    at_root leaf at e o' = returns (refl, inr (refl, tt))
    at_root (node a d l r) at e o' =
        rw
          (
            Tree.ne_null at.0,
            max_loop-spine (b.size + 1) h par a (node a d l r) (omega arith) at,
            load_tree-ok h top.ne_null top.holds,
          )
          (elim (Bool-cases (leb q top.content.content.block_quantity)) [
            | inl fits ↦ rw fits (
                returns (
                  refl,
                  inl (
                    record {
                      inside = top.inside;
                      ne_null = top.ne_null;
                      content = top.content;
                      holds = top.holds;
                      enough = ground arith;
                    },
                    top,
                  ),
                ))
            | inr short ↦ rw short (
                returns
                  (refl, inr (refl, All-mono (node a d l r) (λ c le. ground arith) top.largest)))
          ])
      where
        top : Largest h (node a d l r) (max_spine a (node a d l r))
        top = max_spine-Largest h par a a d l r at o'
