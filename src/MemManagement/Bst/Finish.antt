-- ===== src/MemManagement/Bst/Finish.antt =====
-- `bst_finish` of lab02/zad1/src/bst.c.
use operating_systems_agh_la.Base.{
  ℕ, zero, suc, ◌+◌, ◌<◌, ◌≡◌, refl, sym, subst, ◌∙◌, inl, inr, true, false, none, some, arith,
  ◌==◌, Bool-cases,
}
use operating_systems_agh_la.MemManagement.Heap.{Ptr, null, Block, bst_node, Heap, put_tree}
use operating_systems_agh_la.MemManagement.Heap.Returns
use operating_systems_agh_la.MemManagement.Heap.Returns.{Returns, returns}
use operating_systems_agh_la.MemManagement.Bst.{Bst, delete_all_nodes, bst_finish}
use operating_systems_agh_la.MemManagement.Bst.Tree.{
  Tree, leaf, node, addr, has, count, TreeAt, Distinct, IsTree, SameOutside, frame, load_tree-ok,
  free_tree-ok, ne_null,
}
use operating_systems_agh_la.MemManagement.Bst.Insert.{apart_sides}

in_left :
    (b a : Ptr) (d : Block) (l r : Tree)
    → has b (node a d l r) ≡ true
    → (b == a) ≡ false
    → has b r ≡ false
    → has b l ≡ true
in_left b a d l r i other no_r = ground arith

module _ (b a : Ptr) (d : Block) (l r : Tree) (o : has b (node a d l r) ≡ false) where
  root_out : (b == a) ≡ false
  root_out = ground arith

  left_out : has b l ≡ false
  left_out = ground arith

  right_out : has b r ≡ false
  right_out = ground arith

-- Every node of the tree is freed, and nothing else is touched.
pub record Freed (t : Tree) (h g : Heap) : Type 0 where
  pub gone : (a : Ptr) → has a t ≡ true → g.trees a ≡ none
  pub same : SameOutside (λ a. has a t) h g

module _ (h : Heap) (par a : Ptr) (d : Block) (l r : Tree) (at : TreeAt h par (node a d l r))
    (di : Distinct (node a d l r)) where
  right_after : (g : Heap) → Freed l h g → TreeAt g a r
  right_after g fl = frame h g a r at.3 (λ b i. fl.same.trees b (apart_sides b l r di.2 i))

  root_after :
      (g g' : Heap)
      → Freed l h g
      → Freed r g g'
      → g'.trees a ≡ some (bst_node d (addr l) (addr r) par)
  root_after g g' fl fr = fr.same.trees a di.1 ∙ fl.same.trees a di.0 ∙ at.1

  Freed-node :
      (g g' : Heap) → Freed l h g → Freed r g g' → Freed (node a d l r) h (put_tree g' a none)
  Freed-node g g' fl fr = record {
    gone = λ b i. elim (Bool-cases (b == a)) [
      | inl here ↦ rw here
      | inr other ↦ rw other (elim (Bool-cases (has b r)) [
        | inl ir ↦ fr.gone b ir
        | inr no_r ↦ fr.same.trees b no_r ∙ fl.gone b (in_left b a d l r i other no_r)
      ])
    ];
    same = record {
      trees = λ b o.
          rw (root_out b a d l r o)
            (fr.same.trees b (right_out b a d l r o) ∙ fl.same.trees b (left_out b a d l r o));
      lists = fr.same.lists ∙ fl.same.lists;
    };
  }

delete_all_nodes-Freed :
    (k : ℕ) (h : Heap) (par : Ptr) (t : Tree)
    → count t < k
    → TreeAt h par t
    → Distinct t
    → Returns (λ _ g. Freed t h g) (delete_all_nodes k (addr t) h)
unfolding delete_all_nodes
delete_all_nodes-Freed zero h par t fuel at di = absurd (omega arith)
delete_all_nodes-Freed (suc k) h par leaf fuel at di =
    returns
      record { gone = λ a i. ground arith; same = record { trees = λ a o. refl; lists = refl } }
delete_all_nodes-Freed (suc k) h par (node a d l r) fuel at di =
    rw (ne_null at.0, load_tree-ok h at.0 at.1)
      (Returns.bind (delete_all_nodes-Freed k h a l (omega arith) at.2 di.3) λ _ g fl.
        Returns.bind
          (delete_all_nodes-Freed k g a r (omega arith) (right_after h par a d l r at di g fl) di.4)
          λ _ g' fr.
            rw (free_tree-ok g' at.0 (root_after h par a d l r at di g g' fl fr))
              (returns (Freed-node h par a d l r at di g g' fl fr)))

-- `bst_finish` ends, frees every node of the tree and touches nothing else, and leaves the empty
-- tree.
pub bst_finish-Freed :
    (h : Heap) (par : Ptr) {b : Bst} (t : Tree)
    → IsTree h par b t
    → Returns (λ b' g. (b' ≡ record { root = null; size = 0 }) × Freed t h g) (bst_finish b h)
unfolding bst_finish
bst_finish-Freed h par {b} t is =
    subst
      (λ r.
        Returns (λ b' g. (b' ≡ record { root = null; size = 0 }) × Freed t h g)
          (bst_finish (record { root = r; size = b.size }) h))
      (sym is.root)
      (Returns.bind
        (delete_all_nodes-Freed (b.size + 1) h par t (omega (arith, is.size)) is.nodes is.distinct)
        λ _ g fr. returns (refl, fr))
