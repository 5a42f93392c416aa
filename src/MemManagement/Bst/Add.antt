-- ===== src/MemManagement/Bst/Add.antt =====
-- `bst_add_node` of lab02/zad1/src/bst.c.
use operating_systems_agh_la.Base.{
  ℕ, ◌+◌, ◌≡◌, refl, sym, subst, ◌∙◌, ◌≢◌, true, false, ◌||◌, some, arith, ◌==◌, if◌then◌else◌,
}
use operating_systems_agh_la.MemManagement.Heap.{
  Ptr, null, Block, bst_node, Heap, put_tree, Malloc, IsMalloc, malloc_tree, set_tree_content,
  set_left, set_right, pure, Cmd, ◌>>=◌, ◌>>◌, load_tree,
}
use operating_systems_agh_la.MemManagement.Heap.Returns
use operating_systems_agh_la.MemManagement.Heap.Returns.{Returns, returns}
use operating_systems_agh_la.MemManagement.Bst.{Bst, descend, hang, bst_add_node}
use operating_systems_agh_la.MemManagement.Bst.Tree.{
  Tree, leaf, node, addr, has, count, TreeAt, Distinct, IsTree, SameOutside, frame, not-has_of_none,
  ne_null,
}
use operating_systems_agh_la.MemManagement.Bst.Insert.{insert, count-insert, insert-Distinct}
use operating_systems_agh_la.MemManagement.Bst.Hang.{descend-slot, Ready, addr-insert, hang-HangsAt}

-- The heap after `malloc` and the writes to the new node.
with_new : Malloc → Block → Heap → Heap
with_new m d h =
    let p = m.tree_at h in
    let old = (m.stale_tree h).parent in
    put_tree
      (put_tree
        (put_tree (put_tree h p (some (m.stale_tree h))) p
          (some (record (m.stale_tree h) { content = d })))
        p (some (bst_node d null (m.stale_tree h).right old)))
      p (some (bst_node d null null old))

module _ (m : Malloc) (d : Block) (h : Heap) where
  abbrev pub p : Ptr
  p = m.tree_at h

  init_node :
      {A : Type 0} (k : Cmd A)
      → p ≢ null
      → ((do set_tree_content p d; set_left p null; set_right p null; k)
          (put_tree h p (some (m.stale_tree h))))
        ≡ k (with_new m d h)
  unfolding set_tree_content set_left set_right load_tree with_new
  init_node k ne = ground arith

  new-with_new : (with_new m d h).trees p ≡ some (bst_node d null null (m.stale_tree h).parent)
  unfolding with_new
  new-with_new = ground arith

  old-with_new : (a : Ptr) → (a == p) ≡ false → (with_new m d h).trees a ≡ h.trees a
  unfolding with_new
  old-with_new a e = rw e

  lists-with_new : (with_new m d h).lists ≡ h.lists
  unfolding with_new
  lists-with_new = refl

  apart_new : (a : Ptr) (t : Tree) → has a t ≡ true → has p t ≡ false → (a == p) ≡ false
  apart_new a t i o = ground arith

  apart_or : (a : Ptr) (t : Tree) → ((a == p) || has a t) ≡ false → (a == p) ≡ false
  apart_or a t o = ground arith

  -- The result 0, and the new node with the block where `insert` puts it, counted; no other part of
  -- the heap than the tree and the new node differs. The root's parent is as before, but a first
  -- node keeps what `malloc` left in its `parent`.
  pub record Added (par : Ptr) (t : Tree) (r : ℕ × Bst) (g : Heap) : Type 0 where
    pub code : r.0 ≡ 0
    pub tree : IsTree g (if addr t == null then (m.stale_tree h).parent else par) r.1 (insert p d t)
    pub same : SameOutside (λ a. (a == p) || has a t) h g

  add_leaf :
      (par : Ptr)
      → p ≢ null
      → Returns (Added par leaf) (bst_add_node m (record { root = null; size = 0 }) d h)
  unfolding bst_add_node malloc_tree insert
  add_leaf par ne =
      rw
        (
          ne_null ne,
          ne_null ne,
          init_node {A = ℕ × Bst} (pure (0, record { root = p; size = 0 + 1 })) ne,
        )
        (returns record {
          code = refl;
          tree = record {
            root = refl;
            nodes = (ne, new-with_new, tt, tt);
            distinct = (refl, refl, λ b i. refl, tt, tt);
            size = refl;
          };
          same = record { trees = λ a o. old-with_new a (ground arith); lists = lists-with_new };
        })

  add_node :
      (par a : Ptr) (e : Block) (l r : Tree)
      → p ≢ null
      → has p (node a e l r) ≡ false
      → TreeAt h par (node a e l r)
      → Distinct (node a e l r)
      → Returns
          (Added par (node a e l r))
          (bst_add_node m (record { root = a; size = count (node a e l r) }) d h)
  unfolding bst_add_node malloc_tree
  add_node par a e l r ne out at di =
      rw
        (
          ne_null ne,
          ne_null ne,
          init_node {A = ℕ × Bst} rest ne,
          ne_null at.0,
          descend-slot (count t + 1) (with_new m d h) par a d t (omega arith) at',
        )
        (Returns.bind (hang-HangsAt p d (m.stale_tree h).parent ne (with_new m d h) par a t ready)
          λ _ g u. returns record {
            code = refl;
            tree = rw (ne_null at.0) record {
              root = sym (addr-insert p d (m.stale_tree h).parent ne t (λ q. cc));
              nodes = u.nodes;
              distinct = insert-Distinct p d t di out;
              size = omega (arith, count-insert p d t);
            };
            same = record {
              trees = λ b o. u.same.trees b o ∙ old-with_new b (apart_or b t o);
              lists = u.same.lists ∙ lists-with_new;
            };
          })
    where
      t : Tree
      t = node a e l r

      rest : Cmd (ℕ × Bst)
      rest =
          if a == null then pure (0, record { root = p; size = count (node a e l r) + 1 }) else do
            pref ← descend (count (node a e l r) + 1) d a a
            hang d pref p
            pure (0, record { root = a; size = count (node a e l r) + 1 })

      at' : TreeAt (with_new m d h) par (node a e l r)
      at' =
          frame h (with_new m d h) par (node a e l r) at
            (λ b i. old-with_new b (apart_new b (node a e l r) i out))

      ready : Ready p d (m.stale_tree h).parent ne (with_new m d h) par (node a e l r)
      ready = record { nodes = at'; distinct = di; out = out; new = new-with_new }

-- When `malloc` has memory, `bst_add_node` succeeds as `Added` says, on every tree.
pub bst_add_node-insert :
    (m : Malloc)
    → IsMalloc m
    → (d : Block) (h : Heap) (par : Ptr) {b : Bst} (t : Tree) → IsTree h par b t
    → m.tree_at h ≢ null
    → Returns (Added m d h par t) (bst_add_node m b d h)
bst_add_node-insert m law d h par {b} t is ne =
    subst
      (λ s. Returns (Added m d h par t) (bst_add_node m (record { root = b.root; size = s }) d h))
      (sym is.size)
      (subst
        (λ r.
          Returns (Added m d h par t) (bst_add_node m (record { root = r; size = count t }) d h))
        (sym is.root)
        (by_cases t is.nodes is.distinct
          (not-has_of_none h par t (m.tree_at h) is.nodes (law.fresh_tree h ne))))
  where
    by_cases :
        (u : Tree)
        → TreeAt h par u
        → Distinct u
        → has (m.tree_at h) u ≡ false
        → Returns
            (Added m d h par u)
            (bst_add_node m (record { root = addr u; size = count u }) d h)
    by_cases leaf at di out = add_leaf m d h par ne
    by_cases (node a e l r) at di out = add_node m d h par a e l r ne out at di
