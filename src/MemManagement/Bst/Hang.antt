-- ===== src/MemManagement/Bst/Hang.antt =====
-- The loop of `bst_add_node` of lab02/zad1/src/bst.c, and the links of the new node.
use operating_systems_agh_la.Base.{
  ℕ, zero, suc, ◌<◌, ◌≡◌, refl, ◌∙◌, ◌≢◌, inl, inr, true, false, ◌||◌, some, arith, ◌==◌, ltb,
  Bool-cases, if◌then◌else◌,
}
use operating_systems_agh_la.MemManagement.Heap.{Ptr, null, Block, bst_node, Heap, put_tree, ok}
use operating_systems_agh_la.MemManagement.Heap.Returns
use operating_systems_agh_la.MemManagement.Heap.Returns.{Returns, returns}
use operating_systems_agh_la.MemManagement.Bst.{descend, hang}
use operating_systems_agh_la.MemManagement.Bst.Tree.{
  Tree, leaf, node, addr, has, count, TreeAt, Distinct, SameOutside, frame, load_tree-ok,
  set_left-ok, set_right-ok, set_parent-ok, ne_null,
}
use operating_systems_agh_la.MemManagement.Bst.Insert.{insert, apart, apart_root, apart_sides}

-- Where the loop of `bst_add_node` stops.
pub slot : Block → Ptr → Tree → Ptr
slot d pref leaf = pref
slot d pref (node a e l r) =
    if ltb d.block_quantity e.block_quantity then slot d a l else slot d a r

pub descend-slot :
    (k : ℕ) (h : Heap) (par pref : Ptr) (d : Block) (t : Tree)
    → count t < k
    → TreeAt h par t
    → descend k d pref (addr t) h ≡ ok (slot d pref t) h
unfolding descend slot
descend-slot zero h par pref d t fuel at = absurd (omega arith)
descend-slot (suc k) h par pref d leaf fuel at = refl
descend-slot (suc k) h par pref d (node a e l r) fuel at =
    elim (Bool-cases (ltb d.block_quantity e.block_quantity)) [
      | inl lt ↦
          rw (ne_null at.0, load_tree-ok h at.0 at.1, lt)
            (descend-slot k h a a d l (omega arith) at.2)
      | inr ge ↦
          rw (ne_null at.0, load_tree-ok h at.0 at.1, ge)
            (descend-slot k h a a d r (omega arith) at.3)
    ]

module _ (p : Ptr) (d : Block) (old : Ptr) (ne : p ≢ null) where
  -- The tree `t` of `h` with the new node hung into it, in `g`.
  pub record Hung (h g : Heap) (par : Ptr) (t : Tree) : Type 0 where
    pub nodes : TreeAt g par (insert p d t)
    pub same : SameOutside (λ b. (b == p) || has b t) h g

  -- What `hang` is given below.
  pub record Ready (h : Heap) (par : Ptr) (t : Tree) : Type 0 where
    pub nodes : TreeAt h par t
    pub distinct : Distinct t
    pub out : has p t ≡ false
    pub new : h.trees p ≡ some (bst_node d null null old)

  module _ (h : Heap) (par a : Ptr) (e : Block) where
    abbrev linked : Heap
    linked = put_tree h p (some (bst_node d null null a))

    at_a :
        (l r : Tree)
        → Ready h par (node a e l r)
        → linked.trees a ≡ some (bst_node e (addr l) (addr r) par)
    at_a l r rd = ground (arith, rd.out, rd.nodes.1)

    hang_left :
        (r : Tree)
        → Ready h par (node a e leaf r)
        → ltb d.block_quantity e.block_quantity ≡ true
        → Returns (λ _ g. Hung h g par (node a e leaf r)) (hang d a p h)
    unfolding hang insert
    hang_left r rd lt =
        rw
          (
            set_parent-ok h ne rd.new a,
            load_tree-ok linked rd.nodes.0 (at_a leaf r rd),
            lt,
            set_left-ok linked rd.nodes.0 (at_a leaf r rd) p,
          )
          (returns record {
            nodes = rw lt (
              rd.nodes.0,
              ground arith,
              (ne, ground (arith, rd.out), tt, tt),
              frame h (put_tree linked a (some (bst_node e p (addr r) par))) a r rd.nodes.3
                  (λ b i. ground (arith, rd.out, rd.distinct.1)),
            );
            same = record { trees = λ b o. ground arith; lists = refl };
          })

    hang_right :
        (l : Tree)
        → Ready h par (node a e l leaf)
        → ltb d.block_quantity e.block_quantity ≡ false
        → Returns (λ _ g. Hung h g par (node a e l leaf)) (hang d a p h)
    unfolding hang insert
    hang_right l rd ge =
        rw
          (
            set_parent-ok h ne rd.new a,
            load_tree-ok linked rd.nodes.0 (at_a l leaf rd),
            ge,
            set_right-ok linked rd.nodes.0 (at_a l leaf rd) p,
          )
          (returns record {
            nodes = rw ge (
              rd.nodes.0,
              ground arith,
              frame h (put_tree linked a (some (bst_node e (addr l) p par))) a l rd.nodes.2
                  (λ b i. ground (arith, rd.out, rd.distinct.0)),
              (ne, ground (arith, rd.out), tt, tt),
            );
            same = record { trees = λ b o. ground arith; lists = refl };
          })

    Ready-left : (l r : Tree) → Ready h par (node a e l r) → Ready h a l
    Ready-left l r rd = record {
      nodes = rd.nodes.2;
      distinct = rd.distinct.3;
      out = ground (arith, rd.out);
      new = rd.new;
    }

    Ready-right : (l r : Tree) → Ready h par (node a e l r) → Ready h a r
    Ready-right l r rd = record {
      nodes = rd.nodes.3;
      distinct = rd.distinct.4;
      out = ground (arith, rd.out);
      new = rd.new;
    }

    grow_left :
        (g : Heap) (l r : Tree)
        → Ready h par (node a e l r)
        → ltb d.block_quantity e.block_quantity ≡ true
        → addr (insert p d l) ≡ addr l
        → Hung h g a l
        → Hung h g par (node a e l r)
    unfolding insert
    grow_left g l r rd lt keep u = record {
      nodes =
          rw (lt, keep)
            (
              rd.nodes.0,
              u.same.trees a (apart_root a p e l r l rd.out rd.distinct.0) ∙ rd.nodes.1,
              u.nodes,
              frame h g a r rd.nodes.3 (λ b i.
                  u.same.trees b
                    (apart b p r l i (Ready-right l r rd).out (apart_sides b l r rd.distinct.2 i))),
            );
      same = record { trees = λ b o. u.same.trees b (ground arith); lists = u.same.lists };
    }

    grow_right :
        (g : Heap) (l r : Tree)
        → Ready h par (node a e l r)
        → ltb d.block_quantity e.block_quantity ≡ false
        → addr (insert p d r) ≡ addr r
        → Hung h g a r
        → Hung h g par (node a e l r)
    unfolding insert
    grow_right g l r rd ge keep u = record {
      nodes =
          rw (ge, keep)
            (
              rd.nodes.0,
              u.same.trees a (apart_root a p e l r r rd.out rd.distinct.1) ∙ rd.nodes.1,
              frame h g a l rd.nodes.2 (λ b i.
                  u.same.trees b (apart b p l r i (Ready-left l r rd).out (rd.distinct.2 b i))),
              u.nodes,
            );
      same = record { trees = λ b o. u.same.trees b (ground arith); lists = u.same.lists };
    }

  pub addr-insert : (t : Tree) → t ≢ leaf → addr (insert p d t) ≡ addr t
  unfolding insert
  addr-insert leaf no_leaf = absurd (no_leaf refl)
  addr-insert (node a e l r) no_leaf = ground arith

  abbrev HangsAt : Heap → Ptr → Ptr → Tree → Type 0
  HangsAt h par pref leaf = Unit
  HangsAt h par pref (node a e l r) =
      Returns (λ _ g. Hung h g par (node a e l r)) (hang d (slot d pref (node a e l r)) p h)

  module _ (h : Heap) (par pref a : Ptr) (e : Block) where
    step_left :
        (l r : Tree)
        → Ready h par (node a e l r)
        → ltb d.block_quantity e.block_quantity ≡ true
        → HangsAt h a a l
        → HangsAt h par pref (node a e l r)
    unfolding slot
    step_left leaf r rd lt below = rw lt (hang_left h par a e r rd lt)
    step_left (node b c x y) r rd lt below = rw lt (
        Returns.mono below λ _ g.
          grow_left h par a e g (node b c x y) r rd lt (addr-insert (node b c x y) (λ q. cc)))

    step_right :
        (l r : Tree)
        → Ready h par (node a e l r)
        → ltb d.block_quantity e.block_quantity ≡ false
        → HangsAt h a a r
        → HangsAt h par pref (node a e l r)
    unfolding slot
    step_right l leaf rd ge below = rw ge (hang_right h par a e l rd ge)
    step_right l (node b c x y) rd ge below = rw ge (
        Returns.mono below λ _ g.
          grow_right h par a e g l (node b c x y) rd ge (addr-insert (node b c x y) (λ q. cc)))

  pub hang-HangsAt : (h : Heap) (par pref : Ptr) (t : Tree) → Ready h par t → HangsAt h par pref t
  hang-HangsAt h par pref leaf rd = tt
  hang-HangsAt h par pref (node a e l r) rd =
      elim (Bool-cases (ltb d.block_quantity e.block_quantity)) [
        | inl lt ↦
            step_left h par pref a e l r rd lt (hang-HangsAt h a a l (Ready-left h par a e l r rd))
        | inr ge ↦
            step_right h par pref a e l r rd ge
              (hang-HangsAt h a a r (Ready-right h par a e l r rd))
      ]
