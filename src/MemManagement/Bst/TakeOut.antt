-- ===== src/MemManagement/Bst/TakeOut.antt =====
-- The part of the last branch of `bst_delete_node` of lab02/zad1/src/bst.c that takes the least node
-- out of the right subtree.
use operating_systems_agh_la.Base.{◌+◌, ◌≤◌, ◌≡◌, refl, sym, ap, subst, ◌≢◌, some, arith, ◌∙◌}
use operating_systems_agh_la.MemManagement.Heap.{
  Ptr, null, Block, bst_node, Heap, put_tree, set_parent,
}
use operating_systems_agh_la.MemManagement.Heap.Returns
use operating_systems_agh_la.MemManagement.Heap.Returns.{Returns, returns}
use operating_systems_agh_la.MemManagement.Bst.{Bst, take_out}
use operating_systems_agh_la.MemManagement.Bst.Tree.{
  Tree, leaf, node, addr, TreeAt, load_tree-ok, set_right-ok, set_parent-ok,
}
use operating_systems_agh_la.MemManagement.Bst.Count.{hits, hits-same, hits-apart, occ, Once, kept}
use operating_systems_agh_la.MemManagement.Bst.Context.{
  Context, plug, up, around, occ-plug, plug-At, open_At,
}
use operating_systems_agh_la.MemManagement.Bst.Transplant.{
  with_parent, Movable, Moved, transplant-Moved,
}
use operating_systems_agh_la.MemManagement.Bst.Minimum.{
  NotTop, NotTop-Rootless, rooted-NotTop, addr-plug,
}

-- The tree `t` with the root's parent `w`; only its nodes have changed.
record Reparented (h : Heap) (w : Ptr) (t : Tree) (g : Heap) : Type 0 where
  nodes : TreeAt g w t
  trees : (q : Ptr) → occ q t ≡ 0 → g.trees q ≡ h.trees q
  lists : g.lists ≡ h.lists

set_parent-Reparented :
    (h : Heap) (z w : Ptr) (t : Tree)
    → TreeAt h z t
    → addr t ≢ null
    → Once t
    → Returns (λ _ g. Reparented h w t g) (set_parent (addr t) w h)
set_parent-Reparented h z w leaf at ne one = absurd (ne refl)
set_parent-Reparented h z w (node a d l r) at ne one = rw (set_parent-ok h at.0 at.1 w) (
    returns record {
      nodes = with_parent h z w a d l r at one;
      trees = λ q o. ground (arith, hits-apart q a (omega arith));
      lists = refl;
    })

module _ (b : Bst) (h : Heap) (p : Ptr) (place : Context) (m : Ptr) (md : Block) (rr : Tree) where
  abbrev pub before : Tree
  before = plug place (node m md leaf rr)

  abbrev pub without : Tree
  without = plug place rr

  -- The node `p` with `before` for its right subtree, and the least node `m` below the root of that
  -- subtree.
  pub record Holds (d : Block) (l w : Ptr) : Type 0 where
    pub ne_null : p ≢ null
    pub holds : h.trees p ≡ some (bst_node d l (addr before) w)
    pub nodes : TreeAt h p before
    pub ne_leaf : addr before ≢ null
    pub below : NotTop place
    pub apart : (q : Ptr) → hits q p + occ q before ≤ 1

  -- The least node stands above the rest of the subtree.
  pub record TakenOut (s : Bst) (g : Heap) : Type 0 where
    pub bst : s ≡ b
    pub nodes : TreeAt g (up p place) (node m md leaf without)
    pub trees : (q : Ptr) → occ q before ≡ 0 → g.trees q ≡ h.trees q
    pub lists : g.lists ≡ h.lists

  module _ (d : Block) (l w : Ptr) (ho : Holds d l w) where
    pub least_at : TreeAt h (up p place) (node m md leaf rr)
    least_at = (open_At h p place (node m md leaf rr) ho.nodes).1

    pub bound : (q : Ptr) → hits q p + (around q place + (hits q m + occ q rr)) ≤ 1
    bound q = omega (arith, ho.apart q, occ-plug q place (node m md leaf rr))

    movable : Movable h p place m m rr
    movable = record {
      context = (open_At h p place (node m md leaf rr) ho.nodes).0;
      ne_null = least_at.0;
      content = md;
      left = null;
      right = addr rr;
      holds = least_at.1;
      nodes = least_at.3;
      apart = λ q. omega (arith, bound q);
      rootless = NotTop-Rootless p place ho.below;
    }

    -- After the right child of `m` is written.
    with_right : Heap → Heap
    with_right g = put_tree g m (some (bst_node md null (addr before) (up p place)))

    without_at : (s : Bst) (g : Heap) → Moved b h p place rr s g → TreeAt (with_right g) p without
    unfolding with_right
    without_at s g mv =
        kept g (with_right g) p without (plug-At g p place rr mv.context mv.nodes)
          (λ q i. ground (arith, hits-apart q m (omega (arith, bound q, occ-plug q place rr))))

    outside : (q : Ptr) → occ q before ≡ 0 → around q place + (hits q m + occ q rr) ≡ 0
    outside q o = omega (arith, occ-plug q place (node m md leaf rr))

    new_m : (g : Heap) → (with_right g).trees m ≡ some (bst_node md null (addr before) (up p place))
    unfolding with_right
    new_m g = ground arith

    kept_by : (g : Heap) (q : Ptr) → hits q m ≡ 0 → (with_right g).trees q ≡ g.trees q
    unfolding with_right
    kept_by g q o = rw (hits-apart q m o) refl

    same_root : addr without ≡ addr before
    same_root = addr-plug place rr (node m md leaf rr) ho.below

    reparent :
        (s : Bst) (g : Heap)
        → Moved b h p place rr s g
        → Returns
            (λ _ g'. Reparented (with_right g) m without g')
            (set_parent (addr before) m (with_right g))
    reparent s g mv =
        subst
          (λ a.
            Returns (λ _ g'. Reparented (with_right g) m without g')
              (set_parent a m (with_right g)))
          same_root
          (set_parent-Reparented (with_right g) p m without (without_at s g mv)
            (λ e. ho.ne_leaf (sym same_root ∙ e))
            (λ q. omega (arith, bound q, occ-plug q place rr)))

    finish :
        (s : Bst) (g g' : Heap)
        → Moved b h p place rr s g
        → Reparented (with_right g) m without g'
        → TakenOut s g'
    unfolding with_right
    finish s g g' mv re = record {
      bst = mv.bst ∙ rooted-NotTop place b (addr rr) ho.below;
      nodes = (
        least_at.0,
        re.trees m (omega (arith, bound m, occ-plug m place rr, hits-same m))
            ∙ new_m g
            ∙ ap (λ v. some (bst_node md null v (up p place))) (sym same_root),
        tt,
        re.nodes,
      );
      trees = λ q o.
          re.trees q (omega (arith, outside q o, occ-plug q place rr))
          ∙ kept_by g q (omega (arith, outside q o))
          ∙ mv.same.trees q (omega (arith, outside q o));
      lists = re.lists ∙ mv.same.lists;
    }

    pub take_out-TakenOut : Returns TakenOut (take_out b p m (addr rr) h)
    unfolding take_out with_right
    take_out-TakenOut = Returns.bind (transplant-Moved b h p place m m rr movable) λ s g mv.
        rw
          (
            load_tree-ok g ho.ne_null (at_p s g mv),
            set_right-ok g least_at.0 (at_m s g mv) (addr before),
            load_tree-ok (with_right g) least_at.0 (new_m g),
          )
          (Returns.bind (reparent s g mv) λ _ g' re. returns (finish s g g' mv re))
      where
        at_p :
            (s : Bst) (g : Heap)
            → Moved b h p place rr s g
            → g.trees p ≡ some (bst_node d l (addr before) w)
        at_p s g mv = mv.same.trees p (omega (arith, bound p, hits-same p)) ∙ ho.holds

        at_m :
            (s : Bst) (g : Heap)
            → Moved b h p place rr s g
            → g.trees m ≡ some (bst_node md null (addr rr) (up p place))
        at_m s g mv = mv.same.trees m (omega (arith, bound m, hits-same m)) ∙ least_at.1
