-- ===== src/MemManagement/Bst/Attach.antt =====
-- The end of the last branch of `bst_delete_node` of lab02/zad1/src/bst.c: the least node of the
-- right subtree, already taken out of it, goes to the place of the deleted node.
use operating_systems_agh_la.Base.{◌+◌, ◌≤◌, ◌≡◌, refl, ◌≢◌, false, some, arith, ◌==◌, ◌∙◌}
use operating_systems_agh_la.MemManagement.Heap.{Ptr, null, Block, bst_node, Heap, put_tree}
use operating_systems_agh_la.MemManagement.Heap.Returns
use operating_systems_agh_la.MemManagement.Heap.Returns.{Returns, returns}
use operating_systems_agh_la.MemManagement.Bst.{Bst, take_place}
use operating_systems_agh_la.MemManagement.Bst.Tree.{
  Tree, leaf, node, addr, TreeAt, load_tree-ok, set_left-ok, set_parent-ok,
}
use operating_systems_agh_la.MemManagement.Bst.Count.{hits, hits-same, hits-apart, occ, kept}
use operating_systems_agh_la.MemManagement.Bst.Context.{
  Context, up, around, ContextAt, context_kept,
}
use operating_systems_agh_la.MemManagement.Bst.Transplant.{
  Rootless, Movable, Moved, transplant-Moved,
}

-- The deleted node `p` at the place `c`, with the left subtree `node a e x y`; the tree `u` is to
-- take its place.
pub record Leaving (h : Heap) (par : Ptr) (c : Context) (p z a : Ptr) (e : Block) (x y u : Tree)
    : Type 0 where
  pub context : ContextAt h par c p
  pub ne_null : p ≢ null
  pub content : Block
  pub right : Ptr
  pub holds : h.trees p ≡ some (bst_node content a right (up par c))
  pub left : TreeAt h p (node a e x y)
  pub nodes : TreeAt h z u
  pub apart : (q : Ptr) → hits q p + (around q c + (occ q (node a e x y) + occ q u)) ≤ 1
  pub rootless : Rootless par c

Leaving-Movable :
    (h : Heap) (par : Ptr) (c : Context) (p z a : Ptr) (e : Block) (x y u : Tree)
    → Leaving h par c p z a e x y u
    → Movable h par c p z u
Leaving-Movable h par c p z a e x y u lv = record {
  context = lv.context;
  ne_null = lv.ne_null;
  content = lv.content;
  left = a;
  right = lv.right;
  holds = lv.holds;
  nodes = lv.nodes;
  apart = λ q. omega (arith, lv.apart q);
  rootless = lv.rootless;
}

module _ (b : Bst) (h : Heap) (par : Ptr) (c : Context) (p z a : Ptr) (e : Block) (x y : Tree)
    (m : Ptr) (md : Block) (r : Tree) (lv : Leaving h par c p z a e x y (node m md leaf r)) where
  -- After the two writes that give `m` its left child.
  with_left : Heap → Heap
  with_left g =
      put_tree (put_tree g m (some (bst_node md a (addr r) (up par c)))) a
        (some (bst_node e (addr x) (addr y) m))

  outside : (g : Heap) (q : Ptr) → hits q m ≡ 0 → hits q a ≡ 0 → (with_left g).trees q ≡ g.trees q
  unfolding with_left
  outside g q o o' = rw (hits-apart q m o, hits-apart q a o') refl

  in_subtree :
      (s : Bst) (g : Heap)
      → Moved b h par c (node m md leaf r) s g
      → (q : Ptr) → around q c + occ q (node m md leaf r) ≡ 0
      → hits q a ≡ 0
      → (with_left g).trees q ≡ h.trees q
  in_subtree s g mv q o o' = outside g q (omega arith) o' ∙ mv.same.trees q o

  attached :
      (s : Bst) (g : Heap)
      → Moved b h par c (node m md leaf r) s g
      → Moved b h par c (node m md (node a e x y) r) s (with_left g)
  unfolding with_left
  attached s g mv = record {
    bst = mv.bst;
    context = context_kept g (with_left g) par c m mv.context (λ q i. ground (
      arith,
      hits-apart q a (omega (arith, lv.apart q)),
      hits-apart q m (omega (arith, lv.apart q)),
    ));
    nodes = (
      mv.nodes.0,
      ground (arith, hits-apart m a (omega (arith, lv.apart m, hits-same m))),
      (
        lv.left.0,
        ground arith,
        kept h (with_left g) a x lv.left.2
            (λ q i. in_subtree s g mv q (omega (arith, lv.apart q)) (omega (arith, lv.apart q))),
        kept h (with_left g) a y lv.left.3
            (λ q i. in_subtree s g mv q (omega (arith, lv.apart q)) (omega (arith, lv.apart q))),
      ),
      kept g (with_left g) m r mv.nodes.3
          (λ q i. outside g q (omega (arith, lv.apart q)) (omega (arith, lv.apart q))),
    );
    same = record {
      trees = λ q o. in_subtree s g mv q (omega arith) (omega arith);
      lists = mv.same.lists;
    };
  }

  at_p :
      (s : Bst) (g : Heap)
      → Moved b h par c (node m md leaf r) s g
      → g.trees p ≡ some (bst_node lv.content a lv.right (up par c))
  at_p s g mv = mv.same.trees p (omega (arith, lv.apart p, hits-same p)) ∙ lv.holds

  m_apart_a : (m == a) ≡ false
  m_apart_a = hits-apart m a (omega (arith, lv.apart m, hits-same m))

  a_apart_m : (a == m) ≡ false
  a_apart_m = hits-apart a m (omega (arith, lv.apart a, hits-same a))

  at_a :
      (s : Bst) (g : Heap)
      → Moved b h par c (node m md leaf r) s g
      → (put_tree g m (some (bst_node md a (addr r) (up par c)))).trees a
        ≡ some (bst_node e (addr x) (addr y) p)
  at_a s g mv = rw (a_apart_m, mv.same.trees a (omega (arith, lv.apart a, hits-same a))) lv.left.1

  pub take_place-Moved :
      Returns
        (λ s g. Moved b h par c (node m md (node a e x y) r) s g × (g.trees p ≡ h.trees p))
        (take_place b p m h)
  unfolding take_place with_left
  take_place-Moved =
      Returns.bind
        (transplant-Moved b h par c p z (node m md leaf r)
          (Leaving-Movable h par c p z a e x y (node m md leaf r) lv))
        λ s g mv.
          rw
            (
              load_tree-ok g lv.ne_null (at_p s g mv),
              set_left-ok g mv.nodes.0 mv.nodes.1 a,
              load_tree-ok (put_tree g m (some (bst_node md a (addr r) (up par c)))) mv.nodes.0
                  (new_m g),
              set_parent-ok (put_tree g m (some (bst_node md a (addr r) (up par c)))) lv.left.0
                  (at_a s g mv) m,
            )
            (returns (
              attached s g mv,
              in_subtree s g mv p (omega (arith, lv.apart p, hits-same p))
                  (omega (arith, lv.apart p, hits-same p)),
            ))
    where
      new_m :
          (g : Heap)
          → (put_tree g m (some (bst_node md a (addr r) (up par c)))).trees m
            ≡ some (bst_node md a (addr r) (up par c))
      new_m g = ground arith
