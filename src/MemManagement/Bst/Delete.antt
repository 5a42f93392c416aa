-- ===== src/MemManagement/Bst/Delete.antt =====
-- `bst_delete_node` of lab02/zad1/src/bst.c.
use operating_systems_agh_la.Base.{
  ℕ, ◌+◌, ◌≤◌, ◌≡◌, refl, sym, ap, true, arith, ◌==◌, ◌∙◌, if◌then◌else◌,
}
use operating_systems_agh_la.MemManagement.Heap.{Ptr, null, Block, Heap, Cmd, ◌>>=◌}
use operating_systems_agh_la.MemManagement.Heap.Returns
use operating_systems_agh_la.MemManagement.Heap.Returns.{Returns, returns}
use operating_systems_agh_la.MemManagement.Bst.{Bst, transplant, leftmost, replace_by_minimum}
use operating_systems_agh_la.MemManagement.Bst.Tree.{
  Tree, leaf, node, addr, count, TreeAt, load_tree-ok, ne_null,
}
use operating_systems_agh_la.MemManagement.Bst.Count.{hits, hits-same, occ, kept}
use operating_systems_agh_la.MemManagement.Bst.Context.{
  Context, top, in_left, plug, up, around, ContextAt, context_kept, occ-plug,
}
use operating_systems_agh_la.MemManagement.Bst.Transplant.{Rootless, rooted, transplant-Moved}
use operating_systems_agh_la.MemManagement.Bst.Minimum.{
  least, drop_least, leftmost-least, least_place, LeastPlace, up-NotTop,
}
use operating_systems_agh_la.MemManagement.Bst.Attach.{Leaving, take_place-Moved}
use operating_systems_agh_la.MemManagement.Bst.TakeOut.{
  Holds, TakenOut, least_at, bound, take_out-TakenOut,
}

-- The two subtrees of a deleted node in one tree: the least node on the right is its new root.
abbrev pub join : Tree → Tree → Tree
join leaf r = r
join (node a d x y) leaf = node a d x y
join (node a d x y) (node b e z w) =
    node (least b e z w).0 (least b e z w).1 (node a d x y) (drop_least b e z w)

-- The node `p` at the place `c`, with the subtrees `l` and `r`.
pub record Stands (h : Heap) (par : Ptr) (c : Context) (p : Ptr) (d : Block) (l r : Tree)
    : Type 0 where
  pub context : ContextAt h par c p
  pub nodes : TreeAt h (up par c) (node p d l r)
  pub apart : (q : Ptr) → around q c + occ q (node p d l r) ≤ 1
  pub rootless : Rootless par c

-- What stands at the place after the branches of `bst_delete_node`.
pub record Replaced (b : Bst) (h : Heap) (par : Ptr) (c : Context) (p : Ptr) (d : Block)
    (l r : Tree) (s : Bst) (g : Heap) : Type 0 where
  pub bst : s ≡ rooted c b (addr (join l r))
  pub context : ContextAt g par c (addr (join l r))
  pub nodes : TreeAt g (up par c) (join l r)
  pub old : g.trees p ≡ h.trees p
  pub trees : (q : Ptr) → around q c + occ q (node p d l r) ≡ 0 → g.trees q ≡ h.trees q
  pub lists : g.lists ≡ h.lists

module _ (b : Bst) (h : Heap) (par : Ptr) (c : Context) (p : Ptr) (d : Block) where
  one_child :
      (l r u : Tree)
      → Stands h par c p d l r
      → join l r ≡ u
      → TreeAt h p u
      → ((q : Ptr) → occ q u ≡ occ q l + occ q r)
      → Returns (Replaced b h par c p d l r) (transplant b p (addr u) h)
  one_child l r u st e at total =
      Returns.mono
        (transplant-Moved b h par c p p u record {
          context = st.context;
          ne_null = st.nodes.0;
          content = d;
          left = addr l;
          right = addr r;
          holds = st.nodes.1;
          nodes = at;
          apart = λ q. omega (arith, st.apart q, total q);
          rootless = st.rootless;
        })
        λ s g mv. record {
          bst = rw e mv.bst;
          context = rw e mv.context;
          nodes = rw e mv.nodes;
          old = mv.same.trees p (omega (arith, st.apart p, total p, hits-same p));
          trees = λ q o. mv.same.trees q (omega (arith, total q));
          lists = mv.same.lists;
        }

  module _ (a : Ptr) (e : Block) (x y : Tree) where
    abbrev lt : Tree
    lt = node a e x y

    -- The right child has no left child itself.
    near :
        (k : Ptr) (f : Block) (w : Tree)
        → Stands h par c p d lt (node k f leaf w)
        → Returns (Replaced b h par c p d lt (node k f leaf w)) (replace_by_minimum b p k h)
    unfolding replace_by_minimum
    near k f w st =
        rw (load_tree-ok h st.nodes.3.0 st.nodes.3.1, same p)
          (Returns.mono
            (take_place-Moved b h par c p p a e x y k f w record {
              context = st.context;
              ne_null = st.nodes.0;
              content = d;
              right = k;
              holds = st.nodes.1;
              left = st.nodes.2;
              nodes = st.nodes.3;
              apart = λ q. omega (arith, st.apart q);
              rootless = st.rootless;
            })
            λ s g (mv, old). record {
              bst = mv.bst;
              context = mv.context;
              nodes = mv.nodes;
              old = old;
              trees = λ q o. mv.same.trees q (omega arith);
              lists = mv.same.lists;
            })
      where
        same : (q : Ptr) → (q == q) ≡ true
        same q = ground arith

    -- The least node is below the right child, at `place`.
    far :
        (r : Tree) (place : Context) (m : Ptr) (md : Block) (rr : Tree)
        → Stands h par c p d lt r
        → Holds b h p place m md rr d a (up par c)
        → (plug place (node m md leaf rr)) ≡ r
        → join lt r ≡ node m md lt (plug place rr)
        → Returns (Replaced b h par c p d lt r) (replace_by_minimum b p m h)
    unfolding replace_by_minimum
    far r place m md rr st ho whole joined =
        rw
          (
            load_tree-ok h here.0 here.1,
            up-NotTop p p place ho.below (omega (arith, inside p, hits-same p)),
          )
          (Returns.bind (take_out-TakenOut b h p place m md rr d a (up par c) ho) λ s g out.
            rw out.bst (
              Returns.mono
                (take_place-Moved b g par c p (up p place) a e x y m md (plug place rr)
                  (leaving s g out))
                λ s' g' (mv, old). record {
                  bst = rw joined mv.bst;
                  context = rw joined mv.context;
                  nodes = rw joined mv.nodes;
                  old = old ∙ out.trees p (omega (arith, ho.apart p, hits-same p));
                  trees = λ q o.
                      mv.same.trees q (omega (arith, parts q, inside q, rest q))
                      ∙ out.trees q (omega (arith, parts q));
                  lists = mv.same.lists ∙ out.lists;
                }))
      where
        here : TreeAt h (up p place) (node m md leaf rr)
        here = least_at b h p place m md rr d a (up par c) ho

        inside : (q : Ptr) → hits q p + (around q place + (hits q m + occ q rr)) ≤ 1
        inside = bound b h p place m md rr d a (up par c) ho

        parts : (q : Ptr) → occ q r ≡ occ q (plug place (node m md leaf rr))
        parts q = ap (occ q) (sym whole)

        rest : (q : Ptr) → hits q m + occ q (plug place rr) ≡ occ q r
        rest q = omega (arith, parts q, occ-plug q place rr, occ-plug q place (node m md leaf rr))

        leaving :
            (s : Bst) (g : Heap)
            → TakenOut b h p place m md rr s g
            → Leaving g par c p (up p place) a e x y (node m md leaf (plug place rr))
        leaving s g out = record {
          context =
              context_kept h g par c p st.context
                (λ q i. out.trees q (omega (arith, parts q, st.apart q)));
          ne_null = st.nodes.0;
          content = d;
          right = addr (plug place (node m md leaf rr));
          holds = out.trees p (omega (arith, ho.apart p, hits-same p)) ∙ ho.holds;
          left =
              kept h g p (node a e x y) st.nodes.2
                (λ q i. out.trees q (omega (arith, parts q, st.apart q)));
          nodes = out.nodes;
          apart = λ q. omega (arith, rest q, st.apart q);
          rootless = st.rootless;
        }

    two_children :
        (k : Ptr) (f : Block) (v w : Tree)
        → Stands h par c p d lt (node k f v w)
        → Returns
            (Replaced b h par c p d lt (node k f v w))
            (replace_by_minimum b p (least k f v w).0 h)
    two_children k f leaf w st = near k f w st
    two_children k f (node k2 f2 v2 w2) w st =
        far (node k f (node k2 f2 v2 w2) w) lp.place (least k2 f2 v2 w2).0 (least k2 f2 v2 w2).1
          lp.right st
          record {
            ne_null = st.nodes.0;
            holds = rw lp.whole st.nodes.1;
            nodes = rw lp.whole st.nodes.3;
            ne_leaf = rw lp.whole st.nodes.3.0;
            below = lp.below;
            apart = λ q. rw lp.whole (omega (arith, st.apart q));
          }
          lp.whole (ap (node (least k2 f2 v2 w2).0 (least k2 f2 v2 w2).1 lt) (sym lp.rest))
      where
        lp : LeastPlace (in_left k f w top) k2 f2 v2 w2
        lp = least_place (in_left k f w top) tt k2 f2 v2 w2

  -- The branches of `bst_delete_node`.
  unfoldable pub branches : ℕ → Ptr → Ptr → Cmd Bst
  branches size l r =
      if l == null
      then transplant b p r
      else if r == null
      then transplant b p l
      else do minimum ← leftmost (size + 1) r; replace_by_minimum b p minimum

  pub branches-Replaced :
      (size : ℕ) (l r : Tree)
      → count r ≤ size
      → Stands h par c p d l r
      → Returns (Replaced b h par c p d l r) (branches size (addr l) (addr r) h)
  unfolding branches
  branches-Replaced size leaf r fuel st = one_child leaf r r st refl st.nodes.3 (λ q. omega arith)
  branches-Replaced size (node a e x y) leaf fuel st =
      rw (ne_null st.nodes.2.0)
        (one_child (node a e x y) leaf (node a e x y) st refl st.nodes.2 (λ q. omega arith))
  branches-Replaced size (node a e x y) (node k f v w) fuel st =
      rw
        (
          ne_null st.nodes.2.0,
          ne_null st.nodes.3.0,
          leftmost-least (size + 1) h p k f v w (omega arith) st.nodes.3,
        )
        (two_children a e x y k f v w st)
