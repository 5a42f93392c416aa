-- ===== src/MemManagement/Bst/Remove.antt =====
-- The tree that `bst_delete_node` of lab02/zad1/src/bst.c leaves.
use operating_systems_agh_la.Base.{
  suc, ◌+◌, ◌-◌, ◌≤◌, ◌≡◌, refl, sym, ap, subst, inl, inr, true, false, none, arith, ◌==◌, ◌∙◌,
  if◌then◌else◌, Bool-cases,
}
use operating_systems_agh_la.MemManagement.Heap.{Ptr, null, Block, Heap, put_tree}
use operating_systems_agh_la.MemManagement.Heap.Returns
use operating_systems_agh_la.MemManagement.Heap.Returns.{Returns, returns}
use operating_systems_agh_la.MemManagement.Bst.{Bst, bst_delete_node}
use operating_systems_agh_la.MemManagement.Bst.Tree.{
  Tree, leaf, node, addr, has, count, TreeAt, IsTree, SameOutside, load_tree-ok, free_tree-ok,
}
use operating_systems_agh_la.MemManagement.Bst.Count.{
  hits, hits-apart, occ, Once-Distinct, Distinct-Once, kept, occ-none,
}
use operating_systems_agh_la.MemManagement.Bst.Context.{
  Context, top, in_left, in_right, plug, up, around, context_kept, occ-plug, plug-At, open_At,
  count-plug,
}
use operating_systems_agh_la.MemManagement.Bst.Transplant.{Rootless, rooted}
use operating_systems_agh_la.MemManagement.Bst.Minimum.{least, drop_least, addr-plug}
use operating_systems_agh_la.MemManagement.Bst.Delete.{
  join, Stands, Replaced, branches, branches-Replaced,
}

-- The tree without the node `p`: its subtrees are joined in its place.
unfoldable pub remove : Ptr → Tree → Tree
remove p leaf = leaf
remove p (node a d l r) =
    if p == a
    then join l r
    else if has p l
    then node a d (remove p l) r
    else node a d l (remove p r)

occ-least :
    (q a : Ptr) (d : Block) (l r : Tree)
    → hits q (least a d l r).0 + occ q (drop_least a d l r) ≡ occ q (node a d l r)
occ-least q a d leaf r = omega arith
occ-least q a d (node b e x y) r = omega (arith, occ-least q b e x y)

occ-join : (q : Ptr) (l r : Tree) → occ q (join l r) ≡ occ q l + occ q r
occ-join q leaf r = omega arith
occ-join q (node a d x y) leaf = omega arith
occ-join q (node a d x y) (node b e z w) = omega (arith, occ-least q b e z w)

count-least :
    (a : Ptr) (d : Block) (l r : Tree) → suc (count (drop_least a d l r)) ≡ count (node a d l r)
count-least a d leaf r = omega arith
count-least a d (node b e x y) r = omega (arith, count-least b e x y)

pub count-join : (l r : Tree) → count (join l r) ≡ count l + count r
count-join leaf r = omega arith
count-join (node a d x y) leaf = omega arith
count-join (node a d x y) (node b e z w) = omega (arith, count-least b e z w)

le-plug : (c : Context) (t : Tree) → count t ≤ count (plug c t)
le-plug top t = omega arith
le-plug (in_left a d r c) t = omega (arith, le-plug c (node a d t r))
le-plug (in_right a d l c) t = omega (arith, le-plug c (node a d l t))

-- The place of the node `p` in the tree `t` at the place `c`.
record Located (par : Ptr) (c : Context) (p : Ptr) (t : Tree) : Type 0 where
  place : Context
  content : Block
  left : Tree
  right : Tree
  whole : plug place (node p content left right) ≡ plug c t
  rest : plug place (join left right) ≡ plug c (remove p t)
  rootless : Rootless par place

locate :
    (par : Ptr) (c : Context) (p : Ptr) (t : Tree)
    → has p t ≡ true
    → (addr t ≡ p → Rootless par c)
    → Located par c p t
unfolding remove
locate par c p leaf i ok = cc
locate par c p (node a d l r) i ok = elim (Bool-cases (p == a)) [
  | inl e ↦ record {
    place = c;
    content = d;
    left = l;
    right = r;
    whole = rw (same a p e) refl;
    rest = rw e refl;
    rootless = ok (same a p e);
  }
  | inr e ↦ elim (Bool-cases (has p l)) [
    | inl at ↦
        let lo = locate par (in_left a d r c) p l at (λ q. tt) in
        record {
          place = lo.place;
          content = lo.content;
          left = lo.left;
          right = lo.right;
          whole = lo.whole;
          rest = rw (e, at) lo.rest;
          rootless = lo.rootless;
        }
    | inr out ↦
        let lo = locate par (in_right a d l c) p r (ground arith) (λ q. tt) in
        record {
          place = lo.place;
          content = lo.content;
          left = lo.left;
          right = lo.right;
          whole = lo.whole;
          rest = rw (e, out) lo.rest;
          rootless = lo.rootless;
        }
  ]
]
  where
    same : (a p : Ptr) → (p == a) ≡ true → a ≡ p
    same a p e = ground arith

-- What `bst_delete_node` leaves: the tree without the node, whose memory is free; only nodes of the
-- tree have changed.
pub record Deleted (h : Heap) (par : Ptr) (p : Ptr) (t : Tree) (b : Bst) (g : Heap) : Type 0 where
  pub tree : IsTree g par b (remove p t)
  pub freed : g.trees p ≡ none
  pub same : SameOutside (λ q. has q t) h g

rooted-root :
    (c : Context) (b : Bst) (t u : Tree)
    → b.root ≡ addr (plug c t)
    → (rooted c b (addr u)).root ≡ addr (plug c u)
rooted-root top b t u e = refl
rooted-root (in_left a d r c) b t u e = e ∙ addr-plug (in_left a d r c) t u tt
rooted-root (in_right a d l c) b t u e = e ∙ addr-plug (in_right a d l c) t u tt

rooted-size : (c : Context) (b : Bst) (y : Ptr) → (rooted c b y).size ≡ b.size
rooted-size top b y = refl
rooted-size (in_left a d r c) b y = refl
rooted-size (in_right a d l c) b y = refl

module _ (h : Heap) (par : Ptr) (p : Ptr) (c : Context) (d : Block) (l r : Tree) where
  -- The tree around the node, once the node is freed.
  freed :
      (b s : Bst) (g : Heap)
      → b.root ≡ addr (plug c (node p d l r))
      → b.size ≡ count (plug c (node p d l r))
      → Stands h par c p d l r
      → Replaced b h par c p d l r s g
      → IsTree (put_tree g p none) par (record s { size = s.size - 1 }) (plug c (join l r))
  freed b s g root size st re = record {
    root = rw re.bst (rooted-root c b (node p d l r) (join l r) root);
    nodes =
        plug-At (put_tree g p none) par c (join l r)
          (context_kept g (put_tree g p none) par c (addr (join l r)) re.context
            (λ q i. ground (arith, hits-apart q p (omega (arith, st.apart q)))))
          (kept g (put_tree g p none) (up par c) (join l r) re.nodes
            (λ q i. ground (arith, hits-apart q p (omega (arith, st.apart q, occ-join q l r)))));
    distinct =
        Distinct-Once (plug c (join l r))
          (λ q. omega (arith, occ-plug q c (join l r), occ-join q l r, st.apart q));
    size = rw re.bst (
        omega (
          arith,
          rooted-size c b (addr (join l r)),
          size,
          count-plug c (node p d l r) (join l r) (omega (arith, count-join l r)),
        ));
  }

  delete_at :
      (b : Bst)
      → b.root ≡ addr (plug c (node p d l r))
      → b.size ≡ count (plug c (node p d l r))
      → Stands h par c p d l r
      → Returns
          (λ s g.
            IsTree g par s (plug c (join l r))
            × (g.trees p ≡ none)
            × SameOutside (λ q. has q (plug c (node p d l r))) h g)
          (bst_delete_node b p h)
  unfolding bst_delete_node branches
  delete_at b root size st = rw (load_tree-ok h st.nodes.0 st.nodes.1) (
      Returns.bind
        (branches-Replaced b h par c p d b.size l r
          (omega (
            arith,
            size,
            count-plug c (node p d l r) (join l r) (omega (arith, count-join l r)),
            le-plug c (join l r),
            count-join l r,
          ))
          st)
        λ s g re. rw (free_tree-ok g st.nodes.0 (re.old ∙ st.nodes.1)) (
          returns (
            freed b s g root size st re,
            ground arith,
            record { trees = λ q o. elsewhere s g re q o; lists = re.lists },
          )))
    where
      elsewhere :
          (s : Bst) (g : Heap)
          → Replaced b h par c p d l r s g
          → (q : Ptr) → has q (plug c (node p d l r)) ≡ false
          → (put_tree g p none).trees q ≡ h.trees q
      elsewhere s g re q o =
          rw (hits-apart q p (omega (arith, zero_at q o))) (re.trees q (zero_at q o))
        where
          zero_at :
              (q : Ptr)
              → has q (plug c (node p d l r)) ≡ false
              → around q c + occ q (node p d l r) ≡ 0
          zero_at q o =
              omega (arith, occ-plug q c (node p d l r), occ-none q (plug c (node p d l r)) o)

-- On every well-formed tree, `bst_delete_node` of one of its nodes ends and leaves what `Deleted`
-- says, if the node is not the root or the root's `parent` is NULL.
pub bst_delete_node-remove :
    (h : Heap) (par : Ptr) {b : Bst} (t : Tree) (p : Ptr)
    → IsTree h par b t
    → has p t ≡ true
    → (addr t ≡ p → par ≡ null)
    → Returns (Deleted h par p t) (bst_delete_node b p h)
bst_delete_node-remove h par {b} t p is i rootless =
    Returns.mono
      (delete_at h par p lo.place lo.content lo.left lo.right b (is.root ∙ ap addr (sym lo.whole))
        (is.size ∙ ap count (sym lo.whole)) stands)
      λ s g (tree, gone, same). record {
        tree = subst (IsTree g par s) lo.rest tree;
        freed = gone;
        same = subst (λ u. SameOutside (λ q. has q u) h g) lo.whole same;
      }
  where
    lo : Located par top p t
    lo = locate par top p t i rootless

    here : TreeAt h par (plug lo.place (node p lo.content lo.left lo.right))
    here = subst (TreeAt h par) (sym lo.whole) is.nodes

    stands : Stands h par lo.place p lo.content lo.left lo.right
    stands =
        let (ctx, at) = open_At h par lo.place (node p lo.content lo.left lo.right) here in
        record {
          context = ctx;
          nodes = at;
          apart = λ q. omega (
            arith,
            occ-plug q lo.place (node p lo.content lo.left lo.right),
            ap (occ q) lo.whole,
            Once-Distinct t is.distinct q,
          );
          rootless = lo.rootless;
        }
