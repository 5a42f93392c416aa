-- ===== src/MemManagement/Bst/Transplant.antt =====
-- `local_bst_transplant` of lab02/zad1/src/bst.c.
use operating_systems_agh_la.Base.{
  ◌+◌, ◌≤◌, ◌≡◌, refl, ◌≢◌, true, false, some, arith, ◌==◌, ◌∙◌, if◌then◌else◌,
}
use operating_systems_agh_la.MemManagement.Heap.{
  Ptr, null, Block, bst_node, Heap, put_tree, Cmd, pure, ◌>>=◌, ◌>>◌, load_tree, set_parent,
}
use operating_systems_agh_la.MemManagement.Heap.Returns
use operating_systems_agh_la.MemManagement.Heap.Returns.{Returns, returns}
use operating_systems_agh_la.MemManagement.Bst.{Bst, transplant}
use operating_systems_agh_la.MemManagement.Bst.Tree.{
  Tree, leaf, node, addr, TreeAt, load_tree-ok, set_left-ok, set_right-ok, set_parent-ok, ne_null,
}
use operating_systems_agh_la.MemManagement.Bst.Count.{hits, hits-same, hits-apart, occ, Once, kept}
use operating_systems_agh_la.MemManagement.Bst.Context.{
  Context, top, in_left, in_right, up, around, ContextAt, context_kept,
}

-- `g` differs from `h` at most in the nodes around a place and in those of the tree `u`.
pub record SameElsewhere (c : Context) (u : Tree) (h g : Heap) : Type 0 where
  pub trees : (q : Ptr) → around q c + occ q u ≡ 0 → g.trees q ≡ h.trees q
  pub lists : g.lists ≡ h.lists

pub with_parent :
    (h : Heap) (z w a : Ptr) (d : Block) (l r : Tree)
    → TreeAt h z (node a d l r)
    → Once (node a d l r)
    → TreeAt (put_tree h a (some (bst_node d (addr l) (addr r) w))) w (node a d l r)
with_parent h z w a d l r at one = (
  at.0,
  ground arith,
  kept h (put_tree h a (some (bst_node d (addr l) (addr r) w))) a l at.2
      (λ q i. ground (arith, hits-apart q a (omega (arith, one q)))),
  kept h (put_tree h a (some (bst_node d (addr l) (addr r) w))) a r at.3
      (λ q i. ground (arith, hits-apart q a (omega (arith, one q)))),
)

-- The end of `transplant`: the moved tree gets the parent of `x`.
settle : Bst → (x y : Ptr) → Cmd Bst
settle b x y = if y == null then pure b else do n ← load_tree x; set_parent y n.parent; pure b

record Settled (b : Bst) (h : Heap) (w : Ptr) (u : Tree) (r : Bst) (g : Heap) : Type 0 where
  bst : r ≡ b
  nodes : TreeAt g w u
  trees : (q : Ptr) → occ q u ≡ 0 → g.trees q ≡ h.trees q
  lists : g.lists ≡ h.lists

module _ (b : Bst) (h : Heap) (x : Ptr) (e : Block) (lx rx w : Ptr) (ne : x ≢ null)
    (holds : h.trees x ≡ some (bst_node e lx rx w)) where
  settle-Settled :
      (z : Ptr) (u : Tree)
      → TreeAt h z u
      → Once u
      → Returns (Settled b h w u) (settle b x (addr u) h)
  unfolding settle
  settle-Settled z leaf at one =
      returns record { bst = refl; nodes = tt; trees = λ q o. refl; lists = refl }
  settle-Settled z (node a d l r) at one =
      rw (ne_null at.0, load_tree-ok h ne holds, set_parent-ok h at.0 at.1 w)
        (returns record {
          bst = refl;
          nodes = with_parent h z w a d l r at one;
          trees = λ q o. ground (arith, hits-apart q a (omega arith));
          lists = refl;
        })

-- The handle after the place `c` got the pointer `y`.
abbrev pub rooted : Context → Bst → Ptr → Bst
rooted top b y = record b { root = y }
rooted (in_left a d r c) b y = b
rooted (in_right a d l c) b y = b

-- The tree `u` stands at the place `c`.
pub record Moved (b : Bst) (h : Heap) (par : Ptr) (c : Context) (u : Tree) (r : Bst) (g : Heap)
    : Type 0 where
  pub bst : r ≡ rooted c b (addr u)
  pub context : ContextAt g par c (addr u)
  pub nodes : TreeAt g (up par c) u
  pub same : SameElsewhere c u h g

-- A place at the top is that of a root, which has no parent.
abbrev pub Rootless : Ptr → Context → Type 0
Rootless par top = par ≡ null
Rootless par (in_left a d r c) = Unit
Rootless par (in_right a d l c) = Unit

-- What `transplant` is given: `x` is at the place `c` of the tree, and the tree `u` is apart from
-- `x` and all the nodes around that place.
pub record Movable (h : Heap) (par : Ptr) (c : Context) (x : Ptr) (z : Ptr) (u : Tree)
    : Type 0 where
  pub context : ContextAt h par c x
  pub ne_null : x ≢ null
  pub content : Block
  pub left : Ptr
  pub right : Ptr
  pub holds : h.trees x ≡ some (bst_node content left right (up par c))
  pub nodes : TreeAt h z u
  pub apart : (q : Ptr) → hits q x + (around q c + occ q u) ≤ 1
  pub rootless : Rootless par c

addr_apart :
    (h : Heap) (z x : Ptr) (t : Tree)
    → TreeAt h z t
    → x ≢ null
    → occ x t ≡ 0
    → (x == addr t) ≡ false
addr_apart h z x leaf at ne o = ne_null ne
addr_apart h z x (node a d l r) at ne o = hits-apart x a (omega arith)

is_null : (p : Ptr) → p ≡ null → (p == null) ≡ true
is_null p e = ground arith

hits_self : (x : Ptr) → (x == x) ≡ true
hits_self x = ground arith

module _ (b : Bst) (h : Heap) (par : Ptr) where
  -- After the pointer to the place is written, in `h1`.
  finish :
      (h1 : Heap) (b' : Bst) (c : Context) (x z : Ptr) (u : Tree)
      → (mv : Movable h par c x z u) → b' ≡ rooted c b (addr u)
      → ContextAt h1 par c (addr u)
      → SameElsewhere c leaf h h1
      → Returns (Moved b h par c u) (settle b' x (addr u) h1)
  finish h1 b' c x z u mv e ctx same =
      Returns.mono
        (settle-Settled b' h1 x mv.content mv.left mv.right (up par c) mv.ne_null
          (same.trees x (omega (arith, mv.apart x, hits-same x)) ∙ mv.holds) z u
          (kept h h1 z u mv.nodes (λ q i. same.trees q (omega (arith, mv.apart q))))
          (λ q. omega (arith, mv.apart q)))
        λ r g s. record {
          bst = s.bst ∙ e;
          context =
              context_kept h1 g par c (addr u) ctx (λ q i. s.trees q (omega (arith, mv.apart q)));
          nodes = s.nodes;
          same = record {
            trees = λ q o. s.trees q (omega arith) ∙ same.trees q (omega arith);
            lists = s.lists ∙ same.lists;
          };
        }

  pub transplant-Moved :
      (c : Context) (x z : Ptr) (u : Tree)
      → Movable h par c x z u
      → Returns (Moved b h par c u) (transplant b x (addr u) h)
  unfolding transplant settle
  transplant-Moved top x z u mv =
      rw (load_tree-ok h mv.ne_null mv.holds, is_null par mv.rootless)
        (finish h (record b { root = addr u }) top x z u mv refl tt
          record { trees = λ q o. refl; lists = refl })
  transplant-Moved (in_left a d r c) x z u mv =
      rw
        (
          load_tree-ok h mv.ne_null mv.holds,
          ne_null mv.context.0,
          load_tree-ok h mv.context.0 mv.context.1,
          hits_self x,
          set_left-ok h mv.context.0 mv.context.1 (addr u),
        )
        (finish (written d (addr u) (addr r)) b (in_left a d r c) x z u mv refl
          (
            mv.context.0,
            ground arith,
            kept h (written d (addr u) (addr r)) a r mv.context.2
                (λ q i. ground (arith, hits-apart q a (omega (arith, mv.apart q)))),
            context_kept h (written d (addr u) (addr r)) par c a mv.context.3
                (λ q i. ground (arith, hits-apart q a (omega (arith, mv.apart q)))),
          )
          record { trees = λ q o. ground (arith, hits-apart q a (omega arith)); lists = refl })
    where
      written : Block → Ptr → Ptr → Heap
      written e l' r' = put_tree h a (some (bst_node e l' r' (up par c)))
  transplant-Moved (in_right a d l c) x z u mv =
      rw
        (
          load_tree-ok h mv.ne_null mv.holds,
          ne_null mv.context.0,
          load_tree-ok h mv.context.0 mv.context.1,
          addr_apart h a x l mv.context.2 mv.ne_null (omega (arith, mv.apart x, hits-same x)),
          set_right-ok h mv.context.0 mv.context.1 (addr u),
        )
        (finish (written d (addr l) (addr u)) b (in_right a d l c) x z u mv refl
          (
            mv.context.0,
            ground arith,
            kept h (written d (addr l) (addr u)) a l mv.context.2
                (λ q i. ground (arith, hits-apart q a (omega (arith, mv.apart q)))),
            context_kept h (written d (addr l) (addr u)) par c a mv.context.3
                (λ q i. ground (arith, hits-apart q a (omega (arith, mv.apart q)))),
          )
          record { trees = λ q o. ground (arith, hits-apart q a (omega arith)); lists = refl })
    where
      written : Block → Ptr → Ptr → Heap
      written e l' r' = put_tree h a (some (bst_node e l' r' (up par c)))
