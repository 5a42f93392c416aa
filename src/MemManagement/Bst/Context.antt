-- ===== src/MemManagement/Bst/Context.antt =====
-- A tree of lab02/zad1/src/bst.c around one of its nodes, from that node up to the root.
use operating_systems_agh_la.Base.{ℕ, suc, ◌+◌, ◌<◌, ◌≡◌, ◌≢◌, some, arith}
use operating_systems_agh_la.MemManagement.Heap.{Ptr, null, Block, bst_node, Heap}
use operating_systems_agh_la.MemManagement.Bst.Tree.{Tree, node, addr, count, TreeAt}
use operating_systems_agh_la.MemManagement.Bst.Count.{hits, occ, kept, hits-same}

-- `in_left a d r c`: the place is the left child of the node `a`, whose right subtree is `r`.
pub data Context : Type 0 where
  top : Context
  in_left : Ptr → Block → Tree → Context → Context
  in_right : Ptr → Block → Tree → Context → Context

abbrev pub plug : Context → Tree → Tree
plug top t = t
plug (in_left a d r c) t = plug c (node a d t r)
plug (in_right a d l c) t = plug c (node a d l t)

-- The parent of the place.
abbrev pub up : Ptr → Context → Ptr
up par top = par
up par (in_left a d r c) = a
up par (in_right a d l c) = a

abbrev pub around : Ptr → Context → ℕ
around q top = 0
around q (in_left a d r c) = hits q a + (occ q r + around q c)
around q (in_right a d l c) = hits q a + (occ q l + around q c)

-- The nodes around the place, where the pointer `x` stands.
abbrev pub ContextAt : Heap → Ptr → Context → Ptr → Type 0
ContextAt h par top x = Unit
ContextAt h par (in_left a d r c) x =
    (a ≢ null)
    × (h.trees a ≡ some (bst_node d x (addr r) (up par c)))
    × TreeAt h a r
    × ContextAt h par c a
ContextAt h par (in_right a d l c) x =
    (a ≢ null)
    × (h.trees a ≡ some (bst_node d (addr l) x (up par c)))
    × TreeAt h a l
    × ContextAt h par c a

pub occ-plug : (q : Ptr) (c : Context) (t : Tree) → occ q (plug c t) ≡ around q c + occ q t
occ-plug q top t = omega arith
occ-plug q (in_left a d r c) t = omega (arith, occ-plug q c (node a d t r))
occ-plug q (in_right a d l c) t = omega (arith, occ-plug q c (node a d l t))

pub count-plug :
    (c : Context) (t u : Tree) → count t ≡ suc (count u) → count (plug c t) ≡ suc (count (plug c u))
count-plug top t u e = e
count-plug (in_left a d r c) t u e = count-plug c (node a d t r) (node a d u r) (omega arith)
count-plug (in_right a d l c) t u e = count-plug c (node a d l t) (node a d l u) (omega arith)

pub plug-At :
    (h : Heap) (par : Ptr) (c : Context) (t : Tree)
    → ContextAt h par c (addr t)
    → TreeAt h (up par c) t
    → TreeAt h par (plug c t)
plug-At h par top t ctx at = at
plug-At h par (in_left a d r c) t ctx at =
    plug-At h par c (node a d t r) ctx.3 (ctx.0, ctx.1, at, ctx.2)
plug-At h par (in_right a d l c) t ctx at =
    plug-At h par c (node a d l t) ctx.3 (ctx.0, ctx.1, ctx.2, at)

pub open_At :
    (h : Heap) (par : Ptr) (c : Context) (t : Tree)
    → TreeAt h par (plug c t)
    → ContextAt h par c (addr t) × TreeAt h (up par c) t
open_At h par top t at = (tt, at)
open_At h par (in_left a d r c) t at =
    let (ctx, here) = open_At h par c (node a d t r) at in ((here.0, here.1, here.3, ctx), here.2)
open_At h par (in_right a d l c) t at =
    let (ctx, here) = open_At h par c (node a d l t) at in ((here.0, here.1, here.2, ctx), here.3)

pub context_kept :
    (h g : Heap) (par : Ptr) (c : Context) (x : Ptr)
    → ContextAt h par c x
    → ((q : Ptr) → 0 < around q c → g.trees q ≡ h.trees q)
    → ContextAt g par c x
context_kept h g par top x ctx same = tt
context_kept h g par (in_left a d r c) x ctx same = (
  ctx.0,
  ground (arith, same a (omega (arith, hits-same a))),
  kept h g a r ctx.2 (λ q i. same q (omega arith)),
  context_kept h g par c a ctx.3 (λ q i. same q (omega arith)),
)
context_kept h g par (in_right a d l c) x ctx same = (
  ctx.0,
  ground (arith, same a (omega (arith, hits-same a))),
  kept h g a l ctx.2 (λ q i. same q (omega arith)),
  context_kept h g par c a ctx.3 (λ q i. same q (omega arith)),
)
