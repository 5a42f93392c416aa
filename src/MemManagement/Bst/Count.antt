-- ===== src/MemManagement/Bst/Count.antt =====
-- How often an address stands in a tree of lab02/zad1/src/bst.c. With these numbers the distinct
-- addresses of a tree are a matter of arithmetic.
use operating_systems_agh_la.Base.{
  ℕ, ◌+◌, ◌<◌, ◌≤◌, ◌≡◌, refl, inl, inr, true, false, arith, ◌==◌, ltb, Bool-cases, if◌then◌else◌,
}
use operating_systems_agh_la.MemManagement.Heap.{Ptr, Heap}
use operating_systems_agh_la.MemManagement.Bst.Tree
use operating_systems_agh_la.MemManagement.Bst.Tree.{Tree, leaf, node, addr, has, TreeAt, Distinct}

-- 1 if the addresses are the same
unfoldable pub hits : Ptr → Ptr → ℕ
hits q a = if q == a then 1 else 0

pub hits-same : (a : Ptr) → hits a a ≡ 1
unfolding hits
hits-same a = ground arith

pub hits-apart : (q a : Ptr) → hits q a ≡ 0 → (q == a) ≡ false
unfolding hits
hits-apart q a e = ground arith

pub hits-differ : (q a : Ptr) → (q == a) ≡ false → hits q a ≡ 0
unfolding hits
hits-differ q a e = ground arith

abbrev pub occ : Ptr → Tree → ℕ
occ q leaf = 0
occ q (node a d l r) = hits q a + (occ q l + occ q r)

pub has-occ : (q : Ptr) (t : Tree) → has q t ≡ ltb 0 (occ q t)
unfolding hits
has-occ q leaf = refl
has-occ q (node a d l r) = ground (arith, has-occ q l, has-occ q r)

pub occ_of_has : (q : Ptr) (t : Tree) → has q t ≡ true → 0 < occ q t
occ_of_has q t i = ground (arith, has-occ q t)

pub occ-none : (q : Ptr) (t : Tree) → has q t ≡ false → occ q t ≡ 0
occ-none q t o = ground (arith, has-occ q t)

pub has_of_occ : (q : Ptr) (t : Tree) → 0 < occ q t → has q t ≡ true
has_of_occ q t o = ground (arith, has-occ q t)

pub not-has_of_occ : (q : Ptr) (t : Tree) → occ q t ≡ 0 → has q t ≡ false
not-has_of_occ q t o = ground (arith, has-occ q t)

-- No address stands in the tree twice.
abbrev pub Once : Tree → Type 0
Once t = (q : Ptr) → occ q t ≤ 1

pub Once-Distinct : (t : Tree) → Distinct t → Once t
unfolding hits
Once-Distinct leaf di q = omega arith
Once-Distinct (node a d l r) di q = elim (Bool-cases (q == a)) [
  | inl e ↦ ground (arith, occ-none a l di.0, occ-none a r di.1)
  | inr e ↦ elim (Bool-cases (has q l)) [
    | inl i ↦ ground (arith, occ-none q r (di.2 q i), Once-Distinct l di.3 q)
    | inr o ↦ ground (arith, occ-none q l o, Once-Distinct r di.4 q)
  ]
]

pub Distinct-Once : (t : Tree) → Once t → Distinct t
Distinct-Once leaf one = tt
Distinct-Once (node a d l r) one = (
  not-has_of_occ a l (omega (arith, one a, hits-same a)),
  not-has_of_occ a r (omega (arith, one a, hits-same a)),
  λ q i. not-has_of_occ q r (omega (arith, one q, occ_of_has q l i)),
  Distinct-Once l (λ q. omega (arith, one q)),
  Distinct-Once r (λ q. omega (arith, one q)),
)

-- A tree stays what it is in a heap that has the same nodes at its addresses.
pub kept :
    (h g : Heap) (par : Ptr) (t : Tree)
    → TreeAt h par t
    → ((q : Ptr) → 0 < occ q t → g.trees q ≡ h.trees q)
    → TreeAt g par t
kept h g par t at same = Tree.frame h g par t at (λ q i. same q (occ_of_has q t i))
