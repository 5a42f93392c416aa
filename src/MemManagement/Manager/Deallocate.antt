-- ===== src/MemManagement/Manager/Deallocate.antt =====
-- `mem_deallocate` of lab02/zad1/src/mem_management.c.
use operating_systems_agh_la.Base.{
  ℕ, zero, suc, ◌+◌, ◌<◌, ◌≡◌, refl, subst, ◌≢◌, inl, inr, true, Option, none, some, [], ◌∷◌, arith,
  ◌==◌, Bool-cases, if◌then◌else◌, length,
}
use mathlib.Core.Option.{some-injective}
use operating_systems_agh_la.MemManagement.Heap.{
  Ptr, null, Block, list_node, Heap, Malloc, IsMalloc, Cmd, ok, pure, ◌>>=◌, load_list,
}
use operating_systems_agh_la.MemManagement.Heap.Returns
use operating_systems_agh_la.MemManagement.Heap.Returns.{Returns, returns}
use operating_systems_agh_la.MemManagement.BlockList.Chain
use operating_systems_agh_la.MemManagement.BlockList.Chain.{
  Entries, first, Chain, IsList, load_list-ok, ne_null,
}
use operating_systems_agh_la.MemManagement.BlockList.Remove.{cut, list_delete_node-cut}
use operating_systems_agh_la.MemManagement.BlockList.{list_delete_node}
use operating_systems_agh_la.MemManagement.Bst.{bst_add_node}
use operating_systems_agh_la.MemManagement.Bst.Tree.{Tree, addr}
use operating_systems_agh_la.MemManagement.Bst.Insert.{insert}
use operating_systems_agh_la.MemManagement.Bst.Add.{bst_add_node-insert}
use operating_systems_agh_la.MemManagement.Manager.{Manager, find_address, mem_deallocate}
use operating_systems_agh_la.MemManagement.Manager.Parts.{IsManager, IsList-lists, IsTree-trees}

-- The first node whose block is at `address`, with its block.
unfoldable pub block_at : ℕ → Entries → Option (Ptr × Block)
block_at address [] = none
block_at address (x ∷ xs) = if x.1.address == address then some x else block_at address xs

abbrev ptr_of : Option (Ptr × Block) → Ptr
ptr_of none = null
ptr_of (some x) = x.0

find_address-block_at :
    (k : ℕ) (h : Heap) (address : ℕ) (xs : Entries)
    → length xs < k
    → Chain h xs
    → find_address k address (first xs) h ≡ ok (ptr_of (block_at address xs)) h
unfolding find_address block_at
find_address-block_at zero h address xs fuel ch = absurd (omega arith)
find_address-block_at (suc k) h address [] fuel ch = refl
find_address-block_at (suc k) h address (x ∷ xs) fuel ch =
    elim (Bool-cases (x.1.address == address)) [
      | inl hit ↦ rw (ne_null ch.0, load_list-ok h ch.0 ch.1, hit)
      | inr miss ↦
          rw (ne_null ch.0, load_list-ok h ch.0 ch.1, miss)
            (find_address-block_at k h address xs (omega arith) ch.3)
    ]

-- What `block_at` finds is a node of the list with that block.
pub record Found (h : Heap) (xs : Entries) (x : Ptr × Block) : Type 0 where
  pub inside : Chain.has x.0 xs ≡ true
  ne_null : x.0 ≢ null
  pub next : Ptr
  pub holds : h.lists x.0 ≡ some (list_node x.1 next)

Found-first : (h : Heap) (y : Ptr × Block) (xs : Entries) → Chain h (y ∷ xs) → Found h (y ∷ xs) y
Found-first h y xs ch = record {
  inside = ground arith;
  ne_null = ch.0;
  next = first xs;
  holds = ch.1;
}

Found-rest : (h : Heap) (y x : Ptr × Block) (xs : Entries) → Found h xs x → Found h (y ∷ xs) x
Found-rest h y x xs f = record {
  inside = ground (arith, f.inside);
  ne_null = f.ne_null;
  next = f.next;
  holds = f.holds;
}

pub block_at-Found :
    (h : Heap) (address : ℕ) (x : Ptr × Block) (xs : Entries)
    → Chain h xs
    → block_at address xs ≡ some x
    → Found h xs x
unfolding block_at
block_at-Found h address x [] ch e = cc
block_at-Found h address x (y ∷ xs) ch e = elim (Bool-cases (y.1.address == address)) [
  | inl hit ↦ subst (Found h (y ∷ xs)) (some-injective y x (rw hit at e)) (Found-first h y xs ch)
  | inr miss ↦ Found-rest h y x xs (block_at-Found h address x xs ch.3 (rw miss at e))
]

-- What `mem_deallocate` does: an address with no reserved block gives 1 and changes nothing; else
-- the result is 0, the block goes back to the tree of empty blocks in a new node, and the node of
-- the reserved block leaves the list and is freed.
abbrev pub Deallocated :
    Malloc
    → Heap
    → Ptr
    → Manager
    → Tree
    → Entries
    → Option (Ptr × Block)
    → ℕ × Manager
    → Heap
    → Type 0
Deallocated mal h par m t xs none (code, m') g = (code ≡ 1) × (m' ≡ m) × (g ≡ h)
Deallocated mal h par m t xs (some (p, d)) (code, m') g =
    (code ≡ 0)
    × (m'.buffer_address ≡ m.buffer_address)
    × (m'.block_quantity ≡ m.block_quantity)
    × IsManager g (if addr t == null then (mal.stale_tree h).parent else par) m'
        (insert (mal.tree_at h) d t) (cut p xs)
    × (g.lists p ≡ none)

-- The part of `mem_deallocate` behind its walk.
give_back : Malloc → Manager → Ptr → Cmd (ℕ × Manager)
give_back mal m walker = if walker == null then pure (1, m) else do
  n ← load_list walker
  (_, e) ← bst_add_node mal m.empty_blocks n.content
  li ← list_delete_node m.reserved_blocks walker
  pure (0, record m { empty_blocks = e; reserved_blocks = li })

module _ (mal : Malloc) (law : IsMalloc mal) (h : Heap) (par : Ptr) (m : Manager) (t : Tree)
    (xs : Entries) (is : IsManager h par m t xs) (memory : mal.tree_at h ≢ null) where
  give_back-some :
      (x : Ptr × Block)
      → Found h xs x
      → Returns (Deallocated mal h par m t xs (some x)) (give_back mal m x.0 h)
  unfolding give_back
  give_back-some x f =
      rw (ne_null f.ne_null, load_list-ok h f.ne_null f.holds)
        (Returns.bind (bst_add_node-insert mal law x.1 h par t is.empty memory) λ _ g added.
          Returns.bind
            (list_delete_node-cut g x.0 (IsList-lists h g is.reserved added.same.lists) f.inside)
            λ _ g' (chain, freed, same). returns (
              refl,
              refl,
              refl,
              record { empty = IsTree-trees g g' _ added.tree same.trees; reserved = chain },
              freed,
            ))

  give_back-all :
      (address : ℕ) (o : Option (Ptr × Block))
      → block_at address xs ≡ o
      → Returns (Deallocated mal h par m t xs o) (give_back mal m (ptr_of o) h)
  unfolding give_back
  give_back-all address none e = returns (refl, refl, refl)
  give_back-all address (some x) e =
      give_back-some x (block_at-Found h address x xs is.reserved.chain.3 e)

-- `mem_deallocate` ends, and does what `Deallocated` says, on every manager and address, when
-- `malloc` has memory for a tree node.
pub mem_deallocate-Deallocated :
    (mal : Malloc)
    → IsMalloc mal
    → (h : Heap) (par : Ptr) (m : Manager) (t : Tree) (xs : Entries) (address : ℕ)
    → IsManager h par m t xs
    → mal.tree_at h ≢ null
    → Returns (Deallocated mal h par m t xs (block_at address xs)) (mem_deallocate mal m address h)
unfolding mem_deallocate give_back
mem_deallocate-Deallocated mal law h par m t xs address is memory =
    rw
      (
        load_list-ok h is.reserved.chain.0 is.reserved.chain.1,
        find_address-block_at (m.reserved_blocks.size + 1) h address xs
            (omega (arith, is.reserved.size)) is.reserved.chain.3,
      )
      (give_back-all mal law h par m t xs is memory address (block_at address xs) refl)
