-- ===== src/MemManagement/Manager/Allocate.antt =====
-- `local_mem_allocate` of lab02/zad1/src/mem_management.c.
use operating_systems_agh_la.Base.{
  ℕ, ◌+◌, ◌-◌, ◌*◌, ◌≡◌, refl, sym, subst, ◌≢◌, ◌⊎◌, inl, inr, true, none, ◌==◌, ltb, leb,
  Bool-cases, if◌then◌else◌,
}
use operating_systems_agh_la.MemManagement.Heap.{
  Ptr, null, Block, block, Heap, Malloc, IsMalloc, Cmd, pure, ◌>>=◌, load_tree,
}
use operating_systems_agh_la.MemManagement.Heap.Returns
use operating_systems_agh_la.MemManagement.Heap.Returns.{Returns, returns}
use operating_systems_agh_la.MemManagement.BlockList.{BlockList, list_add_node}
use operating_systems_agh_la.MemManagement.BlockList.Chain.{Entries, IsList}
use operating_systems_agh_la.MemManagement.BlockList.Add.{place, list_add_node-place}
use operating_systems_agh_la.MemManagement.Bst.{Bst, bst_add_node, bst_delete_node}
use operating_systems_agh_la.MemManagement.Bst.Tree.{
  Tree, leaf, node, addr, has, IsTree, load_tree-ok, ne_null,
}
use operating_systems_agh_la.MemManagement.Bst.Insert.{insert}
use operating_systems_agh_la.MemManagement.Bst.Add.{bst_add_node-insert}
use operating_systems_agh_la.MemManagement.Bst.Remove.{remove, bst_delete_node-remove}
use operating_systems_agh_la.MemManagement.Bst.Order.{Ordered}
use operating_systems_agh_la.MemManagement.Bst.Find.{
  Suits, MinFound, MaxFound, bst_find_min_node-MinFound, bst_find_max_node-MaxFound,
}
use operating_systems_agh_la.MemManagement.Manager.{
  Strategy, min_alloc, max_alloc, Manager, block_size, find_empty, local_mem_allocate,
}
use operating_systems_agh_la.MemManagement.Manager.Parts.{IsManager, IsList-lists, IsTree-trees}

-- What the search of the strategy finds.
abbrev pub Finds : Strategy → Heap → ℕ → Tree → Ptr → Type 0
Finds min_alloc h q t p = MinFound h q t p
Finds max_alloc h q t p = MaxFound h q t p

find_empty-Finds :
    (st : Strategy) (h : Heap) (par : Ptr) {b : Bst} (t : Tree) (q : ℕ)
    → IsTree h par b t
    → Ordered t
    → Returns (λ p g. (g ≡ h) × Finds st h q t p) (find_empty st b q h)
unfolding find_empty
find_empty-Finds min_alloc h par t q is o = bst_find_min_node-MinFound h par t q is
find_empty-Finds max_alloc h par t q is o = bst_find_max_node-MaxFound h par t q is o

MinFound-Suits :
    (h : Heap) (q : ℕ) (t : Tree) (p : Ptr) → MinFound h q t p → (p ≡ null) ⊎ Suits h q t p
MinFound-Suits h q leaf p f = inl f
MinFound-Suits h q (node a d l r) p f = elim (Bool-cases (leb q d.block_quantity)) [
  | inl fits ↦ inr (rw fits at f)
  | inr short ↦ inl (rw short at f)
]

Finds-Suits :
    (st : Strategy) (h : Heap) (q : ℕ) (t : Tree) (p : Ptr)
    → Finds st h q t p
    → (p ≡ null) ⊎ Suits h q t p
Finds-Suits min_alloc h q t p f = MinFound-Suits h q t p f
Finds-Suits max_alloc h q t p (inl f) = inr f.0
Finds-Suits max_alloc h q t p (inr f) = inl f.0

-- The empty blocks after `q` units of the block `d` of the node `p` are reserved; what is left of
-- the block goes back into the tree, in the node `n`.
abbrev pub with_rest : ℕ → (p n : Ptr) → Block → Tree → Tree
with_rest q p n d t =
    if ltb 0 (d.block_quantity - q)
    then insert n (block (d.address + q * block_size) (d.block_quantity - q)) (remove p t)
    else remove p t

-- `q` units from the start of an empty block are reserved.
pub record Granted (st : Strategy) (mal : Malloc) (h : Heap) (q : ℕ) (m : Manager) (t : Tree)
    (xs : Entries) (address : ℕ) (m' : Manager) (g : Heap) : Type 0 where
  pub source : Ptr
  pub finds : Finds st h q t source
  pub suits : Suits h q t source
  pub start : address ≡ suits.content.content.address
  pub buffer : m'.buffer_address ≡ m.buffer_address
  pub units : m'.block_quantity ≡ m.block_quantity
  pub new : Ptr
  pub parent : Ptr
  pub empty : IsTree g parent m'.empty_blocks (with_rest q source new suits.content.content t)
  pub reserved :
      IsList g m'.reserved_blocks (place (mal.list_at h, block suits.content.content.address q) xs)

-- NULL and no change, when the search finds nothing; else a block.
abbrev pub Allocated :
    Strategy → Malloc → Heap → ℕ → Manager → Tree → Entries → ℕ × Manager → Heap → Type 0
Allocated st mal h q m t xs (address, m') g =
    (Finds st h q t null × (address ≡ null) × (m' ≡ m) × (g ≡ h))
    ⊎ Granted st mal h q m t xs address m' g

-- The end of `local_mem_allocate`: what is left of the block goes back into the tree.
give_rest :
    Malloc → (address rest : ℕ) → (after : ℕ) → Manager → Bst → BlockList → Cmd (ℕ × Manager)
give_rest mal address rest after m e li =
    if ltb 0 rest
    then (do
      (_, e') ← bst_add_node mal e (block after rest)
      pure (address, record m { empty_blocks = e'; reserved_blocks = li }))
    else pure (address, record m { empty_blocks = e; reserved_blocks = li })

-- While a node of the tree is free, there is memory for a node.
abbrev pub Reuses : Malloc → Tree → Type 0
Reuses mal t = (g : Heap) (p : Ptr) → has p t ≡ true → g.trees p ≡ none → mal.tree_at g ≢ null

module _ (st : Strategy) (mal : Malloc) (law : IsMalloc mal) (h : Heap) (m : Manager) (t : Tree)
    (xs : Entries) (q : ℕ) where
  rest-Granted :
      (p : Ptr) (f : Finds st h q t p) (su : Suits h q t p) (par : Ptr) (e : Bst) (li : BlockList)
      (g : Heap)
      → IsTree g par e (remove p t)
      → IsList g li (place (mal.list_at h, block su.content.content.address q) xs)
      → mal.tree_at g ≢ null
      → Returns
          (λ (address, m') g. Granted st mal h q m t xs address m' g)
          (give_rest mal su.content.content.address
            (su.content.content.block_quantity - q)
            (su.content.content.address + q * block_size)
            m
            e
            li
            g)
  unfolding give_rest
  rest-Granted p f su par e li g is il memory =
      elim (Bool-cases (ltb 0 (su.content.content.block_quantity - q))) [
        | inl some_left ↦ rw some_left (
            Returns.bind
              (bst_add_node-insert mal law
                (block (su.content.content.address + q * block_size)
                  (su.content.content.block_quantity - q))
                g par (remove p t) is memory)
              λ (_, e') g' added. returns record {
                source = p;
                finds = f;
                suits = su;
                start = refl;
                buffer = refl;
                units = refl;
                new = mal.tree_at g;
                parent = if addr (remove p t) == null then (mal.stale_tree g).parent else par;
                empty = rw some_left added.tree;
                reserved = IsList-lists g g' il added.same.lists;
              })
        | inr all ↦ rw all (
            returns record {
              source = p;
              finds = f;
              suits = su;
              start = refl;
              buffer = refl;
              units = refl;
              new = null;
              parent = par;
              empty = rw all is;
              reserved = il;
            })
      ]

  -- The part of `local_mem_allocate` behind its search.
  reserve : Ptr → Cmd (ℕ × Manager)
  reserve p = if p == null then pure (null, m) else do
    n ← load_tree p
    (_, li) ← list_add_node mal m.reserved_blocks (block n.content.address q)
    e ← bst_delete_node m.empty_blocks p
    give_rest mal n.content.address (n.content.block_quantity - q)
        (n.content.address + q * block_size) m e li

  reserve-none :
      (p : Ptr) → Finds st h q t p → p ≡ null → Returns (Allocated st mal h q m t xs) (reserve p h)
  unfolding reserve
  reserve-none p f e =
      subst (λ v. Finds st h q t v → Returns (Allocated st mal h q m t xs) (reserve v h)) (sym e)
        (λ f'. returns (inl (f', refl, refl, refl))) f

  reserve-some :
      (p : Ptr)
      → Finds st h q t p
      → Suits h q t p
      → IsManager h null m t xs
      → mal.list_at h ≢ null
      → Reuses mal t
      → Returns (Allocated st mal h q m t xs) (reserve p h)
  unfolding reserve
  reserve-some p f su is list_memory tree_memory =
      rw (ne_null su.ne_null, load_tree-ok h su.ne_null su.holds)
        (Returns.bind
          (list_add_node-place mal law h (block su.content.content.address q) is.reserved
            list_memory)
          λ (_, li) g (_, placed, same).
            Returns.bind
              (bst_delete_node-remove g null t p (IsTree-trees h g null is.empty same.trees)
                su.inside (λ _. refl))
              λ e g' deleted.
                Returns.mono
                  (rest-Granted p f su null e li g' deleted.tree
                    (IsList-lists g g' placed deleted.same.lists)
                    (tree_memory g' p su.inside deleted.freed))
                  λ r g'' granted. inr granted)

  -- On a manager whose empty blocks are in search order and whose root has the parent NULL,
  -- `local_mem_allocate` ends and does what `Allocated` says, when there is memory for a list node,
  -- and for a tree node once one of the tree is free.
  pub local_mem_allocate-Allocated :
      IsManager h null m t xs
      → Ordered t
      → mal.list_at h ≢ null
      → Reuses mal t
      → Returns (Allocated st mal h q m t xs) (local_mem_allocate st mal m q h)
  unfolding local_mem_allocate give_rest reserve
  local_mem_allocate-Allocated is o list_memory tree_memory =
      Returns.bind (find_empty-Finds st h null t q is.empty o) λ p g (same, f).
        subst (λ k. Returns (Allocated st mal h q m t xs) (reserve p k)) (sym same)
          (elim (Finds-Suits st h q t p f) [
            | inl none_found ↦ reserve-none p f none_found
            | inr su ↦ reserve-some p f su is list_memory tree_memory
          ])
