-- ===== src/MemManagement/BlockList/Finish.antt =====
-- `list_init` and `list_finish` of lab02/zad1/src/list.c.
use operating_systems_agh_la.Base.{
  ℕ, suc, ◌+◌, ◌≡◌, refl, ◌≢◌, inl, inr, false, none, some, [], ◌∷◌, arith, ◌==◌, Bool-cases,
  if◌then◌else◌,
}
use operating_systems_agh_la.MemManagement.Heap.{
  Ptr, null, Block, block, list_node, Heap, put_list, ok, load_list, Run, fault, Malloc,
  malloc_list,
}
use operating_systems_agh_la.MemManagement.Heap.Returns.{Returns, returns}
use operating_systems_agh_la.MemManagement.BlockList.{
  BlockList, finish_loop, list_finish, list_init,
}
use operating_systems_agh_la.MemManagement.BlockList.Add.{with_new, set_list_content-new}
use operating_systems_agh_la.MemManagement.BlockList.Chain.{
  Entries, IsList, load_list-ok, set_next-ok, free_list-ok, ne_null,
}

ne_of_test : {p : Ptr} → (p == null) ≡ false → p ≢ null
ne_of_test e = ground arith

-- `list_init` makes the empty list in a new node and leaves the tree nodes alone, or returns 1
-- with no head and changes nothing when there is no memory.
pub list_init-empty :
    (m : Malloc) (h : Heap) (li : BlockList)
    → Returns
        (λ (code, li') g.
          if m.list_at h == null
          then (code ≡ 1) × (li'.head ≡ null) × (g ≡ h)
          else (code ≡ 0) × (li'.head ≡ m.list_at h) × IsList g li' [] × (g.trees ≡ h.trees))
        (list_init m li h)
unfolding list_init malloc_list
list_init-empty m h li = elim (Bool-cases (m.list_at h == null)) [
  | inl no_memory ↦ rw no_memory (returns (refl, refl, refl))
  | inr got ↦
      rw
        (
          got,
          got,
          set_list_content-new m (block null 0) h (ne_of_test got),
          set_next-ok (with_new m (block null 0) h) {d = block null 0} {old = (m.stale_list h).next}
              (ne_of_test got) (ground arith) null,
        )
        (returns (
          refl,
          refl,
          record { chain = (ne_of_test got, ground arith, refl, tt); size = refl },
          refl,
        ))
]

loop_one :
    (k : ℕ) (h : Heap) {p : Ptr} (d : Block)
    → p ≢ null
    → h.lists p ≡ some (list_node d null)
    → finish_loop (suc k) p h ≡ ok tt h
unfolding finish_loop
loop_one k h d ne e = rw (load_list-ok h ne e)

loop_fault :
    (k : ℕ) (h : Heap) {p q : Ptr} (d : Block)
    → p ≢ null
    → h.lists p ≡ some (list_node d q)
    → q ≢ null
    → finish_loop (suc k) p h ≡ fault
unfolding finish_loop load_list
loop_fault k h d ne e ne' =
    rw (load_list-ok h ne e, ne_null ne', free_list-ok h ne e) (ground arith)

-- What `list_finish` does with each list: without a block it frees the head and ends; with one
-- block it does so too, and the node of the block stays allocated; with two blocks or more it
-- reads a node that it has freed, a fault.
abbrev pub Finished : Heap → BlockList → Entries → Run BlockList → Type 0
Finished h li [] r = Returns (λ li' g. (li'.size ≡ 0) × (g ≡ put_list h li.head none)) r
Finished h li (x ∷ []) r =
    Returns
      (λ li' g.
        (li'.size ≡ 0) × (g ≡ put_list h li.head none) × (g.lists x.0 ≡ some (list_node x.1 null)))
      r
Finished h li (x ∷ y ∷ xs) r = r ≡ fault

-- `list_finish` on every list: `Finished` above.
pub list_finish-Finished :
    (h : Heap) {li : BlockList} (xs : Entries)
    → IsList h li xs
    → Finished h li xs (list_finish li h)
unfolding list_finish
list_finish-Finished h {li} [] is =
    rw (load_list-ok h is.chain.0 is.chain.1, free_list-ok h is.chain.0 is.chain.1)
      (returns (refl, refl))
list_finish-Finished h {li} (x ∷ []) is =
    let e : li.size + 1 ≡ suc li.size = omega arith in
    rw
      (
        load_list-ok h is.chain.0 is.chain.1,
        ne_null is.chain.3.0,
        e,
        loop_one li.size h x.1 is.chain.3.0 is.chain.3.1,
        free_list-ok h is.chain.0 is.chain.1,
      )
      (returns (refl, refl, ground arith))
list_finish-Finished h {li} (x ∷ y ∷ xs) is =
    let e : li.size + 1 ≡ suc li.size = omega arith in
    rw (
      load_list-ok h is.chain.0 is.chain.1,
      ne_null is.chain.3.0,
      e,
      loop_fault li.size h x.1 is.chain.3.0 is.chain.3.1 is.chain.3.3.0,
    )
