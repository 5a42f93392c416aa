-- ===== src/MemManagement/BlockList/Chain.antt =====
-- What a linked list of blocks is in the heap, and what leaves it alone.
use operating_systems_agh_la.Base.{
  ℕ, ◌≡◌, refl, ◌≢◌, ◌≤◌, Bool, true, false, ◌||◌, Option, none, some, List, [], ◌∷◌, arith, ◌==◌,
  length,
}
use operating_systems_agh_la.MemManagement.Heap.{
  Ptr, null, Block, block, list_node, Heap, put_list, ok, load_list, ListNode, set_next, free_list,
}
use operating_systems_agh_la.MemManagement.BlockList.{BlockList}

-- the nodes of a list in order, each with its block
abbrev pub Entries : Type 0
Entries = List (Ptr × Block)

abbrev pub first : Entries → Ptr
first [] = null
first ((p, _) ∷ _) = p

abbrev pub has : Ptr → Entries → Bool
has a [] = false
has a ((p, _) ∷ xs) = (a == p) || has a xs

-- from the first entry on, each node holds its block and leads to the next, the last to NULL
abbrev pub Chain : Heap → Entries → Type 0
Chain h [] = Unit
Chain h ((p, d) ∷ xs) =
    (p ≢ null) × (h.lists p ≡ some (list_node d (first xs))) × (has p xs ≡ false) × Chain h xs

-- The list whose nodes behind the head are `xs`.
pub record IsList (h : Heap) (li : BlockList) (xs : Entries) : Type 0 where
  pub chain : Chain h ((li.head, block null 0) ∷ xs)
  pub size : li.size ≡ length xs

abbrev pub SortedFrom : ℕ → Entries → Type 0
SortedFrom lo [] = Unit
SortedFrom lo ((p, d) ∷ xs) = (lo ≤ d.address) × SortedFrom d.address xs

-- `g` differs from `h` at most in the list nodes at `xs`.
pub record SameOutside (xs : Entries) (h g : Heap) : Type 0 where
  pub lists : (a : Ptr) → has a xs ≡ false → g.lists a ≡ h.lists a
  pub trees : g.trees ≡ h.trees

pub frame :
    (h g : Heap) (xs : Entries)
    → Chain h xs
    → ((a : Ptr) → has a xs ≡ true → g.lists a ≡ h.lists a)
    → Chain g xs
frame h g [] c same = tt
frame h g ((p, d) ∷ xs) c same =
    (c.0, ground (arith, same p), c.2, frame h g xs c.3 λ a i. same a (ground arith))

pub frame-put :
    (h : Heap) (xs : Entries) (a : Ptr) (n : Option ListNode)
    → Chain h xs
    → has a xs ≡ false
    → Chain (put_list h a n) xs
frame-put h xs a n c out = frame h (put_list h a n) xs c (ground arith)

pub not-has_of_none :
    (h : Heap) (xs : Entries) (a : Ptr) → Chain h xs → h.lists a ≡ none → has a xs ≡ false
not-has_of_none h [] a c unused = refl
not-has_of_none h ((p, d) ∷ xs) a c unused = ground (arith, not-has_of_none h xs a c.3)

module _ (h : Heap) {p : Ptr} {d : Block} {old : Ptr} (ne : p ≢ null)
    (e : h.lists p ≡ some (list_node d old)) where
  pub load_list-ok : load_list p h ≡ ok (list_node d old) h
  unfolding load_list
  load_list-ok = ground arith

  pub set_next-ok : (q : Ptr) → set_next p q h ≡ ok tt (put_list h p (some (list_node d q)))
  unfolding set_next
  set_next-ok q = rw load_list-ok

  pub free_list-ok : free_list p h ≡ ok tt (put_list h p none)
  unfolding free_list
  free_list-ok = rw load_list-ok

pub ne_null : {p : Ptr} → p ≢ null → (p == null) ≡ false
ne_null ne = ground arith
