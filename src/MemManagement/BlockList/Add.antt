-- ===== src/MemManagement/BlockList/Add.antt =====
-- `list_add_node` of lab02/zad1/src/list.c.
use operating_systems_agh_la.Base.{
  ℕ, zero, suc, ◌+◌, ◌<◌, ◌≤◌, ◌≡◌, refl, ◌∙◌, ◌≢◌, inl, inr, true, false, some, [], ◌∷◌, arith,
  ltb, Bool-cases, if◌then◌else◌, length,
}
use operating_systems_agh_la.MemManagement.Heap.{
  Ptr, null, Block, block, list_node, Heap, put_list, Malloc, IsMalloc, malloc_list,
  set_list_content, set_next, ok, pure, ◌>>=◌, ◌>>◌, load_list,
}
use operating_systems_agh_la.MemManagement.Heap.Returns
use operating_systems_agh_la.MemManagement.Heap.Returns.{Returns, returns}
use operating_systems_agh_la.MemManagement.BlockList.{BlockList, find_place, list_add_node}
use operating_systems_agh_la.MemManagement.BlockList.Chain.{
  Entries, first, has, Chain, IsList, SortedFrom, SameOutside, frame, frame-put, not-has_of_none,
  load_list-ok, set_next-ok, ne_null,
}

-- A new entry stands before the first one whose address is not below its own.
unfoldable pub place : Ptr × Block → Entries → Entries
place e [] = e ∷ []
place e (x ∷ xs) = if ltb x.1.address e.1.address then x ∷ place e xs else e ∷ x ∷ xs

pub length-place : (e : Ptr × Block) (xs : Entries) → length (place e xs) ≡ suc (length xs)
unfolding place
length-place e [] = refl
length-place e (x ∷ xs) = ground (arith, length-place e xs)

has-place : (a p : Ptr) (d : Block) (xs : Entries) → has a (place (p, d) xs) ≡ has a ((p, d) ∷ xs)
unfolding place
has-place a p d [] = refl
has-place a p d ((q, c) ∷ xs) = ground (arith, has-place a p d xs)

module _ (e x : Ptr × Block) (xs : Entries) where
  place-below : ltb x.1.address e.1.address ≡ true → place e (x ∷ xs) ≡ x ∷ place e xs
  unfolding place
  place-below h = rw h

  place-stop : ltb x.1.address e.1.address ≡ false → place e (x ∷ xs) ≡ e ∷ x ∷ xs
  unfolding place
  place-stop h = rw h

-- The two writes that put the node `p` between `pref` and the rest `ys`.
link_lem :
    (v : ℕ × BlockList) (h : Heap) (p pref : Ptr) (d c : Block) (old : Ptr) (ys : Entries)
    → Chain h ((pref, c) ∷ ys)
    → p ≢ null
    → h.lists p ≡ some (list_node d old)
    → has p ((pref, c) ∷ ys) ≡ false
    → Returns
        (λ r g.
          (r ≡ v) × Chain g ((pref, c) ∷ (p, d) ∷ ys) × SameOutside ((p, d) ∷ (pref, c) ∷ ys) h g)
        ((do set_next pref p; set_next p (first ys); pure v) h)
link_lem v h p pref d c old ys ch ne hp out =
    rw
      (
        set_next-ok h ch.0 ch.1 p,
        set_next-ok (put_list h pref (some (list_node c p))) {d = d} {old = old} ne (ground arith)
            (first ys),
      )
      (returns (
        refl,
        (
          ch.0,
          ground arith,
          ground arith,
          (
            ne,
            ground arith,
            ground arith,
            frame h
                (put_list (put_list h pref (some (list_node c p))) p
                  (some (list_node d (first ys))))
                ys ch.3 (ground arith),
          ),
        ),
        record { lists = ground arith; trees = refl },
      ))

-- An entry in front of what the rest of the walk has changed.
walk_step :
    (h g : Heap) (p pref q : Ptr) (d c e : Block) (xs ys : Entries)
    → Chain h ((pref, c) ∷ (q, e) ∷ xs)
    → has p ((pref, c) ∷ (q, e) ∷ xs) ≡ false
    → has pref ys ≡ has pref ((p, d) ∷ xs)
    → Chain g ((q, e) ∷ ys) × SameOutside ((p, d) ∷ (q, e) ∷ xs) h g
    → Chain g ((pref, c) ∷ (q, e) ∷ ys) × SameOutside ((p, d) ∷ (pref, c) ∷ (q, e) ∷ xs) h g
walk_step h g p pref q d c e xs ys ch out same (ch', so) = (
  (ch.0, ground (arith, so.lists pref), ground arith, ch'),
  record { lists = λ a o. so.lists a (ground arith); trees = so.trees },
)

-- The walk and the two writes behind it, from the entry `(pref, c)` on.
walk_link :
    (v : ℕ × BlockList) (k : ℕ) (h : Heap) (p pref : Ptr) (d c : Block) (old : Ptr) (xs : Entries)
    → length xs < k
    → Chain h ((pref, c) ∷ xs)
    → p ≢ null
    → h.lists p ≡ some (list_node d old)
    → has p ((pref, c) ∷ xs) ≡ false
    → Returns
        (λ r g.
          (r ≡ v)
          × Chain g ((pref, c) ∷ place (p, d) xs)
          × SameOutside ((p, d) ∷ (pref, c) ∷ xs) h g)
        ((do (a, b) ← find_place k d pref (first xs); set_next a p; set_next p b; pure v) h)
unfolding find_place
walk_link v zero h p pref d c old xs fuel ch ne hp out = absurd (omega arith)
walk_link v (suc k) h p pref d c old [] fuel ch ne hp out =
    unfold place in link_lem v h p pref d c old [] ch ne hp out
walk_link v (suc k) h p pref d c old ((q, e) ∷ xs) fuel ch ne hp out =
    rw (ne_null ch.3.0, load_list-ok h ch.3.0 ch.3.1)
      (elim (Bool-cases (ltb e.address d.address)) [
        | inl below ↦
            rw (below, place-below (p, d) (q, e) xs below)
              (Returns.mono (walk_link v k h p q d e old xs (omega arith) ch.3 ne hp (ground arith))
                λ r g (same, c', so).
                  let (c'', so') =
                    walk_step h g p pref q d c e xs (place (p, d) xs) ch out (has-place pref p d xs)
                      (c', so) in
                  (same, c'', so'))
        | inr stop ↦
            rw (stop, place-stop (p, d) (q, e) xs stop)
              (link_lem v h p pref d c old ((q, e) ∷ xs) ch ne hp out)
      ])

-- The heap after `malloc` and the write of the new node's block.
abbrev pub with_new : Malloc → Block → Heap → Heap
with_new m d h =
    put_list (put_list h (m.list_at h) (some (m.stale_list h))) (m.list_at h)
      (some (list_node d (m.stale_list h).next))

pub set_list_content-new :
    (m : Malloc) (d : Block) (h : Heap)
    → m.list_at h ≢ null
    → set_list_content (m.list_at h) d (put_list h (m.list_at h) (some (m.stale_list h)))
      ≡ ok tt (with_new m d h)
unfolding set_list_content load_list
set_list_content-new m d h ne = ground arith

module _ (m : Malloc) (law : IsMalloc m) where
  -- When `malloc` has memory, `list_add_node` returns 0, stores the block in a new node before the
  -- first node whose address is not below the block's, counts it, and changes no other node.
  pub list_add_node-place :
      (h : Heap) {li : BlockList} {xs : Entries} (d : Block)
      → IsList h li xs
      → m.list_at h ≢ null
      → Returns
          (λ (code, li') g.
            (code ≡ 0)
            × IsList g li' (place (m.list_at h, d) xs)
            × SameOutside ((m.list_at h, d) ∷ (li.head, block null 0) ∷ xs) h g)
          (list_add_node m li d h)
  unfolding list_add_node malloc_list
  list_add_node-place h {li} {xs} d is ne =
      rw
        (
          ne_null ne,
          ne_null ne,
          set_list_content-new m d h ne,
          load_list-ok (with_new m d h) ch.0 ch.1,
        )
        (Returns.mono
          (walk_link v (li.size + 1) (with_new m d h) p li.head d (block null 0)
            (m.stale_list h).next xs (omega (arith, is.size)) ch ne (ground arith) out)
          λ r g (e, c, so). rw e (
            refl,
            record { chain = c; size = omega (arith, is.size, length-place (p, d) xs) },
            record { lists = λ a o. so.lists a o ∙ ground arith; trees = so.trees },
          ))
    where
      p : Ptr
      p = m.list_at h

      v : ℕ × BlockList
      v = (0, record li { size = li.size + 1 })

      out : has (m.list_at h) ((li.head, block null 0) ∷ xs) ≡ false
      out =
          not-has_of_none h ((li.head, block null 0) ∷ xs) (m.list_at h) is.chain
            (law.fresh_list h ne)

      ch : Chain (with_new m d h) ((li.head, block null 0) ∷ xs)
      ch =
          frame-put (put_list h (m.list_at h) (some (m.stale_list h)))
            ((li.head, block null 0) ∷ xs) (m.list_at h) _
            (frame-put h ((li.head, block null 0) ∷ xs) (m.list_at h) _ is.chain out) out

-- Insertion keeps the list ordered by address.
pub place-SortedFrom :
    (e : Ptr × Block) (lo : ℕ) (xs : Entries)
    → lo ≤ e.1.address
    → SortedFrom lo xs
    → SortedFrom lo (place e xs)
unfolding place
place-SortedFrom e lo [] le s = (le, tt)
place-SortedFrom e lo (x ∷ xs) le s = ground (arith, place-SortedFrom e x.1.address xs)

-- `li` is a well-formed list of `n` blocks in the order of their addresses.
abbrev pub IsSortedList : Heap → ℕ → BlockList → Type 0
IsSortedList h n li = (xs : Entries) × IsList h li xs × SortedFrom 0 xs × (length xs ≡ n)

module _ (m : Malloc) (law : IsMalloc m) where
  -- When `malloc` has memory for a node, `list_add_node` on a list ordered by address ends and
  -- leaves a well-formed list ordered by address, with one block more.
  pub list_add_node-Sorted :
      (h : Heap) {li : BlockList} {xs : Entries} (d : Block)
      → IsList h li xs
      → SortedFrom 0 xs
      → m.list_at h ≢ null
      → Returns (λ r g. IsSortedList g (suc (length xs)) r.1) (list_add_node m li d h)
  list_add_node-Sorted h {xs = xs} d is sorted ne =
      Returns.mono (list_add_node-place m law h d is ne) λ r g (code, is', same). (
        place (m.list_at h, d) xs,
        is',
        place-SortedFrom (m.list_at h, d) 0 xs (omega arith) sorted,
        length-place (m.list_at h, d) xs,
      )
