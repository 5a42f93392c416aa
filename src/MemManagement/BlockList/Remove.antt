-- ===== src/MemManagement/BlockList/Remove.antt =====
-- `list_delete_node` of lab02/zad1/src/list.c.
use operating_systems_agh_la.Base.{
  ℕ, zero, suc, ◌+◌, ◌-◌, ◌<◌, ◌≤◌, ◌≡◌, refl, inl, inr, true, false, none, some, [], ◌∷◌, arith,
  ◌==◌, ==_iff, Bool-cases, if◌then◌else◌, length,
}
use operating_systems_agh_la.MemManagement.Heap.{
  Ptr, null, Block, block, list_node, Heap, put_list, set_next, free_list, pure, ◌>>=◌, ◌>>◌,
  load_list,
}
use operating_systems_agh_la.MemManagement.Heap.Returns
use operating_systems_agh_la.MemManagement.Heap.Returns.{Returns, returns}
use operating_systems_agh_la.MemManagement.BlockList.{BlockList, find_node, list_delete_node}
use operating_systems_agh_la.MemManagement.BlockList.Chain.{
  Entries, first, has, Chain, IsList, SortedFrom, SameOutside, frame, load_list-ok, set_next-ok,
  free_list-ok,
}

-- The entries without the node `p`.
unfoldable pub cut : Ptr → Entries → Entries
cut p [] = []
cut p (x ∷ xs) = if x.0 == p then xs else x ∷ cut p xs

pub length-cut : (p : Ptr) (xs : Entries) → has p xs ≡ true → suc (length (cut p xs)) ≡ length xs
unfolding cut
length-cut p [] e = ground arith
length-cut p (x ∷ xs) e = ground (arith, length-cut p xs)

has-cut : (a p : Ptr) (xs : Entries) → has a xs ≡ false → has a (cut p xs) ≡ false
unfolding cut
has-cut a p [] e = refl
has-cut a p (x ∷ xs) e = ground (arith, has-cut a p xs)

module _ (x : Ptr × Block) (p : Ptr) (xs : Entries) where
  cut-hit : (x.0 == p) ≡ true → cut p (x ∷ xs) ≡ xs
  unfolding cut
  cut-hit h = rw h

  cut-miss : (x.0 == p) ≡ false → cut p (x ∷ xs) ≡ x ∷ cut p xs
  unfolding cut
  cut-miss h = rw h

-- What is left when the node `p` has been taken out of the chain behind `(pref, c)`.
record Unlinked (h g : Heap) (p pref : Ptr) (c : Block) (xs : Entries) : Type 0 where
  chain : Chain g ((pref, c) ∷ cut p xs)
  freed : g.lists p ≡ none
  same : SameOutside ((pref, c) ∷ xs) h g

unlink_lem :
    (v : BlockList) (h : Heap) (p pref : Ptr) (d c : Block) (ys : Entries)
    → Chain h ((pref, c) ∷ (p, d) ∷ ys)
    → (p == p) ≡ true
    → Returns
        (λ r g. (r ≡ v) × Unlinked h g p pref c ((p, d) ∷ ys))
        ((do target ← load_list p; set_next pref target.next; free_list p; pure v) h)
unlink_lem v h p pref d c ys ch self =
    rw
      (
        load_list-ok h ch.3.0 ch.3.1,
        set_next-ok h ch.0 ch.1 (first ys),
        free_list-ok (put_list h pref (some (list_node c (first ys)))) {p = p} {d = d}
            {old = first ys} ch.3.0 (ground arith),
      )
      (returns (
        refl,
        record {
          chain = rw (cut-hit (p, d) p ys self) (
            ch.0,
            ground arith,
            ground arith,
            frame h (put_list (put_list h pref (some (list_node c (first ys)))) p none) ys ch.3.3
                (ground arith),
          );
          freed = ground arith;
          same = record { lists = ground arith; trees = refl };
        },
      ))

Unlinked-cons :
    (h g : Heap) (p pref q : Ptr) (c e : Block) (xs : Entries)
    → Chain h ((pref, c) ∷ (q, e) ∷ xs)
    → (q == p) ≡ false
    → Unlinked h g p q e xs
    → Unlinked h g p pref c ((q, e) ∷ xs)
Unlinked-cons h g p pref q c e xs ch miss u = record {
  chain =
      rw (cut-miss (q, e) p xs miss)
        (ch.0, ground (arith, u.same.lists pref), ground (arith, has-cut pref p xs), u.chain);
  freed = u.freed;
  same = record { lists = λ a o. u.same.lists a (ground arith); trees = u.same.trees };
}

walk_unlink :
    (v : BlockList) (k : ℕ) (h : Heap) (p pref : Ptr) (c : Block) (xs : Entries)
    → length xs < k
    → Chain h ((pref, c) ∷ xs)
    → has p xs ≡ true
    → Returns
        (λ r g. (r ≡ v) × Unlinked h g p pref c xs)
        ((do
          a ← find_node k p pref (first xs)
          target ← load_list p
          set_next a target.next
          free_list p
          pure v)
          h)
unfolding find_node
walk_unlink v k h p pref c [] fuel ch hit = ground arith
walk_unlink v zero h p pref c (x ∷ xs) fuel ch hit = absurd (omega arith)
walk_unlink v (suc k) h p pref c ((q, e) ∷ xs) fuel ch hit = elim (Bool-cases (q == p)) [
  | inl found ↦ rw (found, ← (==_iff q p).0 found) (unlink_lem v h q pref e c xs ch (ground arith))
  | inr miss ↦
      rw (miss, load_list-ok h ch.3.0 ch.3.1)
        (Returns.mono (walk_unlink v k h p q e xs (omega arith) ch.3 (ground arith))
          λ r g (same, u). (same, Unlinked-cons h g p pref q c e xs ch miss u))
]

-- `list_delete_node` of a node of the list takes it out and frees it, keeps the other nodes with
-- their blocks and their order, lowers the size by one, and changes no node outside the list.
pub list_delete_node-cut :
    (h : Heap) {li : BlockList} {xs : Entries} (p : Ptr)
    → IsList h li xs
    → has p xs ≡ true
    → Returns
        (λ li' g.
          IsList g li' (cut p xs)
          × (g.lists p ≡ none)
          × SameOutside ((li.head, block null 0) ∷ xs) h g)
        (list_delete_node li p h)
unfolding list_delete_node
list_delete_node-cut h {li} {xs} p is hit = rw (load_list-ok h is.chain.0 is.chain.1) (
    Returns.mono
      (walk_unlink (record li { size = li.size - 1 }) (li.size + 1) h p li.head (block null 0) xs
        (omega (arith, is.size)) is.chain hit)
      λ r g (e, u). rw e (
        record { chain = u.chain; size = omega (arith, is.size, length-cut p xs hit) },
        u.freed,
        u.same,
      ))

-- Deletion keeps the list ordered by address.
pub cut-SortedFrom : (p : Ptr) (lo : ℕ) (xs : Entries) → SortedFrom lo xs → SortedFrom lo (cut p xs)
unfolding cut
cut-SortedFrom p lo [] s = tt
cut-SortedFrom p lo (x ∷ xs) s = elim (Bool-cases (x.0 == p)) [
  | inl hit ↦ rw hit (weaken lo x.1.address xs s.0 s.1)
  | inr miss ↦ rw miss (s.0, cut-SortedFrom p x.1.address xs s.1)
]
  where
    weaken : (a b : ℕ) (ys : Entries) → a ≤ b → SortedFrom b ys → SortedFrom a ys
    weaken a b [] le t = tt
    weaken a b (y ∷ ys) le t = (omega arith, t.1)
