-- ===== src/MemManagement/Heap.antt =====
-- The C heap under list.c and bst.c: nodes at addresses, commands that read and write them, and
-- `malloc` as a parameter. A read or a free through a null or dangling pointer is a fault.
pub mod Returns
use operating_systems_agh_la.Base.{ℕ, ◌≡◌, ◌≢◌, Option, none, some, ◌==◌, if◌then◌else◌}
pub use operating_systems_agh_la.Base.Maps.{update}

abbrev pub Ptr : Type 0
Ptr = ℕ

abbrev pub null : Ptr
null = 0

-- `list_data` of list.h and `bst_data` of bst.h, which have the same fields
pub record Block : Type 0 where
  pub address : ℕ
  pub block_quantity : ℕ

abbrev pub block : ℕ → ℕ → Block
block a q = record { address = a; block_quantity = q }

pub record ListNode : Type 0 where
  pub content : Block
  pub next : Ptr

pub record BstNode : Type 0 where
  pub content : Block
  pub left : Ptr
  pub right : Ptr
  pub parent : Ptr

abbrev pub list_node : Block → Ptr → ListNode
list_node d n = record { content = d; next = n }

abbrev pub bst_node : Block → Ptr → Ptr → Ptr → BstNode
bst_node d l r p = record { content = d; left = l; right = r; parent = p }

pub record Heap : Type 0 where
  pub lists : Ptr → Option ListNode
  pub trees : Ptr → Option BstNode

abbrev pub put_list : Heap → Ptr → Option ListNode → Heap
put_list h p c = record h { lists = update h.lists p c }

abbrev pub put_tree : Heap → Ptr → Option BstNode → Heap
put_tree h p c = record h { trees = update h.trees p c }

pub data Run {ℓ} (A : Type ℓ) : Type ℓ where
  out_of_fuel : Run A
  fault : Run A
  ok : A → Heap → Run A

-- what a piece of C code does to the heap that it starts in
abbrev pub Cmd {ℓ} : Type ℓ → Type ℓ
Cmd A = Heap → Run A

abbrev pub pure {ℓ} : {A : Type ℓ} → A → Cmd A
pure = ok

-- a fault or a lack of fuel ends the rest too
abbrev pub and_then {ℓ κ} : {A : Type ℓ} {B : Type κ} → Run A → (A → Cmd B) → Run B
and_then out_of_fuel rest = out_of_fuel
and_then fault rest = fault
and_then (ok x after) rest = rest x after

infixl 5 ◌>>=◌ ◌>>◌
abbrev pub ◌>>=◌ {ℓ κ} : {A : Type ℓ} {B : Type κ} → Cmd A → (A → Cmd B) → Cmd B
first >>= rest = λ h. and_then (first h) rest

abbrev pub ◌>>◌ {ℓ κ} : {A : Type ℓ} {B : Type κ} → Cmd A → Cmd B → Cmd B
first >> second = first >>= λ _. second

-- `*p` for a list node, and the write of one
unfoldable pub load_list : Ptr → Cmd ListNode
load_list p h = if p == null then fault else elim (h.lists p) [ none ↦ fault | some n ↦ ok n h ]

unfoldable pub set_next : Ptr → Ptr → Cmd (Unit {0})
set_next p q = do n ← load_list p; λ h. ok tt (put_list h p (some (record n { next = q })))

unfoldable pub set_list_content : Ptr → Block → Cmd (Unit {0})
set_list_content p d = do
  n ← load_list p
  λ h. ok tt (put_list h p (some (record n { content = d })))

unfoldable pub free_list : Ptr → Cmd (Unit {0})
free_list p = load_list p >> λ h. ok tt (put_list h p none)

-- `*p` for a tree node, the writes of its fields, and `free`
unfoldable pub load_tree : Ptr → Cmd BstNode
load_tree p h = if p == null then fault else elim (h.trees p) [ none ↦ fault | some n ↦ ok n h ]

unfoldable pub set_left : Ptr → Ptr → Cmd (Unit {0})
set_left p q = do n ← load_tree p; λ h. ok tt (put_tree h p (some (record n { left = q })))

unfoldable pub set_right : Ptr → Ptr → Cmd (Unit {0})
set_right p q = do n ← load_tree p; λ h. ok tt (put_tree h p (some (record n { right = q })))

unfoldable pub set_parent : Ptr → Ptr → Cmd (Unit {0})
set_parent p q = do n ← load_tree p; λ h. ok tt (put_tree h p (some (record n { parent = q })))

unfoldable pub set_tree_content : Ptr → Block → Cmd (Unit {0})
set_tree_content p d = do
  n ← load_tree p
  λ h. ok tt (put_tree h p (some (record n { content = d })))

unfoldable pub free_tree : Ptr → Cmd (Unit {0})
free_tree p = load_tree p >> λ h. ok tt (put_tree h p none)

-- `malloc`: the address that it returns in a given heap, NULL when there is no memory, and what
-- the new node holds before it is written.
pub record Malloc : Type 0 where
  pub list_at : Heap → Ptr
  pub stale_list : Heap → ListNode
  pub tree_at : Heap → Ptr
  pub stale_tree : Heap → BstNode

-- `malloc` never returns an address that is in use.
pub record IsMalloc (m : Malloc) : Type 0 where
  pub fresh_list : (h : Heap) → m.list_at h ≢ null → h.lists (m.list_at h) ≡ none
  pub fresh_tree : (h : Heap) → m.tree_at h ≢ null → h.trees (m.tree_at h) ≡ none

unfoldable pub malloc_list : Malloc → Cmd Ptr
malloc_list m h =
    let p = m.list_at h in
    if p == null then ok null h else ok p (put_list h p (some (m.stale_list h)))

unfoldable pub malloc_tree : Malloc → Cmd Ptr
malloc_tree m h =
    let p = m.tree_at h in
    if p == null then ok null h else ok p (put_tree h p (some (m.stale_tree h)))
