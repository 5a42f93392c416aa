-- ===== src/MemManagement/Heap/Returns.antt =====
-- Total correctness of a command: it ends with no fault and within its fuel, and satisfies `Post`.
use operating_systems_agh_la.MemManagement.Heap.{Heap, Run, ok, Cmd, and_then}

pub data Returns {ℓ} {A : Type 0} (Post : A → Heap → Type ℓ) : Run A → Type ℓ where
  returns : {result : A} {after : Heap} → Post result after → Returns Post (ok result after)

-- A weaker postcondition.
pub mono {ℓ κ} :
    {A : Type 0} {Post : A → Heap → Type ℓ} {Weak : A → Heap → Type κ} {r : Run A}
    → Returns Post r
    → ((x : A) (g : Heap) → Post x g → Weak x g)
    → Returns Weak r
mono (returns holds) weaken = returns (weaken _ _ holds)

-- Two commands in a row: the second one starts where the first one ended.
pub bind {ℓ κ} :
    {A B : Type 0} {Mid : A → Heap → Type ℓ} {Post : B → Heap → Type κ} {r : Run A}
    {rest : A → Cmd B}
    → Returns Mid r
    → ((x : A) (g : Heap) → Mid x g → Returns Post (rest x g))
    → Returns Post (and_then r rest)
bind (returns holds) second = second _ _ holds
