-- ===== src/RecordFile/Bytes/Ends.antt =====
-- Results of the code of lab03/zad1/prog.c.
use operating_systems_agh_la.RecordFile.Bytes.{Outcome, ok, overflow, no_memory, out_of_fuel, ◌>>=◌}

-- The code ends in a value that satisfies `P`.
abbrev pub Ends : {A : Type 0} → (A → Type 0) → Outcome A → Type 0
Ends P (ok x) = P x
Ends P overflow = ⊥
Ends P no_memory = ⊥
Ends P out_of_fuel = ⊥

pub Ends-weaken :
    {A : Type 0} (P Q : A → Type 0) (o : Outcome A) → Ends P o → ((x : A) → P x → Q x) → Ends Q o
Ends-weaken P Q (ok x) e f = f x e
Ends-weaken P Q overflow e f = elim e [ ]
Ends-weaken P Q no_memory e f = elim e [ ]
Ends-weaken P Q out_of_fuel e f = elim e [ ]

pub Ends-bind :
    {A B : Type 0} (P : A → Type 0) (Q : B → Type 0) (o : Outcome A) (f : A → Outcome B)
    → Ends P o
    → ((x : A) → P x → Ends Q (f x))
    → Ends Q (o >>= f)
Ends-bind P Q (ok x) f e rest = rest x e
Ends-bind P Q overflow f e rest = elim e [ ]
Ends-bind P Q no_memory f e rest = elim e [ ]
Ends-bind P Q out_of_fuel f e rest = elim e [ ]
