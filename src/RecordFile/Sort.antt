-- ===== src/RecordFile/Sort.antt =====
-- lab03/zad1/prog.c: what `sort` does to the order and the places of the records.
use operating_systems_agh_la.Base.{
  ℕ, zero, suc, ◌+◌, ◌≤◌, ◌<◌, ◌≡◌, refl, subst, ap, ◌∙◌, false, ◌⊎◌, arith, ◌==◌, ltb, inl, inr,
  Bool-cases, if◌then◌else◌,
}
use operating_systems_agh_la.Base.Int.{greater, greater_asym, greater_irrefl, not_greater_trans}
use operating_systems_agh_la.RecordFile.{Structure, File, exchange, inner, outer, sort}

-- `b` holds the records of `a` in another order, and agrees with it outside the positions from
-- `low` to `high`.
pub record Moves (low high : ℕ) (a b : ℕ → Structure) : Type 0 where
  pub source : ℕ → ℕ
  pub target : ℕ → ℕ
  pub taken : (k : ℕ) → b k ≡ a (source k)
  pub back : (k : ℕ) → target (source k) ≡ k
  pub forth : (k : ℕ) → source (target k) ≡ k
  pub within : (k : ℕ) → low ≤ k → k < high → (low ≤ source k) × (source k < high)
  pub outside : (k : ℕ) → (k < low) ⊎ (high ≤ k) → source k ≡ k

stay : (low high : ℕ) (a : ℕ → Structure) → Moves low high a a
stay low high a = record {
  source = λ k. k;
  target = λ k. k;
  taken = λ k. refl;
  back = λ k. refl;
  forth = λ k. refl;
  within = λ k from to. (from, to);
  outside = λ k out. refl;
}

then_ :
    {low high : ℕ} {a b c : ℕ → Structure}
    → Moves low high a b
    → Moves low high b c
    → Moves low high a c
then_ f g = record {
  source = λ k. f.source (g.source k);
  target = λ k. g.target (f.target k);
  taken = λ k. g.taken k ∙ f.taken (g.source k);
  back = λ k. ap g.target (f.back (g.source k)) ∙ g.back k;
  forth = λ k. ap f.source (g.forth (f.target k)) ∙ f.forth k;
  within = λ k from to. let w = g.within k from to in f.within (g.source k) w.0 w.1;
  outside = λ k out. ap f.source (g.outside k out) ∙ f.outside k out;
}

-- a smaller range is part of a larger one
widen :
    {low low' high : ℕ} {a b : ℕ → Structure}
    → low' ≤ low
    → Moves low high a b
    → Moves low' high a b
widen {low} {low'} {high} le f = record {
  source = f.source;
  target = f.target;
  taken = f.taken;
  back = f.back;
  forth = f.forth;
  within = λ k from to. elim (Bool-cases (ltb k low)) [
    | inl below ↦ ground (arith, f.outside k)
    | inr above ↦ ground (arith, f.within k)
  ];
  outside = λ k out. f.outside k (ground arith);
}

abbrev swap : ℕ → ℕ → ℕ → ℕ
swap i j k = if k == i then j else if k == j then i else k

swap_twice : (i j k : ℕ) → swap i j (swap i j k) ≡ k
swap_twice i j k = ground arith

exchange-Moves :
    (high i j : ℕ) (a : ℕ → Structure) → i ≤ j → j < high → Moves i high a (exchange i j a)
unfolding exchange
exchange-Moves high i j a le lt = elim (Bool-cases (greater (a i).key (a j).key)) [
  | inl wrong ↦ rw wrong record {
    source = swap i j;
    target = swap i j;
    taken = λ k. ground arith;
    back = swap_twice i j;
    forth = swap_twice i j;
    within = λ k from to. ground arith;
    outside = λ k out. ground arith;
  }
  | inr right ↦ rw right (stay i high a)
]

inner-Moves : (n i j : ℕ) (a : ℕ → Structure) → i ≤ j → Moves i (j + n) a (inner n i j a)
unfolding inner
inner-Moves zero i j a le = stay i (j + 0) a
inner-Moves (suc n) i j a le = rw (shift j n) (
    then_ (exchange-Moves (suc j + n) i j a le (omega arith))
      (inner-Moves n i (suc j) (exchange i j a) (omega arith)))
  where
    shift : (j n : ℕ) → j + suc n ≡ suc j + n
    shift j n = omega arith

outer-Moves : (n i : ℕ) (a : ℕ → Structure) → Moves i (i + n) a (outer n i a)
unfolding outer
outer-Moves zero i a = stay i (i + 0) a
outer-Moves (suc n) i a = then_ (inner-Moves (suc n) i i a (omega arith)) (
    widen {low = suc i} (omega arith)
      (rw (shift i n) (outer-Moves n (suc i) (inner (suc n) i i a))))
  where
    shift : (i n : ℕ) → i + suc n ≡ suc i + n
    shift i n = omega arith

-- the key at `k` is not above the one at `l`
abbrev InOrder : (ℕ → Structure) → ℕ → ℕ → Type 0
InOrder a k l = greater (a k).key (a l).key ≡ false

-- the record at `i` has the least key from `i` to `j`
abbrev IsLeast : (ℕ → Structure) → ℕ → ℕ → Type 0
IsLeast a i j = (l : ℕ) → i ≤ l → l < j → InOrder a i l

exchange-IsLeast :
    (i j : ℕ) (a : ℕ → Structure) → i ≤ j → IsLeast a i j → IsLeast (exchange i j a) i (suc j)
unfolding exchange
exchange-IsLeast i j a le least l from to = elim (Bool-cases (greater (a i).key (a j).key)) [
  | inl wrong ↦ rw wrong (
      ground (
        arith,
        greater_asym (a i).key (a j).key wrong,
        greater_irrefl (a i).key,
        greater_irrefl (a j).key,
        least l,
        not_greater_trans (a j).key (a i).key (a l).key,
      ))
  | inr right ↦ rw right (ground (arith, least l))
]

inner-IsLeast :
    (n i j : ℕ) (a : ℕ → Structure) → i ≤ j → IsLeast a i j → IsLeast (inner n i j a) i (j + n)
unfolding inner
inner-IsLeast zero i j a le least l from to = least l from (omega arith)
inner-IsLeast (suc n) i j a le least l from to =
    inner-IsLeast n i (suc j) (exchange i j a) (omega arith) (exchange-IsLeast i j a le least) l
      from (omega arith)

-- the records from `low` to `high` are in the order of their keys
abbrev pub IsSorted : (ℕ → Structure) → ℕ → ℕ → Type 0
IsSorted a low high = (k l : ℕ) → low ≤ k → k ≤ l → l < high → InOrder a k l

-- A least record before a sorted rest stays so when the rest is moved around.
cons-IsSorted :
    (i high : ℕ) (a b : ℕ → Structure)
    → IsLeast a i high
    → Moves (suc i) high a b
    → IsSorted b (suc i) high
    → IsSorted b i high
cons-IsSorted i high a b least m sorted k l from le to = elim (Bool-cases (k == i)) [
  | inl first ↦ elim (Bool-cases (l == i)) [
    | inl same ↦ ground (arith, greater_irrefl (b i).key)
    | inr later ↦
        let w = m.within l (ground arith) to in
        ground (
          arith,
          m.taken i,
          m.outside i (inl (omega arith)),
          m.taken l,
          least (m.source l) (omega (arith, w.0)) w.1,
        )
  ]
  | inr further ↦ sorted k l (ground arith) le to
]

outer-IsSorted : (n i : ℕ) (a : ℕ → Structure) → IsSorted (outer n i a) i (i + n)
unfolding outer
outer-IsSorted zero i a = λ k l from le to. ground arith
outer-IsSorted (suc n) i a =
    cons-IsSorted i (i + suc n) b (outer n (suc i) b)
      (inner-IsLeast (suc n) i i a (omega arith) λ l from to. ground arith)
      (rw (shift i n) (outer-Moves n (suc i) b)) (rw (shift i n) (outer-IsSorted n (suc i) b))
  where
    b : ℕ → Structure
    b = inner (suc n) i i a

    shift : (i n : ℕ) → i + suc n ≡ suc i + n
    shift i n = omega arith

-- `sort` leaves the header as it is and orders the records by their keys; it only moves them: there
-- is a one-to-one correspondence of the positions below `count` that says where each came from, and
-- what lies behind `count` stays.
pub sort-IsSorted :
    (f : File)
    → IsSorted (sort f).records 0 f.count
      × Moves 0 f.count f.records (sort f).records
      × ((sort f).count ≡ f.count)
      × ((sort f).struct_size ≡ f.struct_size)
unfolding sort
sort-IsSorted f = (
  (λ k l from le to. outer-IsSorted f.count 0 f.records k l from le (omega arith)),
  subst (λ n. Moves 0 n f.records (outer f.count 0 f.records)) (zero_plus f.count)
      (outer-Moves f.count 0 f.records),
  refl,
  refl,
)
  where
    zero_plus : (n : ℕ) → 0 + n ≡ n
    zero_plus n = omega arith
