-- ===== src/Finder/Found.antt =====
-- lab09/zad1/finder.c: what detached threads find together.
use operating_systems_agh_la.Base.{
  ℕ, ◌+◌, ◌-◌, ◌*◌, ◌/◌, ◌%◌, ◌<◌, ◌≤◌, ◌≡◌, refl, ap, subst, ◌∙◌, List, length, arith,
}
use operating_systems_agh_la.Finder.{detached, int_limit, Reads, find_pattern}
use operating_systems_agh_la.Finder.Within.{ReadsFile, Occurs, IsIn}
use operating_systems_agh_la.Finder.Reports.{Ends, Ends-weaken}
use operating_systems_agh_la.Finder.Complete.{Reported, find_pattern-Reported}

distributed : (r d q b k : ℕ) → r * b + d * (q * b) + k ≡ (r + d * q) * b + k
distributed r d q b k = grind arith

-- The blocks of all threads are the blocks of the file.
block_of :
    (block threads_quantity buffer_size k : ℕ)
    → 0 < threads_quantity
    → block % threads_quantity * buffer_size
        + block / threads_quantity * (threads_quantity * buffer_size)
        + k
      ≡ block * buffer_size + k
block_of block threads_quantity buffer_size k some_threads =
    let whole : block % threads_quantity + block / threads_quantity * threads_quantity ≡ block =
      grind arith in
    distributed (block % threads_quantity) (block / threads_quantity) threads_quantity buffer_size k
    ∙ ap (λ b. b * buffer_size + k) whole

first_place-le :
    (block threads_quantity buffer_size : ℕ)
    → 0 < threads_quantity
    → block % threads_quantity * buffer_size ≤ threads_quantity * buffer_size
first_place-le block threads_quantity buffer_size some_threads =
    times (block % threads_quantity) threads_quantity (grind arith)
  where
    times : (r q : ℕ) → r ≤ q → r * buffer_size ≤ q * buffer_size
    times r q le =
        let whole : q ≡ r + (q - r) = omega arith in
        let split : (r + (q - r)) * buffer_size ≡ r * buffer_size + (q - r) * buffer_size =
          grind arith in
        let same : q * buffer_size ≡ (r + (q - r)) * buffer_size =
          ap (λ t. t * buffer_size) whole in
        omega (arith, split, same)

-- Detached threads.
module _ (read : Reads) (pattern : List ℕ) (buffer_size : ℕ) (file : List ℕ)
    (reads : ReadsFile read file) (some_pattern : 0 < length pattern)
    (short_pattern : length pattern ≤ buffer_size) where
  -- Detached threads miss no occurrence inside a block: when the pattern stands in the file at a
  -- place and ends in the same block, the thread whose turn that block is ends and reports the
  -- place. Assumes one thread or more that all use their number, a pattern that is not empty and
  -- fits the buffer, `read` as documented for a file, and that the bytes of the file and of a block
  -- of each thread together are an `int`.
  pub find_pattern-found :
      (n : ℕ) (buffer : ℕ → ℕ) (threads_quantity block k : ℕ)
      → 0 < threads_quantity
      → length file < n
      → length file + threads_quantity * buffer_size < int_limit
      → k + length pattern ≤ buffer_size
      → Occurs file pattern (block * buffer_size + k)
      → Ends (IsIn (block * buffer_size + k)) (
          find_pattern detached read pattern buffer_size n buffer threads_quantity
            (block % threads_quantity))
  find_pattern-found n buffer threads_quantity block k some_threads fuel small fits occurs =
      let begins : block % threads_quantity * buffer_size < int_limit =
        omega (arith, first_place-le block threads_quantity buffer_size some_threads) in
      Ends-weaken
        (Reported detached read pattern buffer_size file reads some_pattern short_pattern
          (block % threads_quantity * buffer_size) (threads_quantity * buffer_size))
        (IsIn (block * buffer_size + k)) _
        (find_pattern-Reported detached read pattern buffer_size file reads some_pattern
          short_pattern n buffer threads_quantity (block % threads_quantity) some_threads fuel
          begins small)
        (λ found re.
          subst (λ p. Occurs file pattern p → IsIn p found)
            (block_of block threads_quantity buffer_size k some_threads)
            (re.complete refl (block / threads_quantity) k fits) occurs)
