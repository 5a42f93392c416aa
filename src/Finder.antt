-- ===== src/Finder.antt =====
-- lab09/zad1/finder.c: threads that look for a pattern in a file, block by block (lab09/zad2a has the
-- same search). Every `read` follows an `lseek` under the same mutex, so that it reads at that place
-- whatever the other threads do: a thread is a function of the file. Bytes are numbers.
pub mod Scan
pub mod Examine
pub mod Within
pub mod Reports
pub mod Fill
pub mod Complete
pub mod Found
mod Examples
use operating_systems_agh_la.Base.{
  ℕ, zero, suc, ◌+◌, ◌-◌, ◌*◌, ◌^◌, Bool, true, false, Option, none, some, List, [], ◌∷◌, ◌++◌,
  length, get_elem?, drop, ◌==◌, ltb, if◌then◌else◌,
}

-- `detached`: the threads go on; `cancelling`: the first one to find the pattern ends them all.
pub data Mode : Type 0 where
  detached : Mode
  cancelling : Mode

abbrev pub goes_on : Mode → Bool
goes_on detached = true
goes_on cancelling = false

-- `overflow`: a position that is no `int`.
pub data Outcome (A : Type 0) : Type 0 where
  ok : A → Outcome A
  out_of_bounds : Outcome A
  overflow : Outcome A
  out_of_fuel : Outcome A

infixl 5 ◌>>=◌
abbrev pub ◌>>=◌ : {A B : Type 0} → Outcome A → (A → Outcome B) → Outcome B
ok x >>= f = f x
out_of_bounds >>= f = out_of_bounds
overflow >>= f = overflow
out_of_fuel >>= f = out_of_fuel

abbrev pub int_limit : ℕ
int_limit = 2 ^ 31

-- What `read` gives at a place of the file for a number of bytes; `none` is an error.
abbrev pub Reads : Type 0
Reads = (place quantity : ℕ) → Option (List ℕ)

-- What a thread does after a test: the places it reports, whether it goes on, and `read_check`.
pub record Step : Type 0 where
  pub found : List ℕ
  pub alive : Bool
  pub read_check : ℕ

module _ (mode : Mode) (read : Reads) (pattern : List ℕ) (buffer_size : ℕ) where
  -- The loop that compares sign after sign, with the signs of the pattern that are left: the `i` at
  -- which it stops.
  pub advance : (buffer : ℕ → ℕ) → (read_check : ℕ) → List ℕ → ℕ → Outcome ℕ
  advance buffer read_check [] i = ok i
  advance buffer read_check (c ∷ cs) i =
      if ltb i read_check
      then (if ltb i buffer_size
          then (if buffer i == c then advance buffer read_check cs (suc i) else ok i)
          else out_of_bounds)
      else ok i

  -- The second loop, on `buf2`: whether it reaches the end of what was read.
  pub agrees : List ℕ → List ℕ → Bool
  agrees [] cs = true
  agrees (b ∷ bs) [] = false
  agrees (b ∷ bs) (c ∷ cs) = if b == c then agrees bs cs else false

  -- The pattern goes on behind the block: the answer of the second `read`.
  pub continued : (position k i read_check : ℕ) → Option (List ℕ) → Step
  unfolding agrees
  continued position k i read_check none = record {
    found = [];
    alive = false;
    read_check = read_check;
  }
  continued position k i read_check (some []) = record { found = []; alive = false; read_check = 0 }
  continued position k i read_check (some (b ∷ bs)) =
      if agrees (b ∷ bs) (drop (i - k) pattern)
      then record {
        found = (position + k) ∷ [];
        alive = goes_on mode;
        read_check = length (b ∷ bs);
      }
      else record { found = []; alive = true; read_check = length (b ∷ bs) }

  -- The tests at `k`, with the `i` of the first loop.
  pub examine : (position k i read_check : ℕ) → Step
  unfolding continued
  examine position k i read_check =
      if i - k == length pattern
      then record { found = (position + k) ∷ []; alive = goes_on mode; read_check = read_check }
      else if i == read_check
      then continued position k i read_check
          (read (position + read_check) (length pattern - (i - k)))
      else record { found = []; alive = true; read_check = read_check }

  -- Whether the sums with `position` that the tests at `k` evaluate are an `int`. `position + k` in
  -- the second test is no more than the place of the second `read`.
  pub in_int : (position k i read_check : ℕ) → Bool
  in_int position k i read_check =
      if i - k == length pattern
      then ltb (position + k) int_limit
      else if i == read_check
      then ltb (position + read_check) int_limit
      else true

  -- The loop over `k`: the places reported, and whether the thread goes on.
  pub scan_block : ℕ → (buffer : ℕ → ℕ) → (position k read_check : ℕ) → Outcome (List ℕ × Bool)
  unfolding advance examine in_int
  scan_block zero buffer position k read_check = out_of_fuel
  scan_block (suc n) buffer position k read_check =
      if ltb k read_check
      then (do
        i ← advance buffer read_check pattern k
        let step = examine position k i read_check
        if in_int position k i read_check
            then (if step.alive
                then (do
                  (more, alive) ← scan_block n buffer position (suc k) step.read_check
                  ok (step.found ++ more, alive))
                else ok (step.found, false))
            else overflow)
      else ok ([], true)

  -- What `read` leaves in the buffer.
  abbrev pub fill : List ℕ → (ℕ → ℕ) → ℕ → ℕ
  fill bytes buffer i = elim (get_elem? bytes i) [ none ↦ buffer i | some b ↦ b ]

  -- The loop of `find_pattern` from `position` on; `stride` is the distance to the next block,
  -- a product that is evaluated with the sum behind a block.
  pub rounds : ℕ → (buffer : ℕ → ℕ) → (position stride : ℕ) → Outcome (List ℕ)
  rounds zero buffer position stride = out_of_fuel
  rounds (suc n) buffer position stride = elim (read position buffer_size) [
    | none ↦ ok []
    | some [] ↦ ok []
    | some (b ∷ bs) ↦ (do
      (found, alive) ←
          scan_block (buffer_size + length pattern + 1) (fill (b ∷ bs) buffer) position 0
            (length (b ∷ bs))
      if alive
          then (if ltb (position + stride) int_limit
              then (do
                more ← rounds n (fill (b ∷ bs) buffer) (position + stride) stride
                ok (found ++ more))
              else overflow)
          else ok found)
  ]

  -- `buffer` is what `malloc` leaves in the buffer, `n` is for the rounds.
  pub find_pattern : ℕ → (buffer : ℕ → ℕ) → (threads_quantity position : ℕ) → Outcome (List ℕ)
  unfolding rounds scan_block
  find_pattern n buffer threads_quantity position =
      if ltb (position * buffer_size) int_limit
      then rounds n buffer (position * buffer_size) (threads_quantity * buffer_size)
      else overflow
