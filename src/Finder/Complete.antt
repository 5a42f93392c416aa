-- ===== src/Finder/Complete.antt =====
-- lab09/zad1/finder.c: what a thread reports of the whole file, and that it ends.
use operating_systems_agh_la.Base.{
  ℕ, zero, suc, ◌+◌, ◌-◌, ◌*◌, ◌<◌, ◌≤◌, ◌≡◌, refl, sym, subst, inl, inr, Bool, true, false, Option,
  none, some, List, [], ◌∷◌, ◌++◌, length, take, drop, arith, ltb, Bool-cases, if◌then◌else◌,
}
use operating_systems_agh_la.Finder.{
  Mode, detached, Outcome, ok, overflow, int_limit, ◌>>=◌, Reads, scan_block, fill, rounds,
  find_pattern,
}
use operating_systems_agh_la.Finder.Within.{
  ReadsFile, OccursTo, Occurs, Every, IsIn, Every-append, IsIn-left, IsIn-right, Piece, take-Piece,
}
use operating_systems_agh_la.Finder.Examine.{Block, get_elem?-below, get_elem?-some}
use operating_systems_agh_la.Finder.Fill.{fill-Block}
use operating_systems_agh_la.Finder.Reports.{Ends, Ends-bind, Scanned, scan_block-Scanned}

module _ (mode : Mode) (read : Reads) (pattern : List ℕ) (buffer_size : ℕ) where
  module _ (file : List ℕ) (reads : ReadsFile read file) (some_pattern : 0 < length pattern)
      (short_pattern : length pattern ≤ buffer_size) where
    -- Each place reported from `position` on is one where the pattern stands as far as the file
    -- goes. A thread that goes on reports every place where the pattern stands inside a block.
    pub record Reported (position stride : ℕ) (found : List ℕ) : Type 0 where
      pub sound : Every (λ p. OccursTo file pattern p (length file)) found
      pub complete :
          mode ≡ detached
          → (m k : ℕ) → k + length pattern ≤ buffer_size
          → Occurs file pattern (position + m * stride + k)
          → IsIn (position + m * stride + k) found

    Occurs-inside : (p : ℕ) → Occurs file pattern p → p + length pattern ≤ length file
    Occurs-inside p occurs =
        let (c, e) = get_elem?-below pattern (length pattern - 1) (omega arith) in
        omega (
          arith,
          get_elem?-some file (p + (length pattern - 1)) c (occurs (length pattern - 1) c e),
        )

    first_place : (position stride k : ℕ) → position + k ≡ position + 0 * stride + k
    first_place position stride k = omega arith

    next_place :
        (position stride m k : ℕ)
        → position + stride + m * stride + k ≡ position + suc m * stride + k
    next_place position stride m k = grind arith

    -- A block, and the blocks behind it.
    module _ (buffer : ℕ → ℕ) (position stride size : ℕ)
        (bl : Block file buffer_size buffer position size) (far : buffer_size ≤ stride) where
      abbrev Scan : List ℕ × Bool → Type 0
      Scan =
          Scanned mode read pattern buffer_size file reads some_pattern short_pattern buffer
            position size bl 0 size

      here :
          (found : List ℕ) (alive : Bool)
          → Scan (found, alive)
          → mode ≡ detached
          → (k : ℕ) → k + length pattern ≤ buffer_size
          → Occurs file pattern (position + k)
          → IsIn (position + k) found
      here found alive sc d k fits occurs =
          sc.complete d refl k (omega arith)
            (elim (Bool-cases (ltb size buffer_size)) [
              | inl last ↦
                  omega (arith, bl.full (ground arith), Occurs-inside (position + k) occurs)
              | inr whole ↦ let fills : buffer_size ≤ size = ground arith in omega arith
            ])
            occurs

      Reported-dead : (found : List ℕ) → Scan (found, false) → Reported position stride found
      Reported-dead found sc = record {
        sound = sc.sound;
        complete = λ d m k fits occurs. dead_at d m k fits occurs;
      }
        where
          dead_at :
              mode ≡ detached
              → (m k : ℕ) → k + length pattern ≤ buffer_size
              → Occurs file pattern (position + m * stride + k)
              → IsIn (position + m * stride + k) found
          dead_at d zero k fits occurs =
              subst (λ p. Occurs file pattern p → IsIn p found) (first_place position stride k)
                (here found false sc d k fits) occurs
          dead_at d (suc m) k fits occurs = absurd (
              omega (
                arith,
                sc.ends d refl,
                Occurs-inside (position + suc m * stride + k) occurs,
                next_place position stride m k,
                bl.fits,
              ))

      Reported-next :
          (found more : List ℕ)
          → Scan (found, true)
          → Reported (position + stride) stride more
          → Reported position stride (found ++ more)
      Reported-next found more sc re = record {
        sound = Every-append _ found more sc.sound re.sound;
        complete = next_at;
      }
        where
          next_at :
              mode ≡ detached
              → (m k : ℕ) → k + length pattern ≤ buffer_size
              → Occurs file pattern (position + m * stride + k)
              → IsIn (position + m * stride + k) (found ++ more)
          next_at d zero k fits occurs = IsIn-left (position + 0 * stride + k) found more (
              subst (λ p. Occurs file pattern p → IsIn p found) (first_place position stride k)
                (here found true sc d k fits) occurs)
          next_at d (suc m) k fits occurs = IsIn-right (position + suc m * stride + k) found more (
              subst (λ p. Occurs file pattern p → IsIn p more) (next_place position stride m k)
                (re.complete d m k fits) occurs)

    Reported-end : (position stride : ℕ) → length file ≤ position → Reported position stride []
    Reported-end position stride end = record {
      sound = tt;
      complete = λ d m k fits occurs.
          absurd (omega (arith, Occurs-inside (position + m * stride + k) occurs));
    }

    -- What `rounds` does with what it has read.
    answered : (n : ℕ) (buffer : ℕ → ℕ) (position stride : ℕ) → Option (List ℕ) → Outcome (List ℕ)
    answered n buffer position stride o = elim o [
      | none ↦ ok []
      | some [] ↦ ok []
      | some (b ∷ bs) ↦ (do
        (found, alive) ←
            scan_block mode read pattern buffer_size (buffer_size + length pattern + 1)
              (fill mode read pattern buffer_size (b ∷ bs) buffer) position 0 (length (b ∷ bs))
        if alive
            then (if ltb (position + stride) int_limit
                then (do
                  more ←
                      rounds mode read pattern buffer_size n
                        (fill mode read pattern buffer_size (b ∷ bs) buffer) (position + stride)
                        stride
                  ok (found ++ more))
                else overflow)
            else ok found)
    ]

    answered-Reported :
        (n : ℕ) (buffer : ℕ → ℕ) (position stride : ℕ) (bytes : List ℕ)
        → Piece file position buffer_size bytes
        → buffer_size ≤ stride
        → length file + stride < int_limit
        → (0 < length bytes
            → Ends (Reported (position + stride) stride) (
                rounds mode read pattern buffer_size n
                  (fill mode read pattern buffer_size bytes buffer)
                  (position + stride)
                  stride))
        → Ends (Reported position stride) (answered n buffer position stride (some bytes))
    unfolding answered
    answered-Reported n buffer position stride [] piece far small next =
        Reported-end position stride (omega (arith, piece.short (omega arith)))
    answered-Reported n buffer position stride (b ∷ bs) piece far small next =
        let full = fill mode read pattern buffer_size (b ∷ bs) buffer in
        let bl =
          fill-Block mode read pattern buffer_size file (b ∷ bs) buffer position piece (omega arith)
            (omega arith) in
        Ends-bind (Scan full position stride (length (b ∷ bs)) bl far) (Reported position stride)
          (scan_block mode read pattern buffer_size (buffer_size + length pattern + 1) full position
            0 (length (b ∷ bs)))
          _
          (scan_block-Scanned mode read pattern buffer_size file reads some_pattern short_pattern
            full position (length (b ∷ bs)) bl (buffer_size + length pattern + 1) 0
            (length (b ∷ bs)) (omega (arith, piece.at_most)) (omega arith) (omega arith))
          (λ (found, alive) sc. concluded full bl found alive sc (next (omega arith)))
      where
        fits : ltb (position + stride) int_limit ≡ true
        fits =
            let inside : position + 1 ≤ length file = omega (arith, piece.inside (omega arith)) in
            ground arith

        concluded :
            (full : ℕ → ℕ) (bl : Block file buffer_size full position (length (b ∷ bs)))
            (found : List ℕ) (alive : Bool)
            → Scan full position stride (length (b ∷ bs)) bl far (found, alive)
            → Ends
                (Reported (position + stride) stride)
                (rounds mode read pattern buffer_size n full (position + stride) stride)
            → Ends (Reported position stride) (
                if alive
                then (if ltb (position + stride) int_limit
                    then (do
                      more ← rounds mode read pattern buffer_size n full (position + stride) stride
                      ok (found ++ more))
                    else overflow)
                else ok found)
        concluded full bl found true sc rest = rw fits (
            Ends-bind (Reported (position + stride) stride) (Reported position stride)
              (rounds mode read pattern buffer_size n full (position + stride) stride) _ rest
              (λ more re.
                Reported-next full position stride (length (b ∷ bs)) bl far found more sc re))
        concluded full bl found false sc rest =
            Reported-dead full position stride (length (b ∷ bs)) bl far found sc

    rounds-Reported :
        (n : ℕ) (buffer : ℕ → ℕ) (position stride : ℕ)
        → 0 < n
        → length file < n + position
        → buffer_size ≤ stride
        → length file + stride < int_limit
        → Ends
            (Reported position stride)
            (rounds mode read pattern buffer_size n buffer position stride)
    unfolding rounds answered
    rounds-Reported zero buffer position stride some_rounds fuel far small = absurd (omega arith)
    rounds-Reported (suc n) buffer position stride some_rounds fuel far small =
        let bytes = take buffer_size (drop position file) in
        let piece : Piece file position buffer_size bytes = take-Piece file position buffer_size in
        subst (λ o. Ends (Reported position stride) (answered n buffer position stride o))
          (sym (reads position buffer_size))
          (answered-Reported n buffer position stride bytes piece far small λ some_bytes.
            rounds-Reported n (fill mode read pattern buffer_size bytes buffer) (position + stride)
              stride (omega (arith, piece.inside some_bytes)) (omega arith) far small)

    -- Every thread ends within one round more than the bytes of the file, with no access behind
    -- its buffer and no overflow; at each place that it reports the pattern stands as far as the file goes, and a
    -- detached thread reports each place where the pattern stands inside one of its blocks.
    -- Assumes one thread or more, a pattern that is not empty and fits the buffer, `read` as
    -- documented for a file, and that the thread's first position, and the bytes of the file and
    -- the distance between two of its blocks together, are an `int`.
    pub find_pattern-Reported :
        (n : ℕ) (buffer : ℕ → ℕ) (threads_quantity position : ℕ)
        → 0 < threads_quantity
        → length file < n
        → position * buffer_size < int_limit
        → length file + threads_quantity * buffer_size < int_limit
        → Ends
            (Reported (position * buffer_size) (threads_quantity * buffer_size))
            (find_pattern mode read pattern buffer_size n buffer threads_quantity position)
    unfolding find_pattern
    find_pattern-Reported n buffer threads_quantity position some_threads fuel begins small =
        let far : buffer_size ≤ threads_quantity * buffer_size = grind arith in
        let fits : ltb (position * buffer_size) int_limit ≡ true = ground arith in
        rw fits (
          rounds-Reported n buffer (position * buffer_size) (threads_quantity * buffer_size)
            (omega arith) (omega arith) far small)
