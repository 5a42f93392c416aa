-- ===== src/Finder/Examples.antt =====
-- lab09/zad1/finder.c: threads at work on small files, with bytes as numbers.
use operating_systems_agh_la.Base.{ℕ, zero, suc, ◌^◌, ◌≡◌, refl, List, [], ◌∷◌, arith}
use operating_systems_agh_la.Finder.{
  detached, cancelling, ok, out_of_bounds, overflow, advance, agrees, continued, examine, in_int,
  scan_block, rounds, find_pattern,
}
use operating_systems_agh_la.Finder.Within.{pread, Occurs, IsIn}
use operating_systems_agh_la.Finder.Reports.{Ends}
use operating_systems_agh_la.Finder.Complete.{Reported, find_pattern-Reported}
use operating_systems_agh_la.Finder.Found.{find_pattern-found}

abbrev junk : ℕ → ℕ
junk i = 0

abbrev text : List ℕ
text = 7 ∷ 1 ∷ 2 ∷ 7 ∷ 7 ∷ 1 ∷ 2 ∷ 1 ∷ 2 ∷ []

abbrev twelve : List ℕ
twelve = 1 ∷ 2 ∷ []

-- Of two threads with blocks of three, the first one has the blocks 0 and 2.
two_threads_first : find_pattern detached (pread text) twelve 3 10 junk 2 0 ≡ ok (1 ∷ 7 ∷ [])
unfolding find_pattern rounds scan_block advance examine in_int continued agrees
two_threads_first = refl

-- The second one has block 1, and the pattern goes on behind that block.
two_threads_second : find_pattern detached (pread text) twelve 3 10 junk 2 1 ≡ ok (5 ∷ [])
unfolding find_pattern rounds scan_block advance examine in_int continued agrees
two_threads_second = refl

first_only : find_pattern cancelling (pread text) twelve 3 10 junk 2 0 ≡ ok (1 ∷ [])
unfolding find_pattern rounds scan_block advance examine in_int continued agrees
first_only = refl

-- At the end of the file a part of the pattern is reported.
part_reported :
    find_pattern detached (pread (7 ∷ 1 ∷ 2 ∷ [])) (1 ∷ 2 ∷ 3 ∷ []) 2 4 junk 1 0 ≡ ok (1 ∷ [])
unfolding find_pattern rounds scan_block advance examine in_int continued agrees
part_reported = refl

-- The pattern stands at 2, across two blocks, and is not reported.
across_missed :
    find_pattern detached (pread (7 ∷ 1 ∷ 1 ∷ 1 ∷ 2 ∷ [])) (1 ∷ 1 ∷ 2 ∷ []) 3 6 junk 1 0 ≡ ok []
unfolding find_pattern rounds scan_block advance examine in_int continued agrees
across_missed = refl

-- With a pattern longer than the buffer the loop reads behind it.
behind_buffer :
    find_pattern detached (pread (1 ∷ 1 ∷ 1 ∷ 1 ∷ 1 ∷ 1 ∷ [])) (1 ∷ 1 ∷ 1 ∷ 1 ∷ 2 ∷ []) 2 7 junk 1 0
    ≡ out_of_bounds
unfolding find_pattern rounds scan_block advance examine in_int continued agrees
behind_buffer = refl

-- The first position of a thread is no `int`.
far_away : find_pattern detached (pread text) twelve (2 ^ 20) 10 junk (2 ^ 12) (2 ^ 11) ≡ overflow
unfolding find_pattern
far_away = refl

find_pattern-Reported_example :
    Ends
      (Reported detached (pread text) twelve 3 text (λ p q. refl) (omega arith) (omega arith) 3 6)
      (find_pattern detached (pread text) twelve 3 10 junk 2 1)
find_pattern-Reported_example =
    find_pattern-Reported detached (pread text) twelve 3 text (λ p q. refl) (omega arith)
      (omega arith) 10 junk 2 1 (omega arith) (omega arith) (omega arith) (omega arith)

stands : Occurs text twelve 7
stands zero c e = e
stands (suc zero) c e = e
stands (suc (suc j)) c e = cc

find_pattern-found_example : Ends (IsIn 7) (find_pattern detached (pread text) twelve 3 10 junk 2 0)
find_pattern-found_example =
    find_pattern-found (pread text) twelve 3 text (λ p q. refl) (omega arith) (omega arith) 10 junk
      2 2 1 (omega arith) (omega arith) (omega arith) (omega arith) stands
