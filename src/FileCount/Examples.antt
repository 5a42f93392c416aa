-- ===== src/FileCount/Examples.antt =====
-- lab04/zad3/count.c at work on small directories.
use operating_systems_agh_la.Base.{
  ℕ, zero, suc, ◌≡◌, refl, true, false, Option, none, some, [], ◌∷◌, arith,
}
use operating_systems_agh_la.FileCount.{
  Text, unreadable, directory, Entries, done, dots, file, subdirectory, World, matches, walk,
}
use operating_systems_agh_la.FileCount.Total.{total_entries, walk-total}

abbrev world : World
world = record { forks = λ p. true; execs = λ p. true }

-- ".c" and ".h", with colons between, before and behind
abbrev sources : Option Text
sources = some (58 ∷ 46 ∷ 99 ∷ 58 ∷ 58 ∷ 46 ∷ 104 ∷ 58 ∷ [])

matches_header : matches sources (97 ∷ 46 ∷ 104 ∷ []) ≡ true
matches_header = refl

matches_no_object : matches sources (97 ∷ 46 ∷ 111 ∷ []) ≡ false
matches_no_object = refl

-- "./a.c", "./b.o", and "./d" with "./d/x.h" and an unreadable "./d/e"
abbrev here : Entries
here = dots (
    file (46 ∷ 47 ∷ 97 ∷ 46 ∷ 99 ∷ []) (
      subdirectory (46 ∷ 47 ∷ 100 ∷ [])
        (directory (
          file (46 ∷ 47 ∷ 100 ∷ 47 ∷ 120 ∷ 46 ∷ 104 ∷ [])
            (subdirectory (46 ∷ 47 ∷ 100 ∷ 47 ∷ 101 ∷ []) unreadable done)))
        (file (46 ∷ 47 ∷ 98 ∷ 46 ∷ 111 ∷ []) done)))

two_sources : walk world sources (directory here) ≡ some 2
unfolding walk
two_sources = refl

abbrev many : ℕ → Entries
many zero = done
many (suc n) = file [] (many n)

-- The 256 files of a directory below are lost.
lost : walk world none (directory (subdirectory [] (directory (many 256)) done)) ≡ some 0
unfolding walk
lost = refl

walk-total_example : walk world sources (directory here) ≡ some (total_entries sources here)
walk-total_example =
    walk-total sources world (λ p. refl) (λ p. refl) here (omega arith, (omega arith, tt, tt), tt)
