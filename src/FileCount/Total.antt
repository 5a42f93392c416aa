-- ===== src/FileCount/Total.antt =====
-- lab04/zad3/count.c: the number of files that are to be counted.
use operating_systems_agh_la.Base.{
  ℕ, ◌+◌, ◌<◌, ◌≡◌, refl, ap, ◌∙◌, inl, inr, Bool-cases, true, Option, some, arith, if◌then◌else◌,
}
use operating_systems_agh_la.FileCount.Extensions.{
  IsCounted, is_counted, matches-IsCounted, IsCounted-matches,
}
use operating_systems_agh_la.FileCount.{
  Text, Tree, unreadable, directory, Entries, done, dots, file, subdirectory, special, stat_error,
  World, matches, exit_status, plus, walk, walk_entries,
}

-- 1 for a property that holds.
abbrev pub count : {A : Type 0} → Dec A → ℕ
count (yes a) = 1
count (no n) = 0

count-matches :
    (extensions : Option Text) (filename : Text)
    → (if matches extensions filename then 1 else 0) ≡ count (is_counted extensions filename)
count-matches extensions filename = counted (is_counted extensions filename)
  where
    counted :
        (d : Dec (IsCounted extensions filename))
        → (if matches extensions filename then 1 else 0) ≡ count d
    counted (yes c) = rw (IsCounted-matches extensions filename c) refl
    counted (no n) = elim (Bool-cases (matches extensions filename)) [
      | inl found ↦ absurd (n (matches-IsCounted extensions filename found))
      | inr other ↦ rw other refl
    ]

module _ (extensions : Option Text) where
  abbrev mutual
    -- The files of a tree that are to be counted; a directory that cannot be read has none.
    pub total : Tree → ℕ
    total unreadable = 0
    total (directory es) = total_entries es

    pub total_entries : Entries → ℕ
    total_entries done = 0
    total_entries (dots es) = total_entries es
    total_entries (file filepath es) = count (is_counted extensions filepath) + total_entries es
    total_entries (subdirectory filepath t es) = total t + total_entries es
    total_entries (special es) = total_entries es
    total_entries stat_error = 0

  abbrev mutual
    -- No directory below has 256 files to be counted or more, and `stat` has no error.
    pub IsSmall : Tree → Type 0
    IsSmall unreadable = Unit
    IsSmall (directory es) = AreSmall es

    pub AreSmall : Entries → Type 0
    AreSmall done = Unit
    AreSmall (dots es) = AreSmall es
    AreSmall (file filepath es) = AreSmall es
    AreSmall (subdirectory filepath t es) = (total t < 256) × IsSmall t × AreSmall es
    AreSmall (special es) = AreSmall es
    AreSmall stat_error = ⊥

  module _ (w : World) (forks : (p : Text) → w.forks p ≡ true)
      (execs : (p : Text) → w.execs p ≡ true) where
    sum_comm : (a b : ℕ) → some (a + b) ≡ some (b + a)
    sum_comm a b = let e : a + b ≡ b + a = omega arith in ap some e

    mutual
      unfolding walk

      status-total :
          (t : Tree) → IsSmall t → total t < 256 → exit_status (walk w extensions t) ≡ total t
      status-total unreadable small few = refl
      status-total (directory es) small few =
          ap exit_status (walk_entries-total es small) ∙ (omega arith)

      walk_entries-total :
          (es : Entries) → AreSmall es → walk_entries w extensions es ≡ some (total_entries es)
      walk_entries-total done small = refl
      walk_entries-total (dots es) small = walk_entries-total es small
      walk_entries-total (file filepath es) small =
          let one = count (is_counted extensions filepath) in
          ap (plus (walk_entries w extensions es)) (count-matches extensions filepath)
          ∙ ap (λ o. plus o one) (walk_entries-total es small)
          ∙ sum_comm (total_entries es) one
      walk_entries-total (subdirectory filepath t es) small =
          let child = status-total t small.1 small.0 in
          rw (forks filepath, execs filepath)
            (ap (λ o. plus o (exit_status (walk w extensions t))) (walk_entries-total es small.2)
              ∙ ap (λ k. some (total_entries es + k)) child
              ∙ sum_comm (total_entries es) (total t))
      walk_entries-total (special es) small = walk_entries-total es small
      walk_entries-total stat_error small = elim small [ ]

    -- The process for a directory counts all files below it whose path ends with one of the
    -- extensions, or all files when none are set, those of the directories below that can be
    -- read included, when none of these has 256 of them or more, `stat` has no error, and `fork`
    -- and `execvp` work.
    pub walk-total :
        (es : Entries) → AreSmall es → walk w extensions (directory es) ≡ some (total_entries es)
    unfolding walk
    walk-total es small = walk_entries-total es small
