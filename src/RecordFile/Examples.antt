-- ===== src/RecordFile/Examples.antt =====
-- The sort at work on three records.
use operating_systems_agh_la.Base.{◌≡◌, refl, [], ◌∷◌}
use operating_systems_agh_la.Base.Int.{pos, negsuc}
use operating_systems_agh_la.Base.Maps.{update}
use operating_systems_agh_la.RecordFile.{Structure, File, exchange, inner, outer, sort}
use operating_systems_agh_la.RecordFile.Sort.{IsSorted, Moves, sort-IsSorted}

abbrev filler : Structure
filler = record { key = pos 0; content = [] }

abbrev file : File
file = record {
  struct_size = 5;
  count = 3;
  records =
      update
        (update (update (λ _. filler) 0 (record { key = pos 7; content = 1 ∷ [] })) 1
          (record { key = negsuc 2; content = 2 ∷ [] }))
        2 (record { key = pos 4; content = 3 ∷ [] });
}

sorted_file :
    (((sort file).records 0).key ≡ negsuc 2)
    × (((sort file).records 1).key ≡ pos 4)
    × (((sort file).records 2).content ≡ 1 ∷ [])
unfolding sort outer inner exchange
sorted_file = (refl, refl, refl)

sort-IsSorted_example :
    IsSorted (sort file).records 0 3
    × Moves 0 3 file.records (sort file).records
    × ((sort file).count ≡ 3)
    × ((sort file).struct_size ≡ 5)
sort-IsSorted_example = sort-IsSorted file
