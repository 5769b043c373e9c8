-- ===== src/Birdseye/Tests.antt =====
-- The order of the rows of sorter_test.go.
use kt_connect.Common.{◌≡◌, refl, List, [], ◌∷◌, codes, arith}
use kt_connect.Common.Outcome.{ok}
use kt_connect.Birdseye.{Row, text_gt, cell, swap_cells, ordered, pass, passes, sort_service_array}
use kt_connect.Birdseye.Sorted.{IsSortOf, sort_service_array_lem}

abbrev table : List Row
table =
    (codes "ABD" ∷ codes "5" ∷ [])
    ∷ (codes "AB" ∷ codes "1" ∷ [])
    ∷ (codes "ABC" ∷ codes "2" ∷ [])
    ∷ []

table_sorted :
    sort_service_array table 0
    ≡ ok (
        (codes "AB" ∷ codes "1" ∷ [])
        ∷ (codes "ABC" ∷ codes "2" ∷ [])
        ∷ (codes "ABD" ∷ codes "5" ∷ [])
        ∷ [])
unfolding sort_service_array passes pass ordered cell swap_cells text_gt
table_sorted = refl

sort_service_array_example : IsSortOf 1 table (sort_service_array table 1)
sort_service_array_example =
    sort_service_array_lem table 1 2 (omega arith) (refl, (refl, (refl, tt)))
