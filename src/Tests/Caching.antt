-- ===== src/Tests/Caching.antt =====
-- The cache with two sets of two ways.
use sgcn.Base.{ℕ, ◌<◌, ◌≡◌, ◌≢◌, true, some, List, [], ◌∷◌, arith, get_elem?, take}
use sgcn.Cache.{Cache, init, insert, access}
use sgcn.Cache.Policy.{
  set_of, IsValid, resident, init-IsValid, access_keeps_residents, insert_makes_resident,
}
use sgcn.Cache.Recency.{Use, inserts, accesses, run, history, run-recency}
use sgcn.Tests.Example.{arch}

abbrev uses : List Use
uses = inserts 0 ∷ inserts 128 ∷ accesses 0 ∷ inserts 256 ∷ []

run-recency_example :
    (c : Cache) × (run arch (init arch) uses ≡ some c)
    × ((s : ℕ) → s < 2 → get_elem? c s ≡ some (take 2 (history arch s [] uses)))
run-recency_example = run-recency arch uses (omega arith) (omega arith)

access_keeps_residents_example :
    (c' : Cache) × (access arch (init arch) 128 ≡ some (c', resident arch (init arch) 128))
    × IsValid arch c'
    × ((q : ℕ) → resident arch c' q ≡ resident arch (init arch) q)
access_keeps_residents_example =
    access_keeps_residents arch (init arch) 128 (init-IsValid arch (omega arith) (omega arith))

insert_makes_resident_example :
    (c' : Cache) × (insert arch (init arch) 128 ≡ some c')
    × IsValid arch c'
    × (resident arch c' 128 ≡ true)
    × ((q : ℕ) → set_of arch q ≢ set_of arch 128 → resident arch c' q ≡ resident arch (init arch) q)
insert_makes_resident_example =
    insert_makes_resident arch (init arch) 128 (init-IsValid arch (omega arith) (omega arith))
