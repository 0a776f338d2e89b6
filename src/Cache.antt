-- ===== src/Cache.antt =====
-- src/cache.h and src/cache.cc: the set-associative cache of features, `sa_cache[set][way]`, each
-- set with its most recently used address first.
pub mod Lookup
pub mod Policy
pub mod Recency
use sgcn.Base.{
  ℕ, zero, suc, ◌+◌, ◌*◌, ◌/◌, ◌%◌, Bool, true, false, Option, none, some, List, [], ◌∷◌, ◌==◌, ltb,
  if◌then◌else◌, length, get_elem?, set, replicate, sub64, ◌>>=◌,
}
use sgcn.Base.Int.{ℤ, pos, negsuc}
use sgcn.Common.{ArchInfo, cache_line_byte}

abbrev pub Cache : Type 0
Cache = List (List ℕ)

-- `v.pop_back()`
unfoldable pub pop_back : List ℕ → Option (List ℕ)
pop_back [] = none
pop_back (x ∷ []) = some []
pop_back (x ∷ y ∷ xs) = do rest ← pop_back (y ∷ xs); some (x ∷ rest)

-- `v.erase(v.begin() + i)`
unfoldable pub erase_at : List ℕ → ℕ → Option (List ℕ)
erase_at [] i = none
erase_at (x ∷ xs) zero = some xs
erase_at (x ∷ xs) (suc i) = do rest ← erase_at xs i; some (x ∷ rest)

-- The constructor.
unfoldable pub init : ArchInfo → Cache
init arch = replicate arch.cache_set []

-- No set can be chosen among none: the remainder by zero is undefined.
unfoldable pub find_set : ArchInfo → ℕ → Option ℕ
find_set arch address =
    if arch.cache_set == 0
    then none
    else some (sub64 address arch.xw_ele_addr_start / cache_line_byte % arch.cache_set)

-- The loop of `FindWay`, from way `i` on.
unfoldable pub way_from : ℕ → ℕ → List ℕ → ℤ
way_from address i [] = negsuc 0
way_from address i (x ∷ xs) = if x == address then pos i else way_from address (suc i) xs

unfoldable pub find_way : Cache → ℕ → ℕ → Option ℤ
find_way sa_cache address s = do ways ← get_elem? sa_cache s; some (way_from address 0 ways)

-- `Insert` on the chosen set: a full set first drops its last way.
unfoldable pub insert_way : ℕ → ℕ → List ℕ → Option (List ℕ)
insert_way cache_way address ways = do
  kept ← if length ways == cache_way then pop_back ways else some ways
  some (address ∷ kept)

unfoldable pub insert : ArchInfo → Cache → ℕ → Option Cache
insert arch sa_cache address = do
  s ← find_set arch address
  ways ← get_elem? sa_cache s
  ways' ← insert_way arch.cache_way address ways
  some (set sa_cache s ways')

-- The branch of `Access` on the way that was found.
unfoldable pub touch_way : Cache → ℕ → ℕ → ℤ → Option (Cache × Bool)
touch_way sa_cache address s (negsuc n) = some (sa_cache, false)
touch_way sa_cache address s (pos way) = do
  ways ← get_elem? sa_cache s
  rest ← erase_at ways way
  some (set sa_cache s (address ∷ rest), true)

unfoldable pub access : ArchInfo → Cache → ℕ → Option (Cache × Bool)
access arch sa_cache address = do
  s ← find_set arch address
  way ← find_way sa_cache address s
  touch_way sa_cache address s way
