-- ===== src/Cache/Policy.antt =====
-- `Access` and `Insert` of src/cache.cc on the whole cache: which set they choose, what they
-- answer, and what every later `Access` can see.
use sgcn.Base.{
  ℕ, zero, suc, ◌-◌, ◌/◌, ◌%◌, ◌≤◌, ◌<◌, ◌≡◌, ◌≢◌, inl, inr, refl, ap, Bool, true, some, List, [],
  ◌∷◌, ◌==◌, if◌then◌else◌, arith, length, get_elem?, set, take, replicate, length-set, sub64,
  Bool-cases,
}
use sgcn.Common.{ArchInfo, cache_line_byte}
use sgcn.Cache.{Cache, init, find_set, find_way, insert, touch_way, access}
use sgcn.Cache.Lookup.{
  contains, remove, way_miss, way_hit, insert_way_lem, length-remove, contains-touch,
  length-take-le, take-cons,
}

-- The set of an address, where there is one.
unfoldable pub set_of : ArchInfo → ℕ → ℕ
set_of arch address = sub64 address arch.xw_ele_addr_start / cache_line_byte % arch.cache_set

pub set_of-lt : (arch : ArchInfo) (a : ℕ) → 0 < arch.cache_set → set_of arch a < arch.cache_set
unfolding set_of
set_of-lt arch a h = grind arith

pub find_set-set_of :
    (arch : ArchInfo) (a : ℕ) → 0 < arch.cache_set → find_set arch a ≡ some (set_of arch a)
unfolding find_set set_of
find_set-set_of arch a h = ground arith

-- The ways of a set number, none if it is out of range.
unfoldable pub ways_at : Cache → ℕ → List ℕ
ways_at [] s = []
ways_at (x ∷ c) zero = x
ways_at (x ∷ c) (suc s) = ways_at c s

pub get_elem?-ways_at : (c : Cache) (s : ℕ) → s < length c → get_elem? c s ≡ some (ways_at c s)
unfolding ways_at
get_elem?-ways_at [] s h = elim h [ ]
get_elem?-ways_at (x ∷ c) zero h = refl
get_elem?-ways_at (x ∷ c) (suc s) h = get_elem?-ways_at c s (omega arith)

pub ways_at-set :
    (c : Cache) (s t : ℕ) (v : List ℕ)
    → s < length c
    → ways_at (set c s v) t ≡ (if s == t then v else ways_at c t)
unfolding ways_at
ways_at-set [] s t v h = elim h [ ]
ways_at-set (x ∷ c) zero zero v h = refl
ways_at-set (x ∷ c) zero (suc t) v h = ground arith
ways_at-set (x ∷ c) (suc s) zero v h = ground arith
ways_at-set (x ∷ c) (suc s) (suc t) v h = ground (arith, ways_at-set c s t v)

-- Whether an `Access` of the address would hit.
unfoldable pub resident : ArchInfo → Cache → ℕ → Bool
resident arch c a = contains a (ways_at c (set_of arch a))

pub record IsValid (arch : ArchInfo) (c : Cache) : Type 0 where
  pub sets : 0 < arch.cache_set
  pub ways : 0 < arch.cache_way
  pub size : length c ≡ arch.cache_set
  pub bounded : (s : ℕ) → length (ways_at c s) ≤ arch.cache_way

pub ways_at-replicate : (n s : ℕ) → ways_at (replicate n []) s ≡ []
unfolding ways_at
ways_at-replicate zero s = refl
ways_at-replicate (suc n) zero = refl
ways_at-replicate (suc n) (suc s) = ways_at-replicate n s

length-replicate-nil : (n : ℕ) → length (replicate {A = List ℕ} n []) ≡ n
length-replicate-nil zero = refl
length-replicate-nil (suc n) = ap suc (length-replicate-nil n)

pub init-IsValid :
    (arch : ArchInfo) → 0 < arch.cache_set → 0 < arch.cache_way → IsValid arch (init arch)
unfolding init
init-IsValid arch s w = record {
  sets = s;
  ways = w;
  size = length-replicate-nil arch.cache_set;
  bounded = λ t. omega (arith, ap length (ways_at-replicate arch.cache_set t));
}

-- The cache after an `Access`, with the loops gone.
unfoldable pub accessed : ArchInfo → Cache → ℕ → Cache
accessed arch c a =
    if resident arch c a
    then set c (set_of arch a) (a ∷ remove a (ways_at c (set_of arch a)))
    else c

unfoldable pub inserted : ArchInfo → Cache → ℕ → Cache
inserted arch c a = set c (set_of arch a) (take arch.cache_way (a ∷ ways_at c (set_of arch a)))

module _ (arch : ArchInfo) (c : Cache) (a : ℕ) (v : IsValid arch c) where
  in_range : set_of arch a < length c
  in_range = omega (arith, v.size, set_of-lt arch a v.sets)

  found : get_elem? c (set_of arch a) ≡ some (ways_at c (set_of arch a))
  found = get_elem?-ways_at c (set_of arch a) in_range

  pub access_lem : access arch c a ≡ some (accessed arch c a, resident arch c a)
  unfolding access accessed find_way touch_way resident
  access_lem =
      rw (find_set-set_of arch a v.sets, found)
        (ground (
          arith,
          found,
          way_miss a 0 (ways_at c (set_of arch a)),
          way_hit a 0 (ways_at c (set_of arch a)),
        ))

  pub insert_lem : insert arch c a ≡ some (inserted arch c a)
  unfolding insert inserted
  insert_lem =
      rw (find_set-set_of arch a v.sets, found, insert_way_lem _ a _ v.ways (v.bounded _)) refl

  -- What a write to the chosen set keeps, if the new ways fit.
  set-IsValid :
      (ways : List ℕ) → length ways ≤ arch.cache_way → IsValid arch (set c (set_of arch a) ways)
  set-IsValid ways fits = record {
    sets = v.sets;
    ways = v.ways;
    size = omega (arith, v.size, length-set c (set_of arch a) ways);
    bounded = λ s. ground (arith, ways_at-set c (set_of arch a) s ways in_range, v.bounded s);
  }

  pub accessed-IsValid : IsValid arch (accessed arch c a)
  unfolding accessed resident
  accessed-IsValid = elim (Bool-cases (resident arch c a)) [
    | inl hit ↦
        rw hit (set-IsValid _ (omega (arith, length-remove a _ hit, v.bounded (set_of arch a))))
    | inr miss ↦ rw miss v
  ]

  pub inserted-IsValid : IsValid arch (inserted arch c a)
  unfolding inserted
  inserted-IsValid = set-IsValid _ (length-take-le arch.cache_way _)

  -- no `Access` changes what a later one answers
  pub resident-accessed : (q : ℕ) → resident arch (accessed arch c a) q ≡ resident arch c q
  unfolding accessed resident
  resident-accessed q = ground (
    arith,
    contains-touch a q (ways_at c (set_of arch a)),
    ways_at-set c (set_of arch a) (set_of arch q) (a ∷ remove a (ways_at c (set_of arch a)))
        in_range,
  )

  pub resident-inserted_self : resident arch (inserted arch c a) a ≡ true
  unfolding inserted resident contains
  resident-inserted_self =
      let e : arch.cache_way ≡ suc (arch.cache_way - 1) = omega (arith, v.ways) in
      ground (
        arith,
        e,
        ways_at-set c (set_of arch a) (set_of arch a)
            (take arch.cache_way (a ∷ ways_at c (set_of arch a))) in_range,
        take-cons arch.cache_way a (ways_at c (set_of arch a)) v.ways,
      )

  pub resident-inserted_elsewhere :
      (q : ℕ)
      → set_of arch q ≢ set_of arch a
      → resident arch (inserted arch c a) q ≡ resident arch c q
  unfolding inserted resident
  resident-inserted_elsewhere q h = ground (
    arith,
    ways_at-set c (set_of arch a) (set_of arch q)
        (take arch.cache_way (a ∷ ways_at c (set_of arch a))) in_range,
  )

-- On a valid cache `Access` is defined, answers whether the address is resident, keeps the cache
-- valid, and changes the residence of no address.
pub access_keeps_residents :
    (arch : ArchInfo) (c : Cache) (a : ℕ)
    → IsValid arch c
    → (c' : Cache) × (access arch c a ≡ some (c', resident arch c a))
      × IsValid arch c'
      × ((q : ℕ) → resident arch c' q ≡ resident arch c q)
access_keeps_residents arch c a v = (
  accessed arch c a,
  access_lem arch c a v,
  accessed-IsValid arch c a v,
  resident-accessed arch c a v,
)

-- On a valid cache `Insert` is defined, keeps the cache valid, makes the address resident, and
-- leaves the residence of the addresses of every other set as it was.
pub insert_makes_resident :
    (arch : ArchInfo) (c : Cache) (a : ℕ)
    → IsValid arch c
    → (c' : Cache) × (insert arch c a ≡ some c')
      × IsValid arch c'
      × (resident arch c' a ≡ true)
      × ((q : ℕ) → set_of arch q ≢ set_of arch a → resident arch c' q ≡ resident arch c q)
insert_makes_resident arch c a v = (
  inserted arch c a,
  insert_lem arch c a v,
  inserted-IsValid arch c a v,
  resident-inserted_self arch c a v,
  resident-inserted_elsewhere arch c a v,
)
