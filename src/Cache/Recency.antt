-- ===== src/Cache/Recency.antt =====
-- The replacement policy of src/cache.cc against an unbounded history of uses.
use sgcn.Base.{
  ℕ, zero, suc, ◌<◌, ◌≡◌, refl, sym, ◌∙◌, ap, true, Option, some, List, [], ◌∷◌, ◌==◌, ◌&&◌,
  if◌then◌else◌, arith, get_elem?, take, ◌>>=◌,
}
use sgcn.Common.{ArchInfo}
use sgcn.Cache.{Cache, init, insert, access}
use sgcn.Cache.Lookup.{contains, remove, take-remove, take_all}
use sgcn.Cache.Policy.{
  IsValid, set_of, ways_at, get_elem?-ways_at, ways_at-set, set_of-lt, resident, accessed, inserted,
  access_lem, insert_lem, accessed-IsValid, inserted-IsValid, init-IsValid, ways_at-replicate,
}

-- A call that the feature reader makes on the cache.
pub data Use : Type 0 where
  inserts accesses : ℕ → Use

unfoldable pub run : ArchInfo → Cache → List Use → Option Cache
run arch c [] = some c
run arch c (inserts a ∷ us) = do c' ← insert arch c a; run arch c' us
run arch c (accesses a ∷ us) = do (c', hit) ← access arch c a; run arch c' us

-- The addresses of set `s`, most recently used first and none forgotten. An access counts as a use
-- if the address is among the first `cache_way`.
unfoldable pub note : ArchInfo → ℕ → List ℕ → Use → List ℕ
note arch s h (inserts a) = if set_of arch a == s then a ∷ h else h
note arch s h (accesses a) =
    if set_of arch a == s && contains a (take arch.cache_way h) then a ∷ remove a h else h

unfoldable pub history : ArchInfo → ℕ → List ℕ → List Use → List ℕ
history arch s h [] = h
history arch s h (u ∷ us) = history arch s (note arch s h u) us

pub record Tracks (arch : ArchInfo) (c : Cache) (h : ℕ → List ℕ) : Type 0 where
  pub valid : IsValid arch c
  pub window : (s : ℕ) → s < arch.cache_set → ways_at c s ≡ take arch.cache_way (h s)

take-take : (n : ℕ) (h : List ℕ) → take n (take (suc n) h) ≡ take n h
take-take zero h = refl
take-take (suc n) [] = refl
take-take (suc n) (x ∷ xs) = ap (◌∷◌ x) (take-take n xs)

take-insert : (n a : ℕ) (h : List ℕ) → 0 < n → take n (a ∷ take n h) ≡ take n (a ∷ h)
take-insert zero a h p = elim p [ ]
take-insert (suc n) a h p = ap (◌∷◌ a) (take-take n h)

take-touch :
    (n a : ℕ) (h : List ℕ)
    → 0 < n
    → contains a (take n h) ≡ true
    → take n (a ∷ remove a h) ≡ a ∷ remove a (take n h)
take-touch zero a h p e = elim p [ ]
take-touch (suc n) a h p e = rw (take-remove n a h e)

Tracks-insert :
    (arch : ArchInfo) (c : Cache) (h : ℕ → List ℕ) (a : ℕ)
    → Tracks arch c h
    → Tracks arch (inserted arch c a) (λ s. note arch s (h s) (inserts a))
unfolding note inserted
Tracks-insert arch c h a t = record {
  valid = inserted-IsValid arch c a t.valid;
  window = λ s p. ground (
    arith,
    t.window s p,
    t.window (set_of arch a) (set_of-lt arch a t.valid.sets),
    t.valid.size,
    set_of-lt arch a t.valid.sets,
    ways_at-set c (set_of arch a) s (take arch.cache_way (a ∷ ways_at c (set_of arch a))),
    take-insert arch.cache_way a (h s) t.valid.ways,
  );
}

Tracks-access :
    (arch : ArchInfo) (c : Cache) (h : ℕ → List ℕ) (a : ℕ)
    → Tracks arch c h
    → Tracks arch (accessed arch c a) (λ s. note arch s (h s) (accesses a))
unfolding note accessed resident
Tracks-access arch c h a t = record {
  valid = accessed-IsValid arch c a t.valid;
  window = λ s p. ground (
    arith,
    t.window s p,
    t.window (set_of arch a) (set_of-lt arch a t.valid.sets),
    t.valid.size,
    set_of-lt arch a t.valid.sets,
    ways_at-set c (set_of arch a) s (a ∷ remove a (ways_at c (set_of arch a))),
    take-touch arch.cache_way a (h s) t.valid.ways,
  );
}

init-Tracks :
    (arch : ArchInfo) → 0 < arch.cache_set → 0 < arch.cache_way → Tracks arch (init arch) (λ s. [])
unfolding init
init-Tracks arch sets ways = record {
  valid = init-IsValid arch sets ways;
  window =
      λ s p. ways_at-replicate arch.cache_set s ∙ sym (take_all arch.cache_way [] (omega arith));
}

run-Tracks :
    (arch : ArchInfo) (c : Cache) (h : ℕ → List ℕ) (us : List Use)
    → Tracks arch c h
    → (c' : Cache) × (run arch c us ≡ some c') × Tracks arch c' (λ s. history arch s (h s) us)
unfolding run history
run-Tracks arch c h [] t = (c, refl, t)
run-Tracks arch c h (inserts a ∷ us) t = rw (insert_lem arch c a t.valid) (
    run-Tracks arch (inserted arch c a) (λ s. note arch s (h s) (inserts a)) us
      (Tracks-insert arch c h a t))
run-Tracks arch c h (accesses a ∷ us) t = rw (access_lem arch c a t.valid) (
    run-Tracks arch (accessed arch c a) (λ s. note arch s (h s) (accesses a)) us
      (Tracks-access arch c h a t))

-- With at least one set and one way, from an empty cache every run of calls succeeds, and
-- afterwards each set holds exactly the first `cache_way` addresses of its recency order, in that
-- order: what was evicted was always the least recently used.
pub run-recency :
    (arch : ArchInfo) (us : List Use)
    → 0 < arch.cache_set
    → 0 < arch.cache_way
    → (c : Cache) × (run arch (init arch) us ≡ some c)
      × ((s : ℕ)
          → s < arch.cache_set
          → get_elem? c s ≡ some (take arch.cache_way (history arch s [] us)))
run-recency arch us sets ways =
    let (c, ran, t) = run-Tracks arch (init arch) (λ s. []) us (init-Tracks arch sets ways) in
    (c, ran, λ s p. get_elem?-ways_at c s (omega (arith, t.valid.size)) ∙ ap some (t.window s p))
