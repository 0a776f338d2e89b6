-- ===== src/Cache/Lookup.antt =====
-- One set of the cache of src/cache.cc: what the loop of `FindWay`, the erase of `Access` and the
-- eviction of `Insert` do to it.
use sgcn.Base.{
  ℕ, zero, suc, ◌+◌, ◌-◌, ◌≤◌, ◌<◌, ◌≡◌, refl, ap, Bool, true, false, some, List, [], ◌∷◌, ◌||◌,
  ◌==◌, if◌then◌else◌, arith, length, take, inl, inr, Bool-cases,
}
use sgcn.Base.Int.{pos, negsuc}
use sgcn.Cache.{pop_back, erase_at, way_from, insert_way}

unfoldable pub contains : ℕ → List ℕ → Bool
contains a [] = false
contains a (x ∷ xs) = x == a || contains a xs

-- The list without the first entry that is `a`.
unfoldable pub remove : ℕ → List ℕ → List ℕ
remove a [] = []
remove a (x ∷ xs) = if x == a then xs else x ∷ remove a xs

pub way_miss : (a i : ℕ) (l : List ℕ) → contains a l ≡ false → way_from a i l ≡ negsuc 0
unfolding contains way_from
way_miss a i [] h = refl
way_miss a i (x ∷ xs) h = ground (arith, way_miss a (suc i) xs)

pub way_hit :
    (a i : ℕ) (l : List ℕ)
    → contains a l ≡ true
    → (j : ℕ) × (way_from a i l ≡ pos (i + j)) × (erase_at l j ≡ some (remove a l))
unfolding contains way_from erase_at remove
way_hit a i [] h = ground arith
way_hit a i (x ∷ xs) h = elim (Bool-cases (x == a)) [
  | inl found ↦ (0, ground arith, ground arith)
  | inr other ↦
      let (j, way, rest) = way_hit a (suc i) xs (ground arith) in
      (suc j, ground arith, ground arith)
]

pub pop_back-take : (n : ℕ) (l : List ℕ) → length l ≡ suc n → pop_back l ≡ some (take n l)
unfolding pop_back
pop_back-take zero (x ∷ []) h = refl
pop_back-take (suc n) (x ∷ y ∷ xs) h = ground (arith, pop_back-take n (y ∷ xs))
pop_back-take n l h = absurd (omega arith)

pub take_all {ℓ} : {A : Type ℓ} (n : ℕ) (l : List A) → length l ≤ n → take n l ≡ l
take_all zero [] h = refl
take_all zero (x ∷ xs) h = elim h [ ]
take_all (suc n) [] h = refl
take_all (suc n) (x ∷ xs) h = ap (◌∷◌ x) (take_all n xs (omega arith))

pub length-take-le {ℓ} : {A : Type ℓ} (n : ℕ) (l : List A) → length (take n l) ≤ n
length-take-le zero l = omega arith
length-take-le (suc n) [] = omega arith
length-take-le (suc n) (x ∷ xs) = omega (arith, length-take-le n xs)

pub take-cons {ℓ} :
    {A : Type ℓ} (n : ℕ) (x : A) (l : List A) → 0 < n → take n (x ∷ l) ≡ x ∷ take (n - 1) l
take-cons zero x l h = elim h [ ]
take-cons (suc n) x l h = let e : suc n - 1 ≡ n = omega arith in rw e

-- An insertion puts the address in front and keeps as many as fit.
pub insert_way_lem :
    (way a : ℕ) (l : List ℕ)
    → 0 < way
    → length l ≤ way
    → insert_way way a l ≡ some (take way (a ∷ l))
unfolding insert_way
insert_way_lem zero a l h b = elim h [ ]
insert_way_lem (suc n) a l h b = ground (arith, pop_back-take n l, take_all n l)

pub length-remove :
    (a : ℕ) (l : List ℕ) → contains a l ≡ true → suc (length (remove a l)) ≡ length l
unfolding contains remove
length-remove a [] h = ground arith
length-remove a (x ∷ xs) h = ground (arith, length-remove a xs)

pub contains-touch :
    (a q : ℕ) (l : List ℕ) → contains a l ≡ true → contains q (a ∷ remove a l) ≡ contains q l
unfolding contains remove
contains-touch a q [] h = ground arith
contains-touch a q (x ∷ xs) h = ground (arith, contains-touch a q xs)

-- A touch needs only the ways that are kept.
pub take-remove :
    (n a : ℕ) (l : List ℕ)
    → contains a (take (suc n) l) ≡ true
    → take n (remove a l) ≡ remove a (take (suc n) l)
unfolding contains remove
take-remove n a [] h = ground arith
take-remove zero a (x ∷ xs) h = ground arith
take-remove (suc n) a (x ∷ xs) h = ground (arith, take-remove n a xs)
