-- ===== src/Preprocessor/AddressMapping/Places.antt =====
-- The places of `x_to_addr` while the loop of `AddressMapping` for X_CMP and MAT goes through them.
use sgcn.Base.{
  ℕ, ◌+◌, ◌*◌, ◌≤◌, ◌<◌, ◌≡◌, ◌≢◌, ◌⊎◌, refl, sym, inl, inr, Option, some, List, arith, get_elem?,
  set, get_elem?-set_self, get_elem?-set_ne, get_elem?_lt, subst, >>=-eq-some, ◌>>=◌,
}
use sgcn.Preprocessor.AddressMapping.{Grid}

abbrev pub at_place : Grid → ℕ → ℕ → Option ℕ
at_place xs j c = do r ← get_elem? xs j; get_elem? r c

pub at_place-row :
    (xs : Grid) (j c x : ℕ)
    → at_place xs j c ≡ some x
    → (r : List ℕ) × (get_elem? xs j ≡ some r) × (get_elem? r c ≡ some x)
at_place-row xs j c x h = >>=-eq-some (get_elem? xs j) _ h

pub eq_or_ne : (a b : ℕ) → (a ≡ b) ⊎ (a ≢ b)
eq_or_ne a b = ground arith

pub at_place-set_self :
    (xs : Grid) (j c x v : ℕ) (r : List ℕ)
    → get_elem? xs j ≡ some r
    → get_elem? r c ≡ some x
    → at_place (set xs j (set r c v)) j c ≡ some v
at_place-set_self xs j c x v r h k =
    rw (get_elem?-set_self xs j (set r c v) (get_elem?_lt xs j r h))
      (get_elem?-set_self r c v (get_elem?_lt r c x k))

pub at_place-set_ne :
    (xs : Grid) (j c v j' c' : ℕ) (r : List ℕ)
    → get_elem? xs j ≡ some r
    → ((j' ≢ j) ⊎ (c' ≢ c))
    → at_place (set xs j (set r c v)) j' c' ≡ at_place xs j' c'
at_place-set_ne xs j c v j' c' r h (inl other) =
    let e = get_elem?-set_ne xs {i = j} {j = j'} (set r c v) (λ p. other (sym p)) in rw e refl
at_place-set_ne xs j c v j' c' r h (inr other) = elim (eq_or_ne j' j) [
  | inr ne ↦ let e = get_elem?-set_ne xs {i = j} {j = j'} (set r c v) (λ p. ne (sym p)) in rw e refl
  | inl same ↦
      subst (λ i. at_place (set xs j (set r c v)) i c' ≡ at_place xs i c') (sym same)
        (rw (get_elem?-set_self xs j (set r c v) (get_elem?_lt xs j r h), h)
          (get_elem?-set_ne r v (λ p. other (sym p))))
]

-- The places that the loop has been through, when it is at `k` of the fold of `urb` columns that starts
-- at `b`, in row `j`.
abbrev pub IsBehind : ℕ → ℕ → ℕ → ℕ → ℕ → ℕ → Type 0
IsBehind b urb j k j' c' = (c' < b) ⊎ ((c' < b + urb) × ((j' < j) ⊎ ((j' ≡ j) × (c' < b + k))))

-- A place of the grid that is kept, in one of `h` rows and `w` columns.
abbrev pub Kept : ℕ → ℕ → Grid → ℕ → ℕ → Type 0
Kept h w xs j c = (j < h) × (c < w) × (at_place xs j c ≡ some 1)

-- The kept places that were passed have addresses of their own, whole lines of 64 bytes between `a`
-- and `e`; all other places are as they were.
pub record AreLaid (h w : ℕ) (P : ℕ → ℕ → Type 0) (a e : ℕ) (xs ys : Grid) : Type 0 where
  pub placed :
      (j c : ℕ)
      → P j c
      → Kept h w xs j c
      → (l : ℕ) × (at_place ys j c ≡ some (a + l * 64)) × (a + l * 64 + 64 ≤ e)
  pub apart :
      (j c j' c' : ℕ)
      → P j c
      → Kept h w xs j c
      → P j' c'
      → Kept h w xs j' c'
      → at_place ys j c ≡ at_place ys j' c'
      → (j ≡ j') × (c ≡ c')
  pub unpassed : (j c : ℕ) → j < h → c < w → ¬ P j c → at_place ys j c ≡ at_place xs j c
  pub left_out :
      (j c : ℕ) → j < h → c < w → at_place xs j c ≢ some 1 → at_place ys j c ≡ at_place xs j c
  pub aligned : (n : ℕ) × (e ≡ a + n * 64)
