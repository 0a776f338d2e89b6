-- ===== src/Input/Program/Folder.antt =====
-- The result folder that `main` of src/main.cc looks for.
use sgcn.Base.{
  ℕ, zero, suc, ◌+◌, ◌≤◌, ◌<◌, ◌≡◌, refl, Bool, true, false, Option, none, some, inl, inr, ◌⊎◌,
  ◌++◌, arith, if◌then◌else◌, Bool-cases, subst,
}
use sgcn.Base.Int.{pos}
use sgcn.Input.Number.Print.{show_int}
use sgcn.Input.Table.{codes, Text}

-- `results_path + "/result_" + to_string(idx)`
unfoldable pub result_path : ℕ → Text
result_path idx = codes "results/result_" ++ show_int (pos idx)

-- The loop over the indices, on fuel; `there` says what `stat` finds.
unfoldable pub find_folder : ℕ → (Text → Bool) → ℕ → Option ℕ
find_folder zero there idx = none
find_folder (suc f) there idx =
    let rest = find_folder f there (suc idx) in if there (result_path idx) then rest else some idx

-- The index `k` is the first one from `idx` on whose folder is not there.
abbrev pub IsFirst : (Text → Bool) → ℕ → ℕ → Type 0
IsFirst there idx k =
    (idx ≤ k)
    × (there (result_path k) ≡ false)
    × ((i : ℕ) → idx ≤ i → i < k → there (result_path i) ≡ true)

le_cases : (a b : ℕ) → a ≤ b → (a ≡ b) ⊎ (a < b)
le_cases a b h = ground (arith, h)

-- If one of the next `f` folders is not there, the loop ends, at the first that is not.
pub find_folder-IsFirst :
    (f : ℕ) (there : Text → Bool) (idx n : ℕ)
    → idx ≤ n
    → n < idx + f
    → there (result_path n) ≡ false
    → (k : ℕ) × (find_folder f there idx ≡ some k) × IsFirst there idx k
unfolding find_folder
find_folder-IsFirst zero there idx n h₁ h₂ e = absurd (omega (arith, h₁, h₂))
find_folder-IsFirst (suc f) there idx n h₁ h₂ e = elim (Bool-cases (there (result_path idx))) [
  | inr free ↦ (idx, rw free refl, (omega arith, free, λ i a b. absurd (omega (arith, a, b))))
  | inl taken ↦ elim (le_cases idx n h₁) [
    | inl e' ↦ cc (e', taken, e)
    | inr later ↦
        let (k, runs, (above, free, below)) =
          find_folder-IsFirst f there (suc idx) n later (omega (arith, h₂)) e in
        (
          k,
          rw taken runs,
          (
            omega (arith, above),
            free,
            λ i a b. elim (le_cases idx i a) [
              | inl e' ↦ subst (λ j. there (result_path j) ≡ true) e' taken
              | inr a' ↦ below i a' b
            ],
          ),
        )
  ]
]
