-- ===== src/Controller/Loop.antt =====
-- The loop of `GCNInference` in src/controller.cc, against the cycles that it runs.
use native.Mathlib.Nat.{mod-add-mod}
use sgcn.Base.{
  Option-cases, ℕ, zero, suc, ◌+◌, ◌%◌, ◌≤◌, ◌≡◌, ◌↔◌, refl, sym, ap, ◌∙◌, subst, inl, inr, true,
  false, none, some, ◌==◌, arith, Bool-cases, add64, u64_mod, some_inj,
}
use sgcn.Common.{Env}
use sgcn.Memory.{Dram}
use sgcn.Controller.Defs.{Engines, cycle_step, inference_loop}

module _ (D : Dram) (env : Env) where
  open D use {State}

  -- Cycles up to the first after which no write is left.
  pub data Cycles : ℕ → State → Engines → State → Engines → Type 0 where
    last :
        {d d' : State} {e e' : Engines}
        → cycle_step D env d e ≡ some (d', e')
        → (e'.world.mem.total_write == 0) ≡ true
        → Cycles 1 d e d' e'
    more :
        {n : ℕ} {d d₁ d' : State} {e e₁ e' : Engines}
        → cycle_step D env d e ≡ some (d₁, e₁)
        → (e₁.world.mem.total_write == 0) ≡ false
        → Cycles n d₁ e₁ d' e'
        → Cycles (suc n) d e d' e'

  count_on : (c n : ℕ) → (add64 c 1 + n) % u64_mod ≡ (c + suc n) % u64_mod
  count_on c n =
      let e : c + 1 + n ≡ c + suc n = omega arith in
      mod-add-mod (c + 1) u64_mod n ∙ ap (◌% u64_mod) e

  loop_runs :
      (n f c : ℕ) (d d' : State) (e e' : Engines)
      → Cycles n d e d' e'
      → n ≤ f
      → inference_loop D f env c d e ≡ some ((c + n) % u64_mod, d', e')
  unfolding inference_loop
  loop_runs n zero c d d' e e' (last p q) h = elim h [ ]
  loop_runs n zero c d d' e e' (more p q r) h = elim h [ ]
  loop_runs n (suc f) c d d' e e' (last p q) h = rw (inference_loop, p, q) refl
  loop_runs n (suc f) c d d' e e' (more {n = m} {d₁} {e₁} p q r) h =
      rw (inference_loop, p, q)
        (loop_runs m f (add64 c 1) d₁ d' e₁ e' r (omega (arith, h))
          ∙ ap (λ k. some (k, d', e')) (count_on c m))

  loop-Cycles :
      (f c c' : ℕ) (d d' : State) (e e' : Engines)
      → inference_loop D f env c d e ≡ some (c', d', e')
      → (n : ℕ) × Cycles n d e d' e' × (n ≤ f) × (c' ≡ (c + n) % u64_mod)
  unfolding inference_loop
  loop-Cycles zero c c' d d' e e' h = ground arith
  loop-Cycles (suc f) c c' d d' e e' h = elim (Option-cases (cycle_step D env d e)) [
    | inl p ↦ let h' : none ≡ some (c', d', e') = rw (inference_loop, p) at h in ground (arith, h')
    | inr ((d₁, e₁), p) ↦ elim (Bool-cases (e₁.world.mem.total_write == 0)) [
      | inl q ↦
          let h' : some (add64 c 1, d₁, e₁) ≡ some (c', d', e') = rw (inference_loop, p, q) at h in
          let same : (add64 c 1, d₁, e₁) ≡ (c', d', e') = some_inj h' in
          (
            1,
            subst (λ r. Cycles 1 d e r.1 r.2) same (last p q),
            omega arith,
            sym (ap (λ r. r.0) same),
          )
      | inr q ↦
          let h' : inference_loop D f env (add64 c 1) d₁ e₁ ≡ some (c', d', e') =
            rw (inference_loop, p, q) at h in
          let (n, cycles, fits, count) = loop-Cycles f (add64 c 1) c' d₁ d' e₁ e' h' in
          (suc n, more p q cycles, omega (arith, fits), count ∙ count_on c n)
    ]
  ]

  -- The loop has an answer exactly where some number of cycles, not more than its fuel, leads to a
  -- first state after which no write is left, and the answer is that state and the cycles counted.
  pub inference_loop_iff :
      (f c c' : ℕ) (d d' : State) (e e' : Engines)
      → (inference_loop D f env c d e ≡ some (c', d', e'))
        ↔ ((n : ℕ) × Cycles n d e d' e' × (n ≤ f) × (c' ≡ (c + n) % u64_mod))
  inference_loop_iff f c c' d d' e e' = (
    loop-Cycles f c c' d d' e e',
    λ (n, cycles, fits, count).
        loop_runs n f c d d' e e' cycles fits ∙ ap (λ k. some (k, d', e')) (sym count),
  )
