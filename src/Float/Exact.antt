-- ===== src/Float/Exact.antt =====
-- Where `ceil((float)a / n)` is the exact quotient rounded up.
use native.Mathlib.Nat.{
  div-add-mod', mod-lt, div-eq_of_lt-le, lt-div-mul-add, div-mul-le_self, pow-suc, mul-le-mul_right,
}
use native.Mathlib.Decide.{dec_le}
use sgcn.Base.{
  ℕ, zero, suc, ◌+◌, ◌-◌, ◌*◌, ◌/◌, ◌%◌, ◌^◌, ◌≤◌, ◌<◌, ◌≡◌, refl, sym, ap, ap₂, ◌∙◌, lt→ltb, false,
  ltb, ◌==◌, arith, Bool-cases, inl, inr, ◌⊎◌,
}
use sgcn.Float.{
  round_nearest, scale_up, scale_down, round, of_int, div, ceil, ceil_quot, min_significand,
  max_significand,
}

parity : (x : ℕ) → (x % 2 ≡ 0) ⊎ (x % 2 ≡ 1)
parity x = omega arith

-- The rounding error is at most half a unit.
round_nearest_error :
    (p q : ℕ)
    → 0 < q
    → (2 * (round_nearest p q * q) ≤ 2 * p + q) × (2 * p ≤ 2 * (round_nearest p q * q) + q)
unfolding round_nearest
round_nearest_error p q h =
    let w = div-add-mod' p q in
    let b = mod-lt p h in
    elim (Bool-cases (ltb (2 * (p % q)) q)) [
      | inl down ↦ rw (down, round_nearest) (ground arith)
      | inr half ↦ elim (Bool-cases (ltb q (2 * (p % q)))) [
        | inl up ↦ rw (half, up, round_nearest) (ground arith)
        | inr tie ↦
            rw (half, tie, round_nearest)
              (elim (parity (p / q)) [
                | inl even ↦ rw even (ground arith)
                | inr odd ↦ rw odd (ground arith)
              ])
      ]
    ]

-- What the doublings of `scale_up` leave.
record Scaled (p d q : ℕ) (r : ℕ × ℕ) : Type 0 where
  pub factor : ℕ
  pub positive : 0 < factor
  pub top : r.0 ≡ p * factor
  pub bottom : r.1 ≡ d * factor
  pub large : min_significand * q ≤ r.0
  pub small : r.0 < max_significand * q

scale_up-Scaled :
    (f p d q : ℕ)
    → p < max_significand * q
    → min_significand * q ≤ p * 2 ^ f
    → Scaled p d q (scale_up f p d q)
unfolding scale_up
scale_up-Scaled zero p d q small fits = record {
  factor = 1;
  positive = omega arith;
  top = omega arith;
  bottom = omega arith;
  large = omega arith;
  small = omega arith;
}
scale_up-Scaled (suc f) p d q small fits = elim (Bool-cases (ltb p (min_significand * q))) [
  | inl low ↦
      let e = pow-suc 2 f in
      let fits' : min_significand * q ≤ 2 * p * 2 ^ f = omega (arith, ap (λ (t : ℕ). p * t) e) in
      let s = scale_up-Scaled f (2 * p) (2 * d) q (ground arith) fits' in
      rw (low, scale_up)
        (record {
          factor = 2 * s.factor;
          positive = omega (arith, s.positive);
          top = omega (arith, s.top);
          bottom = omega (arith, s.bottom);
          large = s.large;
          small = s.small;
        })
  | inr high ↦
      rw (high, scale_up)
        (record {
          factor = 1;
          positive = omega arith;
          top = omega arith;
          bottom = omega arith;
          large = ground arith;
          small = omega arith;
        })
]

scale_down-done : (f p e q : ℕ) → p < max_significand * q → scale_down f p e q ≡ (q, e)
unfolding scale_down
scale_down-done zero p e q h = refl
scale_down-done (suc f) p e q h = ground arith

-- The quotient rounded up, as the number between two multiples.
up_bounds : (a n : ℕ) → 0 < n → (a ≤ (a + n - 1) / n * n) × ((a + n - 1) / n * n < a + n)
up_bounds a n h =
    omega (arith, div-mul-le_self (a + n - 1) n, lt-div-mul-add {a = a + n - 1} {b = n} h)

-- Rounding the scaled quotient and then up gives the quotient rounded up: the rounded significand
-- `m` lies above the multiple below `c`, and not above `c`.
module _ (a n k m : ℕ) (n0 : 0 < n) (k0 : 0 < k) (small : a < max_significand)
    (large : min_significand * n ≤ a * k) (up : 2 * (m * n) ≤ 2 * (a * k) + n)
    (down : 2 * (a * k) ≤ 2 * (m * n) + n) where
  significand-le : (c : ℕ) → a ≤ c * n → m ≤ c * k
  significand-le c above = elim (dec_le m (c * k)) [
    | yes h ↦ h
    | no h ↦
        let over : (c * k + 1) * n ≤ m * n = mul-le-mul_right n (omega arith) in
        absurd (omega (arith, over, mul-le-mul_right k above))
  ]

  significand-lt : (b : ℕ) → b * n < a → b * k < m
  significand-lt b below = elim (dec_le m (b * k)) [
    | yes h ↦
        let under : m * n ≤ b * k * n = mul-le-mul_right n h in
        let steps : (b * n + 1) * k ≤ a * k = mul-le-mul_right k (omega arith) in
        let few : a * k ≤ 16777215 * k = mul-le-mul_right k (omega arith) in absurd (omega arith)
    | no h ↦ omega arith
  ]

  ceil_scaled : (c : ℕ) → a ≤ c * n → c * n < a + n → (m + k - 1) / k ≡ c
  ceil_scaled zero above below =
      let top = significand-le 0 above in
      div-eq_of_lt-le {k = 0} k {m = m + k - 1} (omega arith) (omega arith)
  ceil_scaled (suc b) above below =
      let top = significand-le (suc b) above in
      let bottom = significand-lt b (omega arith) in
      div-eq_of_lt-le {k = suc b} k {m = m + k - 1} (omega arith) (omega arith)

round_lem :
    (p n : ℕ)
    → 0 < p
    → (scale_up 64 p 1 n).0 < max_significand * n
    → round p n
      ≡ record { num = round_nearest (scale_up 64 p 1 n).0 n; den = (scale_up 64 p 1 n).1 }
unfolding round
round_lem p n p0 small =
    let e = scale_down-done 64 (scale_up 64 p 1 n).0 1 n small in
    let nonzero : (p == 0) ≡ false = ground arith in
    rw (nonzero, e)
      (λ i. record {
        num = times_one (round_nearest (scale_up 64 p 1 n).0 n) i;
        den = (scale_up 64 p 1 n).1;
      })
  where
    times_one : (x : ℕ) → x * 1 ≡ x
    times_one x = omega arith

ceil_ratio :
    (p n : ℕ) (r : ℕ × ℕ)
    → 0 < p
    → p < max_significand
    → 0 < n
    → Scaled p 1 n r
    → ceil (record { num = round_nearest r.0 n; den = r.1 }) ≡ (p + n - 1) / n
unfolding ceil
ceil_ratio p n r p0 small n0 s =
    let err = round_nearest_error r.0 n n0 in
    let bounds = up_bounds p n n0 in
    let k = s.factor in
    let m = round_nearest r.0 n in
    let den : r.1 ≡ k = omega (arith, s.bottom) in
    let lo : min_significand * n ≤ p * k = omega (arith, s.large, s.top) in
    let up : 2 * (m * n) ≤ 2 * (p * k) + n = omega (arith, err, s.top) in
    let down : 2 * (p * k) ≤ 2 * (m * n) + n = omega (arith, err, s.top) in
    ap (λ (t : ℕ). (m + t - 1) / t) den
    ∙ ceil_scaled p n k m n0 s.positive small lo up down ((p + n - 1) / n) bounds.0 bounds.1

ceil-round :
    (a n : ℕ)
    → a < max_significand
    → 0 < n
    → n < max_significand
    → ceil (round a n) ≡ (a + n - 1) / n
unfolding ceil round
ceil-round zero n small n0 fits =
    ceil_zero n ∙ sym (div-eq_of_lt-le {k = 0} n {m = 0 + n - 1} (omega arith) (omega arith))
  where
    ceil_zero : (n : ℕ) → ceil (round 0 n) ≡ 0
    ceil_zero n = refl
ceil-round (suc a) n small n0 fits =
    let s = scale_up-Scaled 64 (suc a) 1 n (omega arith) (omega arith) in
    ap ceil (round_lem (suc a) n (omega arith) s.small)
    ∙ ceil_ratio (suc a) n (scale_up 64 (suc a) 1 n) (omega arith) small n0 s

-- For operands below 2^24 `ceil((float)a / n)` is the exact quotient rounded up.
pub ceil_quot-exact :
    (a n : ℕ) → a < max_significand → 0 < n → n < max_significand → ceil_quot a n ≡ (a + n - 1) / n
unfolding ceil_quot div of_int
ceil_quot-exact a n small n0 fits =
    rw (lt→ltb a max_significand small, lt→ltb n max_significand fits)
      (ap₂ (λ (x y : ℕ). ceil (round x y)) (omega arith) (omega arith)
        ∙ ceil-round a n small n0 fits)
