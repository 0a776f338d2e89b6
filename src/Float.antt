-- ===== src/Float.antt =====
-- The single-precision arithmetic behind `ceil((float)a / b)` in src/preprocessor.cc, src/simd.cc and
-- src/controller.cc: non-negative floats as fractions, rounded to 24 bits, ties to even. The
-- exponent's range is not modelled, since quotients of `int`s stay far inside it.
pub mod Exact
use sgcn.Base.{
  ℕ, zero, suc, ◌+◌, ◌-◌, ◌*◌, ◌/◌, ◌%◌, Bool, true, false, leb, ltb, ◌==◌, if◌then◌else◌, Option,
  some, none,
}

-- The value num / den.
pub record Float : Type 0 where
  pub num : ℕ
  pub den : ℕ

-- 2^23 and 2^24: a significand lies between them.
abbrev pub min_significand : ℕ
min_significand = 8388608

abbrev pub max_significand : ℕ
max_significand = 16777216

-- The whole number nearest to p / q.
unfoldable pub round_nearest : ℕ → ℕ → ℕ
round_nearest p q =
    if ltb (2 * (p % q)) q
    then p / q
    else if ltb q (2 * (p % q))
    then p / q + 1
    else p / q + p / q % 2

-- Doubles p and d until p / q reaches the least significand.
unfoldable pub scale_up : ℕ → ℕ → ℕ → ℕ → ℕ × ℕ
scale_up zero p d q = (p, d)
scale_up (suc f) p d q = elim (ltb p (min_significand * q)) [
  | true ↦ scale_up f (2 * p) (2 * d) q
  | false ↦ (p, d)
]

-- Doubles q and e until p / q is below the bound of significands.
unfoldable pub scale_down : ℕ → ℕ → ℕ → ℕ → ℕ × ℕ
scale_down zero p e q = (q, e)
scale_down (suc f) p e q = elim (leb (max_significand * q) p) [
  | true ↦ scale_down f p (2 * e) (2 * q)
  | false ↦ (q, e)
]

-- The float nearest to p / q. Sixty-four doublings are enough for `int` operands.
unfoldable pub round : ℕ → ℕ → Float
round p q =
    if p == 0
    then record { num = 0; den = 1 }
    else let (p', d) = scale_up 64 p 1 q in
      let (q', e) = scale_down 64 p' 1 q in record { num = round_nearest p' q' * e; den = d }

-- The conversion (float) n, exact below 2^24.
unfoldable pub of_int : ℕ → Float
of_int n = if ltb n max_significand then record { num = n; den = 1 } else round n 1

unfoldable pub div : Float → Float → Float
div x y = round (x.num * y.den) (x.den * y.num)

unfoldable pub ceil : Float → ℕ
ceil x = (x.num + x.den - 1) / x.den

-- `ceil((float)a / n)` at n ≠ 0.
unfoldable pub ceil_quot : ℕ → ℕ → ℕ
ceil_quot a n = ceil (div (of_int a) (of_int n))

-- `ceil((float)a / n)` converted to an `int`: at n = 0 the conversion of an infinity is undefined.
unfoldable pub ceil_div : ℕ → ℕ → Option ℕ
ceil_div a n = if n == 0 then none else some (ceil_quot a n)

-- `ceil((float)a / m / n)`
unfoldable pub ceil_div₂ : ℕ → ℕ → ℕ → Option ℕ
ceil_div₂ a m n =
    if m == 0
    then none
    else if n == 0
    then none
    else some (ceil (div (div (of_int a) (of_int m)) (of_int n)))

-- `a / ceil((float)b / n)` converted to an `int`, for constants a and n ≠ 0: none where the
-- divisor is zero.
unfoldable pub quot_ceil : ℕ → ℕ → ℕ → Option ℕ
quot_ceil a b n =
    if ceil_quot b n == 0
    then none
    else some (let q = div (of_int a) (of_int (ceil_quot b n)) in q.num / q.den)
