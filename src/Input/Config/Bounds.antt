-- ===== src/Input/Config/Bounds.antt =====
-- The sizes of the cache that a configuration gives.
use native.Mathlib.Nat.{lt-div-mul-add, div-mul-le_self}
use sgcn.Base.{
  ℕ, ◌+◌, ◌*◌, ◌/◌, ◌≤◌, ◌<◌, ◌≡◌, sym, ◌∙◌, ap, ap₂, true, inl, inr, arith, ◌==◌, if_inv, subst,
}
use sgcn.Base.Int.{ℤ, pos, negsuc}
use sgcn.Common.{cache_line_byte}
use sgcn.Input.Config.{stem, cache_bytes, cache_shape, parse_ini}
use sgcn.Input.Number.{int_mod}
use sgcn.Input.Number.Print.{IsInt}
use sgcn.Input.Result.{ok, err, undefined, >>=-elim_ok, ok_inj}
use sgcn.Input.Settings.{Settings, in_range, checked, product, times, truncated, over}
use sgcn.Input.Table.{codes, Table, same, get_string, get_int}

in_range-IsInt : (z : ℤ) → in_range z ≡ true → IsInt z
unfolding in_range IsInt
in_range-IsInt (pos n) h = ground (arith, h)
in_range-IsInt (negsuc n) h = ground (arith, h)

checked_inv : (z z' : ℤ) → checked z ≡ ok z' → (z ≡ z') × IsInt z'
unfolding checked
checked_inv z z' h = elim (if_inv (in_range z) (ok z) (err undefined) (ok z') h) [
  | inl (inside, e) ↦
      let same_z = ok_inj e in (same_z, subst (λ y. IsInt y) same_z (in_range-IsInt z inside))
  | inr (outside, e) ↦ cc
]

-- A quotient of numbers that are not negative.
over-pos : (a b : ℕ) (z : ℤ) → over (pos a) (pos b) ≡ ok z → (0 < b) × (pos (a / b) ≡ z)
unfolding over truncated
over-pos a b z h = elim (if_inv (b == 0) (err undefined) (checked (pos (a / b))) (ok z) h) [
  | inl (outside, e) ↦ cc
  | inr (inside, e) ↦ (ground (arith, inside), (checked_inv (pos (a / b)) z e).0)
]

times-IsInt : (a : ℤ) (n : ℕ) (z : ℤ) → times a n ≡ ok z → IsInt z
unfolding times
times-IsInt a n z h = (checked_inv (product a n) z h).1

cache_bytes-IsInt : (table : Table) (z : ℤ) → cache_bytes table ≡ ok z → IsInt z
unfolding cache_bytes
cache_bytes-IsInt table z h = >>=-elim_ok (get_int (codes "CacheSize") table) _ h λ size h₁ k₁.
    >>=-elim_ok (get_string (codes "UnitSize") table) _ k₁ λ unit h₂ k₂.
      elim (if_inv (same unit (codes "KB")) _ _ (ok z) k₂) [
        | inl (e, k) ↦ times-IsInt size 1024 z k
        | inr (e, k) ↦ times-IsInt size 1048576 z k
      ]

mul_mono : (a b w : ℕ) → a ≤ b → a * w ≤ b * w
mul_mono a b w h = grind arith

mul_le : (q p w c : ℕ) → q * 64 ≤ p → p * w ≤ c → q * w * 64 ≤ c
mul_le q p w c h₁ h₂ = let h = mul_mono (q * 64) p w h₁ in omega (arith, h, h₂)

lt_mul : (q p w c : ℕ) → p < (q + 1) * 64 → c < (p + 1) * w → c < (q + 1) * w * 64
lt_mul q p w c h₁ h₂ =
    let h : (p + 1) * w ≤ ((q + 1) * 64) * w = mul_mono (p + 1) ((q + 1) * 64) w (omega arith) in
    omega (arith, h, h₂)

-- The number `n` of sets of a cache of `c` bytes in `w` ways: their lines fit in the bytes, and a
-- set more would not.
abbrev pub AreSets : ℕ → ℕ → ℕ → Type 0
AreSets c w n = (n * w * 64 ≤ c) × (c < (n + 1) * w * 64)

quotient-AreSets : (c w : ℕ) → 0 < w → AreSets c w (c / w / 64)
quotient-AreSets c w h =
    let p = c / w in
    let q = c / w / 64 in
    let above : c < (p + 1) * w = grind (arith, lt-div-mul-add {a = c} h) in
    let a : q * w * 64 ≤ c = mul_le q p w c (omega arith) (div-mul-le_self c w) in
    let b : c < (q + 1) * w * 64 = lt_mul q p w c (omega arith) above in (a, b)

cache_shape-AreSets :
    (table : Table) (c w : ℕ) (sets : ℤ)
    → cache_shape table ≡ ok (pos c, pos w, sets)
    → (n : ℕ) × (sets ≡ pos n) × (0 < w) × (c < int_mod) × AreSets c w n
unfolding cache_shape IsInt
cache_shape-AreSets table c w sets h = >>=-elim_ok (cache_bytes table) _ h λ size h₁ k₁.
    >>=-elim_ok (get_int (codes "CacheWay") table) _ k₁ λ way h₂ k₂.
      >>=-elim_ok (over size way) _ k₂ λ way_size h₃ k₃.
        >>=-elim_ok (over way_size (pos cache_line_byte)) _ k₃ λ set h₄ k₄.
          let e = ok_inj k₄ in
          let same_size : size ≡ pos c = ap (λ t. t.0) e in
          let same_way : way ≡ pos w = ap (λ t. t.1) e in
          let same_sets : set ≡ sets = ap (λ t. t.2) e in
          let first : over (pos c) (pos w) ≡ ok way_size =
            ap₂ over (sym same_size) (sym same_way) ∙ h₃ in
          let (some_way, e₁) = over-pos c w way_size first in
          let second : over (pos (c / w)) (pos 64) ≡ ok set = ap (λ q. over q (pos 64)) e₁ ∙ h₄ in
          let (_, e₂) = over-pos (c / w) 64 set second in
          let int : IsInt (pos c) =
            subst (λ z. IsInt z) same_size (cache_bytes-IsInt table size h₁) in
          (c / w / 64, sym same_sets ∙ sym e₂, some_way, int, quotient-AreSets c w some_way)

-- Where the configuration is accepted, the bytes of the cache are an `int`, and if they and the ways
-- are not negative, there is a way, and there are as many sets as fit in the bytes: the lines of all
-- sets, of 64 bytes each, take no more than these, and those of a set more would.
pub parse_ini-AreSets :
    (table : Table) (s s' : Settings) (c w : ℕ)
    → parse_ini table s ≡ ok s'
    → s'.cache_size ≡ pos c
    → s'.cache_way ≡ pos w
    → (n : ℕ) × (s'.cache_set ≡ pos n) × (0 < w) × (c < int_mod) × AreSets c w n
unfolding parse_ini
parse_ini-AreSets table s s' c w h ec ew = >>=-elim_ok (cache_shape table) _ h λ shape h₁ k₁.
    >>=-elim_ok (get_int (codes "NumberOfEngine") table) _ k₁ λ engines h₂ k₂.
      >>=-elim_ok (get_int (codes "BF") table) _ k₂ λ bf h₃ k₃.
        >>=-elim_ok (get_string (codes "MemoryType") table) _ k₃ λ mem_type h₄ k₄.
          >>=-elim_ok (stem mem_type (codes "/") (codes "_")) _ k₄ λ kind h₅ k₅.
            >>=-elim_ok (over shape.0 (pos 1048576)) _ k₅ λ megabytes h₆ k₆.
              let e = ok_inj k₆ in
              let es : shape.0 ≡ pos c = ap (λ t. t.cache_size) e ∙ ec in
              let ew' : shape.1 ≡ pos w = ap (λ t. t.cache_way) e ∙ ew in
              let same_sets : shape.2 ≡ s'.cache_set = ap (λ t. t.cache_set) e in
              let shaped : cache_shape table ≡ ok (pos c, pos w, shape.2) =
                h₁ ∙ ap ok (λ i. (es i, ew' i, shape.2)) in
              let (n, is_n, some_way, int, fit) = cache_shape-AreSets table c w shape.2 shaped in
              (n, sym same_sets ∙ is_n, some_way, int, fit)
