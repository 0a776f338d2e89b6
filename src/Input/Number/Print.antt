-- ===== src/Input/Number/Print.antt =====
-- A number that is printed in decimal is read back.
use Prim.Native.Nat.{zero, suc}
use mathlib.Core.Logic.{inl, inr}
use sgcn.Base.{
  ℕ, ◌+◌, ◌/◌, ◌%◌, ◌≤◌, ◌<◌, ◌≡◌, refl, sym, Bool, true, false, some, List, [], ◌∷◌, arith, ◌==◌,
  if◌then◌else◌, Bool-cases,
}
use sgcn.Base.Int.{ℤ, pos, negsuc}
use sgcn.Input.Lines.Pieces.{Free}
use sgcn.Input.Number.{
  int_mod, is_space, skip_spaces, read_sign, digit_value, scan, digits, to_int, read_int, stoi,
}
use sgcn.Input.Result.{ok}

-- The decimal digits of `n` before `out`, on fuel.
unfoldable pub shown : ℕ → ℕ → List ℕ → List ℕ
shown zero n out = out
shown (suc f) n out =
    let more = shown f (n / 10) ((b'0' + n % 10) ∷ out) in if n == 0 then out else more

-- The last digit, behind the others if there are any.
unfoldable pub show_ℕ : ℕ → List ℕ
show_ℕ zero = b'0' ∷ []
show_ℕ (suc n) = shown n (suc n / 10) ((b'0' + suc n % 10) ∷ [])

-- An `int` as `ostream` prints it.
unfoldable pub show_int : ℤ → List ℕ
show_int (pos n) = show_ℕ n
show_int (negsuc n) = b'-' ∷ show_ℕ (n + 1)

-- The digits are read back as `n`, and whatever is behind them goes on from there.
scan-shown : (f n : ℕ) (out : List ℕ) → n ≤ f → scan 10 (shown f n out) 0 ≡ scan 10 out n
unfolding shown scan digit_value
scan-shown zero n out fuel = ground (arith, fuel)
scan-shown (suc f) n out fuel = ground (arith, fuel, scan-shown f (n / 10) ((b'0' + n % 10) ∷ out))

-- Printed digits begin with a digit.
abbrev StartsWithDigit : List ℕ → Type 0
StartsWithDigit s = (c : ℕ) × (t : List ℕ) × (s ≡ c ∷ t) × (b'0' ≤ c) × (c ≤ b'9')

shown-StartsWithDigit :
    (f n : ℕ) (out : List ℕ) → StartsWithDigit out → StartsWithDigit (shown f n out)
unfolding shown
shown-StartsWithDigit zero n out h = h
shown-StartsWithDigit (suc f) n out h = elim (Bool-cases (n == 0)) [
  | inl e ↦ rw e h
  | inr e ↦
      let last = b'0' + n % 10 in
      rw e
        (shown-StartsWithDigit f (n / 10) (last ∷ out) (last, out, refl, omega arith, omega arith))
]

show_ℕ-StartsWithDigit : (n : ℕ) → StartsWithDigit (show_ℕ n)
unfolding show_ℕ
show_ℕ-StartsWithDigit zero = (b'0', [], refl, omega arith, omega arith)
show_ℕ-StartsWithDigit (suc n) =
    let last = b'0' + suc n % 10 in
    shown-StartsWithDigit n (suc n / 10) (last ∷ []) (last, [], refl, omega arith, omega arith)

scan-show_ℕ : (n : ℕ) → scan 10 (show_ℕ n) 0 ≡ n
unfolding show_ℕ scan digit_value
scan-show_ℕ zero = refl
scan-show_ℕ (suc n) =
    ground (arith, scan-shown n (suc n / 10) ((b'0' + suc n % 10) ∷ []) (omega arith))

digits-show_ℕ : (n : ℕ) → digits 10 (show_ℕ n) ≡ some n
unfolding digits digit_value
digits-show_ℕ n =
    let (c, t, e, lo, hi) = show_ℕ-StartsWithDigit n in
    let back : scan 10 (c ∷ t) 0 ≡ n = rw (sym e) (scan-show_ℕ n) in
    rw e (ground (arith, back, lo, hi))

-- No sign and no space stands before a printed number.
bare : (n : ℕ) → read_sign (skip_spaces (show_ℕ n)) ≡ (false, show_ℕ n)
unfolding read_sign skip_spaces is_space
bare n = let (c, t, e, lo, hi) = show_ℕ-StartsWithDigit n in rw e (ground (arith, lo, hi))

-- The numbers of an `int`.
unfoldable pub IsInt : ℤ → Type 0
IsInt (pos n) = n < int_mod
IsInt (negsuc n) = n < int_mod

stoi_reads :
    (s t : List ℕ) (minus : Bool) (n : ℕ)
    → read_sign (skip_spaces s) ≡ (minus, t)
    → digits 10 t ≡ some n
    → stoi s ≡ to_int minus n
unfolding stoi read_int
stoi_reads s t minus n e₁ e₂ = rw (stoi, e₁, e₂) refl

minus_digits : (s : List ℕ) → read_sign (skip_spaces (b'-' ∷ s)) ≡ (true, s)
unfolding read_sign skip_spaces is_space
minus_digits s = refl

-- `stoi` reads each `int` back from its decimal print.
pub stoi-show_int : (z : ℤ) → IsInt z → stoi (show_int z) ≡ ok z
unfolding show_int IsInt to_int
stoi-show_int (pos n) h = rw (stoi_reads _ _ _ _ (bare n) (digits-show_ℕ n)) (ground (arith, h))
stoi-show_int (negsuc n) h =
    rw (stoi_reads _ _ _ _ (minus_digits _) (digits-show_ℕ (n + 1))) (ground (arith, h))

shown-Free : (d : ℕ) → d < b'-' → (f n : ℕ) (out : List ℕ) → Free d out → Free d (shown f n out)
unfolding shown
shown-Free d low zero n out h = h
shown-Free d low (suc f) n out h = elim (Bool-cases (n == 0)) [
  | inl e ↦ rw e h
  | inr e ↦ rw e (shown-Free d low f (n / 10) _ (omega (arith, low), h))
]

show_ℕ-Free : (d : ℕ) → d < b'-' → (n : ℕ) → Free d (show_ℕ n)
unfolding show_ℕ
show_ℕ-Free d low zero = (omega (arith, low), tt)
show_ℕ-Free d low (suc n) = shown-Free d low n (suc n / 10) _ (omega (arith, low), tt)

-- No space and no newline stands in a printed number.
pub show_int-Free : (d : ℕ) → d < b'-' → (z : ℤ) → Free d (show_int z)
unfolding show_int
show_int-Free d low (pos n) = show_ℕ-Free d low n
show_int-Free d low (negsuc n) = (omega (arith, low), show_ℕ-Free d low (n + 1))

pub show_int-first : (z : ℤ) → (c : ℕ) × (s : List ℕ) × (show_int z ≡ c ∷ s)
unfolding show_int
show_int-first (pos n) = let (c, t, e, lo, hi) = show_ℕ-StartsWithDigit n in (c, t, e)
show_int-first (negsuc n) = (b'-', show_ℕ (n + 1), refl)
