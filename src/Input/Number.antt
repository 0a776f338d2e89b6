-- ===== src/Input/Number.antt =====
-- The numbers that the program reads with `std::stoi` and `std::stoull`, as the standard describes
-- these functions: spaces, a sign, a prefix of the base, and the digits up to the first character that
-- is none. What stands behind them is ignored.
pub mod Print
use sgcn.Base.{
  ℕ, suc, ◌+◌, ◌-◌, ◌*◌, ◌%◌, Bool, true, false, ◌&&◌, ◌||◌, Option, none, some, List, [], ◌∷◌, ltb,
  leb, ◌==◌, if◌then◌else◌, u64_mod, u64_max, sub64,
}
use sgcn.Base.Int.{ℤ, pos, negsuc}
use sgcn.Input.Result.{invalid_argument, out_of_range, Result, ok, err}

-- 2 ^ 31
abbrev pub int_mod : ℕ
int_mod = 2147483648

-- `isspace`
unfoldable pub is_space : ℕ → Bool
is_space c = c == b' ' || (leb 9 c && leb c 13)

unfoldable pub skip_spaces : List ℕ → List ℕ
skip_spaces [] = []
skip_spaces (c ∷ s) = let rest = skip_spaces s in if is_space c then rest else c ∷ s

-- Whether there is a minus, and what is behind the sign.
unfoldable pub read_sign : List ℕ → Bool × List ℕ
read_sign [] = (false, [])
read_sign (c ∷ s) =
    if c == b'-' then (true, s) else if c == b'+' then (false, s) else (false, c ∷ s)

-- The value of a character as a digit; 36 is none in any base.
unfoldable pub digit_value : ℕ → ℕ
digit_value c =
    if leb b'0' c && leb c b'9'
    then c - b'0'
    else if leb b'a' c && leb c b'z'
    then c - b'a' + 10
    else if leb b'A' c && leb c b'Z'
    then c - b'A' + 10
    else 36

-- The digits from here on, behind digits of the value `n`.
unfoldable pub scan : ℕ → List ℕ → ℕ → ℕ
scan base [] n = n
scan base (c ∷ s) n =
    let rest = scan base s (n * base + digit_value c) in
    if ltb (digit_value c) base then rest else n

-- No number without a digit.
unfoldable pub digits : ℕ → List ℕ → Option ℕ
digits base [] = none
digits base (c ∷ s) = if ltb (digit_value c) base then some (scan base (c ∷ s) 0) else none

abbrev pub negate : ℕ → ℤ
negate n = if n == 0 then pos 0 else negsuc (n - 1)

-- An `int` of a sign and a value.
unfoldable pub to_int : Bool → ℕ → Result ℤ
to_int true n = if leb n int_mod then ok (negate n) else err out_of_range
to_int false n = if ltb n int_mod then ok (pos n) else err out_of_range

unfoldable pub read_int : Bool → Option ℕ → Result ℤ
read_int minus none = err invalid_argument
read_int minus (some n) = to_int minus n

unfoldable pub stoi : List ℕ → Result ℤ
stoi s = let (minus, t) = read_sign (skip_spaces s) in read_int minus (digits 10 t)

-- Base 0: the prefix says the base. `0x` without a digit behind it is the number 0.
unfoldable pub prefixed : List ℕ → Option ℕ
prefixed [] = none
prefixed (c ∷ []) = digits 10 (c ∷ [])
prefixed (c ∷ x ∷ s) =
    if c == b'0'
    then (if x == b'x' || x == b'X'
        then elim (digits 16 s) [ none ↦ some 0 | some n ↦ some n ]
        else digits 8 (c ∷ x ∷ s))
    else digits 10 (c ∷ x ∷ s)

-- `stoull(s, NULL, 0)`: a minus negates the number modulo 2 ^ 64.
unfoldable pub stoull : List ℕ → Result ℕ
stoull s =
    let (minus, t) = read_sign (skip_spaces s) in
    elim (prefixed t) [
      | none ↦ err invalid_argument
      | some n ↦ if leb n u64_max then ok (if minus then sub64 0 n else n) else err out_of_range
    ]
