-- ===== src/Input/Result.antt =====
-- Code that throws. `invalid_argument` and `out_of_range` are the standard exceptions, `exited` is a
-- call of `exit`, and `undefined` a step that the language leaves undefined.
use mathlib.Core.Path.{◌≡◌, refl, ap}
use mathlib.Core.List.{List, [], ◌∷◌}
use mathlib.Core.Option.{Option, none, some}

pub data Error : Type 0 where
  undefined exited invalid_argument out_of_range : Error

-- How a call ends: with a value, or by an error that nothing in the program catches.
pub data Result {ℓ} (Value : Type ℓ) : Type ℓ where
  err : Error → Result Value
  ok : Value → Result Value

-- A partial step, where the language leaves the rest undefined.
abbrev pub defined {ℓ} : {Value : Type ℓ} → Option Value → Result Value
defined (some v) = ok v
defined none = err undefined

infixl 5 ◌>>=◌
abbrev pub ◌>>=◌ {ℓ ξ} :
    {Value : Type ℓ} {Next : Type ξ} → Result Value → (Value → Result Next) → Result Next
err thrown >>= continue = err thrown
ok v >>= continue = continue v

-- `f` at each element in turn, up to the first that throws.
abbrev pub each {ℓ ξ} :
    {Item : Type ℓ} {Value : Type ξ} → (Item → Result Value) → List Item → Result (List Value)
each f [] = ok []
each f (x ∷ xs) = do v ← f x; vs ← each f xs; ok (v ∷ vs)

-- A chain that ended well ended well at its first step, with the result of that step as a variable.
pub >>=-elim_ok {ℓ ξ ζ} :
    {Value : Type ℓ} {Next : Type ξ} {Goal : Type ζ} (m : Result Value)
    (continue : Value → Result Next) {end : Next}
    → (m >>= continue) ≡ ok end
    → ((v : Value) → m ≡ ok v → continue v ≡ ok end → Goal)
    → Goal
>>=-elim_ok (err thrown) continue h use_first = absurd (cc)
>>=-elim_ok (ok v) continue h use_first = use_first v refl h

value_or {ℓ} : {Value : Type ℓ} → Value → Result Value → Value
value_or default (err thrown) = default
value_or default (ok v) = v

pub ok_inj {ℓ} : {Value : Type ℓ} {v w : Value} → ok v ≡ ok w → v ≡ w
unfolding value_or
ok_inj {v} h = ap (value_or v) h
