-- ===== src/Preprocessor/Split.antt =====
-- `split` of src/preprocessor.cc. A character is its code.
pub mod Tokens
use sgcn.Base.{
  ℕ, zero, suc, Bool, true, false, ◌&&◌, Option, none, some, List, [], ◌∷◌, ◌++◌, ◌==◌,
  if◌then◌else◌, length, drop, ◌>>=◌,
}

unfoldable pub is_prefix : List ℕ → List ℕ → Bool
is_prefix [] s = true
is_prefix (d ∷ ds) [] = false
is_prefix (d ∷ ds) (c ∷ cs) = d == c && is_prefix ds cs

-- The search for a delimiter, not empty, from `prev` on: the characters up to it, which are the
-- token, and those behind it if it is found.
unfoldable pub break_at : List ℕ → List ℕ → List ℕ × Option (List ℕ)
break_at delim [] = ([], none)
break_at delim (c ∷ cs) =
    let (token, rest) = break_at delim cs in
    if is_prefix delim (c ∷ cs)
    then ([], some (drop (length delim) (c ∷ cs)))
    else (c ∷ token, rest)

-- `if (!token.empty()) tokens.push_back(token)`
unfoldable pub push_token : List ℕ → List (List ℕ) → List (List ℕ)
push_token [] tokens = tokens
push_token (c ∷ cs) tokens = (c ∷ cs) ∷ tokens

-- The loop, from `prev` on, on fuel.
unfoldable pub split_loop : ℕ → List ℕ → List ℕ → Option (List (List ℕ))
split_loop zero delim s = none
split_loop (suc f) delim s = elim (break_at delim s).1 [
  | none ↦ some (push_token (break_at delim s).0 [])
  | some [] ↦ some (push_token (break_at delim s).0 [])
  | some (c ∷ cs) ↦ elim (split_loop f delim (c ∷ cs)) [
    | none ↦ none
    | some tokens ↦ some (push_token (break_at delim s).0 tokens)
  ]
]

unfoldable pub split : List ℕ → List ℕ → Option (List (List ℕ))
split str delim = split_loop (suc (length str)) delim str
