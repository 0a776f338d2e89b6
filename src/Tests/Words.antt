-- ===== src/Tests/Words.antt =====
-- The path "ab/c", split at its slash.
use sgcn.Base.{ℕ, ◌≡◌, refl, some, List, [], ◌∷◌}
use sgcn.Preprocessor.Split.{is_prefix, break_at, push_token, split_loop, split}
use sgcn.Preprocessor.Split.Tokens.{AreTokens, split-AreTokens}

abbrev path : List ℕ
path = 97 ∷ 98 ∷ 47 ∷ 99 ∷ []

split-AreTokens_example :
    (ts : List (List ℕ)) × (split path (47 ∷ []) ≡ some ts) × AreTokens 47 path ts
split-AreTokens_example = split-AreTokens 47 path

two_words : split path (47 ∷ []) ≡ some ((97 ∷ 98 ∷ []) ∷ (99 ∷ []) ∷ [])
unfolding is_prefix break_at push_token split_loop split
two_words = refl
