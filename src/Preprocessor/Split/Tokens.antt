-- ===== src/Preprocessor/Split/Tokens.antt =====
-- What `split` of src/preprocessor.cc makes of a string and a delimiter of one character, the only
-- delimiters that it is called with.
use sgcn.Base.{
  Option-cases, ℕ, zero, suc, ◌≤◌, ◌<◌, ◌≡◌, refl, sym, ap, ◌∙◌, inl, inr, Option, none, some, List,
  [], ◌∷◌, ◌++◌, ◌==◌, if◌then◌else◌, length, arith, Bool-cases, some_inj,
}
use sgcn.Preprocessor.Csr.{columns}
use sgcn.Preprocessor.Split.{is_prefix, break_at, push_token, split_loop, split}

-- The string without the delimiter.
unfoldable pub without : ℕ → List ℕ → List ℕ
without d [] = []
without d (c ∷ cs) = let rest = without d cs in if d == c then rest else c ∷ rest

unfoldable pub NoneEmpty : List (List ℕ) → Type 0
NoneEmpty [] = Unit {0}
NoneEmpty (t ∷ ts) = (0 < length t) × NoneEmpty ts

-- What stands behind the delimiter, if it is found.
abbrev behind : Option (List ℕ) → List ℕ
behind none = []
behind (some s) = s

break_at_lem :
    (d : ℕ) (s : List ℕ)
    → ((break_at (d ∷ []) s).0 ++ without d (behind (break_at (d ∷ []) s).1) ≡ without d s)
      × (length (behind (break_at (d ∷ []) s).1) ≤ length s)
unfolding break_at without is_prefix
break_at_lem d [] = (refl, omega arith)
break_at_lem d (c ∷ cs) =
    let (same, shorter) = break_at_lem d cs in
    elim (Bool-cases (d == c)) [
      | inl e ↦ rw e (refl, omega arith)
      | inr e ↦ rw e (ap (c ∷◌) same, omega (arith, shorter))
    ]

break_at-shorter : (d : ℕ) (s r : List ℕ) → (break_at (d ∷ []) s).1 ≡ some r → length r < length s
unfolding break_at is_prefix
break_at-shorter d [] r h = ground arith
break_at-shorter d (c ∷ cs) r h = elim (Bool-cases (d == c)) [
  | inl e ↦
      let h' : some cs ≡ some r = rw e at h in
      let same : cs ≡ r = some_inj h' in omega (arith, ap length same)
  | inr e ↦
      let h' : (break_at (d ∷ []) cs).1 ≡ some r = rw e at h in
      omega (arith, break_at-shorter d cs r h')
]

push_token_lem :
    (t : List ℕ) (ts : List (List ℕ))
    → NoneEmpty ts
    → NoneEmpty (push_token t ts) × (columns (push_token t ts) ≡ t ++ columns ts)
unfolding push_token NoneEmpty
push_token_lem [] ts h = (h, refl)
push_token_lem (c ∷ cs) ts h = ((omega arith, h), refl)

-- What is asked of the tokens of a string.
abbrev pub AreTokens : ℕ → List ℕ → List (List ℕ) → Type 0
AreTokens d s ts = NoneEmpty ts × (columns ts ≡ without d s)

-- The last token.
last-AreTokens :
    (d : ℕ) (s : List ℕ)
    → behind (break_at (d ∷ []) s).1 ≡ []
    → AreTokens d s (push_token (break_at (d ∷ []) s).0 [])
unfolding NoneEmpty without
last-AreTokens d s e =
    let token = (break_at (d ∷ []) s).0 in
    let (full, cols) = push_token_lem token [] tt in
    (full, cols ∙ ap (λ r. token ++ without d r) (sym e) ∙ (break_at_lem d s).0)

split_loop-AreTokens :
    (f d : ℕ) (s : List ℕ)
    → length s < f
    → (ts : List (List ℕ)) × (split_loop f (d ∷ []) s ≡ some ts) × AreTokens d s ts
unfolding split_loop
split_loop-AreTokens zero d s h = elim h [ ]
split_loop-AreTokens (suc f) d s h = elim (Option-cases (break_at (d ∷ []) s).1) [
  | inl e ↦ (
    push_token (break_at (d ∷ []) s).0 [],
    rw (split_loop, e) refl,
    last-AreTokens d s (ap behind e),
  )
  | inr ([], e) ↦ (
    push_token (break_at (d ∷ []) s).0 [],
    rw (split_loop, e) refl,
    last-AreTokens d s (ap behind e),
  )
  | inr (c ∷ cs, e) ↦
      let shorter = break_at-shorter d s (c ∷ cs) e in
      let (ts, runs, (full, cols)) =
        split_loop-AreTokens f d (c ∷ cs) (omega (arith, h, shorter)) in
      let token = (break_at (d ∷ []) s).0 in
      let (full', cols') = push_token_lem token ts full in
      (
        push_token token ts,
        rw (split_loop, e, runs) refl,
        (
          full',
          cols'
              ∙ ap (token ++◌) cols
              ∙ ap (λ r. token ++ without d (behind r)) (sym e)
              ∙ (break_at_lem d s).0,
        ),
      )
]

-- With a delimiter of one character `split` ends, within a turn more than the string has characters.
-- No token is empty, and one after the other they are the string without the delimiter.
pub split-AreTokens :
    (d : ℕ) (s : List ℕ) → (ts : List (List ℕ)) × (split s (d ∷ []) ≡ some ts) × AreTokens d s ts
unfolding split
split-AreTokens d s = split_loop-AreTokens (suc (length s)) d s (omega arith)
