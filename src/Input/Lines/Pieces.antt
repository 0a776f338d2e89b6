-- ===== src/Input/Lines/Pieces.antt =====
-- The pieces that `getline` reads are those that were written, and they are read one by one.
use sgcn.Base.{ℕ, ◌≡◌, ◌≢◌, refl, ap, some, List, [], ◌∷◌, ◌++◌, arith}
use sgcn.Input.Lines.{pieces, cut}

abbrev pub Free : ℕ → List ℕ → Type 0
Free d [] = Unit {0}
Free d (c ∷ s) = (c ≢ d) × Free d s

abbrev pub AllFree : ℕ → List (List ℕ) → Type 0
AllFree d [] = Unit {0}
AllFree d (p ∷ ps) = Free d p × AllFree d ps

pub Free-append : (d : ℕ) (s t : List ℕ) → Free d s → Free d t → Free d (s ++ t)
Free-append d [] t hs ht = ht
Free-append d (c ∷ s) t (h, hs) ht = (h, Free-append d s t hs ht)

-- Each piece with `d` behind it.
unfoldable pub ended : ℕ → List (List ℕ) → List ℕ
ended d [] = []
ended d (p ∷ ps) = p ++ d ∷ ended d ps

pub piece-first : (d : ℕ) (p s : List ℕ) → Free d p → pieces d (p ++ d ∷ s) ≡ p ∷ pieces d s
unfolding pieces
piece-first d [] s h = ground arith
piece-first d (c ∷ p) s (h, hs) = ground (arith, h, piece-first d p s hs)

pub pieces-ended : (d : ℕ) (ps : List (List ℕ)) → AllFree d ps → pieces d (ended d ps) ≡ ps
unfolding ended pieces
pieces-ended d [] h = refl
pieces-ended d (p ∷ ps) (h, hs) =
    rw (piece-first d p (ended d ps) h) (ap (p ∷◌) (pieces-ended d ps hs))

pub cut-Free : (d : ℕ) (p s : List ℕ) → Free d p → cut d (p ++ d ∷ s) ≡ (p, some s)
unfolding cut
cut-Free d [] s h = ground arith
cut-Free d (c ∷ p) s (h, hs) = ground (arith, h, cut-Free d p s hs)

pub piece-last : (d c : ℕ) (p : List ℕ) → Free d (c ∷ p) → pieces d (c ∷ p) ≡ (c ∷ p) ∷ []
unfolding pieces
piece-last d c [] (h, _) = ground (arith, h)
piece-last d c (e ∷ p) (h, hs) = ground (arith, h, piece-last d e p hs)
