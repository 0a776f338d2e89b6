-- ===== src/Input/Files/Chosen.antt =====
-- The set of the vertices that `ReadDAVC` chooses.
use sgcn.Base.{
  ℕ, ◌≡◌, refl, sym, ap, ◌∙◌, Bool, true, false, ◌||◌, some, inl, inr, List, [], ◌∷◌, arith, ◌==◌,
  Bool-cases,
}
use sgcn.Base.Int.{ℤ, pos, negsuc}
use sgcn.Input.Files.{numbers, ltb_ℤ, insert_int, insert_all, read_davc}
use sgcn.Input.Lines.{getline, pieces}
use sgcn.Input.Number.{stoi}
use sgcn.Input.Result.{ok, each, ok_inj, >>=-elim_ok}
use sgcn.Input.Table.{Text}

abbrev Above : ℤ → List ℤ → Type 0
Above y [] = Unit {0}
Above y (z ∷ s) = ltb_ℤ y z ≡ true

-- Each element is less than the next.
unfoldable pub IsAscending : List ℤ → Type 0
IsAscending [] = Unit {0}
IsAscending (z ∷ s) = Above z s × IsAscending s

unfoldable pub eq_ℤ : ℤ → ℤ → Bool
eq_ℤ (pos a) (pos b) = a == b
eq_ℤ (pos a) (negsuc b) = false
eq_ℤ (negsuc a) (pos b) = false
eq_ℤ (negsuc a) (negsuc b) = a == b

unfoldable pub member : ℤ → List ℤ → Bool
member z [] = false
member z (y ∷ s) = eq_ℤ z y || member z s

insert_int-Above : (y z : ℤ) (s : List ℤ) → ltb_ℤ y z ≡ true → Above y s → Above y (insert_int z s)
unfolding insert_int
insert_int-Above y z [] h hs = h
insert_int-Above y z (x ∷ s) h hs = ground (arith, h, hs)

insert_int-IsAscending : (z : ℤ) (s : List ℤ) → IsAscending s → IsAscending (insert_int z s)
unfolding insert_int IsAscending
insert_int-IsAscending z [] h = (tt, tt)
insert_int-IsAscending z (y ∷ s) (hy, hs) =
    let ih = insert_int-IsAscending z s hs in
    let up = insert_int-Above y z s in
    elim (Bool-cases (ltb_ℤ z y)) [
      | inl e ↦ rw e (e, (hy, hs))
      | inr e ↦
          rw e
            (elim (Bool-cases (ltb_ℤ y z)) [ inl k ↦ rw k (up k hy, ih) | inr k ↦ rw k (hy, hs) ])
    ]

only_equal : (z y : ℤ) → ltb_ℤ z y ≡ false → ltb_ℤ y z ≡ false → z ≡ y
unfolding ltb_ℤ
only_equal (pos a) (pos b) h k = ground (arith, h, k)
only_equal (pos a) (negsuc b) h k = cc
only_equal (negsuc a) (pos b) h k = cc
only_equal (negsuc a) (negsuc b) h k = ground (arith, h, k)

associates : (a b c : Bool) → (b || (a || c)) ≡ ((a || b) || c)
associates true true c = refl
associates true false c = refl
associates false b c = refl

absorbs : (a b : Bool) → (a || (a || b)) ≡ (a || b)
absorbs true b = refl
absorbs false b = refl

swaps : (a b c : Bool) → (a || (b || c)) ≡ (b || (a || c))
swaps true true c = refl
swaps true false c = refl
swaps false b c = refl

member-insert_int : (x z : ℤ) (s : List ℤ) → member x (insert_int z s) ≡ (eq_ℤ x z || member x s)
unfolding insert_int member
member-insert_int x z [] = refl
member-insert_int x z (y ∷ s) =
    let ih = member-insert_int x z s in
    elim (Bool-cases (ltb_ℤ z y)) [
      | inl e ↦ rw e refl
      | inr e ↦ rw e (elim (Bool-cases (ltb_ℤ y z)) [
        | inl k ↦ rw (k, ih) (swaps (eq_ℤ x y) (eq_ℤ x z) (member x s))
        | inr k ↦ rw (k, only_equal z y e k) (sym (absorbs (eq_ℤ x y) (member x s)))
      ])
    ]

-- What is asked of a set that was `s` before the numbers `zs` were chosen.
unfoldable pub IsChosen : List ℤ → List ℤ → List ℤ → Type 0
IsChosen zs s s' = IsAscending s' × ((x : ℤ) → member x s' ≡ (member x zs || member x s))

insert_all-IsChosen :
    (ts : List Text) (zs s : List ℤ)
    → each stoi ts ≡ ok zs
    → IsAscending s
    → (s' : List ℤ) × (insert_all ts s ≡ ok s') × IsChosen zs s s'
unfolding insert_all IsChosen member
insert_all-IsChosen [] zs s h up = rw (sym (ok_inj h)) (s, refl, (up, λ x. refl))
insert_all-IsChosen (t ∷ ts) zs s h up = >>=-elim_ok (stoi t) _ h λ z h₁ k₁.
    >>=-elim_ok (each stoi ts) _ k₁ λ rest h₂ k₂.
      let (s', runs, (up', same)) =
        insert_all-IsChosen ts rest (insert_int z s) h₂ (insert_int-IsAscending z s up) in
      let grown : (x : ℤ) → member x s' ≡ (member x (z ∷ rest) || member x s) = λ x.
        same x
        ∙ ap (member x rest ||◌) (member-insert_int x z s)
        ∙ associates (eq_ℤ x z) (member x rest) (member x s) in
      (s', rw h₁ runs, (up', λ x. grown x ∙ ap (λ ys. member x ys || member x s) (ok_inj k₂)))

-- If the first line of the file reads as the numbers `zs`, `ReadDAVC` chooses these besides those
-- chosen before: the chosen ones stay in ascending order, each once, and a number is among them
-- just if it is one of `zs` or was before.
pub read_davc-IsChosen :
    (c : ℕ) (path text : Text) (zs s : List ℤ)
    → numbers (getline (record { rest = text; good = true }) []).1 ≡ ok zs
    → IsAscending s
    → (s' : List ℤ) × (read_davc (c ∷ path) (some text) s ≡ ok s') × IsChosen zs s s'
unfolding read_davc numbers
read_davc-IsChosen c path text zs s h up =
    insert_all-IsChosen (pieces b' ' (getline (record { rest = text; good = true }) []).1) zs s h up
