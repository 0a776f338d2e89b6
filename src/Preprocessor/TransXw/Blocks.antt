-- ===== src/Preprocessor/TransXw/Blocks.antt =====
-- The lines that X_CMP makes of a row of the features: as many as the blocks have.
use native.Mathlib.Nat.{mul-add-mod_self_right, mod-eq_of_lt, mod_self}
use sgcn.Base.{
  ℕ, zero, suc, ◌+◌, ◌-◌, ◌*◌, ◌%◌, ◌≤◌, ◌<◌, ◌≡◌, ◌≢◌, ◌⊎◌, refl, sym, ap, ◌∙◌, inl, inr, Bool,
  true, false, ◌||◌, Option, none, some, List, [], ◌++◌, arith, ◌==◌, if◌then◌else◌, length,
  length-append, get_elem?, get_elem?_total, Option-cases,
}
use sgcn.Base.Int.{ℤ, pos, rounds, minus, suc_ℤ, is_zero}
use sgcn.Common.{ArchInfo, DataInfo, cache_line_count}
use sgcn.Float.{ceil_quot}
use sgcn.Preprocessor.TransXw.{push_block, entry, cur_urb, cmp_cols}

push_block-length : (n : ℕ) (count : ℤ) → length (push_block n count) ≡ n
unfolding push_block
push_block-length zero count = refl
push_block-length (suc n) count = ap suc (push_block-length n (minus count cache_line_count))

at_end_or_before : (x_w j : ℕ) → j ≤ x_w → ((j == x_w) ≡ true) ⊎ (j < x_w)
at_end_or_before x_w j h = ground (arith, h)

-- The last of the columns that are read may be the one behind the row.
entry_total :
    (r : List ℤ) (x_w j : ℕ) (stray : ℤ)
    → x_w ≤ length r
    → j ≤ x_w
    → (x : ℤ) × (entry r x_w stray j ≡ some x)
unfolding entry
entry_total r x_w j stray h hj = elim (Option-cases (get_elem? r j)) [
  | inr (x, e) ↦ (x, rw (entry, e) refl)
  | inl e ↦ elim (at_end_or_before x_w j hj) [
    | inl end ↦ (stray, rw (entry, e, end) refl)
    | inr before ↦
        let (x, e') = get_elem?_total r j (omega (arith, before, h)) in
        let clash : none ≡ some x = sym e ∙ e' in cc
  ]
]

-- A place `q * u + s` in blocks of `u`.
block_end : (u q s : ℕ) → s + 1 ≡ u → (q * u + s + 1) % u ≡ 0
block_end u q s h =
    let e : q * u + s + 1 ≡ q * u + u = omega (arith, h) in
    ap (◌% u) e ∙ mul-add-mod_self_right q u u ∙ mod_self u

inside_block : (u q s : ℕ) → s + 1 < u → (q * u + s + 1) % u ≡ s + 1
inside_block u q s h =
    let e : q * u + s + 1 ≡ q * u + (s + 1) = omega arith in
    ap (◌% u) e ∙ mul-add-mod_self_right q u (s + 1) ∙ mod-eq_of_lt h

less_one : (bf urb : ℕ) → 0 < bf → (bf - 1) * urb + urb ≡ bf * urb
less_one zero urb h = absurd (omega (arith, h))
less_one (suc bf) urb h = let e : suc bf - 1 ≡ bf = omega arith in rw e (omega arith)

one_block :
    (q s m u x : ℕ) → x ≡ q * u + s + 1 → s < u → x ≤ q * u + m * u → q * u + m * u < x + u → m ≡ 1
one_block q s zero u x e hs up low = absurd (omega (arith, e, hs, up))
one_block q s (suc zero) u x e hs up low = refl
one_block q s (suc (suc m)) u x e hs up low = absurd (omega (arith, e, hs, low))

-- A block behind a column that is not the last.
next_block :
    (q s m u x : ℕ)
    → q * u + s + 1 < x
    → s + 1 ≡ u
    → x ≤ q * u + m * u
    → (m' : ℕ) × (m ≡ suc m') × (q * u + m * u ≡ suc q * u + m' * u)
next_block q s zero u x hx e up = absurd (omega (arith, hx, up))
next_block q s (suc m) u x hx e up = (m, refl, omega arith)

one_more :
    (b : Bool) (urb m m' : ℕ) → b ≡ true → m ≡ suc m' → (if b then urb else 0) + m' * urb ≡ m * urb
one_more b urb m m' h e = rw (h, e) (omega arith)

or_true : (b : Bool) → (b || true) ≡ true
or_true true = refl
or_true false = refl

is_equal : (a b : ℕ) → a ≡ b → (a == b) ≡ true
is_equal a b h = ground (arith, h)

not_equal : (a b : ℕ) → a ≢ b → (a == b) ≡ false
not_equal a b h = ground (arith, h)

last_or_inside : (s u : ℕ) → s < u → (s + 1 ≡ u) ⊎ (s + 1 < u)
last_or_inside s u h = ground (arith, h)

no_zero : (s : ℕ) → s + 1 ≢ 0
no_zero s h = omega (arith, h)

before_end : (j n x : ℕ) → j + suc n ≡ x → j ≢ x
before_end j n x h e = omega (arith, h, e)

block_size :
    (b : Bool) (n : ℕ) (count : ℤ)
    → length (if b then push_block n count else []) ≡ (if b then n else 0)
block_size true n count = push_block-length n count
block_size false n count = refl

module _ (arch : ArchInfo) (info : DataInfo) (some_block : 0 < arch.bf)
    (total : info.total_urb ≡ arch.bf * arch.urb) where
  block_lines : (j : ℕ) → rounds (cur_urb arch info j) ≡ arch.urb
  unfolding cur_urb
  block_lines j = ground (arith, less_one arch.bf arch.urb some_block, total)

  abbrev ends : ℕ → Bool
  ends j = j % arch.x_unit == 0 || j == info.x_w

  -- A row from one column on: it is defined, and has so many lines.
  abbrev Yields : Option (List ℕ) → ℕ → Type 0
  Yields row lines = (out : List ℕ) × (row ≡ some out) × (length out ≡ lines)

  cols_step :
      (r : List ℤ) (stray x count : ℤ) (j n rest : ℕ)
      → entry r info.x_w stray j ≡ some x
      → ((c : ℤ) → Yields (cmp_cols arch info r stray (suc j) n c) rest)
      → Yields
          (cmp_cols arch info r stray j (suc n) count)
          ((if ends j then arch.urb else 0) + rest)
  unfolding cmp_cols
  cols_step r stray x count j n rest h next =
      let block = if ends j then push_block (rounds (cur_urb arch info j)) count else [] in
      let count' = if ends j then pos (ceil_quot arch.x_unit 32) else count in
      let sized : length block ≡ (if ends j then arch.urb else 0) =
        block_size (ends j) (rounds (cur_urb arch info j)) count
        ∙ ap (λ t. if ends j then t else 0) (block_lines j) in
      let (out, runs, size) = next (if is_zero x then count' else suc_ℤ count') in
      (block ++ out, rw (h, runs) refl, length-append block out ∙ (λ i. sized i + size i))

  none_left : (r : List ℤ) (stray : ℤ) (j : ℕ) (c : ℤ) → Yields (cmp_cols arch info r stray j 0 c) 0
  unfolding cmp_cols
  none_left r stray j c = ([], refl, refl)

  yields :
      (row : Option (List ℕ)) (lines lines' : ℕ)
      → lines ≡ lines'
      → Yields row lines
      → Yields row lines'
  yields row lines lines' e (out, runs, size) = (out, runs, size ∙ e)

  ends_row : (j : ℕ) → j ≡ info.x_w → ends j ≡ true
  ends_row j h = rw (is_equal j info.x_w h) (or_true (j % arch.x_unit == 0))

  ends_block : (j q s : ℕ) → j ≡ q * arch.x_unit + s + 1 → s + 1 ≡ arch.x_unit → ends j ≡ true
  ends_block j q s h e =
      let divides : j % arch.x_unit ≡ 0 = ap (◌% arch.x_unit) h ∙ block_end arch.x_unit q s e in
      rw (is_equal (j % arch.x_unit) 0 divides) refl

  ends_not :
      (j q s : ℕ)
      → j ≡ q * arch.x_unit + s + 1
      → s + 1 < arch.x_unit
      → j ≢ info.x_w
      → ends j ≡ false
  ends_not j q s h e before =
      let rest : j % arch.x_unit ≡ s + 1 = ap (◌% arch.x_unit) h ∙ inside_block arch.x_unit q s e in
      let not_0 : j % arch.x_unit ≢ 0 = λ z. no_zero s (sym rest ∙ z) in
      rw (not_equal (j % arch.x_unit) 0 not_0, not_equal j info.x_w before) refl

  -- From a column `s` places into block `q` on, with `m` blocks left.
  pub cmp_cols-length :
      (r : List ℤ) (stray count : ℤ) (n j q s m : ℕ)
      → info.x_w ≤ length r
      → j ≡ q * arch.x_unit + s + 1
      → s < arch.x_unit
      → j + n ≡ info.x_w
      → info.x_w ≤ q * arch.x_unit + m * arch.x_unit
      → q * arch.x_unit + m * arch.x_unit < info.x_w + arch.x_unit
      → Yields (cmp_cols arch info r stray j (suc n) count) (m * arch.urb)
  cmp_cols-length r stray count zero j q s m hr hj hs hn up low =
      let (x, at_x) = entry_total r info.x_w j stray hr (omega (arith, hn)) in
      let end : j ≡ info.x_w = omega (arith, hn) in
      let one : m ≡ 1 = one_block q s m arch.x_unit info.x_w (omega (arith, end, hj)) hs up low in
      let lines : (if ends j then arch.urb else 0) + 0 ≡ m * arch.urb =
        rw (ends_row j end, one) (omega arith) in
      yields _ _ _ lines (cols_step r stray x count j 0 0 at_x (none_left r stray (suc j)))
  cmp_cols-length r stray count (suc n) j q s m hr hj hs hn up low =
      let (x, at_x) = entry_total r info.x_w j stray hr (omega (arith, hn)) in
      elim (last_or_inside s arch.x_unit hs) [
        | inl last ↦
            let (m', is_m, blocks) =
              next_block q s m arch.x_unit info.x_w (omega (arith, hn, hj)) last up in
            let lines : (if ends j then arch.urb else 0) + m' * arch.urb ≡ m * arch.urb =
              one_more (ends j) arch.urb m m' (ends_block j q s hj last) is_m in
            yields _ _ _ lines (
              cols_step r stray x count j (suc n) (m' * arch.urb) at_x λ c.
                cmp_cols-length r stray c n (suc j) (suc q) 0 m' hr (omega (arith, hj, last))
                  (omega (arith, hs)) (omega (arith, hn)) (omega (arith, blocks, up))
                  (omega (arith, blocks, low)))
        | inr inside ↦
            let lines : (if ends j then arch.urb else 0) + m * arch.urb ≡ m * arch.urb =
              rw (ends_not j q s hj inside (before_end j n info.x_w hn)) (omega arith) in
            yields _ _ _ lines (
              cols_step r stray x count j (suc n) (m * arch.urb) at_x λ c.
                cmp_cols-length r stray c n (suc j) q (s + 1) m hr (omega (arith, hj)) inside
                  (omega (arith, hn)) up low)
      ]
