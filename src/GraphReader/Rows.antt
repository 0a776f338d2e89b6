-- ===== src/GraphReader/Rows.antt =====
-- The loop of `NextFeature` of src/g_reader.cc that passes over the rows without edges: it ends, and
-- keeps the row's pointers and the column index in step.
use native.Mathlib.Decide.{dec_lt}
use sgcn.Base.{
  ℕ, zero, suc, ◌+◌, ◌-◌, ◌*◌, ◌≤◌, ◌<◌, ◌≡◌, ◌⊎◌, inl, inr, refl, sym, ap, ◌∙◌, Bool, true, false,
  ◌&&◌, not, some, List, ◌==◌, arith, length, get_elem?, get_elem?_total, Bool-cases,
}
use sgcn.Base.Int.{pos, sub_ℕ, is_zero}
use sgcn.GraphReader.Passing.{RowPos, skip_row, skip_rows, skip_fuel}

-- Row pointers that fit a vector of columns: from 0 to its length, and never falling.
pub record IsCsr (ptr cols : List ℕ) : Type 0 where
  pub rows : 2 ≤ length ptr
  pub starts : get_elem? ptr 0 ≡ some 0
  pub ends : get_elem? ptr (length ptr - 1) ≡ some (length cols)
  pub rising : (i lo hi : ℕ) → get_elem? ptr i ≡ some lo → get_elem? ptr (suc i) ≡ some hi → lo ≤ hi
  pub bounded : (i p : ℕ) → get_elem? ptr i ≡ some p → p ≤ length cols

-- A position among the rows in step with a column index: the edges left of the row before the
-- position reach to its end, counted from the index, or from the next round's start where the index
-- is at the end of the columns.
pub record InStep (ptr cols : List ℕ) (col : ℕ) (p : RowPos) : Type 0 where
  pub first : 1 ≤ p.cur_row_idx
  pub last : p.cur_row_idx ≤ length ptr
  pub left : ℕ
  pub left_eq : p.remain_edge ≡ pos left
  pub stop : ℕ
  pub stop_eq : get_elem? ptr (p.cur_row_idx - 1) ≡ some stop
  pub step : (col + left ≡ stop) ⊎ ((col ≡ length cols) × (left ≡ stop))

-- The rounds of the loop that can still come.
abbrev pub measure : List ℕ → RowPos → ℕ
measure ptr p = p.row_overflow * length ptr + (length ptr - p.cur_row_idx)

-- A round over row `cur` of the same or of the next round of the graph.
record Round (ptr cols : List ℕ) (row_end_idx col : ℕ) (p : RowPos) : Type 0 where
  pub next : RowPos
  pub goes_on : Bool
  pub runs : skip_row ptr row_end_idx p ≡ some (next, goes_on)
  pub in_step : InStep ptr cols col next
  pub less : goes_on ≡ true → measure ptr next < measure ptr p

at_end :
    (ptr cols : List ℕ) (col : ℕ) (p : RowPos) (t : InStep ptr cols col p)
    → IsCsr ptr cols
    → p.cur_row_idx ≡ length ptr
    → t.left ≡ 0
    → col ≡ length cols
at_end ptr cols col p t c e none_left =
    let here : get_elem? ptr (length ptr - 1) ≡ some t.stop =
      ap (λ (x : ℕ). get_elem? ptr (x - 1)) (sym e) ∙ t.stop_eq in
    let stop : some t.stop ≡ some (length cols) = sym here ∙ c.ends in ground (arith, stop, t.step)

module _ (ptr cols : List ℕ) (row_end_idx col : ℕ) (c : IsCsr ptr cols) where
  -- The next round of the graph begins with its first row.
  Round-wrap :
      (p : RowPos) (t : InStep ptr cols col p)
      → t.left ≡ 0
      → p.cur_row_idx ≡ length ptr
      → 0 < p.row_overflow
      → Round ptr cols row_end_idx col p
  unfolding skip_row
  Round-wrap p t none_left e more =
      let (hi, found) = get_elem?_total ptr 1 (omega (arith, c.rows)) in
      let wraps : (p.cur_row_idx == length ptr) ≡ true = ground arith in
      let over : (p.row_overflow == 0) ≡ false = ground arith in
      let back : get_elem? ptr (1 - 1) ≡ some 0 = c.starts in
      record {
        next = record {
          cur_row_idx = 1 + 1;
          row_overflow = p.row_overflow - 1;
          remain_edge = sub_ℕ hi 0;
        };
        goes_on = not (1 + 1 == row_end_idx && p.row_overflow - 1 == 0);
        runs = rw (wraps, over, found, back) refl;
        in_step = record {
          first = omega arith;
          last = omega (arith, c.rows);
          left = hi;
          left_eq = ground arith;
          stop = hi;
          stop_eq = found;
          step = inr (at_end ptr cols col p t c e none_left, refl);
        };
        less = λ h.
            let o : p.row_overflow ≡ suc (p.row_overflow - 1) = omega arith in
            omega (arith, ap (λ (x : ℕ). x * length ptr) o, c.rows);
      }

  Round-row :
      (p : RowPos) (t : InStep ptr cols col p)
      → t.left ≡ 0
      → p.cur_row_idx < length ptr
      → Round ptr cols row_end_idx col p
  unfolding skip_row
  Round-row p t none_left inside =
      let (hi, found) = get_elem?_total ptr p.cur_row_idx inside in
      let wraps : (p.cur_row_idx == length ptr) ≡ false = ground arith in
      let e : p.cur_row_idx ≡ suc (p.cur_row_idx - 1) = omega (arith, t.first) in
      let up : t.stop ≤ hi =
        c.rising (p.cur_row_idx - 1) t.stop hi t.stop_eq (ap (get_elem? ptr) (sym e) ∙ found) in
      record {
        next = record {
          cur_row_idx = p.cur_row_idx + 1;
          row_overflow = p.row_overflow;
          remain_edge = sub_ℕ hi t.stop;
        };
        goes_on = not (p.cur_row_idx + 1 == row_end_idx && p.row_overflow == 0);
        runs = rw (wraps, found, t.stop_eq) refl;
        in_step = record {
          first = omega arith;
          last = omega arith;
          left = hi - t.stop;
          left_eq = ground arith;
          stop = hi;
          stop_eq = ap (get_elem? ptr) (omega arith) ∙ found;
          step = elim t.step [
            | inl same ↦ inl (omega arith)
            | inr (wrapped, all) ↦ inr (wrapped, omega arith)
          ];
        };
        less = λ h. omega arith;
      }

  -- One round of the loop is defined, and stays in step.
  round_lem :
      (p : RowPos) (t : InStep ptr cols col p) → t.left ≡ 0 → Round ptr cols row_end_idx col p
  unfolding skip_row
  round_lem p t none_left = elim (dec_lt p.cur_row_idx (length ptr)) [
    | yes inside ↦ Round-row p t none_left inside
    | no over ↦ elim (dec_lt 0 p.row_overflow) [
      | yes more ↦ Round-wrap p t none_left (omega (arith, t.last)) more
      | no waits ↦
          let wraps : (p.cur_row_idx == length ptr) ≡ true = ground (arith, t.last) in
          let stays : (p.row_overflow == 0) ≡ true = ground arith in
          record {
            next = p;
            goes_on = false;
            runs = rw (wraps, stays) refl;
            in_step = t;
            less = λ h. cc;
          }
    ]
  ]

  -- With fuel above the measure the loop ends in step.
  skip_rows-InStep :
      (f : ℕ) (p : RowPos)
      → InStep ptr cols col p
      → measure ptr p < f
      → (p' : RowPos) × (skip_rows f ptr row_end_idx p ≡ some p') × InStep ptr cols col p'
  unfolding skip_rows
  skip_rows-InStep zero p t h = elim h [ ]
  skip_rows-InStep (suc f) p t h = elim (Bool-cases (is_zero p.remain_edge)) [
    | inr busy ↦ rw (busy, skip_rows) (p, refl, t)
    | inl idle ↦
        let none_left : t.left ≡ 0 = ground (arith, t.left_eq) in
        let r = round_lem p t none_left in
        elim (Bool-cases r.goes_on) [
          | inl more ↦
              let (p', rest, t') =
                skip_rows-InStep f r.next r.in_step (omega (arith, r.less more)) in
              (p', rw (idle, skip_rows) (rw (r.runs, more) rest), t')
          | inr stops ↦ (r.next, rw (idle, skip_rows) (rw (r.runs, stops) refl), r.in_step)
        ]
  ]

-- On a well-formed share, from a position in step with the columns, the loop over the rows without
-- edges ends within the fuel of the model, at a position that is in step again.
pub skip_fuel-enough :
    (ptr cols : List ℕ) (row_end_idx col : ℕ) (p : RowPos)
    → IsCsr ptr cols
    → InStep ptr cols col p
    → (p' : RowPos) × (skip_rows (skip_fuel ptr p) ptr row_end_idx p ≡ some p')
      × InStep ptr cols col p'
unfolding skip_fuel
skip_fuel-enough ptr cols row_end_idx col p c t =
    skip_rows-InStep ptr cols row_end_idx col c ((p.row_overflow + 1) * length ptr + 2) p t
      (omega arith)
