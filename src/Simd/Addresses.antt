-- ===== src/Simd/Addresses.antt =====
-- The addresses that `GetFeature` of src/simd.cc queues: consecutive lines from the engine's start.
use mathlib.Core.List.{append_assoc, append-nil}
use sgcn.Base.{
  ℕ, zero, suc, ◌+◌, ◌*◌, ◌≡◌, refl, sym, ◌∙◌, List, [], ◌∷◌, ◌++◌, arith, Bool-cases, inl, inr,
  add64, if◌then◌else◌,
}
use sgcn.Base.Int.{ℤ, rounds, is_zero}
use sgcn.Common.{Env, cache_line_byte}
use sgcn.Simd.Defs.{Simd, address_of, push_lines, end_row, get_feature}

-- `n` lines from line `k` of the output that starts at `base`.
unfoldable pub lines : ℕ → ℕ → ℕ → List ℕ
lines base k zero = []
lines base k (suc n) = add64 base (k * cache_line_byte) ∷ lines base (k + 1) n

-- What the loop leaves.
pub record Pushed (n : ℕ) (s t : Simd) : Type 0 where
  pub queue : t.wq ≡ s.wq ++ lines s.axw_addr_start s.cnt n
  pub count : t.cnt ≡ s.cnt + n
  pub start : t.axw_addr_start ≡ s.axw_addr_start
  pub rows : t.nonzero_row ≡ s.nonzero_row
  pub row : t.cur_row_idx ≡ s.cur_row_idx
  pub fold : t.cur_bf ≡ s.cur_bf
  pub width : t.write_urb ≡ s.write_urb

pub push_lines-Pushed : (n : ℕ) (s : Simd) → Pushed n s (push_lines n s)
unfolding push_lines address_of lines
push_lines-Pushed zero s = record {
  queue = sym (append-nil s.wq);
  count = omega arith;
  start = refl;
  rows = refl;
  row = refl;
  fold = refl;
  width = refl;
}
push_lines-Pushed (suc n) s =
    let r = push_lines-Pushed n (record s {
      wq = s.wq ++ address_of s ∷ [];
      cnt = s.cnt + 1;
      cur_v_fold = s.cur_v_fold + 1;
    }) in
    record {
      queue = r.queue ∙ append_assoc s.wq (address_of s ∷ []) _;
      count = omega (arith, r.count);
      start = r.start;
      rows = r.rows;
      row = r.row;
      fold = r.fold;
      width = r.width;
    }

end_row-keeps :
    (env : Env) (s : Simd)
    → ((end_row env s).wq ≡ s.wq)
      × ((end_row env s).cnt ≡ s.cnt)
      × ((end_row env s).axw_addr_start ≡ s.axw_addr_start)
unfolding end_row
end_row-keeps env s = ground arith

-- A complete row queues exactly the lines of the current block, behind what is queued already and
-- at the next addresses of the engine's output; any other answer of the reader queues nothing.
pub get_feature-lines :
    (env : Env) (s : Simd) (f : ℤ)
    → let t = get_feature env s f in
      let n = if is_zero f then rounds s.write_urb else 0 in
      (t.wq ≡ s.wq ++ lines s.axw_addr_start s.cnt n)
      × (t.cnt ≡ s.cnt + n)
      × (t.axw_addr_start ≡ s.axw_addr_start)
unfolding get_feature lines
get_feature-lines env s f = elim (Bool-cases (is_zero f)) [
  | inl ends ↦
      let p = push_lines-Pushed (rounds s.write_urb) s in
      let (wq, cnt, start) = end_row-keeps env (push_lines (rounds s.write_urb) s) in
      rw ends (wq ∙ p.queue, cnt ∙ p.count, start ∙ p.start)
  | inr waits ↦ rw waits (sym (append-nil s.wq), omega arith, refl)
]
