-- ===== src/Simd/Defs.antt =====
-- src/simd.h and src/simd.cc, the class `SIMD`.
use sgcn.Base.{
  ℕ, zero, suc, ◌+◌, ◌-◌, ◌*◌, Bool, true, false, Option, some, List, [], ◌∷◌, ◌++◌, ◌==◌,
  if◌then◌else◌, get_elem?, add64, ◌>>=◌,
}
use sgcn.Base.Int.{ℤ, pos, rounds, is_zero, minus}
use sgcn.Common.{Env, cache_line_byte}
use sgcn.Float.{ceil_div}
use sgcn.Memory.{Memory, add_transaction, will_accept_transaction}

-- SIMD_STAT and the members of the class.
pub record Simd : Type 0 where
  pub id : ℕ
  pub axw_addr_start : ℕ
  pub nonzero_row : ℕ
  pub cur_row_idx : ℕ
  pub cur_v_fold : ℕ
  pub cur_bf : ℕ
  pub write_urb : ℤ
  pub cnt : ℕ
  pub simd_end : Bool
  pub wq : List ℕ

-- The constructor.
unfoldable pub init : Env → ℕ → Option Simd
init env id = do
  let arch = env.arch_info
  rows ← ceil_div env.data_info.a_h arch.n_of_engine
  d ← get_elem? env.data_index id
  some (record {
    id = id;
    axw_addr_start = add64 arch.axw_addr_start (rows * id * arch.bf * arch.urb * cache_line_byte);
    nonzero_row = d.row - d.zero_row;
    cur_row_idx = 0;
    cur_v_fold = 0;
    cur_bf = 1;
    write_urb = pos arch.urb;
    cnt = 0;
    simd_end = false;
    wq = [];
  })

-- `GetAddress`, without its count.
unfoldable pub address_of : Simd → ℕ
address_of s = add64 s.axw_addr_start (s.cnt * cache_line_byte)

-- The loop of `GetFeature`: one address for each line.
unfoldable pub push_lines : ℕ → Simd → Simd
push_lines zero s = s
push_lines (suc n) s =
    push_lines n
      (record s { wq = s.wq ++ address_of s ∷ []; cnt = s.cnt + 1; cur_v_fold = s.cur_v_fold + 1 })

-- The end of a row: after the last row with edges the next fold begins, and the last fold is as wide
-- as what is left.
unfoldable pub end_row : Env → Simd → Simd
end_row env s =
    let arch = env.arch_info in
    if s.cur_row_idx + 1 == s.nonzero_row
    then record s {
      cur_v_fold = 0;
      cur_row_idx = 0;
      cur_bf = s.cur_bf + 1;
      write_urb =
          if s.cur_bf + 1 == arch.bf
          then minus (pos env.data_info.total_urb) (arch.urb * (arch.bf - 1))
          else s.write_urb;
    }
    else record s { cur_v_fold = 0; cur_row_idx = s.cur_row_idx + 1 }

-- `GetFeature`: 0 says that a row is complete.
unfoldable pub get_feature : Env → Simd → ℤ → Simd
get_feature env s f = if is_zero f then end_row env (push_lines (rounds s.write_urb) s) else s

-- `Write`: at most one line each cycle.
unfoldable pub write : Simd → Memory → Simd × Memory
write s m = elim s.wq [
  | [] ↦ (s, m)
  | a ∷ rest ↦
      if will_accept_transaction m
      then (record s { wq = rest }, add_transaction m (record { address = a; is_write = true }))
      else (s, m)
]
