-- ===== src/Tests/Features.antt =====
-- The feature reader of two engines, and the output of one.
use sgcn.Base.{
  ℕ, ◌+◌, ◌*◌, ◌≡◌, ◌<◌, refl, true, false, some, [], ◌∷◌, ◌++◌, arith, u64_max, if◌then◌else◌, inr,
}
use sgcn.Base.Int.{pos, negsuc, is_zero, rounds}
use sgcn.Cache
use sgcn.Cache.Policy.{init-IsValid}
use sgcn.Common.{Env, x_cmp, EdgeInfo}
use sgcn.FeatureReader.{
  FeatureReader, World, FrStat, consume_pending_q, is_requested, insert_requested, request,
  access_or_request, push_fq, set_stat, index_of, return_address, end_edge, is_block_end, next_cmp,
  read_cmp, read_mode, read_next, feature_receive, pass_queue, pass_f_to_simd,
}
use sgcn.FeatureReader.Progress.{Received, feature_receive_lem}
use sgcn.FeatureReader.Sends.{Sends}
use sgcn.FeatureReader.Requested.{read_next-Sends, pass_f_to_simd-Sends}
use sgcn.Memory.{Memory, add_transaction, will_accept_transaction}
use sgcn.Simd
use sgcn.Simd.Start.{init-total_write}
use sgcn.Float.{ceil_div, ceil_quot, of_int, div, round, ceil, scale_up, scale_down, round_nearest}
use sgcn.Simd.{Simd, get_feature}
use sgcn.Simd.Addresses.{lines, get_feature-lines}
use sgcn.Simd.Totals.{At, WidthsFit, run_folds, too_many_lines}
use sgcn.Tests.Example.{second_range, laid, answers}

abbrev pub env : Env
env = record laid { x_to_addr = (384 ∷ 448 ∷ []) ∷ (512 ∷ 576 ∷ []) ∷ [] }

abbrev pending : EdgeInfo
pending = record { id = 1; is_last = true; dst = pos 0; v_fold = pos 0 }

abbrev idle : FrStat
idle = record {
  is_last = false;
  dst = negsuc 0;
  v_fold = pos 0;
  cur_col_idx = 0;
  pq_read_need = true;
}

abbrev reader : FeatureReader
reader = record {
  mode = x_cmp;
  frs = idle ∷ idle ∷ [];
  pq = [] ∷ (pending ∷ []) ∷ [];
  requested = [];
  fq = [] ∷ [] ∷ [];
  f_pass = 0;
  f_pass_cnt = 0;
}

abbrev pub before : World
before = record { fr = reader; cah = [] ∷ [] ∷ []; mem = answers [] [] }

abbrev sent : ℕ → Memory → Memory
sent a m = record m { tq = record { address = a; is_write = false } ∷ []; tq_get = 1 }

abbrev after : World
after = record before {
  fr = record reader {
    frs = idle ∷ record idle { is_last = true; dst = pos 0 } ∷ [];
    pq = [] ∷ [] ∷ [];
    requested = 384 ∷ [];
    fq = [] ∷ (384 ∷ 0 ∷ []) ∷ [];
    f_pass = 1;
  };
  mem = sent 384 (answers [] []);
}

reads : read_next env 1 before ≡ some after
unfolding consume_pending_q is_requested insert_requested request access_or_request push_fq set_stat
    index_of return_address end_edge is_block_end next_cmp read_cmp read_mode read_next
    add_transaction will_accept_transaction Cache.access Cache.find_set Cache.find_way
    Cache.way_from Cache.touch_way
reads = refl

read_next-Sends_example : Sends before after
read_next-Sends_example = read_next-Sends env 1 before after reads

-- A queued line that was evicted.
abbrev evicted : World
evicted = record before { fr = record reader { fq = [] ∷ (448 ∷ []) ∷ [] } }

abbrev asked : World
asked = record evicted {
  fr = record (evicted.fr) { requested = 448 ∷ [] };
  mem = sent 448 (answers [] []);
}

passes : pass_f_to_simd env 1 evicted ≡ some (asked, negsuc 0)
unfolding is_requested insert_requested request access_or_request pass_queue pass_f_to_simd
    add_transaction Cache.access Cache.find_set Cache.find_way Cache.way_from Cache.touch_way
passes = refl

pass_f_to_simd-Sends_example : Sends evicted asked
pass_f_to_simd-Sends_example = pass_f_to_simd-Sends env 1 evicted asked (negsuc 0) passes

abbrev returned : World
returned = record {
  fr = record reader { requested = 384 ∷ 448 ∷ [] };
  cah = Cache.init env.arch_info;
  mem = answers [] (448 ∷ 384 ∷ []);
}

returned-real : is_requested u64_max (448 ∷ 384 ∷ []) ≡ false
unfolding is_requested
returned-real = refl

feature_receive_lem_example :
    (w' : World) × (feature_receive env returned ≡ some w') × Received env returned w'
feature_receive_lem_example =
    feature_receive_lem env returned (init-IsValid env.arch_info (omega arith) (omega arith))
      returned-real

-- The output of the second engine.
abbrev pub output : Simd
output = record {
  id = 1;
  axw_addr_start = 4096;
  nonzero_row = 2;
  cur_row_idx = 0;
  cur_v_fold = 0;
  cur_bf = 1;
  write_urb = pos 1;
  cnt = 0;
  simd_end = false;
  wq = [];
}

output-At : At 2 1 0 0 (pos 1) output
output-At = record { rows_eq = refl; fold_eq = refl; row_eq = refl; cnt_eq = refl; width_eq = refl }

get_feature-lines_example :
    let t = get_feature env output (pos 0) in
    let n = if is_zero (pos 0) then rounds output.write_urb else 0 in
    (t.wq ≡ output.wq ++ lines output.axw_addr_start output.cnt n)
    × (t.cnt ≡ output.cnt + n)
    × (t.axw_addr_start ≡ output.axw_addr_start)
get_feature-lines_example = get_feature-lines env output (pos 0)

env-WidthsFit : WidthsFit env
unfolding WidthsFit
env-WidthsFit = inr (omega arith, omega arith)

-- Eighty columns in four folds.
abbrev narrow : Env
narrow = record env {
  arch_info = record (env.arch_info) { urb = 2; bf = 4 };
  data_info = record (env.data_info) { x_w = 80; total_urb = 5 };
}

abbrev narrow_output : Simd
narrow_output = record output { write_urb = pos 2 }

narrow_output-At : At 2 1 0 0 (pos 2) narrow_output
narrow_output-At = record {
  rows_eq = refl;
  fold_eq = refl;
  row_eq = refl;
  cnt_eq = refl;
  width_eq = refl;
}

too_many_lines_example : 2 * 5 < (run_folds narrow 4 2 narrow_output).cnt
too_many_lines_example =
    too_many_lines narrow 1 narrow_output (omega arith) (omega arith) narrow_output-At

-- As the constructor makes it.
abbrev started : Simd
started = record output { axw_addr_start = 1152 }

second_output : Simd.init env 1 ≡ some started
unfolding Simd.init ceil_div ceil_quot of_int div round ceil scale_up scale_down round_nearest
second_output = refl

init-total_write_example : (run_folds env 2 2 started).cnt ≡ 4
init-total_write_example =
    init-total_write env 1 second_range started refl refl (omega arith) env-WidthsFit second_output
