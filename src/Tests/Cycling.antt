-- ===== src/Tests/Cycling.antt =====
-- The controller's loop.
use sgcn.Base.{ℕ, ◌+◌, ◌%◌, ◌≤◌, ◌≡◌, ◌↔◌, some, [], refl, u64_mod}
use sgcn.Common.{Env}
use sgcn.Controller.{Engines, engines_step, cycle_step, inference_loop}
use sgcn.FeatureReader.{receive_loop, feature_receive}
use sgcn.Memory.{get_feature, consume_loop, consume_transaction, complete_all, update_cycle}
use sgcn.Controller.Loop.{Cycles, inference_loop_iff}
use sgcn.Tests.Features.{env, before}
use sgcn.Tests.Memories.{small}

-- No engine, and nothing left to write: one cycle ends the loop.
abbrev no_engines : Env
no_engines = record env { arch_info = record (env.arch_info) { n_of_engine = 0 } }

abbrev idle : Engines
idle = record {
  gr = [];
  si = [];
  world = record before { mem = record (before.mem) { total_write = 0 } };
}

abbrev ended : Engines
ended = record idle { world = record (idle.world) { mem = record (idle.world.mem) { cycle = 1 } } }

inference_loop_iff_example :
    (inference_loop small 9 no_engines 5 0 idle ≡ some (6, 0, ended))
    ↔ ((n : ℕ) × Cycles small no_engines n 0 idle 0 ended × (n ≤ 9) × (6 ≡ (5 + n) % u64_mod))
inference_loop_iff_example = inference_loop_iff small no_engines 9 5 6 0 0 idle ended

-- Both sides hold.
one_cycle : inference_loop small 9 no_engines 5 0 idle ≡ some (6, 0, ended)
unfolding inference_loop cycle_step engines_step feature_receive receive_loop get_feature
    consume_transaction consume_loop update_cycle complete_all
one_cycle = refl
