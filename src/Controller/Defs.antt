-- ===== src/Controller/Defs.antt =====
-- src/controller.h and src/controller.cc, the class `Controller`. The simulator's state stands beside
-- the members. Loops that wait for the memory take fuel, and `none` is also the end of the fuel.
use sgcn.Base.{
  ℕ, zero, suc, ◌+◌, ◌*◌, ◌%◌, Bool, true, false, Option, none, some, List, [], ◌∷◌, ◌==◌, ltb,
  if◌then◌else◌, length, get_elem?, set, add64, max, u64_mod, ◌>>=◌,
}
use sgcn.Base.Int.{ℤ, pos, negsuc}
use sgcn.Cache.{Cache}
use sgcn.Cache
use sgcn.Common.{Env, FMode}
use sgcn.FeatureReader.{
  FeatureReader, World, mode_change, enter_f_to_list, read_next, feature_receive, pass_f_to_simd,
}
use sgcn.FeatureReader
use sgcn.Float.{ceil_div}
use sgcn.GraphReader.{GraphReader, vertex_request, edge_request, graph_receive, next_feature}
use sgcn.GraphReader
use sgcn.Memory.{Dram, Memory, add_transaction, consume_transaction, update_cycle}
use sgcn.Memory
use sgcn.Simd.{Simd, write}
use sgcn.Simd

pub record Engines : Type 0 where
  pub gr : List GraphReader
  pub si : List Simd
  pub world : World

-- The constructor's loop over the engines, `n` rounds from `i` on.
unfoldable pub make_engines : Env → ℕ → ℕ → Option (List GraphReader × List Simd)
make_engines env i zero = some ([], [])
make_engines env i (suc n) = do
  g ← GraphReader.init env i
  s ← Simd.init env i
  (gs, ss) ← make_engines env (suc i) n
  some (g ∷ gs, s ∷ ss)

-- The constructor.
unfoldable pub init : Env → ℕ → Option Engines
init env total_write = do
  (gs, ss) ← make_engines env 0 env.arch_info.n_of_engine
  some (record {
    gr = gs;
    si = ss;
    world = record {
      fr = FeatureReader.init env.arch_info;
      cah = Cache.init env.arch_info;
      mem = Memory.init env.arch_info total_write;
    };
  })

-- A guarded call of the graph reader.
unfoldable pub unless :
    Bool
    → (GraphReader → Memory → Option (GraphReader × Memory))
    → GraphReader
    → Memory
    → Option (GraphReader × Memory)
unless true call g m = some (g, m)
unless false call g m = call g m

abbrev pub is_dst : ℤ → Bool
is_dst (pos n) = true
is_dst (negsuc zero) = false
is_dst (negsuc (suc n)) = true

-- The next edge, which the feature reader takes if there is one.
unfoldable pub pass_graph : Env → GraphReader → World → Option (GraphReader × World)
pass_graph env g w = if g.grf.pass_over then some (g, w) else (do
  (g', ei) ← next_feature env g
  fr ← if is_dst ei.dst then enter_f_to_list ei w.fr else some w.fr
  some (g', record w { fr = fr }))

-- The graph reader's part of a cycle.
unfoldable pub graph_work : Env → GraphReader → World → Option (GraphReader × World)
graph_work env g w = do
  (g₁, m₁) ← unless g.grf.v_req_over (vertex_request env) g w.mem
  (g₂, m₂) ← unless g₁.grf.e_req_over (edge_request env) g₁ m₁
  (g₃, m₃) ← unless g₂.grf.reci_over (graph_receive env) g₂ m₂
  pass_graph env g₃ (record w { mem = m₃ })

-- The body of the loop over the engines.
unfoldable pub engine_step : Env → ℕ → Engines → Option Engines
engine_step env i e = do
  g ← get_elem? e.gr i
  (g', w₁) ← graph_work env g e.world
  w₂ ← read_next env i w₁
  (w₃, pass) ← pass_f_to_simd env i w₂
  s ← get_elem? e.si i
  let (s', mem) = write (Simd.get_feature env s pass) w₃.mem
  some (record { gr = set e.gr i g'; si = set e.si i s'; world = record w₃ { mem = mem } })

unfoldable pub engines_step : Env → ℕ → ℕ → Engines → Option Engines
engines_step env i zero e = some e
engines_step env i (suc n) e = do e' ← engine_step env i e; engines_step env (suc i) n e'

module _ (D : Dram) where
  open D use {State}

  -- One round of the loop of `GCNInference`.
  unfoldable pub cycle_step : Env → State → Engines → Option (State × Engines)
  cycle_step env d e = do
    e' ← engines_step env 0 env.arch_info.n_of_engine e
    w ← feature_receive env e'.world
    let (d₁, m₁) = consume_transaction D d w.mem
    (d₂, m₂) ← update_cycle D env d₁ m₁
    some (d₂, record e' { world = record w { mem = m₂ } })

  -- The loop: it ends when no write is left.
  unfoldable pub inference_loop : ℕ → Env → ℕ → State → Engines → Option (ℕ × State × Engines)
  inference_loop zero env cycle d e = none
  inference_loop (suc f) env cycle d e = elim (cycle_step env d e) [
    | none ↦ none
    | some (d', e') ↦ elim (e'.world.mem.total_write == 0) [
      | true ↦ some (add64 cycle 1, d', e')
      | false ↦ inference_loop f env (add64 cycle 1) d' e'
    ]
  ]

  -- A cycle of the memory alone.
  unfoldable pub memory_cycle : Env → State → Memory → Option (State × Memory)
  memory_cycle env d m = do
    let (d₁, m₁) = consume_transaction D d m
    (d₂, m₂) ← update_cycle D env d₁ m₁
    some (d₂, (Memory.get_feature m₂).1)

  -- `DAVCRead`: `n` requests for the first feature line, one each cycle.
  unfoldable pub davc_requests : ℕ → Env → State → Memory → Option (State × Memory)
  davc_requests zero env d m = some (d, m)
  davc_requests (suc n) env d m = do
    (d', m') ←
        memory_cycle env d (
          add_transaction m
            (record { address = env.arch_info.xw_ele_addr_start; is_write = false }))
    davc_requests n env d' m'

  -- And cycles until as many features came back; the answer counts them.
  unfoldable pub davc_wait : ℕ → ℕ → Env → State → Memory → ℕ → Option (ℕ × State × Memory)
  davc_wait zero total env d m cycle = none
  davc_wait (suc f) total env d m cycle = elim (ltb m.xw_get total) [
    | false ↦ some (cycle, d, m)
    | true ↦ elim (memory_cycle env d m) [
      | none ↦ none
      | some (d', m') ↦ davc_wait f total env d' m' (add64 cycle 1)
    ]
  ]

  unfoldable pub davc_read : ℕ → Env → List ℕ → State → Memory → Option (ℕ × State × Memory)
  davc_read fuel env [] d m = some (0, d, m)
  davc_read fuel env (v ∷ vs) d m = do
    let total = length (v ∷ vs) * (env.arch_info.urb * env.arch_info.bf)
    (d₁, m₁) ← davc_requests total env d m
    (cycle, d₂, m₂) ← davc_wait fuel total env d₁ m₁ (total % u64_mod)
    some (cycle, d₂, record m₂ { xw_get = 0 })

  -- `GCNInference`
  unfoldable pub gcn_inference :
      ℕ → Env → List ℕ → FMode → State → Engines → Option (ℕ × State × Engines)
  gcn_inference fuel env davc_list mode d e = do
    (cycle, d₁, m₁) ← davc_read fuel env davc_list d e.world.mem
    let w = e.world
    inference_loop fuel env cycle d₁
        (record e { world = record w { fr = mode_change mode w.fr; mem = m₁ } })

  -- The requests of `Combination`: `n` reads of the first feature line, and a tick after every
  -- `n_of_engine` of them.
  unfoldable pub combination_requests :
      ℕ → ℕ → Env → ℕ → State → Memory → Option (ℕ × State × Memory)
  combination_requests zero cnt env cycle d m = some (cycle, d, m)
  combination_requests (suc n) cnt env cycle d m =
      let (d₁, m₁) = consume_transaction D d (
        add_transaction m
          (record { address = env.arch_info.xw_ele_addr_start; is_write = false })) in
      if env.arch_info.n_of_engine == 0
      then none
      else elim ((cnt + 1) % env.arch_info.n_of_engine == 0) [
        | false ↦ combination_requests n (cnt + 1) env cycle d₁ m₁
        | true ↦ elim (update_cycle D env d₁ m₁) [
          | none ↦ none
          | some (d₂, m₂) ↦ combination_requests n (cnt + 1) env (add64 cycle 1) d₂ m₂
        ]
      ]

  unfoldable pub combination_wait : ℕ → ℕ → Env → ℕ → State → Memory → Option (ℕ × State × Memory)
  combination_wait zero total env cycle d m = none
  combination_wait (suc f) total env cycle d m = elim (ltb m.xw_get total) [
    | false ↦ some (cycle, d, m)
    | true ↦
        (let (d₁, m₁) = consume_transaction D d m in
          elim (update_cycle D env d₁ m₁) [
            | none ↦ none
            | some (d₂, m₂) ↦ combination_wait f total env (add64 cycle 1) d₂ m₂
          ])
  ]

  -- `Combination`
  unfoldable pub combination : ℕ → Env → State → Memory → Option (ℕ × State × Memory)
  combination fuel env d m = do
    let arch = env.arch_info
    let info = env.data_info
    let total = info.x_h * (arch.urb * arch.bf)
    (c₁, d₁, m₁) ← combination_requests total 0 env 0 d m
    (read_cycle, d₂, m₂) ← combination_wait fuel total env c₁ d₁ m₁
    total_w_repeat ← ceil_div info.w_w (32 * arch.n_of_engine)
    total_x_repeat ← ceil_div info.x_h (32 * arch.n_of_engine)
    let compute_cycle = (info.x_w + 32 * arch.n_of_engine) * total_w_repeat * total_x_repeat
    some (max read_cycle (compute_cycle % u64_mod), d₂, m₂)
