-- ===== src/Memory/Defs.antt =====
-- src/memory.h and src/memory.cc, the class `Memory`.
use sgcn.Base.{
  ℕ, zero, suc, Bool, true, false, ◌&&◌, Option, none, some, List, [], ◌∷◌, ◌++◌, leb, ltb,
  if◌then◌else◌, length, get_elem?, set, replicate, add64, sub64, u64_max, ◌>>=◌,
}
use sgcn.Common.{
  Env, ArchInfo, DataIndex, Transaction, RType, row, column, value, empty, request_limit,
}

-- What a tick of DRAMsim3 reports through its two callbacks.
pub data Completion : Type 0 where
  read_complete write_complete : ℕ → Completion

-- dramsim3::MemorySystem.
pub record Dram : Type 1 where
  pub State : Type 0
  pub will_accept : State → ℕ → Bool → Bool
  pub add : State → ℕ → Bool → State
  pub clock_tick : State → State × List Completion

-- M_STAT
pub record MStat : Type 0 where
  pub g_access : ℕ
  pub f_frag_access : ℕ
  pub f_ele_access : ℕ
  pub o_access : ℕ

pub record Memory : Type 0 where
  pub ms : MStat
  pub rq : List (List RType)
  pub fq : List ℕ
  pub tq : List Transaction
  pub total_write : ℕ
  pub tq_get : ℕ
  pub xw_get : ℕ
  pub cycle : ℕ

-- The constructor, beside the globals as the preprocessor leaves them.
unfoldable pub init : ArchInfo → ℕ → Memory
init arch total = record {
  ms = record { g_access = 0; f_frag_access = 0; f_ele_access = 0; o_access = 0 };
  rq = replicate arch.n_of_engine [];
  fq = [];
  tq = [];
  total_write = total;
  tq_get = 0;
  xw_get = 0;
  cycle = 0;
}

unfoldable pub add_transaction : Memory → Transaction → Memory
add_transaction m t = record m { tq = m.tq ++ t ∷ []; tq_get = add64 m.tq_get 1 }

unfoldable pub will_accept_transaction : Memory → Bool
will_accept_transaction m = ltb (length m.tq) request_limit

-- `GetGraph`: the oldest kind of line that came back for the engine.
unfoldable pub get_graph : Memory → ℕ → Option (RType × Memory)
get_graph m id = do
  q ← get_elem? m.rq id
  elim q [ [] ↦ some (empty, m) | r ∷ rest ↦ some (r, record m { rq = set m.rq id rest }) ]

-- `GetFeature`: the oldest feature address that came back, or the maximum.
unfoldable pub get_feature : Memory → ℕ × Memory
get_feature m = elim m.fq [ [] ↦ (u64_max, m) | a ∷ rest ↦ (a, record m { fq = rest }) ]

-- Whether the address is in the engine's range for that kind of line.
unfoldable pub in_range : RType → ℕ → DataIndex → Bool
in_range value a d = leb d.value_addr_start a && ltb a d.value_addr_end
in_range row a d = leb d.row_addr_start a && ltb a d.row_addr_end
in_range column a d = leb d.col_addr_start a && ltb a d.col_addr_end
in_range empty a d = false

-- The search loop of `ReadCompleteCallback` from engine `i` on, `n` engines left. Where no engine
-- fits, `id` is never set.
unfoldable pub find_engine : RType → ℕ → ℕ → ℕ → List DataIndex → Option ℕ
find_engine t a i zero ds = none
find_engine t a i (suc n) [] = none
find_engine t a i (suc n) (d ∷ ds) = if in_range t a d then some i else find_engine t a (suc i) n ds

-- The kind of line at an address below the features.
unfoldable pub type_of : ArchInfo → ℕ → RType
type_of arch a =
    if ltb a arch.a_row_addr_start
    then value
    else if ltb a arch.a_col_addr_start
    then row
    else column

unfoldable pub graph_complete : Env → Memory → ℕ → Option Memory
graph_complete env m a = do
  let t = type_of env.arch_info a
  id ← find_engine t a 0 env.arch_info.n_of_engine env.data_index
  q ← get_elem? m.rq id
  some (record m {
    ms = record (m.ms) { g_access = add64 m.ms.g_access 1 };
    rq = set m.rq id (q ++ t ∷ []);
  })

unfoldable pub feature_complete : Memory → ℕ → Memory
feature_complete m a = record m {
  ms = record (m.ms) { f_ele_access = add64 m.ms.f_ele_access 1 };
  xw_get = add64 m.xw_get 1;
  fq = m.fq ++ a ∷ [];
}

-- `ReadCompleteCallback`
unfoldable pub read_callback : Env → Memory → ℕ → Option Memory
read_callback env m a =
    if leb env.arch_info.d_value_addr_start a && ltb a env.arch_info.xw_ele_addr_start
    then graph_complete env m a
    else if leb env.arch_info.xw_ele_addr_start a
    then some (feature_complete m a)
    else some m

-- `WriteCompleteCallback`
unfoldable pub write_callback : Memory → Memory
write_callback m = record m {
  ms = record (m.ms) { o_access = add64 m.ms.o_access 1 };
  total_write = sub64 m.total_write 1;
}

unfoldable pub complete : Env → Memory → Completion → Option Memory
complete env m (read_complete a) = read_callback env m a
complete env m (write_complete a) = some (write_callback m)

unfoldable pub complete_all : Env → Memory → List Completion → Option Memory
complete_all env m [] = some m
complete_all env m (e ∷ es) = do m' ← complete env m e; complete_all env m' es

module _ (D : Dram) where
  open D use {State, will_accept, add, clock_tick}

  -- The loop of `ConsumeTransaction` on the queue.
  unfoldable pub consume_loop : State → List Transaction → State × List Transaction
  consume_loop d [] = (d, [])
  consume_loop d (t ∷ ts) = elim (will_accept d t.address t.is_write) [
    | true ↦ consume_loop (add d t.address t.is_write) ts
    | false ↦ (d, t ∷ ts)
  ]

  unfoldable pub consume_transaction : State → Memory → State × Memory
  consume_transaction d m = let (d', rest) = consume_loop d m.tq in (d', record m { tq = rest })

  -- `UpdateCycle`: the callbacks run inside the tick.
  unfoldable pub update_cycle : Env → State → Memory → Option (State × Memory)
  update_cycle env d m = do
    let (d', events) = clock_tick d
    m' ← complete_all env m events
    some (d', record m' { cycle = add64 m'.cycle 1 })
