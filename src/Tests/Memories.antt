-- ===== src/Tests/Memories.antt =====
-- The memory of the layout for two engines, in front of a simulator that takes two transactions.
use sgcn.Base.{ℕ, ◌+◌, ◌≡◌, refl, false, List, [], ◌∷◌, ◌++◌, arith, some, set, ltb, add64, length}
use sgcn.Common.{Transaction, row}
use sgcn.Memory.{
  Completion, read_complete, write_complete, Dram, Memory, consume_transaction, read_callback,
  complete_all,
}
use sgcn.Memory.Accounting.{Counted, writes, feature_reads, complete_all-total}
use sgcn.Memory.Consume.{Takes, IsBlocked, consume_fifo}
use sgcn.Memory.Routing.{Layout, read_callback-routes, read_callback-defined}
use sgcn.Tests.Example.{laid, answers, second_range}

-- The state counts the transactions taken.
abbrev pub small : Dram
small = record {
  State = ℕ;
  will_accept = λ n a w. ltb n 2;
  add = λ n a w. n + 1;
  clock_tick = λ n. (n, []);
}

abbrev reads : List ℕ → List Transaction
reads [] = []
reads (a ∷ as') = record { address = a; is_write = false } ∷ reads as'

abbrev loaded : Memory
loaded = record (answers [] []) { tq = reads (64 ∷ 192 ∷ 320 ∷ []) }

consume_fifo_example :
    let (d', m') = consume_transaction small 0 loaded in
    (sent : List Transaction) × (loaded.tq ≡ sent ++ m'.tq)
    × Takes small 0 sent d'
    × IsBlocked small d' m'.tq
    × (m' ≡ record loaded { tq = m'.tq })
consume_fifo_example = consume_fifo small 0 loaded

laid-Layout : Layout laid
laid-Layout = record {
  engines = refl;
  values = (refl, omega arith, (refl, omega arith, refl));
  rows = (refl, omega arith, (refl, omega arith, refl));
  cols = (refl, omega arith, (refl, omega arith, refl));
}

read_callback-routes_example :
    read_callback laid loaded 192
    ≡ some (record loaded {
      ms = record (loaded.ms) { g_access = add64 0 1 };
      rq = set loaded.rq 1 (row ∷ []);
    })
read_callback-routes_example =
    read_callback-routes laid laid-Layout loaded row 192 1 second_range [] (λ e. ground (arith, e))
      refl (omega arith) (omega arith) refl

read_callback-defined_example :
    (m' : Memory) × (read_callback laid loaded 383 ≡ some m') × (length m'.rq ≡ length loaded.rq)
read_callback-defined_example = read_callback-defined laid laid-Layout loaded 383 refl

abbrev events : List Completion
events = read_complete 64 ∷ write_complete 900 ∷ read_complete 448 ∷ []

complete_all-total_example :
    (m' : Memory) × (complete_all laid loaded events ≡ some m')
    × Counted loaded m' (writes events) (feature_reads laid events)
complete_all-total_example = complete_all-total laid loaded events laid-Layout refl
