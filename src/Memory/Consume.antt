-- ===== src/Memory/Consume.antt =====
-- `ConsumeTransaction` of src/memory.cc: what it hands to the simulator, and in which order.
use sgcn.Base.{true, false, ◌≡◌, refl, ap, inl, inr, List, [], ◌∷◌, ◌++◌, Bool-cases}
use sgcn.Common.{Transaction}
use sgcn.Memory.Defs.{Dram, Memory, consume_loop, consume_transaction}

module _ (D : Dram) where
  open D use {State, will_accept, add}

  -- The simulator took the transactions one after the other, each when it said that it would.
  pub data Takes : State → List Transaction → State → Type 0 where
    done : {d : State} → Takes d [] d
    next :
        {d e : State} {t : Transaction} {ts : List Transaction}
        → will_accept d t.address t.is_write ≡ true
        → Takes (add d t.address t.is_write) ts e
        → Takes d (t ∷ ts) e

  -- It waits with the head of the queue, or there is none.
  abbrev pub IsBlocked : State → List Transaction → Type 0
  IsBlocked d [] = Unit {0}
  IsBlocked d (t ∷ ts) = will_accept d t.address t.is_write ≡ false

  consume_loop_lem :
      (d : State) (ts : List Transaction)
      → (sent : List Transaction) × (ts ≡ sent ++ (consume_loop D d ts).1)
        × Takes d sent (consume_loop D d ts).0
        × IsBlocked (consume_loop D d ts).0 (consume_loop D d ts).1
  unfolding consume_loop
  consume_loop_lem d [] = ([], refl, done, tt)
  consume_loop_lem d (t ∷ ts) = elim (Bool-cases (will_accept d t.address t.is_write)) [
    | inl yes' ↦
        let (sent, split, takes, blocked) = consume_loop_lem (add d t.address t.is_write) ts in
        rw (yes', consume_loop) (t ∷ sent, ap (◌∷◌ t) split, next yes' takes, blocked)
    | inr no' ↦ rw (no', consume_loop) ([], refl, done, no')
  ]

  -- `ConsumeTransaction` hands a prefix of the queue to the simulator, in order and each transaction
  -- exactly when it is accepted, keeps the rest in order, and stops only at an empty queue or at a
  -- transaction that the simulator refuses. Nothing else of the memory changes.
  pub consume_fifo :
      (d : State) (m : Memory)
      → let (d', m') = consume_transaction D d m in
        (sent : List Transaction) × (m.tq ≡ sent ++ m'.tq)
        × Takes d sent d'
        × IsBlocked d' m'.tq
        × (m' ≡ record m { tq = m'.tq })
  unfolding consume_transaction
  consume_fifo d m =
      let (sent, split, takes, blocked) = consume_loop_lem d m.tq in
      (sent, split, takes, blocked, refl)
