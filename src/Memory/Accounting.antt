-- ===== src/Memory/Accounting.antt =====
-- The counters of src/memory.cc over a tick's callbacks: what `total_write`, `xw_get` and the
-- statistics say about the completions that DRAMsim3 reported.
use sgcn.Base.{
  ℕ, suc, ◌+◌, ◌%◌, ◌≡◌, refl, sym, ap, ◌∙◌, length-append, >>=-eq-some, ltb, ◌&&◌, subst,
  Bool-cases, some, List, [], ◌∷◌, ◌++◌, arith, length, u64_mod, leb, if◌then◌else◌, inl, inr,
}
use mathlib.Core.List.{append-nil, append_assoc}
use mathlib.Core.Path.{subst₂}
use mathlib.Core.Option.{some-injective}
use sgcn.Common.{Env}
use sgcn.Memory.Routing.{Layout, read_callback-defined}
use sgcn.Memory.Defs.{
  Memory, Completion, read_complete, write_complete, complete, complete_all, read_callback,
  write_callback, graph_complete, feature_complete,
}

unfoldable pub writes : List Completion → ℕ
writes [] = 0
writes (read_complete a ∷ es) = writes es
writes (write_complete a ∷ es) = suc (writes es)

-- The feature addresses among the completed reads, in their order.
unfoldable pub feature_reads : Env → List Completion → List ℕ
feature_reads env [] = []
feature_reads env (read_complete a ∷ es) =
    if leb env.arch_info.xw_ele_addr_start a then a ∷ feature_reads env es else feature_reads env es
feature_reads env (write_complete a ∷ es) = feature_reads env es

-- A feature counter before a step, after it, and how many features the step saw.
pub record Counted (m m' : Memory) (w : ℕ) (fs : List ℕ) : Type 0 where
  pub left : (m'.total_write + w) % u64_mod ≡ m.total_write % u64_mod
  pub output : m'.ms.o_access % u64_mod ≡ (m.ms.o_access + w) % u64_mod
  pub got : m'.xw_get % u64_mod ≡ (m.xw_get + length fs) % u64_mod
  pub features : m'.ms.f_ele_access % u64_mod ≡ (m.ms.f_ele_access + length fs) % u64_mod
  pub queued : m'.fq ≡ m.fq ++ fs
  pub waiting : m'.tq ≡ m.tq

graph_complete-keeps :
    (env : Env) (m m' : Memory) (a : ℕ) → graph_complete env m a ≡ some m' → Counted m m' 0 []
unfolding graph_complete
graph_complete-keeps env m m' a h = record {
  left = ground arith;
  output = ground arith;
  got = ground arith;
  features = ground arith;
  queued = ground (arith, append-nil m.fq);
  waiting = ground arith;
}

feature_complete-Counted : (m : Memory) (a : ℕ) → Counted m (feature_complete m a) 0 (a ∷ [])
unfolding feature_complete
feature_complete-Counted m a = record {
  left = omega arith;
  output = omega arith;
  got = omega arith;
  features = omega arith;
  queued = refl;
  waiting = refl;
}

write_callback-Counted : (m : Memory) → Counted m (write_callback m) 1 []
unfolding write_callback
write_callback-Counted m = record {
  left = omega arith;
  output = omega arith;
  got = omega arith;
  features = omega arith;
  queued = sym (append-nil m.fq);
  waiting = refl;
}

Counted-refl : (m : Memory) → Counted m m 0 []
Counted-refl m = record {
  left = omega arith;
  output = omega arith;
  got = omega arith;
  features = omega arith;
  queued = sym (append-nil m.fq);
  waiting = refl;
}

Counted-trans :
    (m n p : Memory) (v w : ℕ) (fs gs : List ℕ)
    → Counted m n v fs
    → Counted n p w gs
    → Counted m p (v + w) (fs ++ gs)
Counted-trans m n p v w fs gs c d = record {
  left = omega (arith, c.left, d.left);
  output = omega (arith, c.output, d.output);
  got = omega (arith, c.got, d.got, length-append fs gs);
  features = omega (arith, c.features, d.features, length-append fs gs);
  queued = d.queued ∙ ap (λ l. l ++ gs) c.queued ∙ append_assoc m.fq fs gs;
  waiting = d.waiting ∙ c.waiting;
}

read_callback-Counted :
    (env : Env) (m m' : Memory) (a : ℕ)
    → read_callback env m a ≡ some m'
    → Counted m m' 0 (if leb env.arch_info.xw_ele_addr_start a then a ∷ [] else [])
unfolding read_callback
read_callback-Counted env m m' a h = elim (Bool-cases (leb env.arch_info.xw_ele_addr_start a)) [
  | inl feature ↦
      let e : feature_complete m a ≡ m' = ground arith in
      rw feature (subst (λ x. Counted m x 0 (a ∷ [])) e (feature_complete-Counted m a))
  | inr graph ↦
      elim (Bool-cases
        (leb env.arch_info.d_value_addr_start a && ltb a env.arch_info.xw_ele_addr_start)) [
          | inl inside ↦ rw graph (graph_complete-keeps env m m' a (ground arith))
          | inr outside ↦
              let e : m ≡ m' = ground arith in
              rw graph (subst (λ x. Counted m x 0 []) e (Counted-refl m))
        ]
]

complete-Counted :
    (env : Env) (m m' : Memory) (e : Completion)
    → complete env m e ≡ some m'
    → Counted m m' (writes (e ∷ [])) (feature_reads env (e ∷ []))
unfolding complete writes feature_reads
complete-Counted env m m' (read_complete a) h = read_callback-Counted env m m' a h
complete-Counted env m m' (write_complete a) h =
    subst (λ x. Counted m x 1 []) (some-injective _ _ h) (write_callback-Counted m)

writes-cons :
    (e : Completion) (es : List Completion) → writes (e ∷ es) ≡ writes (e ∷ []) + writes es
unfolding writes
writes-cons (read_complete a) es = omega arith
writes-cons (write_complete a) es = omega arith

feature_reads-cons :
    (env : Env) (e : Completion) (es : List Completion)
    → feature_reads env (e ∷ es) ≡ feature_reads env (e ∷ []) ++ feature_reads env es
unfolding feature_reads
feature_reads-cons env (read_complete a) es = ground arith
feature_reads-cons env (write_complete a) es = refl

complete_all-Counted :
    (env : Env) (m m' : Memory) (es : List Completion)
    → complete_all env m es ≡ some m'
    → Counted m m' (writes es) (feature_reads env es)
unfolding complete_all writes feature_reads
complete_all-Counted env m m' [] h =
    subst (λ x. Counted m x 0 []) (some-injective _ _ h) (Counted-refl m)
complete_all-Counted env m m' (e ∷ es) h =
    let (n, first, rest) = >>=-eq-some (complete env m e) _ h in
    subst₂ (Counted m m') (sym (writes-cons e es)) (sym (feature_reads-cons env e es)) (
      Counted-trans m n m' _ _ _ _ (complete-Counted env m n e first)
        (complete_all-Counted env n m' es rest))

complete_all-defined :
    (env : Env) (m : Memory) (es : List Completion)
    → Layout env
    → length m.rq ≡ env.arch_info.n_of_engine
    → (m' : Memory) × (complete_all env m es ≡ some m') × (length m'.rq ≡ env.arch_info.n_of_engine)
unfolding complete_all complete write_callback
complete_all-defined env m [] lay n = (m, refl, n)
complete_all-defined env m (read_complete a ∷ es) lay n =
    let (m', step, size) = read_callback-defined env lay m a n in
    rw step (complete_all-defined env m' es lay (size ∙ n))
complete_all-defined env m (write_complete a ∷ es) lay n =
    complete_all-defined env (write_callback m) es lay n

-- Whatever a tick reports, on the mapped layout the callbacks are defined, and they count it:
-- `total_write` falls and `o_access` rises by the number of completed writes, `xw_get` and
-- `f_ele_access` rise by the number of completed feature reads (all modulo 2^64), the feature
-- addresses are queued in the order in which they came back, and the transactions that wait to be
-- sent stay.
pub complete_all-total :
    (env : Env) (m : Memory) (es : List Completion)
    → Layout env
    → length m.rq ≡ env.arch_info.n_of_engine
    → (m' : Memory) × (complete_all env m es ≡ some m')
      × Counted m m' (writes es) (feature_reads env es)
complete_all-total env m es lay n =
    let (m', runs, _) = complete_all-defined env m es lay n in
    (m', runs, complete_all-Counted env m m' es runs)
