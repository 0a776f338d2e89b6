-- ===== src/FeatureReader/Defs.antt =====
-- The class `FeatureReader` of src/f_reader.h and src/f_reader.cc: its state, its queues and its
-- requests.
use sgcn.Base.{
  ℕ, ◌+◌, Bool, true, false, ◌||◌, Option, none, some, List, [], ◌∷◌, ◌++◌, ◌==◌, if◌then◌else◌,
  get_elem?, set, replicate, ◌>>=◌,
}
use sgcn.Base.Int.{ℤ, pos, negsuc}
use sgcn.Cache.{Cache}
use sgcn.Cache
use sgcn.Common.{Env, ArchInfo, EdgeInfo, FMode, x_cmp}
use sgcn.Memory.{Memory, add_transaction}

-- F_STAT, and `pq_read_need` of FR_STAT.
pub record FrStat : Type 0 where
  pub is_last : Bool
  pub dst : ℤ
  pub v_fold : ℤ
  pub cur_col_idx : ℕ
  pub pq_read_need : Bool

pub record FeatureReader : Type 0 where
  pub mode : FMode
  pub frs : List FrStat
  pub pq : List (List EdgeInfo)
  pub requested : List ℕ
  pub fq : List (List ℕ)
  pub f_pass : ℕ
  pub f_pass_cnt : ℕ

-- What the calls of the reader change: itself, the cache and the memory's queues.
pub record World : Type 0 where
  pub fr : FeatureReader
  pub cah : Cache
  pub mem : Memory

-- The constructor.
unfoldable pub init : ArchInfo → FeatureReader
init arch = record {
  mode = x_cmp;
  frs = replicate arch.n_of_engine (record {
    is_last = false;
    dst = negsuc 0;
    v_fold = pos 0;
    cur_col_idx = 0;
    pq_read_need = true;
  });
  pq = replicate arch.n_of_engine [];
  requested = [];
  fq = replicate arch.n_of_engine [];
  f_pass = 0;
  f_pass_cnt = 0;
}

-- `ModeChange`
unfoldable pub mode_change : FMode → FeatureReader → FeatureReader
mode_change mode fr = record fr { mode = mode }

-- `EnterFtoList`
unfoldable pub enter_f_to_list : EdgeInfo → FeatureReader → Option FeatureReader
enter_f_to_list ei fr = do
  q ← get_elem? fr.pq ei.id
  some (record fr { pq = set fr.pq ei.id (q ++ ei ∷ []) })

-- `ConsumePendingQ`: the front of an empty queue is undefined.
unfoldable pub consume_pending_q : ℕ → FeatureReader → Option FeatureReader
consume_pending_q id fr = do
  q ← get_elem? fr.pq id
  st ← get_elem? fr.frs id
  elim q [
    | [] ↦ none
    | ei ∷ rest ↦ some (record fr {
      pq = set fr.pq id rest;
      frs = set fr.frs id (record {
        is_last = ei.is_last;
        dst = ei.dst;
        v_fold = ei.v_fold;
        cur_col_idx = 0;
        pq_read_need = false;
      });
      f_pass = fr.f_pass + 1;
    })
  ]

-- `requested.find(a) != requested.end()`
unfoldable pub is_requested : ℕ → List ℕ → Bool
is_requested a [] = false
is_requested a (x ∷ xs) = x == a || is_requested a xs

unfoldable pub insert_requested : ℕ → List ℕ → List ℕ
insert_requested a xs = if is_requested a xs then xs else a ∷ xs

unfoldable pub erase_requested : ℕ → List ℕ → List ℕ
erase_requested a [] = []
erase_requested a (x ∷ xs) = let rest = erase_requested a xs in if x == a then rest else x ∷ rest

-- A read of the address is sent, and the address noted as requested.
unfoldable pub request : ℕ → World → World
request a w = record w {
  fr = record (w.fr) { requested = insert_requested a w.fr.requested };
  mem = add_transaction w.mem (record { address = a; is_write = false });
}

-- `if (!cah->Access(a) && requested.find(a) == requested.end())`, and the request. The answer says
-- whether the access hit.
unfoldable pub access_or_request : Env → ℕ → World → Option (World × Bool)
access_or_request env a w = do
  (cah, hit) ← Cache.access env.arch_info w.cah a
  let w' : World = record w { cah = cah }
  some (if hit || is_requested a w.fr.requested then w' else request a w', hit)

unfoldable pub push_fq : ℕ → ℕ → World → Option World
push_fq id a w = do
  q ← get_elem? w.fr.fq id
  some (record w { fr = record (w.fr) { fq = set w.fr.fq id (q ++ a ∷ []) } })

unfoldable pub set_stat : ℕ → FrStat → World → World
set_stat id st w = record w { fr = record (w.fr) { frs = set w.fr.frs id st } }
