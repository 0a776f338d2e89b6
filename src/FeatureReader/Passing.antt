-- ===== src/FeatureReader/Passing.antt =====
-- `FeatureReceive` and `PassFtoSIMD` of src/f_reader.cc.
use sgcn.Base.{
  ℕ, zero, suc, ◌+◌, true, false, Option, none, some, List, [], ◌∷◌, ◌==◌, if◌then◌else◌, length,
  get_elem?, set, u64_max, ◌>>=◌,
}
use sgcn.Base.Int.{ℤ, pos, negsuc}
use sgcn.Cache.{Cache}
use sgcn.Cache
use sgcn.Common.{Env}
use sgcn.Memory.{get_feature}
use sgcn.FeatureReader.Defs.{World, erase_requested, access_or_request}

-- The loop of `FeatureReceive`, on fuel; it ends at the first maximum that `GetFeature` answers.
unfoldable pub receive_loop : ℕ → Env → World → Option World
receive_loop zero env w = none
receive_loop (suc f) env w =
    let (a, mem) = get_feature w.mem in
    elim (a == u64_max) [
      | true ↦ some (record w { mem = mem })
      | false ↦ elim (Cache.insert env.arch_info w.cah a) [
        | none ↦ none
        | some cah ↦ receive_loop f env (record w {
          fr = record (w.fr) {
            requested = erase_requested a w.fr.requested;
            f_pass_cnt = w.fr.f_pass_cnt + 1;
          };
          cah = cah;
          mem = mem;
        })
      ]
    ]

-- `FeatureReceive`
unfoldable pub feature_receive : Env → World → Option World
feature_receive env w = receive_loop (suc (length w.mem.fq)) env w

-- After the front of the queue was taken: a mark behind it ends the row.
unfoldable pub after_pass : ℕ → List ℕ → World → Option (World × ℤ)
after_pass id rest w = elim rest [
  | [] ↦ some (record w { fr = record (w.fr) { fq = set w.fr.fq id [] } }, pos 1)
  | x ∷ rest' ↦
      if x == 0
      then some (record w { fr = record (w.fr) { fq = set w.fr.fq id rest' } }, pos 0)
      else some (record w { fr = record (w.fr) { fq = set w.fr.fq id (x ∷ rest') } }, pos 1)
]

-- `PassFtoSIMD` on the queue: a line that was evicted in the meantime is requested again.
unfoldable pub pass_queue : Env → ℕ → List ℕ → World → Option (World × ℤ)
pass_queue env id [] w = some (w, negsuc 0)
pass_queue env id (next ∷ rest) w = if next == 1 then after_pass id rest w else (do
  (w', hit) ← access_or_request env next w
  if hit then after_pass id rest w' else some (w', negsuc 0))

-- `PassFtoSIMD`: -1 if nothing can be passed, 0 at the end of a row, and 1 otherwise.
unfoldable pub pass_f_to_simd : Env → ℕ → World → Option (World × ℤ)
pass_f_to_simd env id w = do q ← get_elem? w.fr.fq id; pass_queue env id q w
