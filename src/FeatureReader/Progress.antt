-- ===== src/FeatureReader/Progress.antt =====
-- `FeatureReceive` of src/f_reader.cc: the answers that came back all reach the cache.
use sgcn.Base.{
  ℕ, suc, ◌+◌, ◌≡◌, refl, ◌∙◌, false, ◌&&◌, not, Option, some, List, [], ◌∷◌, ◌==◌, length, u64_max,
  ◌>>=◌, arith,
}
use sgcn.Cache
use sgcn.Cache.{Cache}
use sgcn.Cache.Policy.{IsValid, insert_makes_resident}
use sgcn.Common.{Env}
use sgcn.Memory.{get_feature}
use sgcn.FeatureReader.Defs.{World, is_requested, erase_requested}
use sgcn.FeatureReader.Passing.{receive_loop, feature_receive}

-- The cache after the addresses were inserted in order.
unfoldable pub insert_all : Env → Cache → List ℕ → Option Cache
insert_all env c [] = some c
insert_all env c (a ∷ as') = do c' ← Cache.insert env.arch_info c a; insert_all env c' as'

-- What a call of `FeatureReceive` leaves: all answers are taken and inserted in their order, each is
-- counted and none of them is on its way any more; the rest is as it was.
pub record Received (env : Env) (w w' : World) : Type 0 where
  pub valid : IsValid env.arch_info w'.cah
  pub cached : insert_all env w.cah w.mem.fq ≡ some w'.cah
  pub drained : w'.mem ≡ record (w.mem) { fq = [] }
  pub requested :
      (a : ℕ)
      → is_requested a w'.fr.requested
        ≡ (is_requested a w.fr.requested && not (is_requested a w.mem.fq))
  pub counted : w'.fr ≡ record (w.fr) {
    requested = w'.fr.requested;
    f_pass_cnt = w.fr.f_pass_cnt + length w.mem.fq;
  }

is_requested-erase :
    (a x : ℕ) (xs : List ℕ)
    → is_requested a (erase_requested x xs) ≡ (is_requested a xs && not (x == a))
unfolding is_requested erase_requested
is_requested-erase a x [] = refl
is_requested-erase a x (y ∷ ys) = ground (arith, is_requested-erase a x ys)

-- The state with these answers waiting.
unfoldable waiting : List ℕ → World → World
waiting q w = record w { mem = record (w.mem) { fq = q } }

-- The state when the answer `a` was taken, and the cache is `c`.
unfoldable taken : Cache → ℕ → World → World
taken c a w = record w {
  fr = record (w.fr) {
    requested = erase_requested a w.fr.requested;
    f_pass_cnt = w.fr.f_pass_cnt + 1;
  };
  cah = c;
}

receive_loop_step :
    (f : ℕ) (env : Env) (a : ℕ) (q : List ℕ) (w : World) (c : Cache)
    → (a == u64_max) ≡ false
    → Cache.insert env.arch_info w.cah a ≡ some c
    → receive_loop (suc f) env (waiting (a ∷ q) w) ≡ receive_loop f env (waiting q (taken c a w))
unfolding receive_loop get_feature waiting taken
receive_loop_step f env a q w c n i = rw (receive_loop, n, i) refl

receive_loop_last :
    (f : ℕ) (env : Env) (w : World) → receive_loop (suc f) env (waiting [] w) ≡ some (waiting [] w)
unfolding receive_loop get_feature waiting
receive_loop_last f env w = refl

receive_loop_lem :
    (q : List ℕ) (env : Env) (w : World)
    → IsValid env.arch_info w.cah
    → is_requested u64_max q ≡ false
    → (w' : World) × (receive_loop (suc (length q)) env (waiting q w) ≡ some w')
      × Received env (waiting q w) w'
unfolding insert_all is_requested waiting taken
receive_loop_lem [] env w v n = (
  waiting [] w,
  receive_loop_last 0 env w,
  record {
    valid = v;
    cached = refl;
    drained = refl;
    requested = λ a. ground arith;
    counted =
        let e : w.fr.f_pass_cnt ≡ w.fr.f_pass_cnt + 0 = omega arith in
        λ i. record (w.fr) { f_pass_cnt = e i };
  },
)
receive_loop_lem (a ∷ q) env w v n =
    let (c, i, v', hit, rest) = insert_makes_resident env.arch_info w.cah a v in
    let (w', run, r) = receive_loop_lem q env (taken c a w) v' (ground arith) in
    (
      w',
      receive_loop_step (suc (length q)) env a q w c (ground arith) i ∙ run,
      record {
        valid = r.valid;
        cached = rw i r.cached;
        drained = r.drained;
        requested = λ b. ground (arith, r.requested b, is_requested-erase b a w.fr.requested);
        counted =
            let e : w.fr.f_pass_cnt + 1 + length q ≡ w.fr.f_pass_cnt + suc (length q) =
              omega arith in
            r.counted ∙ (λ i. record (w.fr) { requested = w'.fr.requested; f_pass_cnt = e i });
      },
    )

-- `FeatureReceive` ends within one turn more than there are answers: with a valid cache, and no
-- answer at the address that stands for none, every answer is inserted into the cache, in order, and
-- taken out of the queue and out of `requested`.
pub feature_receive_lem :
    (env : Env) (w : World)
    → IsValid env.arch_info w.cah
    → is_requested u64_max w.mem.fq ≡ false
    → (w' : World) × (feature_receive env w ≡ some w') × Received env w w'
unfolding feature_receive waiting
feature_receive_lem env w v n = receive_loop_lem w.mem.fq env w v n
