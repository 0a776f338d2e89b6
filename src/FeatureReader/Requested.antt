-- ===== src/FeatureReader/Requested.antt =====
-- Which reads `ReadNext` and `PassFtoSIMD` of src/f_reader.cc send.
use sgcn.Base.{
  ℕ, ◌+◌, ◌-◌, ◌≡◌, refl, ap, inl, inr, Bool, true, ◌||◌, not, some, List, [], ◌∷◌, ◌==◌, leb,
  if◌then◌else◌, length, get_elem?, sub64, arith, subst, >>=-eq-some, some_inj, if_inv,
}
use sgcn.Base.Int.{ℤ, negsuc}
use sgcn.Cache
use sgcn.Common.{Env, FMode, x_cmp, mat, csr, x_full_cmp}
use sgcn.Memory.{will_accept_transaction}
use sgcn.FeatureReader.Defs.{
  FrStat, FeatureReader, World, consume_pending_q, access_or_request, push_fq, set_stat,
}
use sgcn.FeatureReader.Reading.{
  index_of, return_address, end_edge, is_block_end, next_cmp, read_cmp, read_mat, read_line,
  read_head, read_mode, is_empty, read_next,
}
use sgcn.FeatureReader.Passing.{after_pass, pass_queue, pass_f_to_simd}
use sgcn.FeatureReader.Sends.{Sends, Sends-same, Sends-trans, access_or_request-Sends, silent}

push_fq-Sends : (id a : ℕ) (w w' : World) → push_fq id a w ≡ some w' → Sends w w'
unfolding push_fq
push_fq-Sends id a w w' h =
    let (q, e, rest) = >>=-eq-some (get_elem? w.fr.fq id) _ h in silent w _ w' refl refl rest

set_stat-Sends : (id : ℕ) (st : FrStat) (w : World) → Sends w (set_stat id st w)
unfolding set_stat
set_stat-Sends id st w = Sends-same w _ refl refl

end_edge-Sends : (id : ℕ) (st : FrStat) (w w' : World) → end_edge id st w ≡ some w' → Sends w w'
unfolding end_edge
end_edge-Sends id st w w' h =
    let v : World = set_stat id (record st { pq_read_need = true }) w in
    let first : Sends w v = set_stat-Sends id (record st { pq_read_need = true }) w in
    elim (if_inv st.is_last (push_fq id 0 v) (some v) (some w') h) [
      | inl p ↦ Sends-trans w v w' first (push_fq-Sends id 0 v w' p.1)
      | inr p ↦ subst (Sends w) (some_inj p.1) first
    ]

-- What follows a line: the edge ends, or the index moves on.
moved-Sends :
    (b : Bool) (id : ℕ) (st st' : FrStat) (w w' : World)
    → (if b then end_edge id st w else some (set_stat id st' w)) ≡ some w'
    → Sends w w'
moved-Sends b id st st' w w' h =
    elim (if_inv b (end_edge id st w) (some (set_stat id st' w)) (some w') h) [
      | inl p ↦ end_edge-Sends id st w w' p.1
      | inr p ↦ subst (Sends w) (some_inj p.1) (set_stat-Sends id st' w)
    ]

next_cmp-Sends :
    (env : Env) (id : ℕ) (st : FrStat) (fold : ℕ) (w w' : World)
    → next_cmp env id st fold w ≡ some w'
    → Sends w w'
unfolding next_cmp
next_cmp-Sends env id st fold w w' h =
    elim (if_inv (is_block_end env fold st.cur_col_idx) (end_edge id st w) _ (some w') h) [
      | inl p ↦ end_edge-Sends id st w w' p.1
      | inr p ↦
          let (next, e, rest) =
            >>=-eq-some (return_address env st.dst (st.cur_col_idx + 1) st.v_fold) _ p.1 in
          moved-Sends (next == 0) id (record st { cur_col_idx = env.arch_info.urb - 1 })
            (record st { cur_col_idx = st.cur_col_idx + 1 }) w w' rest
    ]

read_cmp-Sends : (env : Env) (id : ℕ) (w w' : World) → read_cmp env id w ≡ some w' → Sends w w'
unfolding read_cmp
read_cmp-Sends env id w w' h =
    let (st, e₁, h₁) = >>=-eq-some (get_elem? w.fr.frs id) _ h in
    let (fold, e₂, h₂) = >>=-eq-some (index_of st.v_fold) _ h₁ in
    let (a, e₃, h₃) = >>=-eq-some (return_address env st.dst st.cur_col_idx st.v_fold) _ h₂ in
    let ((w₁, got), e₄, h₄) = >>=-eq-some (access_or_request env a w) _ h₃ in
    let ((cah, hit), e₅, h₅) = >>=-eq-some (Cache.access env.arch_info w₁.cah a) _ h₄ in
    let u : World = record w₁ { cah = cah } in
    let (w₂, e₆, h₆) = >>=-eq-some (push_fq id (if hit then 1 else a) u) _ h₅ in
    Sends-trans w w₁ w' (access_or_request-Sends env a w w₁ got e₄) (
      Sends-trans w₁ u w' (Sends-same w₁ u refl refl) (
        Sends-trans u w₂ w' (push_fq-Sends id (if hit then 1 else a) u w₂ e₆)
          (next_cmp-Sends env id st fold w₂ w' h₆)))

read_mat-Sends : (env : Env) (id : ℕ) (w w' : World) → read_mat env id w ≡ some w' → Sends w w'
unfolding read_mat
read_mat-Sends env id w w' h =
    let (st, e₁, h₁) = >>=-eq-some (get_elem? w.fr.frs id) _ h in
    let (fold, e₂, h₂) = >>=-eq-some (index_of st.v_fold) _ h₁ in
    let (a, e₃, h₃) = >>=-eq-some (return_address env st.dst st.cur_col_idx st.v_fold) _ h₂ in
    let ((w₁, got), e₄, h₄) = >>=-eq-some (access_or_request env a w) _ h₃ in
    let (w₂, e₅, h₅) = >>=-eq-some (push_fq id a w₁) _ h₄ in
    Sends-trans w w₁ w' (access_or_request-Sends env a w w₁ got e₄) (
      Sends-trans w₁ w₂ w' (push_fq-Sends id a w₁ w₂ e₅)
        (moved-Sends (is_block_end env fold st.cur_col_idx) id st _ w₂ w' h₅))

read_line-Sends :
    (env : Env) (id : ℕ) (addrs : List ℕ) (st : FrStat) (w w' : World)
    → read_line env id addrs st w ≡ some w'
    → Sends w w'
unfolding read_line
read_line-Sends env id addrs st w w' h =
    let (a, e₃, h₃) = >>=-eq-some (get_elem? addrs st.cur_col_idx) _ h in
    let ((w₁, got), e₄, h₄) = >>=-eq-some (access_or_request env a w) _ h₃ in
    let (w₂, e₅, h₅) = >>=-eq-some (push_fq id a w₁) _ h₄ in
    Sends-trans w w₁ w' (access_or_request-Sends env a w w₁ got e₄) (
      Sends-trans w₁ w₂ w' (push_fq-Sends id a w₁ w₂ e₅)
        (moved-Sends (st.cur_col_idx == sub64 (length addrs) 1) id st _ w₂ w' h₅))

read_head-Sends : (env : Env) (id : ℕ) (w w' : World) → read_head env id w ≡ some w' → Sends w w'
unfolding read_head
read_head-Sends env id w w' h =
    let (st, e₁, h₁) = >>=-eq-some (get_elem? w.fr.frs id) _ h in
    let (r, e₂, h₂) = >>=-eq-some (index_of st.dst) _ h₁ in
    let (addrs, e₃, h₃) = >>=-eq-some (get_elem? env.x_to_addr r) _ h₂ in
    elim (if_inv (st.cur_col_idx == 0) _ (read_line env id addrs st w) (some w') h₃) [
      | inr p ↦ read_line-Sends env id addrs st w w' p.1
      | inl p ↦
          let (a, e₄, h₄) = >>=-eq-some (get_elem? addrs 0) _ p.1 in
          let ((w₁, hit), e₅, h₅) = >>=-eq-some (access_or_request env a w) _ h₄ in
          let first : Sends w w₁ = access_or_request-Sends env a w w₁ hit e₅ in
          let st' : FrStat = record st { cur_col_idx = 1 } in
          elim (if_inv hit (read_line env id addrs st' (set_stat id st' w₁)) (some w₁) (some w')
            h₅) [
              | inl q ↦ Sends-trans w w₁ w' first (
                  Sends-trans w₁ (set_stat id st' w₁) w' (set_stat-Sends id st' w₁)
                    (read_line-Sends env id addrs st' (set_stat id st' w₁) w' q.1))
              | inr q ↦ subst (Sends w) (some_inj q.1) first
            ]
    ]

read_mode-Sends :
    (mode : FMode) (env : Env) (id : ℕ) (w w' : World)
    → read_mode mode env id w ≡ some w'
    → Sends w w'
unfolding read_mode
read_mode-Sends x_cmp env id w w' h = read_cmp-Sends env id w w' h
read_mode-Sends mat env id w w' h = read_mat-Sends env id w w' h
read_mode-Sends csr env id w w' h = read_head-Sends env id w w' h
read_mode-Sends x_full_cmp env id w w' h = read_head-Sends env id w w' h

consume_pending_q-requested :
    (id : ℕ) (fr fr' : FeatureReader)
    → consume_pending_q id fr ≡ some fr'
    → fr'.requested ≡ fr.requested
unfolding consume_pending_q
consume_pending_q-requested id fr fr' h = ground arith

-- Where `ReadNext` is defined, it sends, whatever its mode, reads only for lines that are not on
-- their way, none twice, and notes in `requested` just those that it sends.
pub read_next-Sends :
    (env : Env) (id : ℕ) (w w' : World) → read_next env id w ≡ some w' → Sends w w'
unfolding read_next
read_next-Sends env id w w' h =
    let (q, e₁, h₁) = >>=-eq-some (get_elem? w.fr.fq id) _ h in
    elim (if_inv (leb 256 (length q) || not (will_accept_transaction w.mem)) (some w) _ (some w')
      h₁) [
        | inl p ↦ silent w w w' refl refl p.1
        | inr p ↦
            let (st, e₂, h₂) = >>=-eq-some (get_elem? w.fr.frs id) _ p.1 in
            let (pending, e₃, h₃) = >>=-eq-some (get_elem? w.fr.pq id) _ h₂ in
            elim (if_inv st.pq_read_need _ (read_mode w.fr.mode env id w) (some w') h₃) [
              | inr p' ↦ read_mode-Sends w.fr.mode env id w w' p'.1
              | inl p' ↦ elim (if_inv (is_empty pending) (some w) _ (some w') p'.1) [
                | inl n ↦ silent w w w' refl refl n.1
                | inr n ↦
                    let (fr, e₄, h₄) = >>=-eq-some (consume_pending_q id w.fr) _ n.1 in
                    let u : World = record w { fr = fr } in
                    Sends-trans w u w'
                      (Sends-same w u refl (consume_pending_q-requested id w.fr fr e₄))
                      (read_mode-Sends fr.mode env id u w' h₄)
              ]
            ]
      ]

after_pass-Sends :
    (id : ℕ) (rest : List ℕ) (w w' : World) (r : ℤ)
    → after_pass id rest w ≡ some (w', r)
    → Sends w w'
unfolding after_pass
after_pass-Sends id [] w w' r h = silent w _ w' refl refl (ap (λ p. some p.0) (some_inj h))
after_pass-Sends id (x ∷ rest) w w' r h = elim (if_inv (x == 0) _ _ (some (w', r)) h) [
  | inl p ↦ silent w _ w' refl refl (ap (λ p. some p.0) (some_inj p.1))
  | inr p ↦ silent w _ w' refl refl (ap (λ p. some p.0) (some_inj p.1))
]

pass_queue-Sends :
    (env : Env) (id : ℕ) (q : List ℕ) (w w' : World) (r : ℤ)
    → pass_queue env id q w ≡ some (w', r)
    → Sends w w'
unfolding pass_queue
pass_queue-Sends env id [] w w' r h = silent w w w' refl refl (ap (λ p. some p.0) (some_inj h))
pass_queue-Sends env id (next ∷ rest) w w' r h =
    elim (if_inv (next == 1) (after_pass id rest w) _ (some (w', r)) h) [
      | inl p ↦ after_pass-Sends id rest w w' r p.1
      | inr p ↦
          let ((v, hit), e, h') = >>=-eq-some (access_or_request env next w) _ p.1 in
          let first : Sends w v = access_or_request-Sends env next w v hit e in
          elim (if_inv hit (after_pass id rest v) (some (v, negsuc 0)) (some (w', r)) h') [
            | inl n ↦ Sends-trans w v w' first (after_pass-Sends id rest v w' r n.1)
            | inr n ↦ subst (Sends w) (ap (λ p. p.0) (some_inj n.1)) first
          ]
    ]

-- Where `PassFtoSIMD` is defined, it sends reads only for lines that are not on their way, none
-- twice, and notes in `requested` just those that it sends.
pub pass_f_to_simd-Sends :
    (env : Env) (id : ℕ) (w w' : World) (r : ℤ)
    → pass_f_to_simd env id w ≡ some (w', r)
    → Sends w w'
unfolding pass_f_to_simd
pass_f_to_simd-Sends env id w w' r h =
    let (q, e, rest) = >>=-eq-some (get_elem? w.fr.fq id) _ h in
    pass_queue-Sends env id q w w' r rest
