-- ===== src/FeatureReader/Reading.antt =====
-- `ReadNext` of src/f_reader.cc, under its four modes.
use sgcn.Base.{
  ℕ, ◌+◌, ◌-◌, ◌*◌, Bool, true, false, ◌||◌, not, Option, none, some, List, [], ◌∷◌, ◌==◌, leb,
  if◌then◌else◌, length, get_elem?, sub64, ◌>>=◌,
}
use sgcn.Base.Int.{ℤ, pos, negsuc}
use sgcn.Cache.{Cache}
use sgcn.Cache
use sgcn.Common.{Env, FMode, x_cmp, mat, csr, x_full_cmp}
use sgcn.Memory.{will_accept_transaction}
use sgcn.FeatureReader.Defs.{FrStat, World, consume_pending_q, access_or_request, push_fq, set_stat}

-- An index of a vector: a negative one is undefined.
unfoldable pub index_of : ℤ → Option ℕ
index_of (pos n) = some n
index_of (negsuc n) = none

-- `ReturnAddress`
unfoldable pub return_address : Env → ℤ → ℕ → ℤ → Option ℕ
return_address env dst col fold = do
  r ← index_of dst
  f ← index_of fold
  addrs ← get_elem? env.x_to_addr r
  get_elem? addrs (f * env.arch_info.urb + col)

-- The end of an edge: the next pending edge is wanted, and the last edge of a row leaves a mark.
unfoldable pub end_edge : ℕ → FrStat → World → Option World
end_edge id st w =
    let w' = set_stat id (record st { pq_read_need = true }) w in
    if st.is_last then push_fq id 0 w' else some w'

-- Whether the line under the index is the last of its block or of the row; `total_urb - 1` and
-- `urb - 1` may be -1, which no index equals.
unfoldable pub is_block_end : Env → ℕ → ℕ → Bool
is_block_end env fold col =
    fold * env.arch_info.urb + col + 1 == env.data_info.total_urb || col + 1 == env.arch_info.urb

-- The index after the line in X_CMP: a line that was left out ends the edge.
unfoldable pub next_cmp : Env → ℕ → FrStat → ℕ → World → Option World
next_cmp env id st fold w = if is_block_end env fold st.cur_col_idx then end_edge id st w else (do
  next ← return_address env st.dst (st.cur_col_idx + 1) st.v_fold
  if next == 0
      then end_edge id (record st { cur_col_idx = env.arch_info.urb - 1 }) w
      else some (set_stat id (record st { cur_col_idx = st.cur_col_idx + 1 }) w))

-- `ReadNext` in X_CMP. A line that is there already is queued as 1.
unfoldable pub read_cmp : Env → ℕ → World → Option World
read_cmp env id w = do
  st ← get_elem? w.fr.frs id
  fold ← index_of st.v_fold
  a ← return_address env st.dst st.cur_col_idx st.v_fold
  (w₁, _) ← access_or_request env a w
  (cah, hit) ← Cache.access env.arch_info w₁.cah a
  w₂ ← push_fq id (if hit then 1 else a) (record w₁ { cah = cah })
  next_cmp env id st fold w₂

-- In MAT every line of the block is read.
unfoldable pub read_mat : Env → ℕ → World → Option World
read_mat env id w = do
  st ← get_elem? w.fr.frs id
  fold ← index_of st.v_fold
  a ← return_address env st.dst st.cur_col_idx st.v_fold
  (w₁, _) ← access_or_request env a w
  w₂ ← push_fq id a w₁
  if is_block_end env fold st.cur_col_idx
      then end_edge id st w₂
      else some (set_stat id (record st { cur_col_idx = st.cur_col_idx + 1 }) w₂)

-- In CSR and X_FULL_CMP a row has its head in place 0 and ends with its vector; `size() - 1` wraps.
unfoldable pub read_line : Env → ℕ → List ℕ → FrStat → World → Option World
read_line env id addrs st w = do
  a ← get_elem? addrs st.cur_col_idx
  (w₁, _) ← access_or_request env a w
  w₂ ← push_fq id a w₁
  if st.cur_col_idx == sub64 (length addrs) 1
      then end_edge id st w₂
      else some (set_stat id (record st { cur_col_idx = st.cur_col_idx + 1 }) w₂)

-- First the head must be in the cache; until then nothing else is read.
unfoldable pub read_head : Env → ℕ → World → Option World
read_head env id w = do
  st ← get_elem? w.fr.frs id
  r ← index_of st.dst
  addrs ← get_elem? env.x_to_addr r
  if st.cur_col_idx == 0
      then (do
        a ← get_elem? addrs 0
        (w', hit) ← access_or_request env a w
        if hit
            then read_line env id addrs (record st { cur_col_idx = 1 })
                (set_stat id (record st { cur_col_idx = 1 }) w')
            else some w')
      else read_line env id addrs st w

unfoldable pub read_mode : FMode → Env → ℕ → World → Option World
read_mode x_cmp env id w = read_cmp env id w
read_mode mat env id w = read_mat env id w
read_mode csr env id w = read_head env id w
read_mode x_full_cmp env id w = read_head env id w

abbrev pub is_empty {ℓ} : {A : Type ℓ} → List A → Bool
is_empty [] = true
is_empty (x ∷ xs) = false

-- `ReadNext`
unfoldable pub read_next : Env → ℕ → World → Option World
read_next env id w = do
  q ← get_elem? w.fr.fq id
  if leb 256 (length q) || not (will_accept_transaction w.mem) then some w else (do
    st ← get_elem? w.fr.frs id
    pending ← get_elem? w.fr.pq id
    if st.pq_read_need
        then (if is_empty pending then some w else (do
          fr ← consume_pending_q id w.fr
          read_mode fr.mode env id (record w { fr = fr })))
        else read_mode w.fr.mode env id w)
