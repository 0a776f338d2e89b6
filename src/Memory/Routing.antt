-- ===== src/Memory/Routing.antt =====
-- `ReadCompleteCallback` of src/memory.cc: which engine gets the line that came back.
use sgcn.Base.{
  ℕ, zero, suc, ◌+◌, ◌≤◌, ◌<◌, ◌≡◌, ◌≢◌, refl, ap, ◌∙◌, true, false, some, List, [], ◌∷◌, ◌++◌,
  arith, length, get_elem?, set, length-set, get_elem?_total, get_elem?_lt, add64,
}
use native.Mathlib.Decide.{dec_lt}
use sgcn.Common.{Env, ArchInfo, DataIndex, RType, row, column, value, empty}
use sgcn.Memory.Defs.{
  Memory, in_range, find_engine, type_of, graph_complete, feature_complete, read_callback,
}

-- The ends of an engine's range for one kind of line.
abbrev pub begin : RType → DataIndex → ℕ
begin value d = d.value_addr_start
begin row d = d.row_addr_start
begin column d = d.col_addr_start
begin empty d = 0

abbrev pub end : RType → DataIndex → ℕ
end value d = d.value_addr_end
end row d = d.row_addr_end
end column d = d.col_addr_end
end empty d = 0

-- The engines' ranges for one kind of line follow one another, without gaps, from `lo` to `hi`.
abbrev pub Tiles : RType → ℕ → ℕ → List DataIndex → Type 0
Tiles t lo hi [] = lo ≡ hi
Tiles t lo hi (d ∷ ds) = (begin t d ≡ lo) × (lo ≤ end t d) × Tiles t (end t d) hi ds

-- What `AddressMapping` establishes for the memory.
pub record Layout (env : Env) : Type 0 where
  pub engines : length env.data_index ≡ env.arch_info.n_of_engine
  pub values :
      Tiles value env.arch_info.d_value_addr_start env.arch_info.a_row_addr_start env.data_index
  pub rows : Tiles row env.arch_info.a_row_addr_start env.arch_info.a_col_addr_start env.data_index
  pub cols :
      Tiles column env.arch_info.a_col_addr_start env.arch_info.xw_ele_addr_start env.data_index

in_range_iff :
    (t : RType) (a : ℕ) (d : DataIndex) → in_range t a d ≡ true → (begin t d ≤ a) × (a < end t d)
unfolding in_range
in_range_iff value a d h = ground arith
in_range_iff row a d h = ground arith
in_range_iff column a d h = ground arith
in_range_iff empty a d h = ground arith

in_range_below : (t : RType) (a : ℕ) (d : DataIndex) → end t d ≤ a → in_range t a d ≡ false
unfolding in_range
in_range_below value a d h = ground arith
in_range_below row a d h = ground arith
in_range_below column a d h = ground arith
in_range_below empty a d h = ground arith

Tiles-le : (t : RType) (lo hi : ℕ) (ds : List DataIndex) → Tiles t lo hi ds → lo ≤ hi
Tiles-le t lo hi [] h = omega arith
Tiles-le t lo hi (d ∷ ds) h = omega (arith, Tiles-le t (end t d) hi ds h.2)

-- A range of the row lies between its ends.
Tiles-within :
    (t : RType) (lo hi : ℕ) (ds : List DataIndex) (k : ℕ) (d : DataIndex)
    → Tiles t lo hi ds
    → get_elem? ds k ≡ some d
    → (lo ≤ begin t d) × (end t d ≤ hi)
Tiles-within t lo hi [] k d h e = ground arith
Tiles-within t lo hi (x ∷ ds) zero d h e = ground (arith, Tiles-le t (end t x) hi ds h.2)
Tiles-within t lo hi (x ∷ ds) (suc k) d h e =
    omega (arith, Tiles-within t (end t x) hi ds k d h.2 e)

find_engine_lem :
    (t : RType) (a lo hi i : ℕ) (ds : List DataIndex) (k : ℕ) (d : DataIndex)
    → Tiles t lo hi ds
    → get_elem? ds k ≡ some d
    → in_range t a d ≡ true
    → find_engine t a i (length ds) ds ≡ some (i + k)
unfolding find_engine
find_engine_lem t a lo hi i [] k d h e r = ground arith
find_engine_lem t a lo hi i (x ∷ ds) zero d h e r = ground arith
find_engine_lem t a lo hi i (x ∷ ds) (suc k) d h e r =
    let within = Tiles-within t (end t x) hi ds k d h.2 e in
    let missed = in_range_below t a x (omega (arith, within, in_range_iff t a d r)) in
    rw missed (find_engine_lem t a (end t x) hi (suc i) ds k d h.2 e r ∙ ap some (omega arith))

-- Every address between the ends lies in some engine's range.
Tiles-cover :
    (t : RType) (a lo hi : ℕ) (ds : List DataIndex)
    → Tiles t lo hi ds
    → lo ≤ a
    → a < hi
    → (k : ℕ) × (d : DataIndex) × (get_elem? ds k ≡ some d) × (begin t d ≤ a) × (a < end t d)
Tiles-cover t a lo hi [] h p q = absurd (omega arith)
Tiles-cover t a lo hi (d ∷ ds) h p q = elim (dec_lt a (end t d)) [
  | yes inside ↦ (0, d, refl, omega (arith, h.0), inside)
  | no beyond ↦
      let (k, e, found, above, below) = Tiles-cover t a (end t d) hi ds h.2 (omega arith) q in
      (suc k, e, found, above, below)
]

in_range_of :
    (t : RType) (a : ℕ) (d : DataIndex)
    → t ≢ empty
    → begin t d ≤ a
    → a < end t d
    → in_range t a d ≡ true
unfolding in_range
in_range_of value a d ne p q = ground arith
in_range_of row a d ne p q = ground arith
in_range_of column a d ne p q = ground arith
in_range_of empty a d ne p q = absurd (ne refl)

-- The ends of the whole area of one kind of line.
abbrev pub area_lo : ArchInfo → RType → ℕ
area_lo arch value = arch.d_value_addr_start
area_lo arch row = arch.a_row_addr_start
area_lo arch column = arch.a_col_addr_start
area_lo arch empty = 0

abbrev pub area_hi : ArchInfo → RType → ℕ
area_hi arch value = arch.a_row_addr_start
area_hi arch row = arch.a_col_addr_start
area_hi arch column = arch.xw_ele_addr_start
area_hi arch empty = 0

module _ (env : Env) (lay : Layout env) where
  Layout-Tiles :
      (t : RType)
      → t ≢ empty
      → Tiles t (area_lo env.arch_info t) (area_hi env.arch_info t) env.data_index
  Layout-Tiles value ne = lay.values
  Layout-Tiles row ne = lay.rows
  Layout-Tiles column ne = lay.cols
  Layout-Tiles empty ne = absurd (ne refl)

  lay_ordered :
      (env.arch_info.d_value_addr_start ≤ env.arch_info.a_row_addr_start)
      × (env.arch_info.a_row_addr_start ≤ env.arch_info.a_col_addr_start)
      × (env.arch_info.a_col_addr_start ≤ env.arch_info.xw_ele_addr_start)
  lay_ordered = (
    Tiles-le value _ _ env.data_index lay.values,
    Tiles-le row _ _ env.data_index lay.rows,
    Tiles-le column _ _ env.data_index lay.cols,
  )

  type_of_area :
      (t : RType) (a : ℕ)
      → t ≢ empty
      → area_lo env.arch_info t ≤ a
      → a < area_hi env.arch_info t
      → (type_of env.arch_info a ≡ t)
        × (env.arch_info.d_value_addr_start ≤ a)
        × (a < env.arch_info.xw_ele_addr_start)
  unfolding type_of
  type_of_area value a ne p q = ground (arith, lay_ordered)
  type_of_area row a ne p q = ground (arith, lay_ordered)
  type_of_area column a ne p q = ground (arith, lay_ordered)
  type_of_area empty a ne p q = absurd (ne refl)

  area_of :
      (a : ℕ)
      → env.arch_info.d_value_addr_start ≤ a
      → a < env.arch_info.xw_ele_addr_start
      → (t : RType) × (t ≢ empty) × (area_lo env.arch_info t ≤ a) × (a < area_hi env.arch_info t)
  area_of a p q = elim (dec_lt a env.arch_info.a_row_addr_start) [
    | yes v ↦ (value, (λ e. cc), p, v)
    | no nv ↦ elim (dec_lt a env.arch_info.a_col_addr_start) [
      | yes r ↦ (row, (λ e. cc), omega arith, r)
      | no nr ↦ (column, (λ e. cc), omega arith, q)
    ]
  ]

  -- On the mapped layout, a line in the range of engine `k` for its kind is counted when it comes
  -- back and put at the end of the queue of engine `k`, under its own kind; nothing else changes.
  pub read_callback-routes :
      (m : Memory) (t : RType) (a k : ℕ) (d : DataIndex) (q : List RType)
      → t ≢ empty
      → get_elem? env.data_index k ≡ some d
      → begin t d ≤ a
      → a < end t d
      → get_elem? m.rq k ≡ some q
      → read_callback env m a
        ≡ some (record m {
          ms = record (m.ms) { g_access = add64 m.ms.g_access 1 };
          rq = set m.rq k (q ++ t ∷ []);
        })
  unfolding read_callback graph_complete
  read_callback-routes m t a k d q ne found p r queue =
      let within = Tiles-within t _ _ env.data_index k d (Layout-Tiles t ne) found in
      let area = type_of_area t a ne (omega (arith, within)) (omega (arith, within)) in
      let engine =
        find_engine_lem t a _ _ 0 env.data_index k d (Layout-Tiles t ne) found
          (in_range_of t a d ne p r) in
      ground (arith, area, engine, lay.engines, queue)

  -- On the mapped layout, with a queue for each engine, `ReadCompleteCallback` is defined at every
  -- address: no answer of the simulator makes it use an unset `id` or an engine that is not there.
  -- The number of engine queues stays.
  pub read_callback-defined :
      (m : Memory) (a : ℕ)
      → length m.rq ≡ env.arch_info.n_of_engine
      → (m' : Memory) × (read_callback env m a ≡ some m') × (length m'.rq ≡ length m.rq)
  unfolding read_callback feature_complete
  read_callback-defined m a n = elim (dec_lt a env.arch_info.d_value_addr_start) [
    | yes low ↦ (m, ground (arith, lay_ordered), refl)
    | no above ↦ elim (dec_lt a env.arch_info.xw_ele_addr_start) [
      | yes graph ↦
          let (t, ne, p, q) = area_of a (omega arith) graph in
          let (k, d, found, begins, ends) =
            Tiles-cover t a _ _ env.data_index (Layout-Tiles t ne) p q in
          let (queue, there) =
            get_elem?_total m.rq k
              (omega (arith, n, lay.engines, get_elem?_lt env.data_index k d found)) in
          (
            _,
            read_callback-routes m t a k d queue ne found begins ends there,
            length-set m.rq k (queue ++ t ∷ []),
          )
      | no feature ↦ (feature_complete m a, ground arith, refl)
    ]
  ]
