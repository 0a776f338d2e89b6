-- ===== src/Preprocessor/TransXw/Shape.antt =====
-- `TransXW` under X_CMP and MAT makes a grid of lines, a row each row of the features.
use native.Mathlib.Nat.{lt-div-mul-add, div-mul-le_self}
use sgcn.Base.{
  ℕ, zero, suc, ◌+◌, ◌-◌, ◌*◌, ◌/◌, ◌≤◌, ◌<◌, ◌≡◌, refl, sym, ap, ◌∙◌, some, List, [], ◌∷◌, arith,
  length, length-replicate, get_elem?, get_elem?_total, replicate, subst,
}
use sgcn.Base.Int.{ℤ, pos}
use sgcn.Common.{Env, ArchInfo, DataInfo, DataIndex, FMode, x_cmp, mat, cache_line_count}
use sgcn.Float.{ceil_quot, ceil_div, max_significand}
use sgcn.Float.Exact.{ceil_quot-exact}
use sgcn.Preprocessor.AddressMapping.{Grid}
use sgcn.Preprocessor.AddressMapping.Columns.{IsGrid}
use sgcn.Preprocessor.AddressMapping.Features.{AreBlocks}
use sgcn.Preprocessor.TransXw.{
  cmp_cols, row_of, trans_row, trans_rows, cmp_shape, cmp_writes, trans_mode, trans_xw,
}
use sgcn.Preprocessor.TransXw.Blocks.{cmp_cols-length}

abbrev AllLength : ℕ → Grid → Type 0
AllLength w [] = Unit {0}
AllLength w (r ∷ rs) = (length r ≡ w) × AllLength w rs

rows-IsGrid : (h w : ℕ) (xs : Grid) → length xs ≡ h → AllLength w xs → IsGrid h w xs
rows-IsGrid h w [] e all j c hj hc = absurd (omega (arith, e, hj))
rows-IsGrid h w (r ∷ rs) e (size, all) zero c hj hc = get_elem?_total r c (omega (arith, size, hc))
rows-IsGrid h w (r ∷ rs) e (size, all) (suc j) c hj hc =
    rows-IsGrid (length rs) w rs refl all j c (omega (arith, e, hj)) hc

-- The row of the matrix that is read, and the lines that are made of it.
abbrev RowYields : FMode → ArchInfo → DataInfo → (ℕ → ℤ) → List (List ℤ) → ℕ → ℕ → Type 0
RowYields mode arch info stray xw w i =
    (r : List ℤ) × (t : List ℕ) × (row_of mode (get_elem? xw i) ≡ some r)
    × (trans_row mode arch info (stray i) r ≡ some t)
    × (length t ≡ w)

trans_rows_total :
    (mode : FMode) (arch : ArchInfo) (info : DataInfo) (stray : ℕ → ℤ) (xw : List (List ℤ))
    (w n i : ℕ)
    → ((k : ℕ) → k < i + n → RowYields mode arch info stray xw w k)
    → (xs : Grid) × (trans_rows mode arch info stray xw i n ≡ some xs)
      × (length xs ≡ n)
      × AllLength w xs
unfolding trans_rows
trans_rows_total mode arch info stray xw w zero i h = ([], refl, refl, tt)
trans_rows_total mode arch info stray xw w (suc n) i h =
    let (r, t, read, made, size) = h i (omega arith) in
    let (xs, runs, count, all) =
      trans_rows_total mode arch info stray xw w n (suc i) λ k hk. h k (omega (arith, hk)) in
    (t ∷ xs, rw (read, made, runs) refl, omega (arith, count), (size, all))

-- A matrix with at least these rows and columns.
abbrev pub HasRows : List (List ℤ) → ℕ → ℕ → Type 0
HasRows xw x_h x_w = (k : ℕ) → k < x_h → (r : List ℤ) × (get_elem? xw k ≡ some r) × (x_w ≤ length r)

mat-RowYields :
    (arch : ArchInfo) (info : DataInfo) (stray : ℕ → ℤ) (xw : List (List ℤ)) (i : ℕ)
    → RowYields mat arch info stray xw (ceil_quot info.x_w cache_line_count) i
unfolding row_of trans_row
mat-RowYields arch info stray xw i =
    ([], replicate (ceil_quot info.x_w cache_line_count) 1, refl, refl, length-replicate _ _)

positive_factor : (bf u x : ℕ) → 0 < x → x ≤ bf * u → 0 < bf
positive_factor zero u x hx h = absurd (omega (arith, hx, h))
positive_factor (suc bf) u x hx h = omega arith

cmp-RowYields :
    (arch : ArchInfo) (info : DataInfo) (stray : ℕ → ℤ) (xw : List (List ℤ)) (i : ℕ)
    → 0 < arch.x_unit
    → 0 < info.x_w
    → info.x_w ≤ arch.bf * arch.x_unit
    → arch.bf * arch.x_unit < info.x_w + arch.x_unit
    → info.total_urb ≡ arch.bf * arch.urb
    → HasRows xw info.x_h info.x_w
    → i < info.x_h
    → RowYields x_cmp arch info stray xw info.total_urb i
unfolding row_of trans_row
cmp-RowYields arch info stray xw i unit wide up low total rows hi =
    let (r, at_r, long) = rows i hi in
    let some_block : 0 < arch.bf = positive_factor arch.bf arch.x_unit info.x_w wide up in
    let n = info.x_w - 1 in
    let (t, runs, size) =
      cmp_cols-length arch info some_block total r (stray i) (pos (ceil_quot arch.x_unit 32)) n 1 0
        0 arch.bf long (omega arith) unit (omega (arith, wide)) (omega (arith, up))
        (omega (arith, low)) in
    let whole : suc n ≡ info.x_w = omega (arith, wide) in
    let first = pos (ceil_quot arch.x_unit 32) in
    (
      r,
      t,
      at_r,
      subst (λ k. cmp_cols arch info r (stray i) 1 k first ≡ some t) whole runs,
      size ∙ sym total,
    )

-- Rounded up, and no more.
quotient_up : (x u : ℕ) → 0 < u → (x ≤ (x + u - 1) / u * u) × ((x + u - 1) / u * u < x + u)
quotient_up x u h =
    let y = x + u - 1 in
    let below = div-mul-le_self y u in
    let above = lt-div-mul-add {a = y} h in (omega (arith, above, h), omega (arith, below, h))

ceil_div-exact :
    (x u : ℕ)
    → x < max_significand
    → 0 < u
    → u < max_significand
    → ceil_div x u ≡ some ((x + u - 1) / u)
unfolding ceil_div
ceil_div-exact x u hx h hu = ground (arith, h, ceil_quot-exact x u hx h hu)

blocks_start : (t bf urb : ℕ) → t < bf → t * urb ≤ bf * urb
blocks_start t bf urb h = grind arith

cmp_writes_total :
    (total : ℕ) (ptrs : List (List ℕ)) (ds : List DataIndex)
    → length ptrs ≤ length ds
    → (ds' : List DataIndex) × (cmp_writes total ptrs ds ≡ some ds')
unfolding cmp_writes
cmp_writes_total total [] ds h = (ds, refl)
cmp_writes_total total (p ∷ ps) [] h = absurd (omega (arith, h))
cmp_writes_total total (p ∷ ps) (d ∷ ds) h =
    let (ds', runs) = cmp_writes_total total ps ds (omega (arith, h)) in
    (record d { total_write = (length p - 1 - d.zero_row) * total } ∷ ds', rw runs refl)

-- The blocks of X_CMP: as many as the columns need, of so many lines.
abbrev pub blocks_of : Env → ℕ
blocks_of env = (env.data_info.x_w + env.arch_info.x_unit - 1) / env.arch_info.x_unit

-- Under X_CMP, if the matrix has all its rows and columns, at least one of each block and each column,
-- fewer than 2 ^ 24, and each engine its record, then `TransXW` succeeds. It chooses as many blocks as
-- the columns need, and each row of the features gets a flag for each line of each block, so that the
-- blocks are what `AddressMapping` asks for.
pub trans_xw-IsGrid :
    (stray : ℕ → ℤ) (xw : List (List ℤ)) (env : Env)
    → env.arch_info.mode ≡ x_cmp
    → 0 < env.arch_info.x_unit
    → env.arch_info.x_unit < max_significand
    → 0 < env.data_info.x_w
    → env.data_info.x_w < max_significand
    → HasRows xw env.data_info.x_h env.data_info.x_w
    → length env.row_ptr ≤ length env.data_index
    → (env' : Env) × (trans_xw stray xw env ≡ some env')
      × (env'.arch_info.bf ≡ blocks_of env)
      × (env'.data_info.x_h ≡ env.data_info.x_h)
      × IsGrid env'.data_info.x_h env'.data_info.total_urb env'.x_to_addr
      × AreBlocks env'.arch_info.urb env'.arch_info.bf env'.data_info.total_urb
unfolding trans_xw trans_mode cmp_shape
trans_xw-IsGrid stray xw env mode unit unit_fits wide wide_fits rows records =
    let u = env.arch_info.x_unit in
    let x_w = env.data_info.x_w in
    let bf = blocks_of env in
    let urb = ceil_quot u cache_line_count in
    let exact : ceil_div x_w u ≡ some bf = ceil_div-exact x_w u wide_fits unit unit_fits in
    let arch = record (env.arch_info) { urb = urb; bf = bf } in
    let info = record (env.data_info) { total_urb = bf * urb } in
    let (up, low) = quotient_up x_w u unit in
    let (xs, runs, count, all) =
      trans_rows_total x_cmp arch info stray xw (bf * urb) info.x_h 0
        λ k hk. cmp-RowYields arch info stray xw k unit wide up low refl rows (omega (arith, hk)) in
    let (ds, writes) = cmp_writes_total (bf * urb) env.row_ptr env.data_index records in
    let shaped : Env = record env { arch_info = arch; data_info = info } in
    let shapes : cmp_shape env ≡ some shaped = rw exact refl in
    let made : trans_mode x_cmp stray xw env
        ≡ some (record shaped { data_index = ds; x_to_addr = xs }) =
      rw (shapes, runs, writes) refl in
    (
      record env { arch_info = arch; data_info = info; data_index = ds; x_to_addr = xs },
      ap (λ m. trans_mode m stray xw env) mode ∙ made,
      refl,
      refl,
      rows-IsGrid info.x_h (bf * urb) xs count all,
      record { cover = omega arith; starts = λ t h. blocks_start t bf urb h },
    )
