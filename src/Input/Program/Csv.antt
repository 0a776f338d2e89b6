-- ===== src/Input/Program/Csv.antt =====
-- The row that `main` of src/main.cc appends to the result table.
use sgcn.Base.{
  ℕ, ◌≡◌, List, [], ◌∷◌, ◌++◌, arith, add64, sub64, if◌then◌else◌, drop, Bool-cases, inl, inr,
}
use sgcn.Base.Int.{ℤ, pos, is_zero}
use sgcn.Common.{LogInfo}
use sgcn.Input.Lines.{pieces}
use sgcn.Input.Lines.Pieces.{Free, AllFree, ended, pieces-ended}
use sgcn.Input.Number.Print.{show_int, show_int-Free}
use sgcn.Input.Table.{codes, Text}

-- `csv_out << field << ","`, and what is written then.
unfoldable pub cell : Text → Text → Text
cell field rest = field ++ b',' ∷ rest

-- The accesses in all, and those to the features that are no fragments.
unfoldable pub total_access : LogInfo → ℕ
total_access log = add64 (add64 log.g_access log.f_ele_access) log.o_access

unfoldable pub whole_access : LogInfo → ℕ
whole_access log = sub64 log.f_ele_access log.f_frag_access

abbrev show_ℕ : ℕ → Text
show_ℕ n = show_int (pos n)

-- The unit is written under the first mode only.
unfoldable pub unit_cell : LogInfo → Text
unit_cell log = if is_zero log.mode then show_int log.x_unit else codes "-1"

-- `bandwidth` and `energy` are the prints of the two numbers of the simulator's result file.
unfoldable pub csv_row : LogInfo → Text → Text → Text
csv_row log bandwidth energy =
    b'\n'
    ∷ cell (show_int log.engine_n) (
        cell (show_int log.mode) (
          cell log.mem_type (
            cell (show_int log.cache_size) (
              cell log.tiling_info (
                cell (unit_cell log) (
                  cell log.dataset (
                    cell (show_int log.lac_width) (
                      cell (show_ℕ log.feature_length) (
                        cell (show_ℕ log.urb) (
                          cell (show_int log.bf) (
                            cell (show_ℕ log.cycle) (
                              cell (show_ℕ (total_access log)) (
                                cell (show_ℕ log.g_access) (
                                  cell (show_ℕ log.f_frag_access) (
                                    cell (show_ℕ (whole_access log)) (
                                      cell (show_ℕ log.o_access)
                                        (cell bandwidth (cell energy []))))))))))))))))))

-- The columns of the result table, in the order of its first row.
abbrev pub columns_of : LogInfo → Text → Text → List Text
columns_of log bandwidth energy =
    show_int log.engine_n
    ∷ show_int log.mode
    ∷ log.mem_type
    ∷ show_int log.cache_size
    ∷ log.tiling_info
    ∷ unit_cell log
    ∷ log.dataset
    ∷ show_int log.lac_width
    ∷ show_ℕ log.feature_length
    ∷ show_ℕ log.urb
    ∷ show_int log.bf
    ∷ show_ℕ log.cycle
    ∷ show_ℕ (total_access log)
    ∷ show_ℕ log.g_access
    ∷ show_ℕ log.f_frag_access
    ∷ show_ℕ (whole_access log)
    ∷ show_ℕ log.o_access
    ∷ bandwidth
    ∷ energy
    ∷ []

no_comma : (z : ℤ) → Free b',' (show_int z)
no_comma z = show_int-Free b',' (omega arith) z

count_no_comma : (n : ℕ) → Free b',' (show_ℕ n)
count_no_comma n = no_comma (pos n)

unit_cell-Free : (log : LogInfo) → Free b',' (unit_cell log)
unfolding unit_cell
unit_cell-Free log = elim (Bool-cases (is_zero log.mode)) [
  | inl e ↦ rw e (no_comma log.x_unit)
  | inr e ↦ rw e (omega arith, (omega arith, tt))
]

-- If no text in it holds a comma, the row is a line of its own, that `getline` with a comma cuts into
-- the 19 columns of the result table.
pub csv_row-columns :
    (log : LogInfo) (bandwidth energy : Text)
    → AllFree b',' (log.mem_type ∷ log.tiling_info ∷ log.dataset ∷ bandwidth ∷ energy ∷ [])
    → pieces b',' (drop 1 (csv_row log bandwidth energy)) ≡ columns_of log bandwidth energy
unfolding csv_row cell ended
csv_row-columns log bandwidth energy (m, (t, (d, (b, (e, _))))) =
    let all : AllFree b',' (columns_of log bandwidth energy) = (
      no_comma log.engine_n,
      (
        no_comma log.mode,
        (
          m,
          (
            no_comma log.cache_size,
            (
              t,
              (
                unit_cell-Free log,
                (
                  d,
                  (
                    no_comma log.lac_width,
                    (
                      count_no_comma log.feature_length,
                      (
                        count_no_comma log.urb,
                        (
                          no_comma log.bf,
                          (
                            count_no_comma log.cycle,
                            (
                              count_no_comma (total_access log),
                              (
                                count_no_comma log.g_access,
                                (
                                  count_no_comma log.f_frag_access,
                                  (
                                    count_no_comma (whole_access log),
                                    (count_no_comma log.o_access, (b, (e, tt))),
                                  ),
                                ),
                              ),
                            ),
                          ),
                        ),
                      ),
                    ),
                  ),
                ),
              ),
            ),
          ),
        ),
      ),
    ) in
    pieces-ended b',' (columns_of log bandwidth energy) all
