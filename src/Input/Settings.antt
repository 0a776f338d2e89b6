-- ===== src/Input/Settings.antt =====
-- The members of `arch_info` and `data_info` that the options and the configuration set, each an
-- `int` as it was read, with the log and the names of the files, and the arithmetic of `int`: a
-- result out of its range, and a division by zero, are undefined.
use sgcn.Base.{ℕ, ◌+◌, ◌*◌, ◌/◌, Bool, List, ltb, if◌then◌else◌}
use sgcn.Base.Int.{ℤ, pos, negsuc, is_zero}
use sgcn.Common.{FMode, GnnMode, FPath, LogInfo}
use sgcn.Input.Number.{int_mod, negate}
use sgcn.Input.Result.{undefined, Result, ok, err}

pub record Settings : Type 0 where
  pub cache_size : ℤ
  pub cache_way : ℤ
  pub cache_set : ℤ
  pub n_of_engine : ℤ
  pub bf : ℤ
  pub lac_width : ℤ
  pub x_unit : ℤ
  pub n_tiles : ℤ
  pub mode : FMode
  pub gnn_mode : GnnMode
  pub mem_type : List ℕ
  pub d_value_addr_start : ℕ
  pub f_path : FPath
  pub log : LogInfo

unfoldable pub in_range : ℤ → Bool
in_range (pos n) = ltb n int_mod
in_range (negsuc n) = ltb n int_mod

unfoldable pub checked : ℤ → Result ℤ
checked z = if in_range z then ok z else err undefined

unfoldable pub product : ℤ → ℕ → ℤ
product (pos m) n = pos (m * n)
product (negsuc m) n = negate ((m + 1) * n)

-- `a * n`
unfoldable pub times : ℤ → ℕ → Result ℤ
times a n = checked (product a n)

-- Towards zero.
unfoldable pub truncated : ℤ → ℤ → ℤ
truncated (pos a) (pos b) = pos (a / b)
truncated (pos a) (negsuc b) = negate (a / (b + 1))
truncated (negsuc a) (pos b) = negate ((a + 1) / b)
truncated (negsuc a) (negsuc b) = pos ((a + 1) / (b + 1))

-- `a / b`
unfoldable pub over : ℤ → ℤ → Result ℤ
over a b = if is_zero b then err undefined else checked (truncated a b)
