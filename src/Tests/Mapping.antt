-- ===== src/Tests/Mapping.antt =====
-- The features of the graph of four vertices, laid out behind the graph: two lines a row, in two
-- blocks, but the second line of the third row is left out.
use sgcn.Base.{zero, suc, ◌+◌, ◌*◌, ◌≡◌, refl, inr, some, List, [], ◌∷◌, arith}
use sgcn.Base.Int.{ℤ, pos}
use sgcn.Common.{Env, x_cmp}
use sgcn.Float.{round_nearest, scale_up, scale_down, round, of_int, div, ceil, ceil_quot}
use sgcn.Preprocessor.AddressMapping.{Grid, frags, place, lay_area, map_graph, address_mapping}
use sgcn.Preprocessor.AddressMapping.Columns.{IsGrid}
use sgcn.Preprocessor.AddressMapping.Features.{AreBlocks, Everywhere, address_mapping-AreLaid}
use sgcn.Preprocessor.AddressMapping.Places.{AreLaid}
use sgcn.Preprocessor.Load.{no_index}
use sgcn.Preprocessor.TransXw.{trans_xw}
use sgcn.Preprocessor.TransXw.Shape.{HasRows, blocks_of, trans_xw-IsGrid}
use sgcn.Tests.Example.{dealt, arch, info, first_range, second_range}

abbrev kept : Grid
kept = (1 ∷ 1 ∷ []) ∷ (1 ∷ 1 ∷ []) ∷ (1 ∷ 0 ∷ []) ∷ (1 ∷ 1 ∷ []) ∷ []

abbrev shaped : Env
shaped = record dealt { x_to_addr = kept }

kept-IsGrid : IsGrid 4 2 kept
kept-IsGrid zero zero hj hc = (1, refl)
kept-IsGrid zero (suc zero) hj hc = (1, refl)
kept-IsGrid (suc zero) zero hj hc = (1, refl)
kept-IsGrid (suc zero) (suc zero) hj hc = (1, refl)
kept-IsGrid (suc (suc zero)) zero hj hc = (1, refl)
kept-IsGrid (suc (suc zero)) (suc zero) hj hc = (0, refl)
kept-IsGrid (suc (suc (suc zero))) zero hj hc = (1, refl)
kept-IsGrid (suc (suc (suc zero))) (suc zero) hj hc = (1, refl)
kept-IsGrid (suc (suc (suc (suc j)))) c hj hc = absurd (omega (arith, hj))
kept-IsGrid j (suc (suc c)) hj hc = absurd (omega (arith, hc))

two_blocks : AreBlocks 1 2 2
two_blocks = record { cover = omega arith; starts = λ t h. omega (arith, h) }

abbrev graph_laid : Env
graph_laid = record shaped {
  arch_info = record arch {
    a_row_addr_start = 128;
    a_col_addr_start = 256;
    xw_ele_addr_start = 384;
  };
  data_index =
      record first_range { row = 0; zero_row = 0; total_write = 0 }
      ∷ record second_range { row = 0; zero_row = 0; total_write = 0 }
      ∷ [];
}

graph_runs : map_graph shaped ≡ some (graph_laid, 384)
unfolding map_graph lay_area place frags ceil_quot div of_int round ceil scale_up scale_down
    round_nearest no_index
graph_runs = refl

address_mapping-AreLaid_example :
    (env' : Env) × (address_mapping shaped ≡ some env')
    × (env'.arch_info.xw_ele_addr_start ≡ 384)
    × (env'.arch_info.axw_addr_start ≡ 384 + 4 * 2 * 64)
    × AreLaid 4 2 Everywhere 384 env'.arch_info.axw_addr_start kept env'.x_to_addr
address_mapping-AreLaid_example =
    address_mapping-AreLaid shaped graph_laid 384 (inr refl) kept-IsGrid two_blocks graph_runs
      (omega arith)

-- Two rows of three columns under X_CMP, in blocks of two.
abbrev columns : Env
columns = record dealt {
  arch_info = record arch { mode = x_cmp; x_unit = 2 };
  data_info = record info { x_h = 2; x_w = 3 };
  data_index = first_range ∷ second_range ∷ [];
}

abbrev matrix : List (List ℤ)
matrix = (pos 1 ∷ pos 0 ∷ pos 2 ∷ []) ∷ (pos 0 ∷ pos 0 ∷ pos 1 ∷ []) ∷ []

matrix-HasRows : HasRows matrix 2 3
matrix-HasRows zero h = (pos 1 ∷ pos 0 ∷ pos 2 ∷ [], refl, omega arith)
matrix-HasRows (suc zero) h = (pos 0 ∷ pos 0 ∷ pos 1 ∷ [], refl, omega arith)
matrix-HasRows (suc (suc k)) h = absurd (omega (arith, h))

trans_xw-IsGrid_example :
    (env' : Env) × (trans_xw (λ i. pos 7) matrix columns ≡ some env')
    × (env'.arch_info.bf ≡ blocks_of columns)
    × (env'.data_info.x_h ≡ 2)
    × IsGrid env'.data_info.x_h env'.data_info.total_urb env'.x_to_addr
    × AreBlocks env'.arch_info.urb env'.arch_info.bf env'.data_info.total_urb
trans_xw-IsGrid_example =
    trans_xw-IsGrid (λ i. pos 7) matrix columns refl (omega arith) (omega arith) (omega arith)
      (omega arith) matrix-HasRows (omega arith)
