-- ===== src/Tests/Whole.antt =====
-- The whole way of the graph of four vertices: preprocessed, and read by the second engine.
use sgcn.Base.{◌≡◌, ◌<◌, refl, some, [], ◌∷◌, arith, length}
use sgcn.Base.Int.{pos}
use sgcn.Common.{Env}
use sgcn.Float.{round_nearest, scale_up, scale_down, round, of_int, div, ceil, ceil_quot}
use sgcn.GraphReader.{init}
use sgcn.GraphReader.Run.{IsEdge}
use sgcn.Pipeline.{ready, preprocess-run}
use sgcn.Preprocessor.AddressMapping.{
  frags, place, lay_area, map_graph, map_cols, map_rows, map_folds, map_features, address_mapping,
}
use sgcn.Preprocessor.Csr.{columns, read_range, zero_rows}
use sgcn.Preprocessor.Lac.{chosen_width, lac_index, deal_row, deal_rows, count_rows, count_all, lac}
use sgcn.Preprocessor.Lac
use sgcn.Preprocessor.Lac.Shares.{IsGraph, share}
use sgcn.Preprocessor.Load.{no_index, sum_writes, preprocess}
use sgcn.Preprocessor.Tiling.{tiling}
use sgcn.Preprocessor.TransXw.{trans_row, row_of, trans_rows, trans_mode, trans_xw}
use sgcn.Tests.Example.{vertices, raw, laid}
use sgcn.Tests.Graph.{start, two_passed, two_edges, first_edge, second_edge}

-- Before the constructor has made the ranges.
abbrev read : Env
read = record raw { data_index = [] }

prepared : preprocess (λ i. pos 0) [] read ≡ some (laid, 6)
unfolding preprocess lac chosen_width Lac.init deal_rows deal_row lac_index read_range count_all
    count_rows zero_rows tiling trans_xw trans_mode trans_rows row_of trans_row address_mapping
    map_graph lay_area place frags map_features map_folds map_rows map_cols sum_writes no_index
    ceil_quot div of_int round ceil scale_up scale_down round_nearest
prepared = refl

read-IsGraph : IsGraph (ready read) vertices
unfolding no_index
read-IsGraph = record { pointers = refl; indices = refl; engines = omega arith; indexed = refl }

width : chosen_width (pos 1) 4 1 2 ≡ some (pos 1)
unfolding chosen_width
width = refl

some_rows : 0 < length (share 1 2 1 0 vertices)
unfolding share
some_rows = omega arith

starts : init laid 1 ≡ some start
unfolding init
starts = refl

preprocess-run_example : IsEdge (columns (share 1 2 1 0 vertices)) 1 1 second_edge
preprocess-run_example =
    preprocess-run (λ i. pos 0) [] read laid 6 vertices 0 1 read-IsGraph width refl prepared
      (omega arith) some_rows start two_passed (first_edge ∷ second_edge ∷ []) starts two_edges 1
      second_edge refl
