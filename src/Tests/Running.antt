-- ===== src/Tests/Running.antt =====
-- A whole run: from the options and the text of the files to the log, with a simulator that answers
-- every request at its next tick.
use sgcn.Base.{ℕ, Bool, true, false, none, some, List, [], ◌∷◌, ◌++◌, ◌≡◌, map, refl}
use sgcn.Base.Int.{pos}
use sgcn.Common.{FPath, LogInfo}
use sgcn.Input.Options.{Answer, found, initial, get_options}
use sgcn.Controller.{Engines}
use sgcn.Input.Program.{Files, Built, construct, run_main}
use sgcn.Input.Program.Ended.{IsLogged, run_main-IsLogged}
use sgcn.Input.Settings.{Settings}
use sgcn.Input.Result.{ok}
use sgcn.Input.Table.{codes, Text}
use sgcn.Memory.{Dram, Completion, read_complete, write_complete}

abbrev completion : ℕ × Bool → Completion
completion (a, true) = write_complete a
completion (a, false) = read_complete a

abbrev ideal : Dram
ideal = record {
  State = List (ℕ × Bool);
  will_accept = λ s a w. true;
  add = λ s a w. s ++ (a, w) ∷ [];
  clock_tick = λ s. ([], map completion s);
}

abbrev answers : List Answer
answers = found b'a' (codes "g.txt") ∷ found b'm' (codes "1") ∷ found b'l' (codes "1") ∷ []

abbrev disk : FPath → Files
disk p = record {
  ini = some (
      codes
        "CacheSize = 1\nUnitSize = KB\nCacheWay = 2\n\nNumberOfEngine = 2\nBF = 2\nMemoryType = m/HBM2_8Gb.ini\n");
  a_data = some (codes "0 1 3 3 4\n1 0 2 3\n");
  xw_data = some (codes "0 0 0 0 0 0 0 0 0 0 0 0 0 0 0 0 0 0 0 0 0 0 0 0 0 0 0 0 0 0 0 0\n");
  davc = none;
}

-- 11 cycles, in which 6 lines are written.
abbrev left : LogInfo
left = record {
  mode = pos 1;
  x_unit = pos 0;
  engine_n = pos 2;
  mem_type = codes "HBM2";
  cache_size = pos 0;
  dataset = codes "g";
  lac_width = pos 1;
  feature_length = 32;
  urb = 1;
  bf = pos 2;
  tiling_info = codes "1";
  cycle = 11;
  f_frag_access = 0;
  f_ele_access = 8;
  o_access = 6;
  g_access = 12;
}

run_ends : run_main ideal 60 (λ i. pos 0) [] answers disk ≡ ok left
unfolding sgcn.Float.round_nearest sgcn.Float.scale_up sgcn.Float.scale_down sgcn.Float.round
    sgcn.Float.of_int sgcn.Float.div sgcn.Float.ceil sgcn.Float.ceil_quot sgcn.Float.ceil_div
    sgcn.Float.ceil_div₂ sgcn.Cache.erase_at sgcn.Cache.init sgcn.Cache.find_set sgcn.Cache.way_from
    sgcn.Cache.find_way sgcn.Cache.insert_way sgcn.Cache.insert sgcn.Cache.touch_way
    sgcn.Cache.access sgcn.FeatureReader.init sgcn.FeatureReader.mode_change
    sgcn.FeatureReader.enter_f_to_list sgcn.FeatureReader.consume_pending_q
    sgcn.FeatureReader.is_requested sgcn.FeatureReader.insert_requested
    sgcn.FeatureReader.erase_requested sgcn.FeatureReader.request
    sgcn.FeatureReader.access_or_request sgcn.FeatureReader.push_fq sgcn.FeatureReader.set_stat
    sgcn.FeatureReader.index_of sgcn.FeatureReader.return_address sgcn.FeatureReader.end_edge
    sgcn.FeatureReader.is_block_end sgcn.FeatureReader.read_mat sgcn.FeatureReader.read_mode
    sgcn.FeatureReader.read_next sgcn.FeatureReader.receive_loop sgcn.FeatureReader.feature_receive
    sgcn.FeatureReader.after_pass sgcn.FeatureReader.pass_queue sgcn.FeatureReader.pass_f_to_simd
    sgcn.Preprocessor.AddressMapping.frags sgcn.Preprocessor.AddressMapping.place
    sgcn.Preprocessor.AddressMapping.lay_area sgcn.Preprocessor.AddressMapping.map_graph
    sgcn.Preprocessor.AddressMapping.map_cols sgcn.Preprocessor.AddressMapping.map_rows
    sgcn.Preprocessor.AddressMapping.map_folds sgcn.Preprocessor.AddressMapping.map_features
    sgcn.Preprocessor.AddressMapping.address_mapping sgcn.Preprocessor.Split.is_prefix
    sgcn.Preprocessor.Split.break_at sgcn.Preprocessor.Split.push_token
    sgcn.Preprocessor.Split.split_loop sgcn.Preprocessor.Split.split sgcn.Preprocessor.Tiling.tiling
    sgcn.Preprocessor.Load.read_data sgcn.Preprocessor.Load.sum_writes
    sgcn.Preprocessor.Load.preprocess sgcn.Preprocessor.Lac.chosen_width
    sgcn.Preprocessor.Lac.lac_index sgcn.Preprocessor.Lac.init sgcn.Preprocessor.Lac.deal_row
    sgcn.Preprocessor.Lac.deal_rows sgcn.Preprocessor.Lac.count_rows sgcn.Preprocessor.Lac.count_all
    sgcn.Preprocessor.Lac.lac sgcn.Preprocessor.Csr.read_range sgcn.Preprocessor.Csr.zero_rows
    sgcn.Preprocessor.TransXw.trans_row sgcn.Preprocessor.TransXw.row_of
    sgcn.Preprocessor.TransXw.trans_rows sgcn.Preprocessor.TransXw.trans_mode
    sgcn.Preprocessor.TransXw.trans_xw sgcn.Controller.make_engines sgcn.Controller.init
    sgcn.Controller.unless sgcn.Controller.pass_graph sgcn.Controller.graph_work
    sgcn.Controller.engine_step sgcn.Controller.engines_step sgcn.Controller.cycle_step
    sgcn.Controller.inference_loop sgcn.Controller.davc_read sgcn.Controller.gcn_inference
    sgcn.Simd.init sgcn.Simd.push_lines sgcn.Simd.end_row sgcn.Simd.get_feature sgcn.Simd.write
    sgcn.Memory.init sgcn.Memory.add_transaction sgcn.Memory.will_accept_transaction
    sgcn.Memory.get_graph sgcn.Memory.get_feature sgcn.Memory.in_range sgcn.Memory.find_engine
    sgcn.Memory.type_of sgcn.Memory.graph_complete sgcn.Memory.feature_complete
    sgcn.Memory.read_callback sgcn.Memory.write_callback sgcn.Memory.complete
    sgcn.Memory.complete_all sgcn.Memory.consume_loop sgcn.Memory.consume_transaction
    sgcn.Memory.update_cycle sgcn.GraphReader.init sgcn.GraphReader.next_vertex
    sgcn.GraphReader.vertex_request sgcn.GraphReader.next_edge sgcn.GraphReader.edge_request
    sgcn.GraphReader.moved sgcn.GraphReader.advance sgcn.GraphReader.receive_row
    sgcn.GraphReader.receive_column sgcn.GraphReader.receive_value sgcn.GraphReader.receive
    sgcn.GraphReader.note_received sgcn.GraphReader.graph_receive sgcn.GraphReader.skip_row
    sgcn.GraphReader.skip_rows sgcn.GraphReader.skip_fuel sgcn.GraphReader.next_row
    sgcn.GraphReader.no_edge sgcn.GraphReader.passed_over sgcn.GraphReader.wrap_cols
    sgcn.GraphReader.take_edge sgcn.GraphReader.has_edge sgcn.GraphReader.pass_edge
    sgcn.GraphReader.next_feature sgcn.Input.Settings.in_range sgcn.Input.Settings.checked
    sgcn.Input.Settings.product sgcn.Input.Settings.times sgcn.Input.Settings.truncated
    sgcn.Input.Settings.over sgcn.Input.Program.natural sgcn.Input.Program.begin
    sgcn.Input.Program.noted sgcn.Input.Program.construct sgcn.Input.Program.print_memory_stats
    sgcn.Input.Program.places sgcn.Input.Program.run_main sgcn.Input.Config.front
    sgcn.Input.Config.back sgcn.Input.Config.stem sgcn.Input.Config.cache_bytes
    sgcn.Input.Config.cache_shape sgcn.Input.Config.parse_ini sgcn.Input.Table.same
    sgcn.Input.Table.lookup sgcn.Input.Table.insert sgcn.Input.Table.around sgcn.Input.Table.entry
    sgcn.Input.Table.read_lines sgcn.Input.Table.read_ini sgcn.Input.Table.has
    sgcn.Input.Table.unquoted sgcn.Input.Table.get_string sgcn.Input.Table.get_int
    sgcn.Input.Options.label_of sgcn.Input.Options.to_mode sgcn.Input.Options.mode_number
    sgcn.Input.Options.on_label sgcn.Input.Options.get_option sgcn.Input.Options.initial
    sgcn.Input.Options.get_options sgcn.Input.Files.numbers sgcn.Input.Files.read_graph
    sgcn.Input.Files.read_matrix sgcn.Input.Files.naturals sgcn.Input.Files.read_files
    sgcn.Input.Files.read_davc sgcn.Input.Lines.cut sgcn.Input.Lines.after sgcn.Input.Lines.getline
    sgcn.Input.Lines.pieces sgcn.Input.Number.is_space sgcn.Input.Number.skip_spaces
    sgcn.Input.Number.read_sign sgcn.Input.Number.digit_value sgcn.Input.Number.scan
    sgcn.Input.Number.digits sgcn.Input.Number.to_int sgcn.Input.Number.read_int
    sgcn.Input.Number.stoi sgcn.Input.Number.Print.shown sgcn.Input.Number.Print.show_ℕ
    sgcn.Input.Number.Print.show_int
run_ends = refl

run_main-IsLogged_example :
    (s : Settings) × (built : Built) × (before : ℕ) × (n : ℕ) × (e : Engines) × (get_options answers
        initial
      ≡ ok s)
    × (construct (λ i. pos 0) (disk s.f_path) s ≡ ok built)
    × IsLogged ideal 60 [] built before n e left
run_main-IsLogged_example = run_main-IsLogged ideal 60 (λ i. pos 0) [] answers disk left run_ends
