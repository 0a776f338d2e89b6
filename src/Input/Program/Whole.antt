-- ===== src/Input/Program/Whole.antt =====
-- The constructor on files that were written in the forms that it reads.
use sgcn.Base.{ℕ, ◌<◌, ◌≡◌, refl, sym, subst, Bool, none, some, List, [], ◌∷◌, map}
use sgcn.Base.Int.{ℤ, pos}
use sgcn.Common.{Env}
use sgcn.Input.Config.Accepted.{IsConfig, bytes, configured, parse_ini-accepts}
use sgcn.Input.Files.{naturals, read_files, read_davc}
use sgcn.Input.Files.Print.{
  AllInts, AllRows, spaced, graph_text, read_graph-graph_text, read_matrix-rows,
}
use sgcn.Input.Lines.Pieces.{ended}
use sgcn.Input.Number.{int_mod}
use sgcn.Input.Program.{Files, begin, noted, construct}
use sgcn.Input.Result.{ok}
use sgcn.Input.Settings.{Settings}
use sgcn.Input.Table.{Text, lookup}
use sgcn.Input.Table.Ini.{AllSettings, ini_text, last_value, read_ini-last_value}
use sgcn.Preprocessor.Load.{read_data, preprocess}

naturals_back : (ns : List ℕ) → naturals (map pos ns) ≡ some ns
unfolding naturals
naturals_back [] = refl
naturals_back (n ∷ ns) = rw (naturals_back ns) refl

-- The files of a graph and of features, and no chosen vertices.
abbrev pub written : List (Text × Text) → Bool → List ℕ → List ℕ → List Text → List (List ℤ) → Files
written ss b ptr idx more rows = record {
  ini = some (ini_text ss);
  a_data = some (graph_text b b (map pos ptr) (map pos idx) more);
  xw_data = some (ended b'\n' (map (spaced b) rows));
  davc = none;
}

read_files-written :
    (b : Bool) (ptr idx : List ℕ) (more : List Text) (rows : List (List ℤ)) (env read : Env)
    → AllInts (map pos ptr)
    → AllInts (map pos idx)
    → AllRows rows
    → read_data ptr idx rows env ≡ some read
    → read_files
        (some (graph_text b b (map pos ptr) (map pos idx) more))
        (some (ended b'\n' (map (spaced b) rows)))
        env
      ≡ ok (rows, read)
unfolding read_files
read_files-written b ptr idx more rows env read h₁ h₂ h₃ e =
    rw
      (
        read_graph-graph_text b b (map pos ptr) (map pos idx) more h₁ h₂,
        read_matrix-rows b rows h₃,
        naturals_back ptr,
        naturals_back idx,
        e,
      )
      refl

no_davc : (s : List ℤ) → read_davc [] none s ≡ ok s
unfolding read_davc
no_davc s = refl

-- The constructor on a configuration, a graph and features that were each written in the form that
-- it reads: the settings a line each, the graph as its row pointers and its column indices, the
-- features a row each, and all entries printed as `int`s, those of the graph not negative. No key
-- has `=` or a newline in it, and no value a newline. The last values set are, for the size, the
-- ways, the engines and the blocks, in plain decimal, without sign, blank or leading zero, and
-- below 2 ^ 31, with ways not 0; for the unit and the memory they have no quotes, and the name of
-- the memory has a kind; the cache has fewer than 2 ^ 31 bytes. There is no file of chosen
-- vertices. If these settings, with the tiles and the unit of the options, give a start without
-- negative counts, and `ReadData` its sizes and the preprocessing a result, the constructor ends
-- with this result, and the log notes the settings and the sizes.
pub construct-written :
    (stray : ℕ → ℤ) (ss : List (Text × Text)) (trailing : Bool) (ptr idx : List ℕ)
    (more : List Text) (rows : List (List ℤ)) (s : Settings) (c w e b : ℕ) (unit path kind : Text)
    (start read mapped : Env) (total : ℕ)
    → AllSettings ss
    → IsConfig (λ k. last_value k ss none) c w e b unit path kind
    → bytes c unit < int_mod
    → AllInts (map pos ptr)
    → AllInts (map pos idx)
    → AllRows rows
    → s.f_path.davc_path ≡ []
    → begin (configured s c w e b unit path kind) ≡ ok start
    → read_data ptr idx rows start ≡ some read
    → preprocess stray rows read ≡ some (mapped, total)
    → construct stray (written ss trailing ptr idx more rows) s
      ≡ ok (record {
        env = mapped;
        total_write = total;
        davc_list = [];
        settings = noted (configured s c w e b unit path kind) read;
      })
unfolding construct lookup
construct-written stray ss trailing ptr idx more rows s c w e b unit path kind start read mapped
      total hs conf fits h₁ h₂ h₃ no_path begins reads maps =
    let (table, opens, found) = read_ini-last_value ss [] hs in
    let conf' : IsConfig (λ k. lookup k table) c w e b unit path kind =
      subst (λ f. IsConfig f c w e b unit path kind) (λ i k. sym (found k) i) conf in
    rw
      (
        opens,
        parse_ini-accepts table s c w e b unit path kind conf' fits,
        begins,
        read_files-written trailing ptr idx more rows start read h₁ h₂ h₃ reads,
        no_path,
        no_davc [],
        maps,
      )
      refl
