-- ===== src/Input/Table.antt =====
-- The table of the configuration: `ReadIni`, `Contain`, `GetString`, `GetInt` and `GetUint64` of
-- src/preprocessor.cc. A `map` is an association list.
pub mod Laws
pub mod Ini
use Prim.Native.Char.{code}
use Prim.Native.String.{String}
use sgcn.Base.{
  ℕ, ◌-◌, Bool, true, false, ◌&&◌, ◌||◌, Option, none, some, List, [], ◌∷◌, ◌==◌, if◌then◌else◌,
  length, take, drop,
}
use sgcn.Base.Int.{ℤ}
use sgcn.Input.Lines.{pieces}
use sgcn.Input.Number.{stoi, stoull}
use sgcn.Input.Result.{invalid_argument, Result, ok, err}
use sgcn.Preprocessor.Split.{break_at}

-- The codes of a literal. `String` has its own `[]` and `∷`.
abbrev pub codes : String → List ℕ
codes String.[] = []
codes (String.◌∷◌ c s) = code c ∷ codes s

abbrev pub Text : Type 0
Text = List ℕ

-- `==` of two strings
unfoldable pub same : Text → Text → Bool
same [] [] = true
same [] (d ∷ t) = false
same (c ∷ s) [] = false
same (c ∷ s) (d ∷ t) = c == d && same s t

abbrev pub Table : Type 0
Table = List (Text × Text)

unfoldable pub lookup : Text → Table → Option Text
lookup k [] = none
lookup k ((j, v) ∷ m) = let rest = lookup k m in if same j k then some v else rest

-- `m_table[k] = v`
unfoldable pub insert : Text → Text → Table → Table
insert k v [] = (k, v) ∷ []
insert k v ((j, w) ∷ m) = let rest = insert k v m in if same j k then (j, v) ∷ m else (j, w) ∷ rest

-- The text before the delimiter and behind it, or another pair if it is not found.
unfoldable pub around : Text × Option Text → Text × Text → Text × Text
around (before, none) other = other
around (before, some behind) other = (before, behind)

-- The two tokens of a line. Without a delimiter `find` answers `npos`: the first token is then the
-- whole line, and, since `npos` + 1 wraps around to 0, so is the second.
unfoldable pub entry : Text → Text × Text
entry line = around (break_at (codes " = ") line) (around (break_at (codes "=") line) (line, line))

-- The loop over the lines.
unfoldable pub read_lines : List Text → Table → Table
read_lines [] table = table
read_lines (line ∷ lines) table = read_lines lines (insert (entry line).0 (entry line).1 table)

-- `none` is a file that cannot be opened.
unfoldable pub read_ini : Option Text → Table → Result Table
read_ini none table = err invalid_argument
read_ini (some file) table = ok (read_lines (pieces b'\n' file) table)

unfoldable pub contain : Text → Table → Bool
contain name table = elim (lookup name table) [ none ↦ false | some value ↦ true ]

unfoldable pub has : ℕ → Text → Bool
has c [] = false
has c (d ∷ s) = d == c || has c s

-- The quotes are cut off.
unfoldable pub unquoted : Text → Text
unquoted value = if has b'"' value then take (length value - 2) (drop 1 value) else value

unfoldable pub get_string : Text → Table → Result Text
get_string name table = elim (lookup name table) [
  | none ↦ err invalid_argument
  | some value ↦ ok (unquoted value)
]

unfoldable pub get_int : Text → Table → Result ℤ
get_int name table = elim (lookup name table) [
  | none ↦ err invalid_argument
  | some value ↦ stoi value
]

unfoldable pub get_uint64 : Text → Table → Result ℕ
get_uint64 name table = elim (lookup name table) [
  | none ↦ err invalid_argument
  | some value ↦ stoull value
]
