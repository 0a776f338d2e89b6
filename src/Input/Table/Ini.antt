-- ===== src/Input/Table/Ini.antt =====
-- `ReadIni` on the print of a list of settings.
use sgcn.Base.{◌≡◌, refl, Option, some, List, [], ◌∷◌, ◌++◌, map, arith, if◌then◌else◌}
use sgcn.Input.Lines.Pieces.{Free-append, Free, AllFree, ended, pieces-ended}
use sgcn.Input.Result.{ok}
use sgcn.Input.Table.{codes, Text, Table, same, lookup, insert, around, entry, read_lines, read_ini}
use sgcn.Input.Table.Laws.{lookup-insert}
use sgcn.Preprocessor.Split.{is_prefix, break_at}

-- What `k` is set to by the last of these settings that names it, or else `before`.
unfoldable pub last_value : Text → List (Text × Text) → Option Text → Option Text
last_value k [] before = before
last_value k ((j, v) ∷ ss) before = last_value k ss (if same j k then some v else before)

pub lookup-read_lines :
    (k : Text) (lines : List Text) (table : Table)
    → lookup k (read_lines lines table) ≡ last_value k (map entry lines) (lookup k table)
unfolding read_lines last_value
lookup-read_lines k [] table = refl
lookup-read_lines k (line ∷ lines) table =
    let (key, value) = entry line in
    rw (lookup-read_lines k lines (insert key value table), lookup-insert key k value table) refl

unfoldable pub line_of : Text × Text → Text
line_of (k, v) = k ++ codes " = " ++ v

-- A setting that a line can hold: no newline in it, and no `=` in its key.
abbrev pub IsSetting : Text × Text → Type 0
IsSetting (k, v) = Free b'=' k × Free b'\n' k × Free b'\n' v

abbrev pub AllSettings : List (Text × Text) → Type 0
AllSettings [] = Unit {0}
AllSettings (s ∷ ss) = IsSetting s × AllSettings ss

break_at-setting :
    (k v : Text) → Free b'=' k → break_at (codes " = ") (k ++ codes " = " ++ v) ≡ (k, some v)
unfolding break_at is_prefix
break_at-setting [] v h = refl
break_at-setting (c ∷ []) v h = ground arith
break_at-setting (c ∷ d ∷ k) v (h₁, (h₂, h)) =
    ground (arith, h₁, h₂, break_at-setting (d ∷ k) v (h₂, h))

entry-line_of : (k v : Text) → Free b'=' k → entry (line_of (k, v)) ≡ (k, v)
unfolding line_of entry around
entry-line_of k v h = rw (break_at-setting k v h) refl

line_of-Free : (k v : Text) → Free b'\n' k → Free b'\n' v → Free b'\n' (line_of (k, v))
unfolding line_of
line_of-Free k v hk hv =
    let delimiter : Free b'\n' (codes " = ") = (omega arith, (omega arith, (omega arith, tt))) in
    Free-append b'\n' (k ++ codes " = ") v (Free-append b'\n' k (codes " = ") hk delimiter) hv

-- The file that holds the settings, a line each.
unfoldable pub ini_text : List (Text × Text) → Text
ini_text ss = ended b'\n' (map line_of ss)

lines-AllFree : (ss : List (Text × Text)) → AllSettings ss → AllFree b'\n' (map line_of ss)
lines-AllFree [] h = tt
lines-AllFree ((k, v) ∷ ss) ((hk, hn, hv), h) = (line_of-Free k v hn hv, lines-AllFree ss h)

entries_back : (ss : List (Text × Text)) → AllSettings ss → map entry (map line_of ss) ≡ ss
entries_back [] h = refl
entries_back ((k, v) ∷ ss) ((hk, hn, hv), h) = rw (entry-line_of k v hk, entries_back ss h) refl

-- Settings that are written a line each, as `key = value`, are read back by `ReadIni`: afterwards a
-- key has the value that the last of them that names it gives it, and the value that it had before
-- if none does. No key and no value holds a newline, and no key an equals sign.
pub read_ini-last_value :
    (ss : List (Text × Text)) (table : Table)
    → AllSettings ss
    → (table' : Table) × (read_ini (some (ini_text ss)) table ≡ ok table')
      × ((k : Text) → lookup k table' ≡ last_value k ss (lookup k table))
unfolding read_ini ini_text
read_ini-last_value ss table h = (
  read_lines (map line_of ss) table,
  rw (pieces-ended b'\n' (map line_of ss) (lines-AllFree ss h)) refl,
  λ k. rw (lookup-read_lines k (map line_of ss) table, entries_back ss h) refl,
)
