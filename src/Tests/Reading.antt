-- ===== src/Tests/Reading.antt =====
-- The numbers, the configuration and the files that are read.
use sgcn.Base.{◌≡◌, refl, true, false, some, List, [], ◌∷◌, arith}
use sgcn.Base.Int.{ℤ, pos, negsuc}
use sgcn.Input.Files.{numbers, read_graph, read_davc}
use sgcn.Input.Files.Chosen.{IsAscending, IsChosen, read_davc-IsChosen}
use sgcn.Input.Files.Print.{graph_text, read_graph-graph_text}
use sgcn.Input.Lines.{cut, after, getline, pieces}
use sgcn.Input.Number.{
  is_space, skip_spaces, read_sign, digit_value, scan, digits, to_int, read_int, stoi, prefixed,
  stoull,
}
use sgcn.Input.Number.Print.{IsInt}
use sgcn.Input.Result.{ok, err, invalid_argument, out_of_range}
use sgcn.Input.Table.{codes, around, entry, has, unquoted}
use sgcn.Preprocessor.Split.{is_prefix, break_at}

-- What stands behind the digits is ignored.
signed : stoi (codes " -12abc") ≡ ok (negsuc 11)
unfolding stoi skip_spaces is_space read_sign digits scan digit_value read_int to_int
signed = refl

no_digits : stoi (codes "x1") ≡ err invalid_argument
unfolding stoi skip_spaces is_space read_sign digits scan digit_value read_int to_int
no_digits = refl

largest : stoi (codes "2147483647") ≡ ok (pos 2147483647)
unfolding stoi skip_spaces is_space read_sign digits scan digit_value read_int to_int
largest = refl

too_large : stoi (codes "2147483648") ≡ err out_of_range
unfolding stoi skip_spaces is_space read_sign digits scan digit_value read_int to_int
too_large = refl

smallest : stoi (codes "-2147483648") ≡ ok (negsuc 2147483647)
unfolding stoi skip_spaces is_space read_sign digits scan digit_value read_int to_int
smallest = refl

in_base_16 : stoull (codes "0x1F") ≡ ok 31
unfolding stoull prefixed skip_spaces is_space read_sign digits scan digit_value
in_base_16 = refl

in_base_8 : stoull (codes "017") ≡ ok 15
unfolding stoull prefixed skip_spaces is_space read_sign digits scan digit_value
in_base_8 = refl

-- A line without a delimiter is both its key and its value.
undelimited : entry (codes "BF") ≡ (codes "BF", codes "BF")
unfolding entry around break_at is_prefix
undelimited = refl

spare : entry (codes "BF=8") ≡ (codes "BF", codes "8")
unfolding entry around break_at is_prefix
spare = refl

quoted : unquoted (codes "\"KB\"") ≡ codes "KB"
unfolding unquoted has
quoted = refl

-- The first line without a newline is read twice.
one_line : read_graph (some (codes "0 1")) ≡ ok (pos 0 ∷ pos 1 ∷ [], pos 0 ∷ pos 1 ∷ [])
unfolding read_graph getline after cut numbers pieces stoi skip_spaces is_space read_sign digits
    scan digit_value read_int to_int
one_line = refl

-- Two spaces, and the empty piece between them is no number.
two_spaces : numbers (codes "1  2") ≡ err invalid_argument
unfolding numbers pieces stoi skip_spaces is_space read_sign digits scan digit_value read_int to_int
two_spaces = refl

read_graph-graph_text_example :
    read_graph (some (graph_text true false (pos 0 ∷ pos 2 ∷ []) (pos 0 ∷ pos 1 ∷ []) []))
    ≡ ok (pos 0 ∷ pos 2 ∷ [], pos 0 ∷ pos 1 ∷ [])
unfolding IsInt
read_graph-graph_text_example =
    read_graph-graph_text true false (pos 0 ∷ pos 2 ∷ []) (pos 0 ∷ pos 1 ∷ []) []
      (omega arith, (omega arith, tt)) (omega arith, (omega arith, tt))

chosen_before : IsAscending []
unfolding IsAscending
chosen_before = tt

three_numbers :
    numbers (getline (record { rest = codes "5 2 5"; good = true }) []).1
    ≡ ok (pos 5 ∷ pos 2 ∷ pos 5 ∷ [])
unfolding getline after cut numbers pieces stoi skip_spaces is_space read_sign digits scan
    digit_value read_int to_int
three_numbers = refl

read_davc-IsChosen_example :
    (s' : List ℤ) × (read_davc (codes "d") (some (codes "5 2 5")) [] ≡ ok s')
    × IsChosen (pos 5 ∷ pos 2 ∷ pos 5 ∷ []) [] s'
read_davc-IsChosen_example =
    read_davc-IsChosen b'd' [] (codes "5 2 5") (pos 5 ∷ pos 2 ∷ pos 5 ∷ []) [] three_numbers
      chosen_before
