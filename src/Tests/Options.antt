-- ===== src/Tests/Options.antt =====
-- Options on the command line, and what the result table gets.
use sgcn.Base.{◌≡◌, refl, Bool, false, none, some, List, [], ◌∷◌, arith, ℕ}
use sgcn.Base.Int.{pos}
use sgcn.Common.{mat}
use sgcn.Input.Config.{front, back, stem}
use sgcn.Input.Number.{
  is_space, skip_spaces, read_sign, digit_value, scan, digits, to_int, read_int, stoi,
}
use sgcn.Input.Number.Print.{shown, show_ℕ, show_int}
use sgcn.Input.Options.{
  Answer, found, refused, label_of, to_mode, mode_number, on_label, may_lack, get_option, initial,
  get_options,
}
use sgcn.Input.Options.Last.{IsLeft, given, nothing, get_options-IsLeft, unit_not_logged}
use sgcn.Input.Program.Folder.{result_path, find_folder, IsFirst, find_folder-IsFirst}
use sgcn.Input.Result.{ok, err, exited}
use sgcn.Input.Settings.{Settings}
use sgcn.Input.Table.{codes, Text, same}
use sgcn.Preprocessor.Split.{is_prefix, break_at, push_token, split_loop, split}

-- `-m 0 -a d/cora.txt -m 1 -l 1`
abbrev pub answers : List Answer
answers =
    found b'm' (codes "0")
    ∷ found b'a' (codes "d/cora.txt")
    ∷ found b'm' (codes "1")
    ∷ found b'l' (codes "1")
    ∷ []

abbrev pub chosen : Settings
unfolding initial
chosen = record initial {
  mode = mat;
  lac_width = pos 1;
  f_path = record (initial.f_path) { a_data = codes "d/cora.txt" };
  log = record (initial.log) { mode = pos 1; dataset = codes "cora" };
}

pub accepted : get_options answers initial ≡ ok chosen
unfolding initial get_options get_option on_label label_of to_mode mode_number stem front back split
    split_loop push_token break_at is_prefix stoi skip_spaces is_space read_sign digits scan
    digit_value read_int to_int
accepted = refl

get_options-IsLeft_example : IsLeft (given answers nothing) initial chosen
get_options-IsLeft_example = get_options-IsLeft answers initial chosen accepted

no_unit : given answers nothing b'u' ≡ none
unfolding given
no_unit = refl

unit_not_logged_example : (chosen.x_unit ≡ pos 32) × (chosen.log.x_unit ≡ pos 0)
unit_not_logged_example = unit_not_logged answers chosen accepted no_unit

-- An option that `getopt` does not know ends the program; a mode without its number is passed over.
unknown : get_options (refused b'm' ∷ refused b'w' ∷ []) initial ≡ err exited
unfolding get_options get_option may_lack
unknown = refl

-- Folder 0 is there.
abbrev there : Text → Bool
there path = same path (codes "results/result_0")

free_folder : there (result_path 1) ≡ false
unfolding result_path same show_int show_ℕ shown
free_folder = refl

find_folder-IsFirst_example : (k : ℕ) × (find_folder 2 there 0 ≡ some k) × IsFirst there 0 k
find_folder-IsFirst_example =
    find_folder-IsFirst 2 there 0 1 (omega arith) (omega arith) free_folder

-- It is folder 1 that is made.
second_folder : find_folder 2 there 0 ≡ some 1
unfolding find_folder result_path same show_int show_ℕ shown
second_folder = refl
