-- ===== src/Input/Options/Last.antt =====
-- What the options leave: the last of a kind decides.
use sgcn.Base.{
  ℕ, ◌==◌, if_inv, inl, inr, ◌≡◌, refl, sym, ap, ◌∙◌, false, subst, Option, none, some, List, [],
  ◌∷◌, arith, if◌then◌else◌,
}
use sgcn.Base.Int.{ℤ, pos, negsuc}
use sgcn.Common.{FMode, x_cmp, mat, csr, x_full_cmp, GnnMode, gcn, other}
use sgcn.Input.Config.{stem}
use sgcn.Input.Number.{stoi}
use sgcn.Input.Options.{
  Answer, found, refused, Label, on_i, on_x, on_a, on_t, on_c, on_m, on_l, on_u, on_g, on_d,
  on_none, label_of, to_mode, to_gnn_mode, mode_number, on_label, may_lack, get_option, initial,
  get_options,
}
use sgcn.Input.Result.{exited, ok, err, ok_inj, >>=-elim_ok}
use sgcn.Input.Settings.{Settings}
use sgcn.Input.Table.{codes, Text}

-- The arguments that were last given for the options, by their characters.
abbrev pub Given : Type 0
Given = ℕ → Option Text

abbrev give : ℕ → Text → Given → Given
give c optarg g k = if k == c then some optarg else g k

abbrev give_answer : Answer → Given → Given
give_answer (found c optarg) g = give c optarg g
give_answer (refused c) g = g

unfoldable pub given : List Answer → Given → Given
given [] g = g
given (a ∷ rest) g = given rest (give_answer a g)

abbrev pub nothing : Given
nothing c = none

-- A text, a number, a mode and the name of the data, as the argument says or else as before.
abbrev text_from : Option Text → Text → Text
text_from none before = before
text_from (some optarg) before = optarg

unfoldable pub IntFrom : Option Text → ℤ → ℤ → Type 0
IntFrom none before z = z ≡ before
IntFrom (some optarg) before z = stoi optarg ≡ ok z

-- The modes by their numbers.
abbrev feature_number : FMode → ℤ
feature_number x_cmp = pos 0
feature_number mat = pos 1
feature_number csr = pos 2
feature_number x_full_cmp = pos 3

unfoldable pub ModeFrom : Option Text → FMode → FMode → Type 0
ModeFrom none before mode = mode ≡ before
ModeFrom (some optarg) before mode = stoi optarg ≡ ok (feature_number mode)

abbrev gnn_number : GnnMode → ℤ
gnn_number gcn = pos 0
gnn_number other = pos 1

unfoldable pub GnnModeFrom : Option Text → GnnMode → GnnMode → Type 0
GnnModeFrom none before mode = mode ≡ before
GnnModeFrom (some optarg) before mode = stoi optarg ≡ ok (gnn_number mode)

unfoldable pub NameFrom : Option Text → Text → Text → Type 0
NameFrom none before name = name ≡ before
NameFrom (some optarg) before name = stem optarg (codes "/") (codes ".") ≡ ok name

-- What the options given since `b` leave.
pub record IsLeft (g : Given) (b s : Settings) : Type 0 where
  pub ini : s.f_path.ini ≡ text_from (g b'i') b.f_path.ini
  pub xw_data : s.f_path.xw_data ≡ text_from (g b'x') b.f_path.xw_data
  pub a_data : s.f_path.a_data ≡ text_from (g b'a') b.f_path.a_data
  pub csv_path : s.f_path.csv_path ≡ text_from (g b'c') b.f_path.csv_path
  pub davc_path : s.f_path.davc_path ≡ text_from (g b'd') b.f_path.davc_path
  pub n_tiles : IntFrom (g b't') b.n_tiles s.n_tiles
  pub lac_width : IntFrom (g b'l') b.lac_width s.lac_width
  pub x_unit : IntFrom (g b'u') b.x_unit s.x_unit
  pub logged_unit : IntFrom (g b'u') b.log.x_unit s.log.x_unit
  pub mode : ModeFrom (g b'm') b.mode s.mode
  pub logged_mode : IntFrom (g b'm') b.log.mode s.log.mode
  pub gnn_mode : GnnModeFrom (g b'g') b.gnn_mode s.gnn_mode
  pub dataset : NameFrom (g b'a') b.log.dataset s.log.dataset

to_mode_inv : (z : ℤ) (mode : FMode) → to_mode z ≡ ok mode → z ≡ feature_number mode
unfolding to_mode
to_mode_inv (pos n) x_cmp h = ground (arith, h)
to_mode_inv (pos n) mat h = ground (arith, h)
to_mode_inv (pos n) csr h = ground (arith, h)
to_mode_inv (pos n) x_full_cmp h = ground (arith, h)
to_mode_inv (negsuc n) mode h = cc

mode_number-feature_number : (mode : FMode) → mode_number mode ≡ feature_number mode
unfolding mode_number
mode_number-feature_number x_cmp = refl
mode_number-feature_number mat = refl
mode_number-feature_number csr = refl
mode_number-feature_number x_full_cmp = refl

to_gnn_mode_inv : (z : ℤ) (mode : GnnMode) → to_gnn_mode z ≡ ok mode → z ≡ gnn_number mode
unfolding to_gnn_mode
to_gnn_mode_inv (pos n) gcn h = ground (arith, h)
to_gnn_mode_inv (pos n) other h = ground (arith, h)
to_gnn_mode_inv (negsuc n) mode h = cc

-- The characters that reach a label.
abbrev Reaches : ℕ → Label → Type 0
Reaches c on_i = c ≡ b'i'
Reaches c on_x = c ≡ b'x'
Reaches c on_a = c ≡ b'a'
Reaches c on_t = c ≡ b't'
Reaches c on_c = c ≡ b'c'
Reaches c on_m = c ≡ b'm'
Reaches c on_l = c ≡ b'l'
Reaches c on_u = c ≡ b'u'
Reaches c on_g = c ≡ b'g'
Reaches c on_d = c ≡ b'd'
Reaches c on_none =
    ((b'i' == c) ≡ false)
    × ((b'x' == c) ≡ false)
    × ((b'a' == c) ≡ false)
    × ((b't' == c) ≡ false)
    × ((b'c' == c) ≡ false)
    × ((b'm' == c) ≡ false)
    × ((b'l' == c) ≡ false)
    × ((b'u' == c) ≡ false)
    × ((b'g' == c) ≡ false)
    × ((b'd' == c) ≡ false)

label_of-Reaches : (c : ℕ) (k : Label) → label_of c ≡ k → Reaches c k
unfolding label_of
label_of-Reaches c on_i h = ground (arith, h)
label_of-Reaches c on_x h = ground (arith, h)
label_of-Reaches c on_a h = ground (arith, h)
label_of-Reaches c on_t h = ground (arith, h)
label_of-Reaches c on_c h = ground (arith, h)
label_of-Reaches c on_m h = ground (arith, h)
label_of-Reaches c on_l h = ground (arith, h)
label_of-Reaches c on_u h = ground (arith, h)
label_of-Reaches c on_g h = ground (arith, h)
label_of-Reaches c on_d h = ground (arith, h)
label_of-Reaches c on_none h = ground (arith, h)

is_left : (g : Given) (b t s : Settings) → ok t ≡ ok s → IsLeft g b t → IsLeft g b s
is_left g b t s h = subst (λ u. IsLeft g b u) (ok_inj h)

module _ (optarg : Text) (g : Given) (b s s' : Settings) (p : IsLeft g b s) where
  at_character : (c d : ℕ) → c ≡ d → IsLeft (give d optarg g) b s' → IsLeft (give c optarg g) b s'
  at_character c d e = subst (λ x. IsLeft (give x optarg g) b s') (sym e)

  on_label-IsLeft :
      (k : Label) (c : ℕ)
      → Reaches c k
      → on_label k optarg s ≡ ok s'
      → IsLeft (give c optarg g) b s'
  unfolding on_label IntFrom ModeFrom GnnModeFrom NameFrom
  on_label-IsLeft on_i c r h = at_character c b'i' r (is_left _ b _ s' h (ground arith))
  on_label-IsLeft on_x c r h = at_character c b'x' r (is_left _ b _ s' h (ground arith))
  on_label-IsLeft on_a c r h = at_character c b'a' r (
      >>=-elim_ok (stem optarg (codes "/") (codes ".")) _ h
        λ name h₁ k₁. is_left _ b _ s' k₁ (ground (arith, h₁)))
  on_label-IsLeft on_t c r h =
      at_character c b't' r
        (>>=-elim_ok (stoi optarg) _ h λ z h₁ k₁. is_left _ b _ s' k₁ (ground (arith, h₁)))
  on_label-IsLeft on_c c r h = at_character c b'c' r (is_left _ b _ s' h (ground arith))
  on_label-IsLeft on_m c r h = at_character c b'm' r (
      >>=-elim_ok (stoi optarg) _ h λ z h₁ k₁. >>=-elim_ok (to_mode z) _ k₁ λ mode h₂ k₂.
        let e : stoi optarg ≡ ok (feature_number mode) = h₁ ∙ ap ok (to_mode_inv z mode h₂) in
        is_left _ b _ s' k₂ (ground (arith, e, mode_number-feature_number mode)))
  on_label-IsLeft on_l c r h =
      at_character c b'l' r
        (>>=-elim_ok (stoi optarg) _ h λ z h₁ k₁. is_left _ b _ s' k₁ (ground (arith, h₁)))
  on_label-IsLeft on_u c r h =
      at_character c b'u' r
        (>>=-elim_ok (stoi optarg) _ h λ z h₁ k₁. is_left _ b _ s' k₁ (ground (arith, h₁)))
  on_label-IsLeft on_g c r h = at_character c b'g' r (
      >>=-elim_ok (stoi optarg) _ h λ z h₁ k₁. >>=-elim_ok (to_gnn_mode z) _ k₁ λ mode h₂ k₂.
        let e : stoi optarg ≡ ok (gnn_number mode) = h₁ ∙ ap ok (to_gnn_mode_inv z mode h₂) in
        is_left _ b _ s' k₂ (ground (arith, e)))
  on_label-IsLeft on_d c r h = at_character c b'd' r (is_left _ b _ s' h (ground arith))
  on_label-IsLeft on_none c (i, x, a, t, f, m, l, u, n, d) h = is_left _ b _ s' h (record {
    ini = rw i p.ini;
    xw_data = rw x p.xw_data;
    a_data = rw a p.a_data;
    csv_path = rw f p.csv_path;
    davc_path = rw d p.davc_path;
    n_tiles = rw t p.n_tiles;
    lac_width = rw l p.lac_width;
    x_unit = rw u p.x_unit;
    logged_unit = rw u p.logged_unit;
    mode = rw m p.mode;
    logged_mode = rw m p.logged_mode;
    gnn_mode = rw n p.gnn_mode;
    dataset = rw a p.dataset;
  })

get_option-IsLeft :
    (a : Answer) (g : Given) (b s s' : Settings)
    → get_option a s ≡ ok s'
    → IsLeft g b s
    → IsLeft (give_answer a g) b s'
unfolding get_option
get_option-IsLeft (found c optarg) g b s s' h p =
    on_label-IsLeft optarg g b s s' p (label_of c) c (label_of-Reaches c (label_of c) refl) h
get_option-IsLeft (refused c) g b s s' h p =
    elim (if_inv (may_lack c) (ok s) (err exited) (ok s') h) [
      | inl (e, k) ↦ is_left g b s s' k p
      | inr (e, k) ↦ cc
    ]

given-IsLeft :
    (answers : List Answer) (g : Given) (b s s' : Settings)
    → get_options answers s ≡ ok s'
    → IsLeft g b s
    → IsLeft (given answers g) b s'
unfolding get_options given
given-IsLeft [] g b s s' h p = is_left g b s s' h p
given-IsLeft (a ∷ rest) g b s s' h p =
    >>=-elim_ok (get_option a s) _ h
      λ t h₁ k₁. given-IsLeft rest (give_answer a g) b t s' k₁ (get_option-IsLeft a g b s t h₁ p)

-- Where the options are accepted, the configuration, the features, the graph, the table of the
-- results and the chosen vertices are at the argument last given with `i`, `x`, `a`, `c` and `d`; the
-- tiles, the width of the distribution and the unit of the blocks, which the log notes too, are what
-- `stoi` reads from the argument last given with `t`, `l` and `u`, and so are the modes with `m`, with
-- the number that the log notes, and with `g`; and the log names the data after the graph's file.
-- What has no option is as it was.
pub get_options-IsLeft :
    (answers : List Answer) (b s : Settings)
    → get_options answers b ≡ ok s
    → IsLeft (given answers nothing) b s
unfolding IntFrom ModeFrom GnnModeFrom NameFrom
get_options-IsLeft answers b s h = given-IsLeft answers nothing b b s h (record {
  ini = refl;
  xw_data = refl;
  a_data = refl;
  csv_path = refl;
  davc_path = refl;
  n_tiles = refl;
  lac_width = refl;
  x_unit = refl;
  logged_unit = refl;
  mode = refl;
  logged_mode = refl;
  gnn_mode = refl;
  dataset = refl;
})

-- Where the options are accepted and `u` is not among them, the blocks are of 32 columns, and the log notes a unit of 0.
pub unit_not_logged :
    (answers : List Answer) (s : Settings)
    → get_options answers initial ≡ ok s
    → given answers nothing b'u' ≡ none
    → (s.x_unit ≡ pos 32) × (s.log.x_unit ≡ pos 0)
unfolding initial IntFrom
unit_not_logged answers s h e =
    let p = get_options-IsLeft answers initial s h in
    (
      subst (λ o. IntFrom o (pos 32) s.x_unit) e p.x_unit,
      subst (λ o. IntFrom o (pos 0) s.log.x_unit) e p.logged_unit,
    )
