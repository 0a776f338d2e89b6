-- ===== src/Preprocessor/AddressMapping/Step.antt =====
-- One round of the loop of `AddressMapping` for X_CMP and MAT keeps what it has laid out.
use sgcn.Base.{
  ℕ, ◌+◌, ◌*◌, ◌<◌, ◌≡◌, ◌≢◌, ◌⊎◌, sym, ap, ◌∙◌, inl, inr, some, List, arith, get_elem?, set,
  some_inj, subst,
}
use sgcn.Preprocessor.AddressMapping.{Grid}
use sgcn.Preprocessor.AddressMapping.Places.{
  at_place, at_place-set_self, at_place-set_ne, Kept, AreLaid,
}

-- With one place more.
abbrev pub With : (ℕ → ℕ → Type 0) → ℕ → ℕ → ℕ → ℕ → Type 0
With P j₀ c₀ j c = P j c ⊎ ((j ≡ j₀) × (c ≡ c₀))

abbrev Elsewhere : ℕ → ℕ → ℕ → ℕ → Type 0
Elsewhere j₀ c₀ j c = (j ≢ j₀) ⊎ (c ≢ c₀)

same_or_other : (j₀ c₀ j c : ℕ) → ((j ≡ j₀) × (c ≡ c₀)) ⊎ Elsewhere j₀ c₀ j c
same_or_other j₀ c₀ j c = ground arith

passed_other : (P : ℕ → ℕ → Type 0) (j₀ c₀ j c : ℕ) → ¬ P j₀ c₀ → P j c → Elsewhere j₀ c₀ j c
passed_other P j₀ c₀ j c new p = elim (same_or_other j₀ c₀ j c) [
  | inl (e, k) ↦ absurd (new (subst (λ t. P j₀ t) k (subst (λ t. P t c) e p)))
  | inr o ↦ o
]

pub same_places :
    (h w : ℕ) (P Q : ℕ → ℕ → Type 0) (a e : ℕ) (xs ys : Grid)
    → ((j c : ℕ) → j < h → c < w → Q j c → P j c)
    → ((j c : ℕ) → j < h → c < w → P j c → Q j c)
    → AreLaid h w P a e xs ys
    → AreLaid h w Q a e xs ys
same_places h w P Q a e xs ys from to l = record {
  placed = λ j c q k. l.placed j c (from j c k.0 k.1 q) k;
  apart =
      λ j c j' c' q k q' k'. l.apart j c j' c' (from j c k.0 k.1 q) k (from j' c' k'.0 k'.1 q') k';
  unpassed = λ j c hj hc no_q. l.unpassed j c hj hc (λ p. no_q (to j c hj hc p));
  left_out = l.left_out;
  aligned = l.aligned;
}

pub step-skip :
    (h w : ℕ) (P : ℕ → ℕ → Type 0) (a e j₀ c₀ : ℕ) (xs ys : Grid)
    → at_place xs j₀ c₀ ≢ some 1
    → AreLaid h w P a e xs ys
    → AreLaid h w (With P j₀ c₀) a (e + 64) xs ys
step-skip h w P a e j₀ c₀ xs ys out l =
    let old : (j c : ℕ) → With P j₀ c₀ j c → Kept h w xs j c → P j c = λ j c p k. elim p [
      | inl q ↦ q
      | inr (e₁, e₂) ↦ absurd (
          out (
            subst (λ t. at_place xs j₀ t ≡ some 1) e₂
              (subst (λ t. at_place xs t c ≡ some 1) e₁ k.2)))
    ] in
    let (n, is_n) = l.aligned in
    record {
      placed = λ j c p k.
          let (m, at_m, below) = l.placed j c (old j c p k) k in (m, at_m, omega (arith, below));
      apart = λ j c j' c' p k p' k'. l.apart j c j' c' (old j c p k) k (old j' c' p' k') k';
      unpassed = λ j c hj hc no. l.unpassed j c hj hc (λ p. no (inl p));
      left_out = l.left_out;
      aligned = (n + 1, omega (arith, is_n));
    }

-- No place that was passed has the next address.
below_new :
    {h w a e : ℕ} {P : ℕ → ℕ → Type 0} {xs ys : Grid}
    → AreLaid h w P a e xs ys
    → (j c : ℕ) → P j c
    → Kept h w xs j c
    → at_place ys j c ≢ some e
below_new {a = a} l j c p k same =
    let (m, at_m, below) = l.placed j c p k in
    let hits : a + m * 64 ≡ _ = some_inj (sym at_m ∙ same) in omega (arith, below, hits)

pub step-place :
    (h w : ℕ) (P : ℕ → ℕ → Type 0) (a e j₀ c₀ x : ℕ) (xs ys : Grid) (r : List ℕ)
    → ¬ P j₀ c₀
    → get_elem? ys j₀ ≡ some r
    → get_elem? r c₀ ≡ some x
    → at_place xs j₀ c₀ ≡ some 1
    → AreLaid h w P a e xs ys
    → AreLaid h w (With P j₀ c₀) a (e + 64) xs (set ys j₀ (set r c₀ e))
step-place h w P a e j₀ c₀ x xs ys r new at_r at_x one l =
    let zs = set ys j₀ (set r c₀ e) in
    let here : at_place zs j₀ c₀ ≡ some e = at_place-set_self ys j₀ c₀ x e r at_r at_x in
    let there : (j c : ℕ) → Elsewhere j₀ c₀ j c → at_place zs j c ≡ at_place ys j c =
      λ j c o. at_place-set_ne ys j₀ c₀ e j c r at_r o in
    let before : (j c : ℕ) → P j c → at_place zs j c ≡ at_place ys j c =
      λ j c q. there j c (passed_other P j₀ c₀ j c new q) in
    let at_new : (j c : ℕ) → j ≡ j₀ → c ≡ c₀ → at_place zs j c ≡ some e = λ j c e₁ e₂.
      subst (λ t. at_place zs j t ≡ some e) (sym e₂)
        (subst (λ t. at_place zs t c₀ ≡ some e) (sym e₁) here) in
    let not_new : (j c : ℕ) → P j c → Kept h w xs j c → at_place zs j c ≢ some e =
      λ j c q k same. below_new l j c q k (sym (before j c q) ∙ same) in
    let (n, is_n) = l.aligned in
    record {
      placed = λ j c p k. elim p [
        | inl q ↦
            let (m, at_m, below) = l.placed j c q k in
            (m, before j c q ∙ at_m, omega (arith, below))
        | inr (e₁, e₂) ↦ (n, at_new j c e₁ e₂ ∙ ap some is_n, omega (arith, is_n))
      ];
      apart = λ j c j' c' p k p' k' same. elim p [
        | inl q ↦ elim p' [
          | inl q' ↦ l.apart j c j' c' q k q' k' (sym (before j c q) ∙ same ∙ before j' c' q')
          | inr (e₁, e₂) ↦ absurd (not_new j c q k (same ∙ at_new j' c' e₁ e₂))
        ]
        | inr (e₁, e₂) ↦ elim p' [
          | inl q' ↦ absurd (not_new j' c' q' k' (sym same ∙ at_new j c e₁ e₂))
          | inr (e₁', e₂') ↦ (e₁ ∙ sym e₁', e₂ ∙ sym e₂')
        ]
      ];
      unpassed = λ j c hj hc no. elim (same_or_other j₀ c₀ j c) [
        | inl s ↦ absurd (no (inr s))
        | inr o ↦ there j c o ∙ l.unpassed j c hj hc (λ p. no (inl p))
      ];
      left_out = λ j c hj hc out. elim (same_or_other j₀ c₀ j c) [
        | inl (e₁, e₂) ↦ absurd (
            out (
              subst (λ t. at_place xs j t ≡ some 1) (sym e₂)
                (subst (λ t. at_place xs t c₀ ≡ some 1) (sym e₁) one)))
        | inr o ↦ there j c o ∙ l.left_out j c hj hc out
      ];
      aligned = (n + 1, omega (arith, is_n));
    }
