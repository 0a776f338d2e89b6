-- ===== src/FeatureReader/Sends.antt =====
-- The reads that the feature reader of src/f_reader.cc sends, and its set `requested`.
use mathlib.Core.List.{append_assoc}
use sgcn.Base.{
  ℕ, suc, ◌+◌, ◌≡◌, refl, sym, ap, ◌∙◌, inl, inr, Bool, false, ◌||◌, some, List, [], ◌∷◌, ◌++◌,
  ◌==◌, if◌then◌else◌, arith, map, Bool-cases, subst, >>=-eq-some, some_inj, if_inv,
}
use sgcn.Cache
use sgcn.Common.{Env, Transaction}
use sgcn.Memory.{add_transaction}
use sgcn.FeatureReader.Defs.{World, is_requested, insert_requested, request, access_or_request}

-- How often the address stands in the list.
unfoldable pub count : ℕ → List ℕ → ℕ
count a [] = 0
count a (x ∷ xs) = let rest = count a xs in if x == a then suc rest else rest

-- 1 for an address whose read is noted as on its way.
unfoldable pub outstanding : ℕ → World → ℕ
outstanding a w = if is_requested a w.fr.requested then 1 else 0

unfoldable pub read_of : ℕ → Transaction
read_of a = record { address = a; is_write = false }

-- Between the two states exactly these reads were sent, and each for an address that was not on its
-- way and is now.
pub record Sends (w w' : World) : Type 0 where
  pub news : List ℕ
  pub sent : w'.mem.tq ≡ w.mem.tq ++ map read_of news
  pub noted : (a : ℕ) → outstanding a w' ≡ outstanding a w + count a news

append_nil : (xs : List Transaction) → xs ≡ xs ++ []
append_nil [] = refl
append_nil (x ∷ xs) = ap (x ∷◌) (append_nil xs)

map-append : (xs ys : List ℕ) → map read_of (xs ++ ys) ≡ map read_of xs ++ map read_of ys
map-append [] ys = refl
map-append (x ∷ xs) ys = ap (read_of x ∷◌) (map-append xs ys)

count-append : (a : ℕ) (xs ys : List ℕ) → count a (xs ++ ys) ≡ count a xs + count a ys
unfolding count
count-append a [] ys = omega arith
count-append a (x ∷ xs) ys = ground (arith, count-append a xs ys)

-- Nothing is sent where queue and set stay the same.
pub Sends-same :
    (w w' : World) → w'.mem.tq ≡ w.mem.tq → w'.fr.requested ≡ w.fr.requested → Sends w w'
unfolding count outstanding
Sends-same w w' t r = record {
  news = [];
  sent = t ∙ append_nil w.mem.tq;
  noted = λ a. rw r (omega arith);
}

pub Sends-trans : (u v w : World) → Sends u v → Sends v w → Sends u w
Sends-trans u v w p q = record {
  news = p.news ++ q.news;
  sent =
      q.sent
      ∙ ap (◌++ map read_of q.news) p.sent
      ∙ append_assoc u.mem.tq (map read_of p.news) (map read_of q.news)
      ∙ ap (u.mem.tq ++◌) (sym (map-append p.news q.news));
  noted = λ a. omega (arith, p.noted a, q.noted a, count-append a p.news q.news);
}

request-Sends : (a : ℕ) (w : World) → is_requested a w.fr.requested ≡ false → Sends w (request a w)
unfolding request count outstanding read_of insert_requested is_requested add_transaction
request-Sends a w h = record {
  news = a ∷ [];
  sent = refl;
  noted = λ b. elim (Bool-cases (a == b)) [ inl e ↦ ground arith | inr e ↦ ground arith ];
}

pub access_or_request-Sends :
    (env : Env) (a : ℕ) (w w' : World) (hit : Bool)
    → access_or_request env a w ≡ some (w', hit)
    → Sends w w'
unfolding access_or_request
access_or_request-Sends env a w w' hit h =
    let ((cah, got), e, rest) = >>=-eq-some (Cache.access env.arch_info w.cah a) _ h in
    let v : World = record w { cah = cah } in
    let first : Sends w v = Sends-same w v refl refl in
    let s : (if got || is_requested a w.fr.requested then v else request a v) ≡ w' =
      ap (λ p. p.0) (some_inj rest) in
    elim (if_inv (got || is_requested a w.fr.requested) v (request a v) w' s) [
      | inl p ↦ subst (Sends w) p.1 first
      | inr p ↦
          subst (Sends w) p.1
            (Sends-trans w v (request a v) first (request-Sends a v (ground arith)))
    ]

-- Where nothing is sent.
pub silent :
    (w v w' : World)
    → v.mem.tq ≡ w.mem.tq
    → v.fr.requested ≡ w.fr.requested
    → some v ≡ some w'
    → Sends w w'
silent w v w' t r h = subst (Sends w) (some_inj h) (Sends-same w v t r)
