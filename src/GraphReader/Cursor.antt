-- ===== src/GraphReader/Cursor.antt =====
-- An address that runs over a range of cache lines, round after round, as `next_v_addr` and
-- `next_e_addr` of src/g_reader.cc do.
use sgcn.Base.{
  ℕ, zero, suc, ◌+◌, ◌*◌, ◌≤◌, ◌<◌, ◌≡◌, refl, sym, ap, ◌∙◌, Bool, true, false, ◌==◌, if◌then◌else◌,
  arith, add64, u64_mod,
}
use sgcn.Common.{cache_line_byte}

-- An address that runs over a range of lines, the number of its rounds, and whether they are over.
pub record Cursor : Type 0 where
  pub addr : ℕ
  pub count : ℕ
  pub over : Bool

-- One request.
unfoldable pub tick : ℕ → ℕ → ℕ → Cursor → Cursor
tick start stop bf c =
    if add64 c.addr cache_line_byte == stop
    then record {
      addr = start;
      count = c.count + 1;
      over = if c.count + 1 == bf then true else c.over;
    }
    else record c { addr = add64 c.addr cache_line_byte }

unfoldable pub ticks : ℕ → ℕ → ℕ → ℕ → Cursor → Cursor
ticks zero start stop bf c = c
ticks (suc k) start stop bf c = ticks k start stop bf (tick start stop bf c)

-- A range of `suc m` lines that does not wrap.
module _ (start stop m bf : ℕ) (range : start + suc m * cache_line_byte ≡ stop)
    (fits : stop < u64_mod) where
  inside :
      (k r q : ℕ) (o : Bool)
      → r + k < suc m
      → ticks k start stop bf (record { addr = start + r * cache_line_byte; count = q; over = o })
        ≡ record { addr = start + (r + k) * cache_line_byte; count = q; over = o }
  unfolding ticks tick
  inside zero r q o h =
      let e : start + r * cache_line_byte ≡ start + (r + 0) * cache_line_byte = omega arith in
      λ i. record { addr = e i; count = q; over = o }
  inside (suc k) r q o h =
      let step : add64 (start + r * cache_line_byte) cache_line_byte
          ≡ start + suc r * cache_line_byte =
        omega arith in
      let go_on : (start + suc r * cache_line_byte == stop) ≡ false = ground arith in
      let e : start + (suc r + k) * cache_line_byte ≡ start + (r + suc k) * cache_line_byte =
        omega arith in
      rw (step, go_on)
        (inside k (suc r) q o (omega arith) ∙ λ i. record { addr = e i; count = q; over = o })

  ticks-add :
      (j k : ℕ) (c : Cursor)
      → ticks k start stop bf (ticks j start stop bf c) ≡ ticks (j + k) start stop bf c
  unfolding ticks
  ticks-add zero k c = let e : k ≡ 0 + k = omega arith in ap (λ (x : ℕ). ticks x start stop bf c) e
  ticks-add (suc j) k c =
      let e : suc (j + k) ≡ suc j + k = omega arith in
      ticks-add j k (tick start stop bf c) ∙ ap (λ (x : ℕ). ticks x start stop bf c) e

  last_line :
      (q : ℕ) (o : Bool)
      → tick start stop bf (record { addr = start + m * cache_line_byte; count = q; over = o })
        ≡ record { addr = start; count = q + 1; over = if q + 1 == bf then true else o }
  unfolding tick
  last_line q o =
      let step : (add64 (start + m * cache_line_byte) cache_line_byte == stop) ≡ true =
        ground arith in
      rw step

  lap :
      (q : ℕ) (o : Bool)
      → ticks (suc m) start stop bf (record { addr = start; count = q; over = o })
        ≡ record { addr = start; count = q + 1; over = if q + 1 == bf then true else o }
  unfolding ticks
  lap q o =
      let c : Cursor = record { addr = start; count = q; over = o } in
      let e : suc m ≡ m + 1 = omega arith in
      let first : start ≡ start + 0 * cache_line_byte = omega arith in
      let end : start + (0 + m) * cache_line_byte ≡ start + m * cache_line_byte = omega arith in
      let at' : Cursor → Cursor = tick start stop bf in
      ap (λ (x : ℕ). ticks x start stop bf c) e
      ∙ sym (ticks-add m 1 c)
      ∙ ap (λ (x : ℕ). at' (ticks m start stop bf (record { addr = x; count = q; over = o }))) first
      ∙ ap at' (inside m 0 q o (omega arith))
      ∙ ap (λ (x : ℕ). at' (record { addr = x; count = q; over = o })) end
      ∙ last_line q o

  laps :
      (i q : ℕ)
      → q + i < bf
      → ticks (i * suc m) start stop bf (record { addr = start; count = q; over = false })
        ≡ record { addr = start; count = q + i; over = false }
  unfolding ticks
  laps zero q h =
      let e : 0 * suc m ≡ 0 = omega arith in
      let eq : q ≡ q + 0 = omega arith in
      ap (λ (x : ℕ). ticks x start stop bf (record { addr = start; count = q; over = false })) e
      ∙ no_ticks
      ∙ (λ j. record { addr = start; count = eq j; over = false })
    where
      no_ticks : {c : Cursor} → ticks 0 start stop bf c ≡ c
      no_ticks = refl
  laps (suc i) q h =
      let e : suc i * suc m ≡ suc m + i * suc m = omega arith in
      let c : Cursor = record { addr = start; count = q; over = false } in
      let more : (q + 1 == bf) ≡ false = ground arith in
      let eq : q + 1 + i ≡ q + suc i = omega arith in
      ap (λ (x : ℕ). ticks x start stop bf c) e
      ∙ sym (ticks-add (suc m) (i * suc m) c)
      ∙ ap (ticks (i * suc m) start stop bf) (
          lap q false
          ∙ ap (λ t. record { addr = start; count = q + 1; over = if t then true else false }) more)
      ∙ laps i (q + 1) (omega arith)
      ∙ (λ j. record { addr = start; count = eq j; over = false })

  -- Within the rounds the cursor is at the line of the round, and the requests are not over.
  pub ticks_within :
      (i r : ℕ)
      → i < bf
      → r < suc m
      → ticks (i * suc m + r) start stop bf (record { addr = start; count = 0; over = false })
        ≡ record { addr = start + r * cache_line_byte; count = i; over = false }
  ticks_within i r h k =
      let first : start ≡ start + 0 * cache_line_byte = omega arith in
      let e : start + (0 + r) * cache_line_byte ≡ start + r * cache_line_byte = omega arith in
      let ei : 0 + i ≡ i = omega arith in
      sym (ticks-add (i * suc m) r _)
      ∙ ap (ticks r start stop bf) (laps i 0 (omega arith))
      ∙ ap (λ (x : ℕ). ticks r start stop bf (record { addr = x; count = 0 + i; over = false }))
          first
      ∙ inside r 0 (0 + i) false (omega arith)
      ∙ (λ j. record { addr = e j; count = ei j; over = false })

  -- After the last round they are.
  pub ticks_over :
      (b : ℕ)
      → bf ≡ suc b
      → ticks (bf * suc m) start stop bf (record { addr = start; count = 0; over = false })
        ≡ record { addr = start; count = bf; over = true }
  ticks_over b h =
      let c : Cursor = record { addr = start; count = 0; over = false } in
      let e : bf * suc m ≡ b * suc m + suc m = omega (arith, ap (λ (x : ℕ). x * suc m) h) in
      let full : (0 + b + 1 == bf) ≡ true = ground arith in
      let eb : 0 + b + 1 ≡ bf = omega arith in
      ap (λ (x : ℕ). ticks x start stop bf c) e
      ∙ sym (ticks-add (b * suc m) (suc m) c)
      ∙ ap (ticks (suc m) start stop bf) (laps b 0 (omega arith))
      ∙ lap (0 + b) false
      ∙ (λ j. record { addr = start; count = eb j; over = if full j then true else false })

-- An empty range: the cursor has left it after the first request and does not come back.
pub ticks_empty :
    (start bf k : ℕ) (c : Cursor)
    → start ≤ c.addr
    → c.addr + k * cache_line_byte < u64_mod
    → ticks k start start bf c
      ≡ record { addr = c.addr + k * cache_line_byte; count = c.count; over = c.over }
unfolding ticks tick
ticks_empty start bf zero c low fits =
    let e : c.addr ≡ c.addr + 0 * cache_line_byte = omega arith in
    λ i. record { addr = e i; count = c.count; over = c.over }
ticks_empty start bf (suc k) c low fits =
    let step : add64 c.addr cache_line_byte ≡ c.addr + cache_line_byte = omega arith in
    let go_on : (c.addr + cache_line_byte == start) ≡ false = ground arith in
    let e : c.addr + cache_line_byte + k * cache_line_byte ≡ c.addr + suc k * cache_line_byte =
      omega arith in
    rw (step, go_on)
      (ticks_empty start bf k (record c { addr = c.addr + cache_line_byte }) (omega arith)
          (omega arith)
        ∙ (λ i. record { addr = e i; count = c.count; over = c.over }))
