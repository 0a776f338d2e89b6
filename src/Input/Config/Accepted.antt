-- ===== src/Input/Config/Accepted.antt =====
-- Which configurations `ParseIni` accepts, and what it makes of them.
use native.Mathlib.Nat.{div-le_self}
use sgcn.Base.{ℕ, ◌*◌, ◌/◌, ◌<◌, ◌≡◌, refl, Bool, true, false, Option, some, arith, if◌then◌else◌}
use sgcn.Base.Int.{ℤ, pos}
use sgcn.Input.Config.{stem, cache_bytes, cache_shape, parse_ini}
use sgcn.Input.Number.{int_mod}
use sgcn.Input.Number.Print.{IsInt, show_int, stoi-show_int}
use sgcn.Input.Result.{ok, >>=-elim_ok}
use sgcn.Input.Settings.{Settings, in_range, checked, product, times, truncated, over}
use sgcn.Input.Table.{codes, Text, Table, same, lookup, has, unquoted, contain, get_string, get_int}

get_int-contain :
    (k : Text) (table : Table) (z : ℤ) → get_int k table ≡ ok z → contain k table ≡ true
unfolding get_int contain
get_int-contain k table z h = ground (arith, h)

get_string-contain :
    (k : Text) (table : Table) (v : Text) → get_string k table ≡ ok v → contain k table ≡ true
unfolding get_string contain
get_string-contain k table v h = ground (arith, h)

cache_bytes-contain :
    (table : Table) (z : ℤ)
    → cache_bytes table ≡ ok z
    → (contain (codes "CacheSize") table ≡ true) × (contain (codes "UnitSize") table ≡ true)
unfolding cache_bytes
cache_bytes-contain table z h = >>=-elim_ok (get_int (codes "CacheSize") table) _ h λ size h₁ k₁.
    >>=-elim_ok (get_string (codes "UnitSize") table) _ k₁
      λ unit h₂ k₂. (get_int-contain _ table size h₁, get_string-contain _ table unit h₂)

cache_shape-contain :
    (table : Table) (shape : ℤ × ℤ × ℤ)
    → cache_shape table ≡ ok shape
    → (contain (codes "CacheSize") table ≡ true)
      × (contain (codes "UnitSize") table ≡ true)
      × (contain (codes "CacheWay") table ≡ true)
unfolding cache_shape
cache_shape-contain table shape h = >>=-elim_ok (cache_bytes table) _ h λ size h₁ k₁.
    >>=-elim_ok (get_int (codes "CacheWay") table) _ k₁ λ way h₂ k₂.
      let (s, u) = cache_bytes-contain table size h₁ in (s, u, get_int-contain _ table way h₂)

-- A configuration is accepted only if it names the size, the unit and the ways of the cache, the
-- engines, the blocks of a feature and the memory.
pub parse_ini-contain :
    (table : Table) (s s' : Settings)
    → parse_ini table s ≡ ok s'
    → (contain (codes "CacheSize") table ≡ true)
      × (contain (codes "UnitSize") table ≡ true)
      × (contain (codes "CacheWay") table ≡ true)
      × (contain (codes "NumberOfEngine") table ≡ true)
      × (contain (codes "BF") table ≡ true)
      × (contain (codes "MemoryType") table ≡ true)
unfolding parse_ini
parse_ini-contain table s s' h = >>=-elim_ok (cache_shape table) _ h λ shape h₁ k₁.
    >>=-elim_ok (get_int (codes "NumberOfEngine") table) _ k₁ λ engines h₂ k₂.
      >>=-elim_ok (get_int (codes "BF") table) _ k₂ λ bf h₃ k₃.
        >>=-elim_ok (get_string (codes "MemoryType") table) _ k₃ λ mem_type h₄ k₄.
          let (size, unit, way) = cache_shape-contain table shape h₁ in
          (
            size,
            unit,
            way,
            get_int-contain _ table engines h₂,
            get_int-contain _ table bf h₃,
            get_string-contain _ table mem_type h₄,
          )

-- What is found under the keys of a configuration that is accepted.
pub record IsConfig (find : Text → Option Text) (c w e b : ℕ) (unit path kind : Text) : Type 0 where
  pub size : find (codes "CacheSize") ≡ some (show_int (pos c))
  pub unit_size : find (codes "UnitSize") ≡ some unit
  pub ways : find (codes "CacheWay") ≡ some (show_int (pos w))
  pub engines : find (codes "NumberOfEngine") ≡ some (show_int (pos e))
  pub blocks : find (codes "BF") ≡ some (show_int (pos b))
  pub memory : find (codes "MemoryType") ≡ some path
  pub unit_bare : has b'"' unit ≡ false
  pub memory_bare : has b'"' path ≡ false
  pub named : stem path (codes "/") (codes "_") ≡ ok kind
  pub some_way : 0 < w
  pub ints : (c < int_mod) × (w < int_mod) × (e < int_mod) × (b < int_mod)

-- The bytes of `c` units.
unfoldable pub bytes : ℕ → Text → ℕ
bytes c unit = if same unit (codes "KB") then c * 1024 else c * 1048576

get_int-show :
    (k : Text) (table : Table) (n : ℕ)
    → lookup k table ≡ some (show_int (pos n))
    → n < int_mod
    → get_int k table ≡ ok (pos n)
unfolding get_int IsInt
get_int-show k table n e h = rw (get_int, e) (stoi-show_int (pos n) h)

get_string-bare :
    (k : Text) (table : Table) (v : Text)
    → lookup k table ≡ some v
    → has b'"' v ≡ false
    → get_string k table ≡ ok v
unfolding get_string unquoted
get_string-bare k table v e h = rw (get_string, e, h) refl

over_quotient : (a b : ℕ) → 0 < b → a < int_mod → over (pos a) (pos b) ≡ ok (pos (a / b))
unfolding over truncated checked in_range
over_quotient a b h₁ h₂ =
    let small : a / b < int_mod = ground (arith, div-le_self a b, h₂) in ground (arith, h₁, small)

times_small : (c k : ℕ) → c * k < int_mod → times (pos c) k ≡ ok (pos (c * k))
unfolding times product checked in_range
times_small c k h = ground (arith, h)

times_unit :
    (b : Bool) (c : ℕ)
    → (if b then c * 1024 else c * 1048576) < int_mod
    → (if b then times (pos c) 1024 else times (pos c) 1048576)
      ≡ ok (pos (if b then c * 1024 else c * 1048576))
times_unit true c h = times_small c 1024 h
times_unit false c h = times_small c 1048576 h

cache_bytes-bytes :
    (table : Table) (c w e b : ℕ) (unit path kind : Text)
    → IsConfig (λ k. lookup k table) c w e b unit path kind
    → bytes c unit < int_mod
    → cache_bytes table ≡ ok (pos (bytes c unit))
unfolding cache_bytes bytes
cache_bytes-bytes table c w e b unit path kind t h =
    let e₁ = get_int-show (codes "CacheSize") table c t.size t.ints.0 in
    let e₂ = get_string-bare (codes "UnitSize") table unit t.unit_size t.unit_bare in
    rw (e₁, e₂) (times_unit (same unit (codes "KB")) c h)

cache_shape-bytes :
    (table : Table) (c w e b : ℕ) (unit path kind : Text)
    → IsConfig (λ k. lookup k table) c w e b unit path kind
    → bytes c unit < int_mod
    → cache_shape table ≡ ok (pos (bytes c unit), pos w, pos (bytes c unit / w / 64))
unfolding cache_shape
cache_shape-bytes table c w e b unit path kind t h =
    let n = bytes c unit in
    let less : n / w < int_mod = ground (arith, div-le_self n w, h) in
    rw
      (
        cache_bytes-bytes table c w e b unit path kind t h,
        get_int-show (codes "CacheWay") table w t.ways t.ints.1,
        over_quotient n w t.some_way h,
        over_quotient (n / w) 64 (omega arith) less,
      )
      refl

-- The settings with these values.
abbrev pub configured : Settings → (c w e b : ℕ) (unit path kind : Text) → Settings
configured s c w e b unit path kind = record s {
  cache_size = pos (bytes c unit);
  cache_way = pos w;
  cache_set = pos (bytes c unit / w / 64);
  n_of_engine = pos e;
  bf = pos b;
  d_value_addr_start = 0;
  mem_type = path;
  log = record (s.log) {
    engine_n = pos e;
    mem_type = kind;
    cache_size = pos (bytes c unit / 1048576);
    bf = pos b;
  };
}

-- A table is accepted that has a size, ways, engines and blocks, each in plain decimal, without sign,
-- blank or leading zero, and below 2 ^ 31, of which the ways are not 0; a unit and a memory without quotes, the
-- name of the memory with a kind in it; and fewer than 2 ^ 31 bytes of cache. The bytes are the size in
-- the unit, which is a kilobyte if it is `KB` and a megabyte if it is anything else, and the sets are
-- the bytes over the ways and 64, each quotient without its fraction. The log notes the engines, the
-- blocks, the kind and the whole megabytes; nothing else changes.
pub parse_ini-accepts :
    (table : Table) (s : Settings) (c w e b : ℕ) (unit path kind : Text)
    → IsConfig (λ k. lookup k table) c w e b unit path kind
    → bytes c unit < int_mod
    → parse_ini table s ≡ ok (configured s c w e b unit path kind)
unfolding parse_ini
parse_ini-accepts table s c w e b unit path kind t h =
    rw
      (
        cache_shape-bytes table c w e b unit path kind t h,
        get_int-show (codes "NumberOfEngine") table e t.engines t.ints.2,
        get_int-show (codes "BF") table b t.blocks t.ints.3,
        get_string-bare (codes "MemoryType") table path t.memory t.memory_bare,
        t.named,
        over_quotient (bytes c unit) 1048576 (omega arith) h,
      )
      refl
