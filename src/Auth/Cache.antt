-- ===== src/Auth/Cache.antt =====
-- src/auth/cache.rs: the bounded map that the pre-authentication caches insert into.
pub mod Bound
use quadpod.Prelude.{
  ℕ, Bool, true, false, not, ◌&&◌, Option, none, some, List, [], ◌∷◌, length, if◌then◌else◌,
  is_some, leb, ltb, Text, Map, get, insert, remove,
}

abbrev pub max_cache_entries : ℕ
max_cache_entries = 1024

-- `stamp` reads an entry's instant, and `elapsed` is what the clock answers for it.
module _ {V : Type 0} (stamp : V → ℕ) (elapsed : ℕ → ℕ) where
  -- `map.retain(|_, v| stamp(v).elapsed() < ttl)`
  unfoldable pub sweep : ℕ → Map V → Map V
  sweep ttl [] = []
  sweep ttl ((k, v) ∷ m) =
      let rest = sweep ttl m in if ltb (elapsed (stamp v)) ttl then (k, v) ∷ rest else rest

  -- `min_by_key` over the entries: the key and the stamp of the first of the least.
  unfoldable pub oldest : Map V → Option (Text × ℕ)
  oldest [] = none
  oldest ((k, v) ∷ m) = elim (oldest m) [
    | none ↦ some (k, stamp v)
    | some (j, least) ↦ if leb (stamp v) least then some (k, stamp v) else some (j, least)
  ]

  unfoldable pub make_room : ℕ → Map V → Map V
  make_room ttl map =
      let swept = sweep ttl map in
      if leb max_cache_entries (length swept)
      then elim (oldest swept) [ none ↦ swept | some (k, least) ↦ remove k swept ]
      else swept

  unfoldable pub insert_bounded : Map V → Text → V → ℕ → Map V
  insert_bounded map key value ttl = insert key value (
      if leb max_cache_entries (length map) && not (is_some (get key map))
      then make_room ttl map
      else map)
