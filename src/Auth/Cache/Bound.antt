-- ===== src/Auth/Cache/Bound.antt =====
-- The bound that `insert_bounded` of src/auth/cache.rs keeps, and that what it evicts is there.
use quadpod.Prelude.{
  ℕ, suc, ◌≡◌, ◌≤◌, ◌<◌, refl, true, not, ◌&&◌, none, some, [], ◌∷◌, length, if◌then◌else◌, is_some,
  leb, Text, Map, get, insert, remove, text_eq, get-insert, list_eq, nat_eq, arith, Bool-cases,
  Option-cases, inl, inr,
}
use quadpod.Auth.Cache.{max_cache_entries, sweep, oldest, make_room, insert_bounded}

module _ {V : Type 0} where
  length-insert :
      (k : Text) (v : V) (m : Map V)
      → length (insert k v m) ≡ (if is_some (get k m) then length m else suc (length m))
  unfolding insert get
  length-insert k v [] = refl
  length-insert k v ((j, w) ∷ m) = ground (arith, length-insert k v m)

  length-remove : (k : Text) (m : Map V) → length (remove k m) ≤ length m
  unfolding remove
  length-remove k [] = omega arith
  length-remove k ((j, w) ∷ m) = ground (arith, length-remove k m)

  length-remove_present :
      (k : Text) (m : Map V) → is_some (get k m) ≡ true → length (remove k m) < length m
  unfolding remove get
  length-remove_present k [] h = cc
  length-remove_present k ((j, w) ∷ m) h =
      ground (arith, length-remove k m, length-remove_present k m)

module _ {V : Type 0} (stamp : V → ℕ) (elapsed : ℕ → ℕ) where
  oldest-present :
      (m : Map V) {k : Text} {least : ℕ}
      → oldest stamp elapsed m ≡ some (k, least)
      → is_some (get k m) ≡ true
  unfolding oldest get
  oldest-present [] h = cc
  oldest-present ((j, v) ∷ m) {k} {least} h = elim (Option-cases (oldest stamp elapsed m)) [
    | inl e ↦ ground (arith, text_eq j k)
    | inr ((i, n), e) ↦ ground (arith, text_eq j k, oldest-present m e)
  ]

  oldest_empty : (m : Map V) → oldest stamp elapsed m ≡ none → length m ≡ 0
  unfolding oldest
  oldest_empty [] h = refl
  oldest_empty ((j, v) ∷ m) h = absurd (ground arith)

  length-sweep : (ttl : ℕ) (m : Map V) → length (sweep stamp elapsed ttl m) ≤ length m
  unfolding sweep
  length-sweep ttl [] = omega arith
  length-sweep ttl ((k, v) ∷ m) = ground (arith, length-sweep ttl m)

  length-make_room :
      (ttl : ℕ) (m : Map V)
      → length m ≤ max_cache_entries
      → length (make_room stamp elapsed ttl m) < max_cache_entries
  unfolding make_room
  length-make_room ttl m h =
      let swept = sweep stamp elapsed ttl m in
      let small : length swept ≤ length m = length-sweep ttl m in
      elim (Option-cases (oldest stamp elapsed swept)) [
        | inl e ↦
            let empty : length swept ≡ 0 = oldest_empty swept e in ground (arith, small, empty)
        | inr ((k, least), e) ↦
            let less = length-remove_present k swept (oldest-present swept e) in
            ground (arith, small, less)
      ]

  -- A map within the bound stays within it, whatever is inserted, and holds what was inserted.
  pub insert_bounded_lem :
      (m : Map V) (key : Text) (value : V) (ttl : ℕ)
      → length m ≤ max_cache_entries
      → (length (insert_bounded stamp elapsed m key value ttl) ≤ max_cache_entries)
        × (get key (insert_bounded stamp elapsed m key value ttl) ≡ some value)
  unfolding insert_bounded
  insert_bounded_lem m key value ttl h =
      elim (Bool-cases (leb max_cache_entries (length m) && not (is_some (get key m)))) [
        | inl full ↦
            let room = make_room stamp elapsed ttl m in
            (
              ground (arith, length-insert key value room, length-make_room ttl m h),
              ground (arith, get-insert key key value room, text_eq key key),
            )
        | inr fits ↦ (
          ground (arith, length-insert key value m),
          ground (arith, get-insert key key value m, text_eq key key),
        )
      ]
