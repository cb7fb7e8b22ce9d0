-- ===== src/Auth/Replay.antt =====
-- `InMemoryJtiReplayStore` of src/auth/dpop.rs. An i64 is its value plus 2 ^ 63, a number below
-- 2 ^ 64, and the hash of a jti is a parameter.
pub mod Window
pub mod Eviction
use quadpod.Prelude.{
  ℕ, ◌+◌, ◌-◌, ◌^◌, Bool, true, false, Option, none, some, List, [], ◌∷◌, if◌then◌else◌, is_some,
  leb, ltb, Text, codes, Map, get, insert, Result, ok, err,
}
use quadpod.Auth.{AuthError, dpop_invalid}

abbrev pub max_age_seconds : ℕ
max_age_seconds = 300

abbrev pub future_skew_seconds : ℕ
future_skew_seconds = 5

abbrev pub eviction_interval_seconds : ℕ
eviction_interval_seconds = 60

-- The i64 zero.
abbrev pub origin : ℕ
origin = 9223372036854775808

-- The greatest i64; the least is 0.
abbrev pub greatest : ℕ
greatest = 18446744073709551615

abbrev pub min : ℕ → ℕ → ℕ
min a b = if leb a b then a else b

-- `a.saturating_sub(b)`: the difference, held to 0 by the subtraction and to `greatest` by `min`.
unfoldable pub saturating_sub : ℕ → ℕ → ℕ
saturating_sub a b = min ((a + origin) - b) greatest

-- `a.saturating_abs()`: the negative of a number below zero, held to `greatest`.
unfoldable pub saturating_abs : ℕ → ℕ
saturating_abs a = if ltb a origin then min ((origin + origin) - a) greatest else a

-- A non-negative i64.
abbrev pub seconds : ℕ → ℕ
seconds n = origin + n

pub record ReplaySet : Type 0 where
  pub jtis : Map ℕ
  pub last_eviction : ℕ

abbrev pub new : ReplaySet
new = record { jtis = []; last_eviction = origin }

-- `jtis.retain(|_, recorded_at| *recorded_at >= cutoff)`
unfoldable pub retain_from : ℕ → Map ℕ → Map ℕ
retain_from cutoff [] = []
retain_from cutoff ((k, recorded_at) ∷ m) =
    let rest = retain_from cutoff m in
    if leb cutoff recorded_at then (k, recorded_at) ∷ rest else rest

-- The sweep that the start of a call may run.
unfoldable pub evict : ℕ → ReplaySet → ReplaySet
evict now_unix replay =
    if leb (seconds eviction_interval_seconds)
      (saturating_abs (saturating_sub now_unix replay.last_eviction))
    then record {
      jtis =
          retain_from (saturating_sub now_unix (seconds (max_age_seconds + future_skew_seconds)))
            replay.jtis;
      last_eviction = now_unix;
    }
    else replay

abbrev pub replayed : AuthError
replayed = dpop_invalid (codes "dpop proof replayed")

module _ (hash_jti : Text → Text) where
  unfoldable pub record_or_reject : Text → ℕ → ReplaySet → Result AuthError (Unit {0}) × ReplaySet
  record_or_reject jti now_unix replay =
      let swept = evict now_unix replay in
      if is_some (get (hash_jti jti) swept.jtis)
      then (err replayed, swept)
      else (ok tt, record swept { jtis = insert (hash_jti jti) now_unix swept.jtis })
