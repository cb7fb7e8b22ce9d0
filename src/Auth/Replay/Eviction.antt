-- ===== src/Auth/Replay/Eviction.antt =====
-- How long `record_or_reject` of src/auth/dpop.rs keeps a record at most.
use quadpod.Prelude.{
  ℕ, ◌+◌, ◌≡◌, ◌≤◌, ◌<◌, refl, Bool, true, false, [], ◌∷◌, all, is_some, leb, ltb, Text, Map, get,
  insert, arith, Bool-cases, inl, inr,
}
use quadpod.Auth.Replay.{
  eviction_interval_seconds, greatest, saturating_sub, saturating_abs, seconds, ReplaySet,
  retain_from, evict, record_or_reject,
}
use quadpod.Auth.Replay.Window.{window}

-- Every record was made at `bound` less the window, or later.
abbrev pub recorded_since : ℕ → Map ℕ → Bool
recorded_since bound m = all (λ e. leb bound (e.1 + window)) m

-- No record is older than the last sweep allows.
abbrev pub IsSwept : ReplaySet → Type 0
IsSwept s = recorded_since s.last_eviction s.jtis ≡ true

near :
    (now last : ℕ)
    → now ≤ greatest
    → last ≤ greatest
    → leb (seconds eviction_interval_seconds) (saturating_abs (saturating_sub now last)) ≡ false
    → (now < last + eviction_interval_seconds) × (last < now + eviction_interval_seconds)
unfolding saturating_abs saturating_sub
near now last a b h = (ground arith, ground arith)

since-retain_from :
    (now : ℕ) (m : Map ℕ)
    → now ≤ greatest
    → recorded_since now (retain_from (saturating_sub now (seconds window)) m) ≡ true
unfolding retain_from saturating_sub
since-retain_from now [] a = refl
since-retain_from now ((k, v) ∷ m) a = ground (arith, since-retain_from now m a)

since-insert :
    (bound : ℕ) (k : Text) (now : ℕ) (m : Map ℕ)
    → bound ≤ now + window
    → recorded_since bound m ≡ true
    → recorded_since bound (insert k now m) ≡ true
unfolding insert
since-insert bound k now [] low h = ground arith
since-insert bound k now ((j, v) ∷ m) low h = ground (arith, since-insert bound k now m low)

since_mono :
    (bound now : ℕ) (m : Map ℕ)
    → now < bound + eviction_interval_seconds
    → recorded_since bound m ≡ true
    → all (λ e. ltb now (e.1 + (window + eviction_interval_seconds))) m ≡ true
since_mono bound now [] low h = refl
since_mono bound now ((j, v) ∷ m) low h = ground (arith, since_mono bound now m low)

evict-IsSwept :
    (now : ℕ) (s : ReplaySet)
    → now ≤ greatest
    → s.last_eviction ≤ greatest
    → IsSwept s
    → IsSwept (evict now s)
      × (now < (evict now s).last_eviction + eviction_interval_seconds)
      × ((evict now s).last_eviction < now + eviction_interval_seconds)
unfolding evict
evict-IsSwept now s a b h =
    elim (Bool-cases (
      leb (seconds eviction_interval_seconds)
        (saturating_abs (saturating_sub now s.last_eviction)))) [
          | inl far ↦ (ground (arith, since-retain_from now s.jtis a), ground arith, ground arith)
          | inr close ↦
              let (up, down) = near now s.last_eviction a b close in
              (ground arith, ground arith, ground arith)
        ]

-- After each call, at whatever time, every record was made at most the window and the eviction
-- interval before it: no older record is kept.
pub record_or_reject-IsSwept :
    (hash_jti : Text → Text) (jti : Text) (now : ℕ) (s : ReplaySet)
    → now ≤ greatest
    → s.last_eviction ≤ greatest
    → IsSwept s
    → IsSwept (record_or_reject hash_jti jti now s).1
      × (all
            (λ e. ltb now (e.1 + (window + eviction_interval_seconds)))
            (record_or_reject hash_jti jti now s).1.jtis
          ≡ true)
unfolding record_or_reject
record_or_reject-IsSwept hash_jti jti now s a b h =
    let (swept, up, down) = evict-IsSwept now s a b h in
    let e = evict now s in
    elim (Bool-cases (is_some (get (hash_jti jti) e.jtis))) [
      | inl seen ↦ (ground arith, ground (arith, since_mono e.last_eviction now e.jtis up swept))
      | inr unseen ↦
          let added = since-insert e.last_eviction (hash_jti jti) now e.jtis (omega arith) swept in
          (
            ground (arith, added),
            ground
                (arith, since_mono e.last_eviction now (insert (hash_jti jti) now e.jtis) up added),
          )
    ]
