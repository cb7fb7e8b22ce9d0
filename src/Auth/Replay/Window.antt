-- ===== src/Auth/Replay/Window.antt =====
-- How long `record_or_reject` of src/auth/dpop.rs remembers a jti.
use quadpod.Prelude.{
  ℕ, ◌+◌, ◌≡◌, ◌≤◌, refl, Bool, true, false, none, List, [], ◌∷◌, not, ◌||◌, all, is_some, leb,
  Text, Map, get, insert, text_eq, get-insert, ◌==◌, list_eq, nat_eq, ok, err, arith, Bool-cases,
  inl, inr,
}
use quadpod.Auth.Replay.{
  max_age_seconds, future_skew_seconds, greatest, saturating_sub, seconds, ReplaySet, retain_from,
  evict, replayed, record_or_reject,
}

-- The time for which a proof may count as fresh, with the clocks' skew.
abbrev pub window : ℕ
window = max_age_seconds + future_skew_seconds

-- No record of this hash is older than `t`.
abbrev pub no_older : Text → ℕ → Map ℕ → Bool
no_older h t m = all (λ e. not (e.0 == h) || leb t e.1) m

-- The hash is on record, since `t` or later.
pub record Remembers (h : Text) (t : ℕ) (m : Map ℕ) : Type 0 where
  pub recent : no_older h t m ≡ true
  pub present : is_some (get h m) ≡ true

cutoff_le : (now t : ℕ) → now ≤ t + window → t ≤ greatest → saturating_sub now (seconds window) ≤ t
unfolding saturating_sub
cutoff_le now t h k = ground arith

no_older-retain_from :
    (h : Text) (t cutoff : ℕ) (m : Map ℕ)
    → no_older h t m ≡ true
    → no_older h t (retain_from cutoff m) ≡ true
unfolding retain_from
no_older-retain_from h t cutoff [] r = refl
no_older-retain_from h t cutoff ((k, v) ∷ m) r = ground (arith, no_older-retain_from h t cutoff m)

present-retain_from :
    (h : Text) (t cutoff : ℕ) (m : Map ℕ)
    → cutoff ≤ t
    → no_older h t m ≡ true
    → is_some (get h m) ≡ true
    → is_some (get h (retain_from cutoff m)) ≡ true
unfolding retain_from get
present-retain_from h t cutoff [] low r p = p
present-retain_from h t cutoff ((k, v) ∷ m) low r p =
    ground (arith, present-retain_from h t cutoff m low)

no_older-insert :
    (h : Text) (t : ℕ) (k : Text) (now : ℕ) (m : Map ℕ)
    → (k == h) ≡ false
    → no_older h t m ≡ true
    → no_older h t (insert k now m) ≡ true
unfolding insert
no_older-insert h t k now [] differ r = ground arith
no_older-insert h t k now ((j, v) ∷ m) differ r = ground (arith, no_older-insert h t k now m differ)

no_older_inserted :
    (h : Text) (now : ℕ) (m : Map ℕ) → get h m ≡ none → no_older h now (insert h now m) ≡ true
unfolding insert get
no_older_inserted h now [] e = ground arith
no_older_inserted h now ((j, v) ∷ m) e = ground (arith, no_older_inserted h now m)

evict-Remembers :
    (h : Text) (t now : ℕ) (s : ReplaySet)
    → now ≤ t + window
    → t ≤ greatest
    → Remembers h t s.jtis
    → Remembers h t (evict now s).jtis
unfolding evict
evict-Remembers h t now s soon bound r =
    let cutoff = saturating_sub now (seconds window) in
    let low : cutoff ≤ t = cutoff_le now t soon bound in
    record {
      recent = ground (arith, r.recent, no_older-retain_from h t cutoff s.jtis);
      present = ground (arith, r.present, present-retain_from h t cutoff s.jtis low r.recent);
    }

module _ (hash_jti : Text → Text) where
  pub record_or_reject-Remembers :
      (h : Text) (t : ℕ) (jti : Text) (now : ℕ) (s : ReplaySet)
      → now ≤ t + window
      → t ≤ greatest
      → Remembers h t s.jtis
      → Remembers h t (record_or_reject hash_jti jti now s).1.jtis
  unfolding record_or_reject
  record_or_reject-Remembers h t jti now s soon bound r =
      let swept = evict now s in
      let kept = evict-Remembers h t now s soon bound r in
      elim (Bool-cases (is_some (get (hash_jti jti) swept.jtis))) [
        | inl seen ↦ record {
          recent = ground (arith, kept.recent);
          present = ground (arith, kept.present);
        }
        | inr unseen ↦
            let differ : (hash_jti jti == h) ≡ false =
              ground (arith, kept.present, text_eq (hash_jti jti) h) in
            record {
              recent =
                  ground
                    (arith, no_older-insert h t (hash_jti jti) now swept.jtis differ kept.recent);
              present = ground (arith, kept.present, get-insert (hash_jti jti) h now swept.jtis);
            }
      ]

  -- A sequence of calls, each a jti with the time at which it is made.
  abbrev pub run_calls : List (Text × ℕ) → ReplaySet → ReplaySet
  run_calls [] s = s
  run_calls ((jti, now) ∷ calls) s = run_calls calls (record_or_reject hash_jti jti now s).1

  run_calls-Remembers :
      (h : Text) (t : ℕ) (calls : List (Text × ℕ)) (s : ReplaySet)
      → all (λ c. leb c.1 (t + window)) calls ≡ true
      → t ≤ greatest
      → Remembers h t s.jtis
      → Remembers h t (run_calls calls s).jtis
  run_calls-Remembers h t [] s soon bound r = r
  run_calls-Remembers h t ((jti, now) ∷ calls) s soon bound r =
      run_calls-Remembers h t calls (record_or_reject hash_jti jti now s).1 (ground arith) bound
        (record_or_reject-Remembers h t jti now s (ground arith) bound r)

  -- A jti that was accepted at `t` is rejected at every later call up to the window's end, whatever
  -- calls stand between, at whatever times no later than that end, and whatever the hash is.
  pub replay_rejected :
      (jti : Text) (t : ℕ) (s : ReplaySet) {s' : ReplaySet}
      → record_or_reject hash_jti jti t s ≡ (ok tt, s')
      → t ≤ greatest
      → (calls : List (Text × ℕ)) → all (λ c. leb c.1 (t + window)) calls ≡ true
      → (now : ℕ) → now ≤ t + window
      → (record_or_reject hash_jti jti now (run_calls calls s')).0 ≡ err replayed
  unfolding record_or_reject
  replay_rejected jti t s {s'} accepted bound calls soon now last =
      let h = hash_jti jti in
      let swept = evict t s in
      let unseen : get h swept.jtis ≡ none = ground arith in
      let after : s'.jtis ≡ insert h t swept.jtis = ground arith in
      let start : Remembers h t s'.jtis = rw after (record {
        recent = no_older_inserted h t swept.jtis unseen;
        present = ground (arith, get-insert h h t swept.jtis, text_eq h h);
      }) in
      let kept =
        evict-Remembers h t now (run_calls calls s') last bound
          (run_calls-Remembers h t calls s' soon bound start) in
      ground (arith, kept.present)
