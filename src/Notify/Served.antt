-- ===== src/Notify/Served.antt =====
-- No reader of src/notify.rs is cut off, in whatever order the critical sections of the calls come.
use quadpod.Prelude.{
  ℕ, zero, suc, ◌≡◌, ◌≢◌, ◌⊎◌, inl, inr, refl, sym, ap, Bool, true, false, not, ◌&&◌, ◌||◌, Option,
  none, some, List, [], ◌∷◌, ◌++◌, All, retain, if◌then◌else◌, ◌==◌, nat_eq, list_eq, text_eq,
  nat_beq_iff, Text, Map, get, insert, get-insert, get-remove, member, arith, Bool-cases,
  Option-cases,
}
use quadpod.Notify.{
  Topic, Event, Broadcast, World, is_dead, evict, live_evict, publish, sender_for, subscribe,
  drop_release, Step, reads, evicts, publishes, subscribes, releases, unregisters, Reachable, start,
  next,
}

-- What tokio documents of its broadcast channels: `active` says which receiver is active on which
-- sender, and `log` which events were sent to a receiver.
pub record BroadcastLaws {Channels : Type 0} (b : Broadcast Channels)
    (active : ℕ → ℕ → Channels → Bool) (log : ℕ → Channels → List Event) : Type 0 where
  pub counted :
      (rx tx : ℕ) (c : Channels) → active rx tx c ≡ true → (b.receiver_count tx c == 0) ≡ false
  pub channel_keeps : (rx tx : ℕ) (c : Channels) → active rx tx (b.channel c).1 ≡ active rx tx c
  pub subscribed :
      (tx : ℕ) (c : Channels) → active (b.subscribe tx c).0 tx (b.subscribe tx c).1 ≡ true
  pub subscribe_keeps :
      (rx s tx : ℕ) (c : Channels) → active rx s c ≡ true → active rx s (b.subscribe tx c).1 ≡ true
  pub release_keeps :
      (rx tx gone : ℕ) (c : Channels)
      → (rx == gone) ≡ false
      → active rx tx (b.release gone c) ≡ active rx tx c
  pub send_keeps :
      (rx s tx : ℕ) (e : Event) (c : Channels) → active rx s (b.send tx e c) ≡ active rx s c
  pub sent :
      (rx tx : ℕ) (e : Event) (c : Channels)
      → log rx (b.send tx e c) ≡ (if active rx tx c then log rx c ++ e ∷ [] else log rx c)

module _ {Channels : Type 0} (b : Broadcast Channels) (active : ℕ → ℕ → Channels → Bool)
    (log : ℕ → Channels → List Event) (laws : BroadcastLaws b active log) where
  -- A reader is active on the channel that its topic has.
  pub record IsHeard (w : World Channels) (r : ℕ × Topic) : Type 0 where
    pub tx : ℕ
    pub registered : get r.1 w.bus ≡ some tx
    pub is_active : active r.0 tx w.channels ≡ true

  pub Served : World Channels → Type 0
  Served w = All (IsHeard w) w.readers

  pub All-map :
      {P Q : ℕ × Topic → Type 0} (f : (r : ℕ × Topic) → P r → Q r) (rs : List (ℕ × Topic))
      → All P rs
      → All Q rs
  All-map f [] h = tt
  All-map f (r ∷ rs) h = (f r (h.0), All-map f rs (h.1))

  evict-Served : (topic : Topic) (w : World Channels) → Served w → Served (evict b topic w)
  unfolding evict Served
  evict-Served topic w h = elim (Bool-cases (is_dead b topic w)) [
    | inr alive ↦ rw alive h
    | inl dead ↦ rw dead (All-map (λ r heard. heard_elsewhere r heard dead) w.readers h)
  ]
    where
      heard_elsewhere :
          (r : ℕ × Topic)
          → IsHeard w r
          → is_dead b topic w ≡ true
          → IsHeard (record w { bus = quadpod.Prelude.remove topic w.bus }) r
      heard_elsewhere r heard dead = record {
        tx = heard.tx;
        registered = ground (
          arith,
          heard.registered,
          get-remove topic (r.1) w.bus,
          text_eq topic (r.1),
          laws.counted (r.0) heard.tx w.channels heard.is_active,
        );
        is_active = heard.is_active;
      }

  live_evict-Served :
      (dead : List Topic) (w : World Channels) → Served w → Served (live_evict b dead w)
  unfolding live_evict
  live_evict-Served [] w h = h
  live_evict-Served (topic ∷ dead) w h =
      live_evict-Served dead (evict b topic w) (evict-Served topic w h)

  publish-Served : (event : Event) (w : World Channels) → Served w → Served (publish b event w)
  unfolding publish Served
  publish-Served event w h = elim (Option-cases (get event.topic w.bus)) [
    | inl none_there ↦ let out : publish b event w ≡ w = ground arith in rw out h
    | inr (tx, e) ↦
        let sent : World Channels = record w { channels = b.send tx event w.channels } in
        let out : publish b event w ≡ sent = ground arith in
        rw out (
          All-map
            (λ r heard. record {
              tx = heard.tx;
              registered = heard.registered;
              is_active = rw (laws.send_keeps (r.0) heard.tx tx event w.channels) heard.is_active;
            })
            w.readers h)
  ]

  drop_release-Served : (rx : ℕ) (w : World Channels) → Served w → Served (drop_release b rx w)
  unfolding drop_release Served
  drop_release-Served rx w h = go w.readers h
    where
      w' : World Channels
      w' = record w {
        channels = b.release rx w.channels;
        readers = retain (λ r. not (r.0 == rx)) w.readers;
      }

      go :
          (rs : List (ℕ × Topic))
          → All (IsHeard w) rs
          → All (IsHeard w') (retain (λ r. not (r.0 == rx)) rs)
      go [] h = tt
      go (r ∷ rs) h = elim (Bool-cases (r.0 == rx)) [
        | inl gone ↦ rw gone (go rs (h.1))
        | inr other ↦ rw other (
          record {
            tx = (h.0).tx;
            registered = (h.0).registered;
            is_active = rw (laws.release_keeps (r.0) (h.0).tx rx w.channels other) (h.0).is_active;
          },
          go rs (h.1),
        )
      ]

  -- The channel of a topic, found or made: the topic has it then, and every reader is still heard.
  record IsSenderFor (topic : Topic) (w : World Channels) (out : ℕ × World Channels) : Type 0 where
    registered : get topic (out.1).bus ≡ some (out.0)
    same_readers : (out.1).readers ≡ w.readers
    served : Served (out.1)

  sender_for-IsSenderFor :
      (topic : Topic) (w : World Channels) → Served w → IsSenderFor topic w (sender_for b topic w)
  unfolding sender_for Served
  sender_for-IsSenderFor topic w h = elim (Option-cases (get topic w.bus)) [
    | inr (tx, e) ↦
        let out : sender_for b topic w ≡ (tx, w) = ground arith in
        rw out (record { registered = e; same_readers = refl; served = h })
    | inl e ↦
        let made = b.channel w.channels in
        let w' : World Channels = record w {
          bus = insert topic (made.0) w.bus;
          channels = made.1;
        } in
        let out : sender_for b topic w ≡ (made.0, w') = ground arith in
        rw out (record {
          registered = ground (arith, get-insert topic topic (made.0) w.bus, text_eq topic topic);
          same_readers = refl;
          served =
              All-map
                (λ r heard. record {
                  tx = heard.tx;
                  registered = ground (
                    arith,
                    heard.registered,
                    get-insert topic (r.1) (made.0) w.bus,
                    text_eq topic (r.1),
                  );
                  is_active = rw (laws.channel_keeps (r.0) heard.tx w.channels) heard.is_active;
                })
                w.readers h;
        })
  ]

  subscribe-Served :
      (topic : Topic) (w : World Channels) → Served w → Served (subscribe b topic w).1
  unfolding subscribe Served
  subscribe-Served topic w h =
      let found = sender_for-IsSenderFor topic w h in
      let tx = (sender_for b topic w).0 in
      let w1 = (sender_for b topic w).1 in
      (
        record {
          tx = tx;
          registered = found.registered;
          is_active = laws.subscribed tx w1.channels;
        },
        All-map
            (λ r heard. record {
              tx = heard.tx;
              registered = heard.registered;
              is_active = laws.subscribe_keeps (r.0) heard.tx tx w1.channels heard.is_active;
            })
            w1.readers found.served,
      )

  step-Served : {w w' : World Channels} → Step b w w' → Served w → Served w'
  step-Served (reads topics) h = h
  step-Served (evicts {w} dead) h = live_evict-Served dead w h
  step-Served (publishes {w} event) h = publish-Served event w h
  step-Served (subscribes {w} topic) h = subscribe-Served topic w h
  step-Served (releases {w} rx) h = drop_release-Served rx w h
  step-Served (unregisters {w} topic) h = evict-Served topic w h

  -- In every world that is reached from a registry without readers, whatever calls are interleaved
  -- at their locks, each reader is active on the channel that the registry has for its topic.
  pub Reachable-Served :
      {first w : World Channels} → first.readers ≡ [] → Reachable b first w → Served w
  unfolding Served
  Reachable-Served none_yet start = rw none_yet tt
  Reachable-Served none_yet (next before step) = step-Served step (Reachable-Served none_yet before)

  -- The readers of such a world, each with the channel that it hears.
  pub Reachable-IsHeard :
      {first w : World Channels}
      → first.readers ≡ []
      → Reachable b first w
      → All (IsHeard w) w.readers
  Reachable-IsHeard none_yet reached = unfold Served in Reachable-Served none_yet reached
