-- ===== src/Notify/Delivery.antt =====
-- `publish` and `live` of src/notify.rs, for the readers of a registry.
use quadpod.Prelude.{
  ℕ, ◌≡◌, ◌≢◌, ◌⊎◌, inl, inr, refl, Bool, true, not, ◌||◌, some, List, [], ◌∷◌, ◌++◌, All, ◌==◌,
  nat_eq, list_eq, text_eq, get, member, arith, Bool-cases, Option-cases,
}
use quadpod.Notify.Served.{BroadcastLaws, IsHeard, All-map, Reachable-IsHeard}
use quadpod.Notify.{Topic, Event, Broadcast, World, live_read, publish, Reachable}

module _ {Channels : Type 0} (b : Broadcast Channels) (active : ℕ → ℕ → Channels → Bool)
    (log : ℕ → Channels → List Event) (laws : BroadcastLaws b active log) where
  abbrev pub Delivered : Event → World Channels → ℕ × Topic → Type 0
  Delivered event w r =
      (r.1 ≢ event.topic)
      ⊎ (log (r.0) (publish b event w).channels ≡ log (r.0) w.channels ++ event ∷ [])

  publish_heard :
      (event : Event) (w : World Channels) (r : ℕ × Topic)
      → IsHeard b active log laws w r
      → Delivered event w r
  unfolding publish
  publish_heard event w r heard = elim (Bool-cases (r.1 == event.topic)) [
    | inl same ↦
        let topic : r.1 ≡ event.topic = (text_eq (r.1) event.topic).0 same in
        let found : get event.topic w.bus ≡ some heard.tx = rw topic at heard.registered in
        let sent : World Channels = record w { channels = b.send heard.tx event w.channels } in
        let out : publish b event w ≡ sent = ground arith in
        inr (rw out (ground (arith, laws.sent (r.0) heard.tx event w.channels, heard.is_active)))
    | inr other ↦ inl (λ e. ground (arith, text_eq (r.1) event.topic))
  ]

  -- An event published in such a world is sent, once, to every reader of its topic.
  pub publish-Reachable :
      {first w : World Channels} (event : Event)
      → first.readers ≡ []
      → Reachable b first w
      → All (Delivered event w) w.readers
  publish-Reachable {w = w} event none_yet reached =
      All-map b active log laws (publish_heard event w) w.readers
        (Reachable-IsHeard b active log laws none_yet reached)

  abbrev pub answered : List Topic → World Channels → ℕ × Topic → Bool
  answered topics w r = not (member (r.1) topics) || member (r.1) (live_read b topics w).0

  answered_heard :
      (topics : List Topic) (w : World Channels) (r : ℕ × Topic)
      → IsHeard b active log laws w r
      → answered topics w r ≡ true
  unfolding live_read member
  answered_heard [] w r heard = refl
  answered_heard (topic ∷ topics) w r heard =
      let counted = laws.counted (r.0) heard.tx w.channels heard.is_active in
      let rest = answered_heard topics w r heard in
      elim (Option-cases (get topic w.bus)) [
        | inl e ↦ ground (arith, rest, heard.registered, text_eq topic (r.1))
        | inr (tx, e) ↦ ground (arith, rest, heard.registered, counted, text_eq topic (r.1))
      ]

  -- In such a world a topic that has a reader is among the live ones of those asked about, so the
  -- gate in front of a validator's computation never closes on a reader.
  pub live-Reachable :
      {first w : World Channels} (topics : List Topic)
      → first.readers ≡ []
      → Reachable b first w
      → All (λ r. answered topics w r ≡ true) w.readers
  live-Reachable {w = w} topics none_yet reached =
      All-map b active log laws (answered_heard topics w) w.readers
        (Reachable-IsHeard b active log laws none_yet reached)
