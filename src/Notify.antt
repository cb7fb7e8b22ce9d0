-- ===== src/Notify.antt =====
-- src/notify.rs: the registry of notification channels, step by step, and the events of each write.
-- The broadcast channels of tokio are the parameter `Broadcast`: a sender and a receiver are
-- numbers, and `Channels` is the state of all channels.
pub mod Served
pub mod Delivery
pub mod Emit
pub mod Events
mod Tests
use quadpod.Prelude.{
  ℕ, Bool, true, false, not, ◌&&◌, Option, none, some, List, [], ◌∷◌, ◌++◌, retain, if◌then◌else◌,
  ◌==◌, nat_eq, list_eq, Text, Map, get, insert, remove as remove_key,
}
use quadpod.Space.{Target, graph_iri}

pub data Activity : Type 0 where
  create update delete add remove : Activity

-- A `Topic` is the text that it wraps.
abbrev pub Topic : Type 0
Topic = Text

abbrev pub topic_of : Target → Topic
topic_of t = graph_iri t

pub record Event : Type 0 where
  pub topic : Topic
  pub activity : Activity
  pub object : Text
  pub target : Option Text
  pub state : Option Text

-- `tokio::sync::broadcast`: what the registry calls.
pub record Broadcast (Channels : Type 0) : Type 0 where
  pub channel : Channels → ℕ × Channels
  pub subscribe : ℕ → Channels → ℕ × Channels
  pub receiver_count : ℕ → Channels → ℕ
  pub send : ℕ → Event → Channels → Channels
  -- the drop of a receiver
  pub release : ℕ → Channels → Channels

-- The registry, the channels, and the `Receiver` values that are alive, each with its topic.
pub record World (Channels : Type 0) : Type 0 where
  pub bus : Map ℕ
  pub channels : Channels
  pub readers : List (ℕ × Topic)

module _ {Channels : Type 0} (b : Broadcast Channels) where
  -- `receiver_count() == 0` of the channel that a topic has
  abbrev pub is_dead : Topic → World Channels → Bool
  is_dead topic w = elim (get topic w.bus) [
    | none ↦ false
    | some tx ↦ b.receiver_count tx w.channels == 0
  ]

  -- The part of `live` under the read lock: the live topics, and the dead ones.
  unfoldable pub live_read : List Topic → World Channels → List Topic × List Topic
  live_read [] w = ([], [])
  live_read (topic ∷ topics) w =
      let (live, dead) = live_read topics w in
      elim (get topic w.bus) [
        | none ↦ (live, dead)
        | some tx ↦
            if b.receiver_count tx w.channels == 0
            then (live, topic ∷ dead)
            else (topic ∷ live, dead)
      ]

  -- What the write lock of `live` and that of a receiver's drop do for one topic.
  unfoldable pub evict : Topic → World Channels → World Channels
  evict topic w = if is_dead topic w then record w { bus = remove_key topic w.bus } else w

  -- The part of `live` under the write lock.
  unfoldable pub live_evict : List Topic → World Channels → World Channels
  live_evict [] w = w
  live_evict (topic ∷ dead) w = live_evict dead (evict topic w)

  -- `live` when nothing comes between its two locks.
  unfoldable pub live : List Topic → World Channels → List Topic × World Channels
  live topics w = let (alive, dead) = live_read topics w in (alive, live_evict dead w)

  unfoldable pub publish : Event → World Channels → World Channels
  publish event w = elim (get event.topic w.bus) [
    | none ↦ w
    | some tx ↦ record w { channels = b.send tx event w.channels }
  ]

  -- `entry(topic).or_insert_with(channel)`
  unfoldable pub sender_for : Topic → World Channels → ℕ × World Channels
  sender_for topic w = elim (get topic w.bus) [
    | some tx ↦ (tx, w)
    | none ↦
        let (tx, channels) = b.channel w.channels in
        (tx, record w { bus = insert topic tx w.bus; channels = channels })
  ]

  unfoldable pub subscribe : Topic → World Channels → ℕ × World Channels
  subscribe topic w =
      let (tx, w1) = sender_for topic w in
      let (rx, channels) = b.subscribe tx w1.channels in
      (rx, record w1 { channels = channels; readers = (rx, topic) ∷ w1.readers })

  -- The drop of a receiver, up to the lock; then `evict` for its topic.
  unfoldable pub drop_release : ℕ → World Channels → World Channels
  drop_release rx w = record w {
    channels = b.release rx w.channels;
    readers = retain (λ r. not (r.0 == rx)) w.readers;
  }

  -- What may happen next: each constructor is one critical section, or the release before one.
  pub data Step : World Channels → World Channels → Type 0 where
    reads : {w : World Channels} (topics : List Topic) → Step w w
    evicts : {w : World Channels} (dead : List Topic) → Step w (live_evict dead w)
    publishes : {w : World Channels} (event : Event) → Step w (publish event w)
    subscribes : {w : World Channels} (topic : Topic) → Step w (subscribe topic w).1
    releases : {w : World Channels} (rx : ℕ) → Step w (drop_release rx w)
    unregisters : {w : World Channels} (topic : Topic) → Step w (evict topic w)

  -- The worlds that any interleaving of the calls reaches.
  pub data Reachable (first : World Channels) : World Channels → Type 0 where
    start : Reachable first first
    next : {w w' : World Channels} → Reachable first w → Step w w' → Reachable first w'
