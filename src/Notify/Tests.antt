-- ===== src/Notify/Tests.antt =====
-- Broadcast channels of one's own, and the theorems about src/notify.rs at concrete inputs.
use quadpod.Prelude.{
  ℕ, suc, ◌≡◌, refl, Bool, true, false, not, ◌&&◌, none, some, List, [], ◌∷◌, ◌++◌, any, All,
  retain, length, if◌then◌else◌, ◌==◌, nat_eq, list_eq, list_beq, Text, codes, get, insert, arith,
}
use quadpod.Notify.{
  Event, update, Broadcast, World, live_read, live_evict, evict, live, publish, sender_for,
  subscribe, drop_release, Reachable, start, next, subscribes, releases, unregisters,
}
use quadpod.Notify.Served.{BroadcastLaws, Served, Reachable-Served}
use quadpod.Notify.Delivery.{Delivered, answered, publish-Reachable, live-Reachable}

-- Channels as the pairs of a receiver and the sender on which it is active, with what was sent.
record Channels : Type 0 where
  made : ℕ
  pairs : List (ℕ × ℕ)
  logs : ℕ → List Event

is_active : ℕ → ℕ → Channels → Bool
is_active rx tx c = any (λ p. p.0 == rx && p.1 == tx) c.pairs

log : ℕ → Channels → List Event
log rx c = c.logs rx

abbrev on_sender : ℕ → List (ℕ × ℕ) → List (ℕ × ℕ)
on_sender tx pairs = retain (λ p. p.1 == tx) pairs

abbrev broadcast : Broadcast Channels
broadcast = record {
  channel = λ c. (c.made, record c { made = suc c.made });
  subscribe = λ tx c. (c.made, record c { made = suc c.made; pairs = (c.made, tx) ∷ c.pairs });
  receiver_count = λ tx c. length (on_sender tx c.pairs);
  send = λ tx e c. record c {
    logs = λ rx. if is_active rx tx c then c.logs rx ++ e ∷ [] else c.logs rx;
  };
  release = λ gone c. record c { pairs = retain (λ p. not (p.0 == gone)) c.pairs };
}

counted :
    (rx tx : ℕ) (pairs : List (ℕ × ℕ))
    → any (λ p. p.0 == rx && p.1 == tx) pairs ≡ true
    → (length (on_sender tx pairs) == 0) ≡ false
counted rx tx [] h = cc
counted rx tx ((r, t) ∷ pairs) h = ground (arith, counted rx tx pairs)

released :
    (rx tx gone : ℕ) (pairs : List (ℕ × ℕ))
    → (rx == gone) ≡ false
    → any (λ p. p.0 == rx && p.1 == tx) (retain (λ p. not (p.0 == gone)) pairs)
      ≡ any (λ p. p.0 == rx && p.1 == tx) pairs
released rx tx gone [] h = refl
released rx tx gone ((r, t) ∷ pairs) h = ground (arith, released rx tx gone pairs)

broadcast-BroadcastLaws : BroadcastLaws broadcast is_active log
unfolding is_active log
broadcast-BroadcastLaws = record {
  counted = λ rx tx c h. counted rx tx c.pairs h;
  channel_keeps = λ rx tx c. refl;
  subscribed = λ tx c. ground arith;
  subscribe_keeps = λ rx s tx c h. ground arith;
  release_keeps = λ rx tx gone c h. released rx tx gone c.pairs h;
  send_keeps = λ rx s tx e c. refl;
  sent = λ rx tx e c. refl;
}

abbrev topic : Text
topic = codes "https://pod/a"

abbrev quiet : World Channels
quiet = record {
  bus = [];
  channels = record { made = 0; pairs = []; logs = λ rx. [] };
  readers = [];
}

-- A reader that comes and is released, another that comes before the first is unregistered, and
-- then that.
abbrev first_reader : World Channels
first_reader = (subscribe broadcast topic quiet).1

abbrev second_reader : World Channels
second_reader = (subscribe broadcast topic (drop_release broadcast 1 first_reader)).1

abbrev crossed : World Channels
crossed = evict broadcast topic second_reader

crossed_reached : Reachable broadcast quiet crossed
crossed_reached =
    next (next (next (next start (subscribes topic)) (releases 1)) (subscribes topic))
      (unregisters topic)

Reachable-Served_example : Served broadcast is_active log broadcast-BroadcastLaws crossed
Reachable-Served_example =
    Reachable-Served broadcast is_active log broadcast-BroadcastLaws refl crossed_reached

abbrev change : Event
change = record { topic = topic; activity = update; object = topic; target = none; state = none }

publish-Reachable_example :
    All (Delivered broadcast is_active log broadcast-BroadcastLaws change crossed) crossed.readers
publish-Reachable_example =
    publish-Reachable broadcast is_active log broadcast-BroadcastLaws change refl crossed_reached

live-Reachable_example :
    All
      (λ r. answered broadcast is_active log broadcast-BroadcastLaws (topic ∷ []) crossed r ≡ true)
      crossed.readers
live-Reachable_example =
    live-Reachable broadcast is_active log broadcast-BroadcastLaws (topic ∷ []) refl crossed_reached

notify_runs : Unit {0}
unfolding evict subscribe sender_for drop_release publish live_read live_evict live get insert
    list_beq is_active
notify_runs = tt

crossed_test : get topic crossed.bus ≡ some 0
unfolding notify_runs
crossed_test = refl
