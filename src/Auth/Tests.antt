-- ===== src/Auth/Tests.antt =====
-- Runs of the definitions of src/auth, and its theorems at concrete inputs.
use quadpod.Prelude.{
  ℕ, ◌+◌, ◌-◌, ◌≡◌, ◌≤◌, refl, true, false, some, List, [], ◌∷◌, length, all, ltb, nat_eq, list_beq,
  Text, Map, get, insert, remove, ok, err, codes, arith,
}
use quadpod.Auth.Addresses.{
  Ipv4Addr, v4, v6, is_cgnat, is_unique_local, is_link_local_v6, is_forbidden_v4, is_forbidden_v6,
  is_forbidden_ip, SocketAddr, forbidden_target, resolved_to_nothing, screen_addresses,
}
use quadpod.Auth.Addresses.Ranges.{IsIpv4, number, listed, holding, is_forbidden_ip_v4}
use quadpod.Auth.Cache.{max_cache_entries, sweep, oldest, make_room, insert_bounded}
use quadpod.Auth.Cache.Bound.{insert_bounded_lem}
use quadpod.Auth.Replay.{
  new, seconds, ReplaySet, retain_from, evict, saturating_sub, saturating_abs, record_or_reject,
  replayed, eviction_interval_seconds,
}
use quadpod.Auth.Replay.Window.{window, run_calls, replay_rejected}
use quadpod.Auth.Replay.Eviction.{IsSwept, record_or_reject-IsSwept}

-- What the definitions call, for runs.
auth_runs : Unit {0}
unfolding is_forbidden_ip is_forbidden_v4 is_forbidden_v6 is_cgnat is_unique_local is_link_local_v6
    screen_addresses sweep oldest make_room insert_bounded retain_from evict saturating_sub
    saturating_abs record_or_reject get insert remove list_beq
auth_runs = tt

abbrev carrier : Ipv4Addr
carrier = record { a = 100; b = 64; c = 3; d = 7 }

abbrev public_dns : Ipv4Addr
public_dns = record { a = 8; b = 8; c = 8; d = 8 }

carrier-IsIpv4 : IsIpv4 carrier
carrier-IsIpv4 = record { a = omega arith; b = omega arith; c = omega arith; d = omega arith }

is_forbidden_ip_tests :
    (is_forbidden_ip (v4 carrier) ≡ true)
    × (is_forbidden_ip (v4 public_dns) ≡ false)
    × (is_forbidden_ip (v6 (holding 0 (record { a = 0; b = 0; c = 0; d = 1 }))) ≡ true)
    × (is_forbidden_ip (v6 (holding 65535 public_dns)) ≡ false)
unfolding auth_runs
is_forbidden_ip_tests = (refl, refl, refl, refl)

is_forbidden_ip_v4_example : is_forbidden_ip (v4 carrier) ≡ listed (number carrier)
is_forbidden_ip_v4_example = is_forbidden_ip_v4 carrier carrier-IsIpv4

abbrev answer : List SocketAddr
answer = (v4 public_dns, 443) ∷ (v4 carrier, 443) ∷ []

screen_addresses_tests :
    (screen_addresses answer false ≡ err forbidden_target)
    × (screen_addresses answer true ≡ ok answer)
    × (screen_addresses [] true ≡ err resolved_to_nothing)
unfolding auth_runs
screen_addresses_tests = (refl, refl, refl)

-- A cache of instants, on a clock that stands at 100.
abbrev elapsed : ℕ → ℕ
elapsed t = 100 - t

abbrev cached : Map ℕ
cached = (codes "a", 3) ∷ (codes "b", 5) ∷ []

insert_bounded_lem_example :
    (length (insert_bounded (λ t. t) elapsed cached (codes "c") 9 60) ≤ max_cache_entries)
    × (get (codes "c") (insert_bounded (λ t. t) elapsed cached (codes "c") 9 60) ≡ some 9)
insert_bounded_lem_example =
    insert_bounded_lem (λ t. t) elapsed cached (codes "c") 9 60 (omega arith)

-- The hash that the examples use: the text itself.
abbrev same_text : Text → Text
same_text t = t

abbrev accepted : ReplaySet
accepted = record { jtis = (codes "j", seconds 1000) ∷ []; last_eviction = seconds 1000 }

record_or_reject_tests :
    (record_or_reject same_text (codes "j") (seconds 1000) new ≡ (ok tt, accepted))
    × (record_or_reject same_text (codes "j") (seconds 1305) accepted
        ≡ (err replayed, record accepted { last_eviction = seconds 1305 }))
    × ((record_or_reject same_text (codes "j") (seconds 1306) accepted).0 ≡ ok tt)
unfolding auth_runs
record_or_reject_tests = (refl, refl, refl)

abbrev between : List (Text × ℕ)
between = (codes "k", seconds 1100) ∷ (codes "l", seconds 1250) ∷ []

replay_rejected_example :
    (record_or_reject same_text (codes "j") (seconds 1300) (run_calls same_text between accepted)).0
    ≡ err replayed
replay_rejected_example =
    replay_rejected same_text (codes "j") (seconds 1000) new (record_or_reject_tests.0)
      (omega arith) between refl (seconds 1300) (omega arith)

record_or_reject-IsSwept_example :
    IsSwept (record_or_reject same_text (codes "k") (seconds 1030) accepted).1
    × (all
          (λ e. ltb (seconds 1030) (e.1 + (window + eviction_interval_seconds)))
          (record_or_reject same_text (codes "k") (seconds 1030) accepted).1.jtis
        ≡ true)
record_or_reject-IsSwept_example =
    record_or_reject-IsSwept same_text (codes "k") (seconds 1030) accepted (omega arith)
      (omega arith) refl
