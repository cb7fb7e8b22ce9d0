-- ===== src/Auth/Addresses/Ranges.antt =====
-- The addresses that `is_forbidden_ip` of src/auth/safe_fetch.rs forbids, as ranges.
use quadpod.Prelude.{
  ◌⊎◌, ℕ, ◌+◌, ◌*◌, ◌/◌, ◌%◌, ◌≡◌, ◌≢◌, ◌≤◌, ◌<◌, ◌↔◌, refl, Bool, true, false, not, ◌&&◌, ◌||◌,
  List, [], ◌∷◌, any, if◌then◌else◌, leb, ◌==◌, nat_eq, ok, arith, All, Bool-cases, inl, inr,
}
use quadpod.Auth.Addresses.{
  Ipv4Addr, Ipv6Addr, v4, v6, is_cgnat, is_unique_local, is_link_local_v6, embedded, is_unspecified,
  is_forbidden_v4, is_forbidden_v6, is_forbidden_ip, SocketAddr, screen_addresses,
}

pub record IsIpv4 (ip : Ipv4Addr) : Type 0 where
  pub a : ip.a < 256
  pub b : ip.b < 256
  pub c : ip.c < 256
  pub d : ip.d < 256

-- The address as one number.
abbrev pub number : Ipv4Addr → ℕ
number ip = ip.a * 16777216 + (ip.b * 65536 + (ip.c * 256 + ip.d))

-- The numbers from `first` on, `size` of them.
abbrev in_block : ℕ → ℕ → ℕ → Bool
in_block first size n = leb first n && leb (n + 1) (first + size)

-- 127/8, 10/8, 172.16/12, 192.168/16, 169.254/16, 100.64/10 and 0.0.0.0
abbrev pub listed : ℕ → Bool
listed n =
    in_block 2130706432 16777216 n
    || (in_block 167772160 16777216 n
        || (in_block 2886729728 1048576 n
            || (in_block 3232235520 65536 n
                || (in_block 2851995648 65536 n || (in_block 1681915904 4194304 n || n == 0)))))

rest_lt : (ip : Ipv4Addr) → IsIpv4 ip → (ip.b * 65536 + (ip.c * 256 + ip.d)) < 16777216
rest_lt ip h = omega (arith, h.b, h.c, h.d)

low_lt : (ip : Ipv4Addr) → IsIpv4 ip → (ip.c * 256 + ip.d) < 65536
low_lt ip h = omega (arith, h.c, h.d)

block_1 :
    (k a r : ℕ) → r < 16777216 → in_block (k * 16777216) 16777216 (a * 16777216 + r) ≡ (a == k)
block_1 k a r h = ground arith

-- Blocks that the second octet bounds: from `l` on, `w` values of it.
block_2 :
    (k l w a b r : ℕ)
    → r < 65536
    → b < 256
    → l + w ≤ 256
    → in_block (k * 16777216 + l * 65536) (w * 65536) (a * 16777216 + (b * 65536 + r))
      ≡ (a == k && (leb l b && leb (b + 1) (l + w)))
block_2 k l w a b r h i j = ground arith

cgnat_bits : (b : ℕ) → b < 256 → ((b / 64) * 64 == 64) ≡ (leb 64 b && leb (b + 1) 128)
cgnat_bits b h = ground arith

zero_number :
    (ip : Ipv4Addr) → (number ip == 0) ≡ (ip.a == 0 && (ip.b == 0 && (ip.c == 0 && ip.d == 0)))
zero_number ip = ground arith

-- An IPv4 address is forbidden exactly when its number lies in one of the listed blocks.
pub is_forbidden_ip_v4 : (ip : Ipv4Addr) → IsIpv4 ip → is_forbidden_ip (v4 ip) ≡ listed (number ip)
unfolding is_forbidden_ip is_forbidden_v4 is_cgnat
is_forbidden_ip_v4 ip h =
    let r = ip.b * 65536 + (ip.c * 256 + ip.d) in
    let low = ip.c * 256 + ip.d in
    let loopback : in_block 2130706432 16777216 (number ip) ≡ (ip.a == 127) =
      block_1 127 ip.a r (rest_lt ip h) in
    let ten : in_block 167772160 16777216 (number ip) ≡ (ip.a == 10) =
      block_1 10 ip.a r (rest_lt ip h) in
    let b172 : in_block 2886729728 1048576 (number ip)
        ≡ (ip.a == 172 && (leb 16 ip.b && leb (ip.b + 1) 32)) =
      block_2 172 16 16 ip.a ip.b low (low_lt ip h) h.b (omega arith) in
    let b192 : in_block 3232235520 65536 (number ip)
        ≡ (ip.a == 192 && (leb 168 ip.b && leb (ip.b + 1) 169)) =
      block_2 192 168 1 ip.a ip.b low (low_lt ip h) h.b (omega arith) in
    let b169 : in_block 2851995648 65536 (number ip)
        ≡ (ip.a == 169 && (leb 254 ip.b && leb (ip.b + 1) 255)) =
      block_2 169 254 1 ip.a ip.b low (low_lt ip h) h.b (omega arith) in
    let b100 : in_block 1681915904 4194304 (number ip)
        ≡ (ip.a == 100 && (leb 64 ip.b && leb (ip.b + 1) 128)) =
      block_2 100 64 64 ip.a ip.b low (low_lt ip h) h.b (omega arith) in
    rw (loopback, ten, b172, b192, b169, b100, zero_number ip, cgnat_bits ip.b h.b)
      (regroup ip.a ip.b (ip.a == 0 && (ip.b == 0 && (ip.c == 0 && ip.d == 0))))
  where
    regroup :
        (a b : ℕ) (zero : Bool)
        → (a == 127
            || (zero
                || ((a == 10 || ((a == 172 && (leb 16 b && leb b 31)) || (a == 192 && b == 168)))
                    || ((a == 169 && b == 254) || (a == 100 && (leb 64 b && leb (b + 1) 128))))))
          ≡ (a == 127
              || (a == 10
                  || ((a == 172 && (leb 16 b && leb (b + 1) 32))
                      || ((a == 192 && (leb 168 b && leb (b + 1) 169))
                          || ((a == 169 && (leb 254 b && leb (b + 1) 255))
                              || ((a == 100 && (leb 64 b && leb (b + 1) 128)) || zero))))))
    regroup a b zero = ground arith

-- An IPv6 address that holds an IPv4 address in its last 32 bits.
abbrev pub holding : ℕ → Ipv4Addr → Ipv6Addr
holding s5 ip = record {
  s0 = 0;
  s1 = 0;
  s2 = 0;
  s3 = 0;
  s4 = 0;
  s5 = s5;
  s6 = ip.a * 256 + ip.b;
  s7 = ip.c * 256 + ip.d;
}

halves :
    (a b : ℕ) → a < 256 → b < 256 → (((a * 256 + b) / 256) % 256 ≡ a) × ((a * 256 + b) % 256 ≡ b)
halves a b h k = (omega arith, omega arith)

embedded-holding : (s5 : ℕ) (ip : Ipv4Addr) → IsIpv4 ip → embedded (holding s5 ip) ≡ ip
embedded-holding s5 ip h =
    let high = halves ip.a ip.b h.a h.b in
    let low = halves ip.c ip.d h.c h.d in rw (high.0, high.1, low.0, low.1)

compatible_bits :
    (a b c d : ℕ)
    → a < 256
    → b < 256
    → c < 256
    → d < 256
    → ((a * 256 + b == 0 && c * 256 + d == 1) ≡ (a == 0 && (b == 0 && (c == 0 && d == 1))))
      × ((a * 256 + b == 0 && c * 256 + d == 0) ≡ (a == 0 && (b == 0 && (c == 0 && d == 0))))
compatible_bits a b c d ha hb hc hd = (ground arith, ground arith)

unspecified-is_forbidden_v4 : (ip : Ipv4Addr) → is_unspecified ip ≡ true → is_forbidden_v4 ip ≡ true
unfolding is_forbidden_v4
unspecified-is_forbidden_v4 ip h = ground arith

merge :
    (forbidden loopback unspecified : Bool)
    → (unspecified ≡ true → forbidden ≡ true)
    → (if not (loopback || unspecified) then forbidden else loopback || (unspecified || false))
      ≡ (forbidden || loopback)
merge true true true h = refl
merge true false true h = refl
merge true true false h = refl
merge false true false h = refl
merge true false false h = refl
merge false false false h = refl
merge false loopback true h = cc (h refl)

-- An IPv4-mapped address is forbidden exactly when the IPv4 address is. An IPv4-compatible one is
-- forbidden exactly when the IPv4 address is, or for the one that is the IPv6 loopback address.
is_forbidden_ip-holding :
    (ip : Ipv4Addr)
    → IsIpv4 ip
    → (is_forbidden_ip (v6 (holding 65535 ip)) ≡ is_forbidden_ip (v4 ip))
      × (is_forbidden_ip (v6 (holding 0 ip))
          ≡ (is_forbidden_ip (v4 ip) || (ip.a == 0 && (ip.b == 0 && (ip.c == 0 && ip.d == 1)))))
unfolding is_forbidden_ip is_forbidden_v6 is_unique_local is_link_local_v6
is_forbidden_ip-holding ip h =
    let same : embedded (holding 65535 ip) ≡ ip = embedded-holding 65535 ip h in
    (rw same, compatible)
  where
    compatible :
        is_forbidden_v6 (holding 0 ip)
        ≡ (is_forbidden_v4 ip || (ip.a == 0 && (ip.b == 0 && (ip.c == 0 && ip.d == 1))))
    compatible =
        let same_0 : embedded (holding 0 ip) ≡ ip = embedded-holding 0 ip h in
        let bits = compatible_bits ip.a ip.b ip.c ip.d h.a h.b h.c h.d in
        rw (bits.0, bits.1, same_0)
          (merge (is_forbidden_v4 ip) (ip.a == 0 && (ip.b == 0 && (ip.c == 0 && ip.d == 1)))
            (is_unspecified ip) (unspecified-is_forbidden_v4 ip))

none_forbidden :
    (resolved : List SocketAddr)
    → (any (λ addr. is_forbidden_ip addr.0) resolved ≡ false)
      ↔ All (λ addr. is_forbidden_ip addr.0 ≡ false) resolved
none_forbidden [] = (λ _. tt, λ _. refl)
none_forbidden (a ∷ resolved) =
    let rest = none_forbidden resolved in
    (λ h. (ground arith, rest.0 (ground arith)), λ h. ground (arith, h.0, rest.1 (h.1)))

-- What is screened is passed on unchanged, exactly when it is not empty and, unless private
-- addresses are allowed, none of its addresses is forbidden.
screen_addresses_iff :
    (resolved : List SocketAddr) (allow_private : Bool) (passed : List SocketAddr)
    → (screen_addresses resolved allow_private ≡ ok passed) ↔ (
        (passed ≡ resolved)
        × (resolved ≢ [])
        × ((allow_private ≡ true) ⊎ All (λ addr. is_forbidden_ip addr.0 ≡ false) resolved))
unfolding screen_addresses
screen_addresses_iff [] allow_private passed = (λ h. cc, λ h. absurd (h.1 refl))
screen_addresses_iff (a ∷ resolved) allow_private passed =
    let clear = none_forbidden (a ∷ resolved) in
    (
      λ h. (
        ground arith,
        λ e. cc,
        elim (Bool-cases allow_private) [
          | inl on ↦ inl on
          | inr off ↦ inr (clear.0 (ground arith))
        ],
      ),
      λ h. elim (h.2) [
        | inl on ↦ ground (arith, h.0)
        | inr public ↦ ground (arith, h.0, clear.1 public)
      ],
    )
