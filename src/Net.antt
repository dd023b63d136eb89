-- ===== src/Net.antt =====
-- `std::net::IpAddr` and the clock, as the program uses them: an address is the number of its octets,
-- an `Instant` the nanoseconds since some start.
use resolvd.Prelude.{
  ℕ, ◌-◌, ◌^◌, ◌%◌, ◌/◌, ◌≡◌, ◌↔◌, ap, Bool, true, false, ◌==◌, ==_iff, arith, List, any,
}

pub data IpAddr : Type 0 where
  v4 : ℕ → IpAddr
  v6 : ℕ → IpAddr

unfoldable pub ip_eq : IpAddr → IpAddr → Bool
ip_eq (v4 a) (v4 b) = a == b
ip_eq (v6 a) (v6 b) = a == b
ip_eq _ _ = false

pub ip_eq_iff : (a b : IpAddr) → (ip_eq a b ≡ true) ↔ (a ≡ b)
unfolding ip_eq
ip_eq_iff (v4 a) (v4 b) = (λ h. ap v4 ((==_iff a b).0 h), λ h. ground arith)
ip_eq_iff (v4 a) (v6 b) = (λ h. cc, λ h. cc)
ip_eq_iff (v6 a) (v6 b) = (λ h. ap v6 ((==_iff a b).0 h), λ h. ground arith)
ip_eq_iff (v6 a) (v4 b) = (λ h. cc, λ h. cc)

-- `servers.contains(&s)`
abbrev pub has_ip : List IpAddr → IpAddr → Bool
has_ip l a = any (λ b. ip_eq b a) l

-- 127.0.0.1 and ::1
abbrev pub localhost_v4 : IpAddr
localhost_v4 = v4 0x7f000001

abbrev pub localhost_v6 : IpAddr
localhost_v6 = v6 1

abbrev pub second : ℕ
second = 1_000_000_000

-- `expires.saturating_duration_since(now).as_secs() as u32`
abbrev pub seconds_left : ℕ → ℕ → ℕ
seconds_left expires now = (expires - now) / second % 2 ^ 32
