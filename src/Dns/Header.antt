-- ===== src/Dns/Header.antt =====
-- `Header::flags` and `Header::from_flags` of dns/src/lib.rs. The terms of the `|` have disjoint
-- bits, so it is a sum; `x & 2^i != 0` is the bit `i`.
use resolvd.Prelude.{
  ℕ, ◌+◌, ◌*◌, ◌/◌, ◌%◌, ◌^◌, ◌<◌, ◌≡◌, refl, Bool, true, false, ◌==◌, if◌then◌else◌, arith, ◌≤◌,
}
use resolvd.Dns.Types.{Header}

abbrev u16_from : Bool → ℕ
u16_from b = if b then 1 else 0

-- The flags word with its fields as numbers.
unfoldable pub word : ℕ → ℕ → ℕ → ℕ → ℕ → ℕ → ℕ → ℕ → ℕ → ℕ
word qr op aa tc rd ra ad cd rc =
    qr * 2 ^ 15
    + op * 2 ^ 11
    + aa * 2 ^ 10
    + tc * 2 ^ 9
    + rd * 2 ^ 8
    + ra * 2 ^ 7
    + ad * 2 ^ 5
    + cd * 2 ^ 4
    + rc

unfoldable pub flags : Header → ℕ
flags h =
    word (u16_from h.response) (h.opcode % 2 ^ 4) (u16_from h.authoritative) (u16_from h.truncated)
      (u16_from h.recursion_desired) (u16_from h.recursion_available) (u16_from h.authentic_data)
      (u16_from h.checking_disabled) (h.rcode % 2 ^ 4)

abbrev bit : ℕ → ℕ → Bool
bit i x = x / 2 ^ i % 2 == 1

unfoldable pub from_flags : ℕ → ℕ → Header
from_flags id w = record {
  id = id;
  response = bit 15 w;
  opcode = w / 2 ^ 11 % 2 ^ 4;
  authoritative = bit 10 w;
  truncated = bit 9 w;
  recursion_desired = bit 8 w;
  recursion_available = bit 7 w;
  authentic_data = bit 5 w;
  checking_disabled = bit 4 w;
  rcode = w % 2 ^ 4;
}

-- The ranges of the fields, whose types are wider than their bits on the wire.
pub record IsHeader (h : Header) : Type 0 where
  pub id : h.id < 2 ^ 16
  pub opcode : h.opcode < 2 ^ 4
  pub rcode : h.rcode < 2 ^ 4

u16_from-le : (b : Bool) → u16_from b ≤ 1
u16_from-le b = ground arith

u16_from_lem : (b : Bool) → (u16_from b == 1) ≡ b
u16_from_lem true = refl
u16_from_lem false = refl

module _ (qr op aa tc rd ra ad cd rc : ℕ) where
  module _
      (fits : (qr ≤ 1)
        × (op < 16)
        × (aa ≤ 1)
        × (tc ≤ 1)
        × (rd ≤ 1)
        × (ra ≤ 1)
        × (ad ≤ 1)
        × (cd ≤ 1)
        × (rc < 16)) where
    word_fields :
        (word qr op aa tc rd ra ad cd rc / 2 ^ 15 % 2 ≡ qr)
        × (word qr op aa tc rd ra ad cd rc / 2 ^ 11 % 2 ^ 4 ≡ op)
        × (word qr op aa tc rd ra ad cd rc / 2 ^ 10 % 2 ≡ aa)
        × (word qr op aa tc rd ra ad cd rc / 2 ^ 9 % 2 ≡ tc)
        × (word qr op aa tc rd ra ad cd rc / 2 ^ 8 % 2 ≡ rd)
        × (word qr op aa tc rd ra ad cd rc / 2 ^ 7 % 2 ≡ ra)
        × (word qr op aa tc rd ra ad cd rc / 2 ^ 5 % 2 ≡ ad)
        × (word qr op aa tc rd ra ad cd rc / 2 ^ 4 % 2 ≡ cd)
        × (word qr op aa tc rd ra ad cd rc % 2 ^ 4 ≡ rc)
    unfolding word
    word_fields = (
      omega arith,
      omega arith,
      omega arith,
      omega arith,
      omega arith,
      omega arith,
      omega arith,
      omega arith,
      omega arith,
    )

pub flags-lt : (h : Header) → flags h < 2 ^ 16
unfolding flags word
flags-lt h = omega (
  arith,
  u16_from-le h.response,
  u16_from-le h.authoritative,
  u16_from-le h.truncated,
  u16_from-le h.recursion_desired,
  u16_from-le h.recursion_available,
  u16_from-le h.authentic_data,
  u16_from-le h.checking_disabled,
)

-- The flags word of a header whose id, opcode and response code are in range reads back as that header.
pub from_flags-flags : (h : Header) → IsHeader h → from_flags h.id (flags h) ≡ h
unfolding flags from_flags
from_flags-flags h v =
    let (qr, op, aa, tc, rd, ra, ad, cd, rc) =
      word_fields (u16_from h.response) (h.opcode % 2 ^ 4) (u16_from h.authoritative)
        (u16_from h.truncated) (u16_from h.recursion_desired) (u16_from h.recursion_available)
        (u16_from h.authentic_data) (u16_from h.checking_disabled) (h.rcode % 2 ^ 4)
        (omega (
          arith,
          u16_from-le h.response,
          u16_from-le h.authoritative,
          u16_from-le h.truncated,
          u16_from-le h.recursion_desired,
          u16_from-le h.recursion_available,
          u16_from-le h.authentic_data,
          u16_from-le h.checking_disabled,
        )) in
    let opcode : h.opcode % 2 ^ 4 ≡ h.opcode = omega arith in
    let rcode : h.rcode % 2 ^ 4 ≡ h.rcode = omega arith in
    simp (qr, op, aa, tc, rd, ra, ad, cd, rc) (simp (opcode, rcode, u16_from_lem))
