-- ===== src/Addresses/Packing.antt =====
-- The packed addresses lose nothing.
use Prim.Native.Nat.{bit_and, bit_or}
use srf.Base.{
  ℕ, ◌+◌, ◌*◌, ◌/◌, ◌%◌, ◌^◌, ◌<◌, ◌≡◌, Text, arith, bit_or_shifted, bit_and_mask, ap, ◌∙◌,
}
use srf.Addresses.{
  u16, u32, u64, fnv1a_hash, offset_basis, segment_name_hash, port_name_hash,
  segment_address_encode, segment_address_decode, port_address_of_segment, port_address_encode,
  port_address_decode,
}

low_16 : (a : ℕ) → bit_and a 0xFFFF ≡ a % 2 ^ 16
low_16 a = bit_and_mask 16 a

pub segment_address_encode-eq-add :
    (id rank : ℕ) → id < u16 → rank < u16 → segment_address_encode id rank ≡ id * 2 ^ 16 + rank
unfolding segment_address_encode
segment_address_encode-eq-add id rank hi hr =
    let e : id * 2 ^ 16 % u32 ≡ id * 2 ^ 16 = omega arith in
    ap (λ t. bit_or t rank) e ∙ bit_or_shifted 16 id rank hr

pub segment_address_decode-eq_div_mod :
    (a : ℕ) → segment_address_decode a ≡ (a / 2 ^ 16 % 2 ^ 16, a % 2 ^ 16)
unfolding segment_address_decode
segment_address_decode-eq_div_mod a = ground (arith, low_16 (a / 2 ^ 16), low_16 a)

port_address_of_segment-eq-add :
    (addr port : ℕ)
    → addr < u32
    → port < u16
    → port_address_of_segment addr port ≡ addr * 2 ^ 16 + port
unfolding port_address_of_segment
port_address_of_segment-eq-add addr port ha hp =
    let e : addr * 2 ^ 16 % u64 ≡ addr * 2 ^ 16 = omega arith in
    ap (λ t. bit_or t port) e ∙ bit_or_shifted 16 addr port hp

pub port_address_encode-eq-add :
    (id rank port : ℕ)
    → id < u16
    → rank < u16
    → port < u16
    → port_address_encode id rank port ≡ id * 2 ^ 32 + rank * 2 ^ 16 + port
unfolding port_address_encode
port_address_encode-eq-add id rank port hi hr hp = ground (
  arith,
  segment_address_encode-eq-add id rank hi hr,
  port_address_of_segment-eq-add (segment_address_encode id rank) port,
)

pub port_address_decode-eq_div_mod :
    (a : ℕ) → port_address_decode a ≡ (a / 2 ^ 32 % 2 ^ 16, a / 2 ^ 16 % 2 ^ 16, a % 2 ^ 16)
unfolding port_address_decode
port_address_decode-eq_div_mod a =
    ground (arith, low_16 (a / 2 ^ 32), low_16 (a / 2 ^ 16), low_16 a)

-- Decoding an encoded segment address gives back its id and rank, for every 16-bit id and rank.
pub segment_address_decode-encode :
    (id rank : ℕ)
    → id < u16
    → rank < u16
    → segment_address_decode (segment_address_encode id rank) ≡ (id, rank)
segment_address_decode-encode id rank hi hr = ground (
  arith,
  segment_address_decode-eq_div_mod (segment_address_encode id rank),
  segment_address_encode-eq-add id rank hi hr,
)

-- Every 32-bit number is the segment address of the id and rank that it decodes to.
pub segment_address_encode-decode :
    (a : ℕ)
    → a < u32
    → let (id, rank) = segment_address_decode a in segment_address_encode id rank ≡ a
segment_address_encode-decode a h = ground (
  arith,
  segment_address_decode-eq_div_mod a,
  segment_address_encode-eq-add (a / 2 ^ 16 % 2 ^ 16) (a % 2 ^ 16),
)

-- Decoding an encoded port address gives back its segment id, rank and port, for every 16-bit id,
-- rank and port, and the address has its upper 16 bits clear, as `port_address_decode` wants.
pub port_address_decode-encode :
    (id rank port : ℕ)
    → id < u16
    → rank < u16
    → port < u16
    → (port_address_decode (port_address_encode id rank port) ≡ (id, rank, port))
      × (port_address_encode id rank port < 2 ^ 48)
port_address_decode-encode id rank port hi hr hp = ground (
  arith,
  port_address_decode-eq_div_mod (port_address_encode id rank port),
  port_address_encode-eq-add id rank port hi hr hp,
)

-- Every number below 2 ^ 48 is the port address of the id, rank and port that it decodes to.
pub port_address_encode-decode :
    (a : ℕ)
    → a < 2 ^ 48
    → let (id, rank, port) = port_address_decode a in port_address_encode id rank port ≡ a
port_address_encode-decode a h = ground (
  arith,
  port_address_decode-eq_div_mod a,
  port_address_encode-eq-add (a / 2 ^ 32 % 2 ^ 16) (a / 2 ^ 16 % 2 ^ 16) (a % 2 ^ 16),
)

-- A hashed name fits the 16 bits of a SegmentID or a PortID.
pub port_name_hash-lt :
    (name : Text) → (port_name_hash name < u16) × (segment_name_hash name ≡ port_name_hash name)
unfolding port_name_hash segment_name_hash
port_name_hash-lt name = ground (arith, low_16 (fnv1a_hash name offset_basis))
