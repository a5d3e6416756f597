-- ===== src/Addresses.antt =====
-- src/public/core/addresses.cpp: names hashed to 16 bits, and the packed addresses of segments
-- and ports. A name is its bytes; `char` is signed, as on the x86-64 builds.
pub mod Packing
mod Tests
use Prim.Native.Nat.{bit_and, bit_or, bit_xor}
use srf.Base.{ℕ, ◌+◌, ◌-◌, ◌*◌, ◌/◌, ◌%◌, ◌^◌, [], ◌∷◌, Text, ltb, ◌==◌, if◌then◌else◌}

-- SegmentID, SegmentRank, PortID: std::uint16_t
abbrev pub u16 : ℕ
u16 = 2 ^ 16

-- SegmentAddress: std::uint32_t
abbrev pub u32 : ℕ
u32 = 2 ^ 32

-- PortAddress: std::uint64_t
abbrev pub u64 : ℕ
u64 = 2 ^ 64

abbrev offset_basis : ℕ
offset_basis = 0x811C9DC5

abbrev prime : ℕ
prime = 0x01000193

-- std::uint32_t(c) of a signed char
char_to_u32 : ℕ → ℕ
char_to_u32 c = if ltb c 128 then c else u32 - 256 + c

-- fnv1a<std::uint32_t>::hash: a NUL ends the text.
fnv1a_hash : Text → ℕ → ℕ
unfolding char_to_u32
fnv1a_hash [] val = val
fnv1a_hash (c ∷ cs) val =
    let rest = fnv1a_hash cs (bit_xor val (char_to_u32 c) * prime % u32) in
    if c == 0 then val else rest

hash_16 : Text → ℕ
unfolding fnv1a_hash
hash_16 name = bit_and (fnv1a_hash name offset_basis) 0x0000FFFF

unfoldable pub segment_name_hash : Text → ℕ
unfolding hash_16
segment_name_hash name = hash_16 name

unfoldable pub port_name_hash : Text → ℕ
unfolding hash_16
port_name_hash name = hash_16 name

unfoldable pub segment_address_encode : ℕ → ℕ → ℕ
segment_address_encode seg_id seg_rank = bit_or (seg_id * 2 ^ 16 % u32) seg_rank

unfoldable pub segment_address_decode : ℕ → ℕ × ℕ
segment_address_decode address =
    (bit_and (address / 2 ^ 16) 0x0000FFFF % u16, bit_and address 0x0000FFFF % u16)

-- port_address_encode(SegmentAddress, PortID)
unfoldable pub port_address_of_segment : ℕ → ℕ → ℕ
port_address_of_segment seg_addr port = bit_or (seg_addr * 2 ^ 16 % u64) port

-- port_address_encode(SegmentID, SegmentRank, PortID)
unfoldable pub port_address_encode : ℕ → ℕ → ℕ → ℕ
unfolding port_address_of_segment
port_address_encode seg_id seg_rank port =
    port_address_of_segment (segment_address_encode seg_id seg_rank) port

unfoldable pub port_address_decode : ℕ → ℕ × ℕ × ℕ
port_address_decode address = (
  bit_and (address / 2 ^ 32) 0x000000000000FFFF % u16,
  bit_and (address / 2 ^ 16) 0x000000000000FFFF % u16,
  bit_and address 0x000000000000FFFF % u16,
)
