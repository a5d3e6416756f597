-- ===== src/Tags.antt =====
-- src/internal/data_plane/tags.hpp, and the tags of client.cpp: what a message of the data plane says of itself in
-- the 64 bits of its tag.
pub mod Fields
pub mod Sending
mod Tests
use Prim.Native.Nat.{bit_and, bit_or}
use srf.Base.{ℕ, ◌+◌, ◌-◌, ◌*◌, ◌%◌, ◌^◌, ◌==◌, if◌then◌else◌}
use srf.Addresses.{u32, u64}

abbrev pub mem_type_mask : ℕ
mem_type_mask = 0x0100000000000000

abbrev pub msg_type_mask : ℕ
msg_type_mask = 0xF000000000000000

abbrev pub ingress_tag : ℕ
ingress_tag = 0x8000000000000000

abbrev pub usr_type_mask : ℕ
usr_type_mask = 0x0000FFFFFFFFFFFF

-- `top_bits - 1` wraps around.
abbrev pub less_one : ℕ → ℕ
less_one top_bits = if top_bits == 0 then u64 - 1 else top_bits - 1

abbrev pub single : ℕ → ℕ
single top_bits = if bit_and top_bits (less_one top_bits) == 0 then top_bits else 0

unfoldable pub tag_decode_msg_type : ℕ → ℕ
tag_decode_msg_type tag = single (bit_and tag msg_type_mask)

unfoldable pub tag_decode_mem_type : ℕ → ℕ
tag_decode_mem_type tag = bit_and tag mem_type_mask

unfoldable pub tag_decode_user_tag : ℕ → ℕ
tag_decode_user_tag tag = bit_and tag usr_type_mask

-- The user tag is converted to a std::uint32_t.
unfoldable pub tag_decode : ℕ → ℕ × ℕ × ℕ × ℕ
unfolding tag_decode_msg_type tag_decode_mem_type tag_decode_user_tag
tag_decode tag =
    (tag_decode_msg_type tag, tag_decode_mem_type tag, 0, tag_decode_user_tag tag % u32)

-- The tag of Client::await_send.
unfoldable pub send_tag : ℕ → ℕ
send_tag port_address = bit_or port_address ingress_tag
