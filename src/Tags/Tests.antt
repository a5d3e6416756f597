-- ===== src/Tags/Tests.antt =====
-- The tag of a port of a segment, and one that claims to be of two kinds.
use srf.Base.{◌+◌, ◌*◌, ◌^◌, ◌≡◌, refl, arith}
use srf.Addresses.{port_address_encode, port_address_decode}
use srf.Tags.{
  ingress_tag, send_tag, tag_decode, tag_decode_msg_type, tag_decode_mem_type, tag_decode_user_tag,
}
use srf.Tags.Sending.{send_tag-decode}

two_kinds : tag_decode_msg_type 0xC000000000000001 ≡ 0
unfolding tag_decode_msg_type
two_kinds = refl

send_tag-decode_example :
    (tag_decode_msg_type (send_tag (port_address_encode 7 1 2)) ≡ ingress_tag)
    × (tag_decode_mem_type (send_tag (port_address_encode 7 1 2)) ≡ 0)
    × (port_address_decode (tag_decode_user_tag (send_tag (port_address_encode 7 1 2))) ≡ (7, 1, 2))
    × (tag_decode (send_tag (port_address_encode 7 1 2)) ≡ (ingress_tag, 0, 0, 1 * 2 ^ 16 + 2))
send_tag-decode_example = send_tag-decode 7 1 2 (omega arith) (omega arith) (omega arith)
