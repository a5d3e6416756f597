-- ===== src/Tags/Sending.antt =====
-- What is read from the tag that data is sent to a port with.
use srf.Base.{ℕ, ◌+◌, ◌*◌, ◌/◌, ◌%◌, ◌^◌, ◌<◌, ◌≡◌, refl, ap, ◌∙◌, arith, bit_or_shifted}
use srf.Addresses.{u16, u32, port_address_encode, port_address_decode}
use srf.Addresses.Packing.{port_address_decode-encode, port_address_encode-eq-add}
use srf.Tags.{
  ingress_tag, single, send_tag, tag_decode, tag_decode_msg_type, tag_decode_mem_type,
  tag_decode_user_tag,
}
use srf.Tags.Fields.{
  tag_decode_msg_type-single, tag_decode_mem_type-bit, tag_decode_user_tag-eq_mod, bit_or_comm,
}

send_tag-eq-add : (a : ℕ) → a < 2 ^ 60 → send_tag a ≡ 8 * 2 ^ 60 + a
unfolding send_tag
send_tag-eq-add a h = bit_or_comm a ingress_tag ∙ bit_or_shifted 60 8 a h

module _ (a : ℕ) (h : a < 2 ^ 48) where
  sent : send_tag a ≡ 8 * 2 ^ 60 + a
  sent = send_tag-eq-add a (omega arith)

  sent_kind : tag_decode_msg_type (send_tag a) ≡ ingress_tag
  sent_kind =
      let q : send_tag a / 2 ^ 60 % 16 ≡ 8 = omega (arith, sent) in
      tag_decode_msg_type-single (send_tag a) ∙ ap (λ q. single (q * 2 ^ 60)) q

  sent_memory : tag_decode_mem_type (send_tag a) ≡ 0
  sent_memory = omega (arith, tag_decode_mem_type-bit (send_tag a), sent)

  sent_user : tag_decode_user_tag (send_tag a) ≡ a
  sent_user = omega (arith, tag_decode_user_tag-eq_mod (send_tag a), sent)

-- The tag that data is sent to a port with says that it is data for a port, in host memory, and its user tag is
-- decoded to the segment id, the rank and the port that the address was encoded from, for all of 16 bits.
-- `tag_decode`, though, only keeps the 32 low bits of the user tag, which are the rank and the port.
pub send_tag-decode :
    (id rank port : ℕ)
    → id < u16
    → rank < u16
    → port < u16
    → let tag = send_tag (port_address_encode id rank port) in
      (tag_decode_msg_type tag ≡ ingress_tag)
      × (tag_decode_mem_type tag ≡ 0)
      × (port_address_decode (tag_decode_user_tag tag) ≡ (id, rank, port))
      × (tag_decode tag ≡ (ingress_tag, 0, 0, rank * 2 ^ 16 + port))
unfolding tag_decode
send_tag-decode id rank port hi hr hp =
    let d = port_address_decode-encode id rank port hi hr hp in
    let a = port_address_encode id rank port in
    let user = sent_user a d.1 in
    let low : tag_decode_user_tag (send_tag a) % u32 ≡ rank * 2 ^ 16 + port =
      omega (arith, user, port_address_encode-eq-add id rank port hi hr hp) in
    (
      sent_kind a d.1,
      sent_memory a d.1,
      ap port_address_decode user ∙ d.0,
      rw (sent_kind a d.1, sent_memory a d.1, low) refl,
    )
