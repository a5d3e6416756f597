-- ===== src/Addresses/Tests.antt =====
-- Concrete addresses and hashes.
use srf.Base.{◌≡◌, refl, [], ◌∷◌}
use srf.Addresses.{port_name_hash, segment_address_encode}

-- FNV-1a of "a" is 0xE40C292C.
hash_of_a : port_name_hash (b'a' ∷ []) ≡ 0x292C
unfolding port_name_hash
hash_of_a = refl

encode_runs : segment_address_encode 0x1234 7 ≡ 0x12340007
unfolding segment_address_encode
encode_runs = refl
