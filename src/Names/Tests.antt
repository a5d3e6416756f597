-- ===== src/Names/Tests.antt =====
-- A detector with two names.
use srf.Base.{◌≡◌, refl, [], ◌∷◌, Text, ok, throws, Exception, nat_key}
use srf.Base.Map.{find, insert}
use srf.Addresses.{port_name_hash}
use srf.Names.{CollisionDetector, register_name, lookup_name}
use srf.Names.Registration.{register_name-Registered}

abbrev input : Text
input = b'i' ∷ b'n' ∷ []

abbrev output : Text
output = b'o' ∷ b'u' ∷ b't' ∷ []

-- As it is after `input` was registered.
abbrev one_name : CollisionDetector
one_name = (0x7A9E, input) ∷ []

one_name_runs : register_name input [] ≡ (ok 0x7A9E, one_name)
unfolding register_name port_name_hash find insert
one_name_runs = refl

-- Two names with one hash.
abbrev exr : Text
exr = b'e' ∷ b'x' ∷ b'r' ∷ []

abbrev jda : Text
jda = b'j' ∷ b'd' ∷ b'a' ∷ []

abbrev with_exr : CollisionDetector
with_exr = (0x8A4E, exr) ∷ []

collision_runs : register_name jda with_exr ≡ (throws Exception.name_collision, with_exr)
unfolding register_name port_name_hash find
collision_runs = refl

register_name-Registered_example : lookup_name output (register_name output one_name).1 ≡ ok 0x365F
unfolding register_name port_name_hash find insert
register_name-Registered_example = (register_name-Registered output one_name 0x365F refl).1
