-- ===== src/Encoded/Tests.antt =====
-- Two objects encoded one after the other, the second with a buffer of its own.
use srf.Base.{ℕ, List, [], ◌∷◌, ◌≡◌, refl, some, ok, ◌<◌}
use srf.Encoded.{
  MemoryKind, Block, EncodedObject, Message, new_encoded, add_memory_block, memory_block,
  add_meta_data, meta_data_at, descriptor_count,
}
use srf.Encoded.Reading.{add_memory_block-read, add_meta_data-read}
use srf.Encoded.Objects.{Operation, perform_all, new_encoded-IsSound}
use srf.Encoded.Sound.{IsSound}

-- Meta data of one type, packed as itself.
abbrev numbers : Message ℕ ℕ
numbers = record { pack = λ n. n; unpack = some; unpack-pack = λ n. refl }

abbrev payload : Block
payload = record { address = 4096; bytes = 64; kind = MemoryKind.device }

abbrev staging : Block
staging = record { address = 8192; bytes = 16; kind = MemoryKind.host }

abbrev encoding : List (Operation ℕ)
encoding =
    Operation.context_acquired 11
    ∷ Operation.meta_data_added 7
    ∷ Operation.memory_block_added payload
    ∷ Operation.context_released
    ∷ Operation.context_acquired 12
    ∷ Operation.buffer_added staging
    ∷ []

abbrev encoded : EncodedObject ℕ
unfolding perform_all
encoded = (perform_all numbers encoding new_encoded).1

two_starts : (perform_all numbers encoding new_encoded).0 ≡ ok tt
unfolding perform_all
two_starts = refl

staging_read : memory_block 2 encoded ≡ ok staging
unfolding encoded memory_block
staging_read = refl

add_memory_block-read_example :
    (e' : EncodedObject ℕ) × (add_memory_block payload encoded
      ≡ (ok (descriptor_count encoded), e'))
    × (memory_block (descriptor_count encoded) e' ≡ ok payload)
    × ((i : ℕ) → i < descriptor_count encoded → memory_block i e' ≡ memory_block i encoded)
unfolding encoded
add_memory_block-read_example = add_memory_block-read payload encoded refl (λ e. absurd cc)

add_meta_data-read_example :
    (e' : EncodedObject ℕ) × (add_meta_data numbers 5 encoded ≡ (ok (descriptor_count encoded), e'))
    × (meta_data_at numbers (descriptor_count encoded) e' ≡ ok 5)
    × ((i : ℕ) → i < descriptor_count encoded → memory_block i e' ≡ memory_block i encoded)
unfolding encoded
add_meta_data-read_example = add_meta_data-read numbers 5 encoded refl

new_encoded-IsSound_example : IsSound (perform_all numbers encoding (new_encoded {Any = ℕ})).1
new_encoded-IsSound_example = new_encoded-IsSound numbers encoding
