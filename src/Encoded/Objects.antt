-- ===== src/Encoded/Objects.antt =====
-- Whole encodings: the calls on an encoded object, one after another.
use srf.Base.{
  ℕ, ◌≡◌, ◌⊎◌, inl, inr, false, List, [], ◌∷◌, ok, fatal, M, ◌>>=◌, ◌>>◌, nat_key, Text, refl,
}
use srf.Base.Map.{find}
use srf.Encoded.{
  Block, EncodedObject, Message, eager_desc, meta_data_desc, new_encoded, add_descriptor,
  add_memory_block, add_eager_buffer, add_meta_data, add_buffer, acquire, release,
}
use srf.Encoded.Sound.{
  IsSound, and_then-IsSound, guarded-IsSound, add_memory_block-IsSound, acquire-IsSound,
  release-IsSound, add_buffer-IsSound, add_descriptor-IsSound,
}

-- The calls that change an encoded object.
pub data Operation (T : Type 0) : Type 0 where
  memory_block_added buffer_added : Block → Operation T
  eager_buffer_added : Text → Operation T
  meta_data_added : T → Operation T
  context_acquired : ℕ → Operation T
  context_released : Operation T

module _ {T Any : Type 0} (message : Message T Any) where
  abbrev pub forget : M (EncodedObject Any) ℕ → M (EncodedObject Any) (Unit {0})
  forget m = m >>= λ _ e. (ok tt, e)

  -- A buffer's memory is the block that the memory resource gives.
  unfoldable pub perform : Operation T → M (EncodedObject Any) (Unit {0})
  unfolding add_memory_block add_buffer add_eager_buffer add_meta_data acquire release
  perform (memory_block_added view) = forget (add_memory_block view)
  perform (buffer_added block) = forget (add_buffer (λ _. block) block.bytes)
  perform (eager_buffer_added bytes) = forget (add_eager_buffer bytes)
  perform (meta_data_added t) = forget (add_meta_data message t)
  perform (context_acquired type_index) = acquire type_index
  perform context_released = release

  unfoldable pub perform_all : List (Operation T) → M (EncodedObject Any) (Unit {0})
  unfolding perform
  perform_all [] e = (ok tt, e)
  perform_all (op ∷ ops) e = (perform op >> perform_all ops) e

module _ {T Any : Type 0} (message : Message T Any) where
  perform-IsSound :
      (op : Operation T) (e : EncodedObject Any) → IsSound e → IsSound (perform message op e).1
  unfolding perform add_eager_buffer add_meta_data
  perform-IsSound (memory_block_added view) e h =
      and_then-IsSound (add_memory_block view e) (λ s. (ok tt, s))
        (add_memory_block-IsSound view e h) λ _ k. k
  perform-IsSound (buffer_added block) e h =
      and_then-IsSound (add_buffer (λ _. block) block.bytes e) (λ s. (ok tt, s))
        (add_buffer-IsSound (λ _. block) block.bytes e h) λ _ k. k
  perform-IsSound (eager_buffer_added bytes) e h =
      and_then-IsSound (add_eager_buffer bytes e) (λ s. (ok tt, s))
        (guarded-IsSound (add_descriptor (eager_desc bytes)) e
          (add_descriptor-IsSound (eager_desc bytes) e) h)
        λ _ k. k
  perform-IsSound (meta_data_added t) e h =
      and_then-IsSound (add_meta_data message t e) (λ s. (ok tt, s))
        (guarded-IsSound (add_descriptor (meta_data_desc (message.pack t))) e
          (add_descriptor-IsSound (meta_data_desc (message.pack t)) e) h)
        λ _ k. k
  perform-IsSound (context_acquired n) e h = acquire-IsSound n e h
  perform-IsSound context_released e h = release-IsSound e h

  -- Whatever is done to a sound object, with whatever outcome, leaves it sound: every buffer that it owns is read
  -- at the index of its descriptor, and the objects start in order, none after the last descriptor's end.
  pub perform_all-IsSound :
      (ops : List (Operation T)) (e : EncodedObject Any)
      → IsSound e
      → IsSound (perform_all message ops e).1
  unfolding perform_all
  perform_all-IsSound [] e h = h
  perform_all-IsSound (op ∷ ops) e h =
      and_then-IsSound (perform message op e) (perform_all message ops) (perform-IsSound op e h)
        λ s k. perform_all-IsSound ops s k

  -- A new object is sound after any sequence of calls, with whatever outcome: every buffer that it owns is the
  -- block read at the index of the buffer's descriptor, and the starting indexes of its objects are in ascending
  -- order and at most the number of the descriptors.
  pub new_encoded-IsSound :
      (ops : List (Operation T)) → IsSound (perform_all message ops (new_encoded {Any = Any})).1
  unfolding find
  new_encoded-IsSound ops = perform_all-IsSound ops new_encoded (λ i b h. absurd cc, tt, tt)

  -- With no context held, every call but the one that acquires it ends the process and changes nothing.
  pub perform-outside :
      (op : Operation T) (e : EncodedObject Any)
      → e.context_acquired ≡ false
      → ((n : ℕ) × (op ≡ context_acquired n)) ⊎ (perform message op e ≡ (fatal, e))
  unfolding perform add_memory_block add_buffer add_eager_buffer add_meta_data release
  perform-outside (memory_block_added view) e h = inr (rw h)
  perform-outside (buffer_added block) e h = inr (rw h)
  perform-outside (eager_buffer_added bytes) e h = inr (rw h)
  perform-outside (meta_data_added t) e h = inr (rw h)
  perform-outside (context_acquired n) e h = inl (n, refl)
  perform-outside context_released e h = inr (rw h)
