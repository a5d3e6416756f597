-- ===== src/Encoded/Reading.antt =====
-- What was added to an encoded object is read back.
use srf.Base.{
  ℕ, ◌<◌, ◌≡◌, ◌≢◌, refl, ◌∙◌, true, [], ◌∷◌, ◌++◌, ok, throws, fatal, get_elem?-length,
  get_elem?-append_lt, if_true,
}
use srf.Encoded.{
  MemoryKind, ProtoKind, Block, RemoteDescriptor, EncodedObject, remote_desc, meta_data_desc,
  encode_memory_type, decode_memory_type, encode_descriptor, decode_descriptor, memory_block,
  add_memory_block, add_descriptor, descriptor_count, Message, add_meta_data, meta_data_at,
}

-- Every kind of memory but `none` has a protocol value that decodes to it.
memory_type_round :
    (k : MemoryKind)
    → k ≢ MemoryKind.none_kind
    → (p : ProtoKind) × (encode_memory_type k ≡ ok p) × (decode_memory_type p ≡ ok k)
unfolding encode_memory_type decode_memory_type
memory_type_round MemoryKind.none_kind h = absurd (h refl)
memory_type_round MemoryKind.host h = (ProtoKind.host, refl, refl)
memory_type_round MemoryKind.pinned h = (ProtoKind.pinned, refl, refl)
memory_type_round MemoryKind.device h = (ProtoKind.device, refl, refl)
memory_type_round MemoryKind.managed h = (ProtoKind.managed, refl, refl)

pub decode_descriptor-encode :
    (view : Block)
    → view.kind ≢ MemoryKind.none_kind
    → (d : RemoteDescriptor) × (encode_descriptor view ≡ ok d) × (decode_descriptor d ≡ ok view)
unfolding encode_descriptor decode_descriptor
decode_descriptor-encode view h =
    let r = memory_type_round view.kind h in
    (
      record { remote_address = view.address; remote_bytes = view.bytes; memory_kind = r.0 },
      rw r.1,
      rw r.2,
    )

module _ {Any : Type 0} where
  pub add_memory_block-acquired :
      (view : Block) (e : EncodedObject Any) (d : RemoteDescriptor)
      → e.context_acquired ≡ true
      → encode_descriptor view ≡ ok d
      → add_memory_block view e ≡ add_descriptor (remote_desc d) e
  unfolding add_memory_block
  add_memory_block-acquired view e d h r =
      if_true
        (elim (encode_descriptor view) [
          | ok desc ↦ add_descriptor (remote_desc desc) e
          | throws x ↦ (throws x, e)
          | fatal ↦ (fatal, e)
        ])
        (fatal, e) h
      ∙ rw r

  -- A block added under a context, of any kind of memory but `none`, gets the next index, is read back from it
  -- just as it was, and leaves what every earlier index reads.
  pub add_memory_block-read :
      (view : Block) (e : EncodedObject Any)
      → e.context_acquired ≡ true
      → view.kind ≢ MemoryKind.none_kind
      → (e' : EncodedObject Any) × (add_memory_block view e ≡ (ok (descriptor_count e), e'))
        × (memory_block (descriptor_count e) e' ≡ ok view)
        × ((i : ℕ) → i < descriptor_count e → memory_block i e' ≡ memory_block i e)
  unfolding add_memory_block memory_block
  add_memory_block-read view e h k =
      let r = decode_descriptor-encode view k in
      (
        record e { descriptors = e.descriptors ++ (remote_desc r.0 ∷ []) },
        add_memory_block-acquired view e r.0 h r.1,
        rw (get_elem?-length e.descriptors (remote_desc r.0), r.2),
        λ i l. rw (get_elem?-append_lt e.descriptors (remote_desc r.0 ∷ []) i l),
      )

module _ {T Any : Type 0} (message : Message T Any) where
  add_meta_data-acquired :
      (t : T) (e : EncodedObject Any)
      → e.context_acquired ≡ true
      → add_meta_data message t e ≡ add_descriptor (meta_data_desc (message.pack t)) e
  unfolding add_meta_data
  add_meta_data-acquired t e h = rw h

  -- A message added as meta data under a context is read back from the index it got, and the blocks that were
  -- read from earlier indexes still are.
  pub add_meta_data-read :
      (t : T) (e : EncodedObject Any)
      → e.context_acquired ≡ true
      → (e' : EncodedObject Any) × (add_meta_data message t e ≡ (ok (descriptor_count e), e'))
        × (meta_data_at message (descriptor_count e) e' ≡ ok t)
        × ((i : ℕ) → i < descriptor_count e → memory_block i e' ≡ memory_block i e)
  unfolding add_meta_data meta_data_at memory_block
  add_meta_data-read t e h =
      let any = message.pack t in
      (
        record e { descriptors = e.descriptors ++ (meta_data_desc any ∷ []) },
        add_meta_data-acquired t e h,
        rw (get_elem?-length e.descriptors (meta_data_desc any), message.unpack-pack t),
        λ i l. rw (get_elem?-append_lt e.descriptors (meta_data_desc any ∷ []) i l),
      )
