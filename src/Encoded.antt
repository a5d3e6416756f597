-- ===== src/Encoded.antt =====
-- src/public/codable/encoded_object.cpp and include/srf/codable/encoded_object.hpp: an object encoded as
-- a list of descriptors.
pub mod Reading
mod Sound
pub mod Objects
mod Tests
use srf.Base.{
  ℕ, Bool, true, false, not, ◌&&◌, List, [], ◌∷◌, ◌++◌, Option, none, some, Text, nat_key, Outcome,
  ok, throws, fatal, Exception, M, ◌>>=◌, ◌>>◌, bind, check, ◌≡◌, ◌==◌, if◌then◌else◌, get_elem?,
  length,
}
use srf.Base.Map.{Map, insert}

-- memory_kind_type
pub data MemoryKind : Type 0 where
  none_kind host pinned device managed : MemoryKind

-- protos::MemoryKind
pub data ProtoKind : Type 0 where
  none_kind host pinned device managed : ProtoKind

-- memory::const_block and memory::block; an address is a number, 0 the null pointer.
pub record Block : Type 0 where
  pub address : ℕ
  pub bytes : ℕ
  pub kind : MemoryKind

pub record RemoteDescriptor : Type 0 where
  pub remote_address : ℕ
  pub remote_bytes : ℕ
  pub memory_kind : ProtoKind

-- protos::Descriptor, a oneof; `Any` is the packed form of a protobuf message.
pub data Descriptor (Any : Type 0) : Type 0 where
  remote_desc : RemoteDescriptor → Descriptor Any
  eager_desc : Text → Descriptor Any
  meta_data_desc : Any → Descriptor Any

-- protos::ObjectDescriptor
pub record ObjectDescriptor : Type 0 where
  pub type_index_hash : ℕ
  pub desc_id : ℕ

-- m_proto, m_buffers and m_context_acquired
pub record EncodedObject (Any : Type 0) : Type 0 where
  pub descriptors : List (Descriptor Any)
  pub objects : List ObjectDescriptor
  pub buffers : Map ℕ Block
  pub context_acquired : Bool

abbrev pub is_none : MemoryKind → Bool
is_none MemoryKind.none_kind = true
is_none MemoryKind.host = false
is_none MemoryKind.pinned = false
is_none MemoryKind.device = false
is_none MemoryKind.managed = false

-- const_block::operator bool
abbrev pub holds_memory : Block → Bool
holds_memory b = not (b.address == 0) && (not (b.bytes == 0) && not (is_none b.kind))

unfoldable pub decode_memory_type : ProtoKind → Outcome MemoryKind
decode_memory_type ProtoKind.host = ok MemoryKind.host
decode_memory_type ProtoKind.pinned = ok MemoryKind.pinned
decode_memory_type ProtoKind.device = ok MemoryKind.device
decode_memory_type ProtoKind.managed = ok MemoryKind.managed
decode_memory_type ProtoKind.none_kind = fatal

unfoldable pub encode_memory_type : MemoryKind → Outcome ProtoKind
encode_memory_type MemoryKind.host = ok ProtoKind.host
encode_memory_type MemoryKind.pinned = ok ProtoKind.pinned
encode_memory_type MemoryKind.device = ok ProtoKind.device
encode_memory_type MemoryKind.managed = ok ProtoKind.managed
encode_memory_type MemoryKind.none_kind = fatal

unfoldable pub decode_descriptor : RemoteDescriptor → Outcome Block
unfolding decode_memory_type
decode_descriptor desc =
    bind (decode_memory_type desc.memory_kind)
      λ kind. ok (record { address = desc.remote_address; bytes = desc.remote_bytes; kind = kind })

unfoldable pub encode_descriptor : Block → Outcome RemoteDescriptor
unfolding encode_memory_type
encode_descriptor view = bind (encode_memory_type view.kind) λ kind.
    ok (record { remote_address = view.address; remote_bytes = view.bytes; memory_kind = kind })

module _ {Any : Type 0} where
  abbrev pub new_encoded : EncodedObject Any
  new_encoded = record { descriptors = []; objects = []; buffers = []; context_acquired = false }

  abbrev pub descriptor_count : EncodedObject Any → ℕ
  descriptor_count e = length e.descriptors

  abbrev pub object_count : EncodedObject Any → ℕ
  object_count e = length e.objects

  abbrev pub remote_of : Option (Descriptor Any) → Outcome RemoteDescriptor
  remote_of none = fatal
  remote_of (some (remote_desc d)) = ok d
  remote_of (some (eager_desc t)) = fatal
  remote_of (some (meta_data_desc m)) = fatal

  abbrev pub eager_of : Option (Descriptor Any) → Outcome Text
  eager_of none = fatal
  eager_of (some (remote_desc d)) = fatal
  eager_of (some (eager_desc t)) = ok t
  eager_of (some (meta_data_desc m)) = fatal

  abbrev pub meta_of : Option (Descriptor Any) → Outcome Any
  meta_of none = fatal
  meta_of (some (remote_desc d)) = fatal
  meta_of (some (eager_desc t)) = fatal
  meta_of (some (meta_data_desc m)) = ok m

  unfoldable pub memory_block : ℕ → EncodedObject Any → Outcome Block
  unfolding decode_descriptor
  memory_block idx e = bind (remote_of (get_elem? e.descriptors idx)) decode_descriptor

  unfoldable pub mutable_memory_block : ℕ → EncodedObject Any → Outcome Block
  unfolding memory_block
  mutable_memory_block idx e = if e.context_acquired then memory_block idx e else fatal

  unfoldable pub eager_descriptor : ℕ → EncodedObject Any → Outcome Text
  eager_descriptor idx e = eager_of (get_elem? e.descriptors idx)

  unfoldable pub type_index_hash_for_object : ℕ → EncodedObject Any → Outcome ℕ
  type_index_hash_for_object idx e = elim (get_elem? e.objects idx) [
    | none ↦ fatal
    | some obj ↦ ok obj.type_index_hash
  ]

  unfoldable pub start_idx_for_object : ℕ → EncodedObject Any → Outcome ℕ
  start_idx_for_object idx e = elim (get_elem? e.objects idx) [
    | none ↦ fatal
    | some obj ↦ ok obj.desc_id
  ]

  -- m_proto.add_descriptors(), and its index
  abbrev pub add_descriptor : Descriptor Any → M (EncodedObject Any) ℕ
  add_descriptor d e =
      (ok (length e.descriptors), record e { descriptors = e.descriptors ++ (d ∷ []) })

  -- The CHECKs of the guarded calls.
  abbrev pub guarded : {A : Type 0} → M (EncodedObject Any) A → M (EncodedObject Any) A
  guarded m e = if e.context_acquired then m e else (fatal, e)

  -- The descriptor is added before its kind is encoded; a failure ends the process.
  unfoldable pub add_memory_block : Block → M (EncodedObject Any) ℕ
  unfolding encode_descriptor
  add_memory_block view = guarded λ e. elim (encode_descriptor view) [
    | ok desc ↦ add_descriptor (remote_desc desc) e
    | throws x ↦ (throws x, e)
    | fatal ↦ (fatal, e)
  ]

  unfoldable pub add_eager_buffer : Text → M (EncodedObject Any) ℕ
  add_eager_buffer bytes = guarded (add_descriptor (eager_desc bytes))

  -- add_buffer, with the buffer that the memory resource gives for the number of bytes. A blob with no
  -- memory fails the CHECK of const_block.
  unfoldable pub add_buffer : (ℕ → Block) → ℕ → M (EncodedObject Any) ℕ
  unfolding add_memory_block
  add_buffer allocate bytes = guarded do
    check (holds_memory (allocate bytes))
    index ← add_memory_block (allocate bytes)
    λ e. (ok index, record e { buffers = insert index (allocate bytes) e.buffers })

  pub add_type_index : ℕ → M (EncodedObject Any) (Unit {0})
  add_type_index hash_code = guarded λ e. (
    ok tt,
    record e {
      objects =
          e.objects
          ++ (record { type_index_hash = hash_code; desc_id = length e.descriptors } ∷ []);
    },
  )

  -- ContextGuard::ContextGuard
  unfoldable pub acquire : ℕ → M (EncodedObject Any) (Unit {0})
  unfolding add_type_index
  acquire type_index e =
      if e.context_acquired
      then (fatal, e)
      else add_type_index type_index (record e { context_acquired = true })

  -- ContextGuard::~ContextGuard
  unfoldable pub release : M (EncodedObject Any) (Unit {0})
  release = guarded λ e. (ok tt, record e { context_acquired = false })

-- Protobuf messages of one type: packing into an Any and unpacking again.
pub record Message (T Any : Type 0) : Type 0 where
  pub pack : T → Any
  pub unpack : Any → Option T
  pub unpack-pack : (t : T) → unpack (pack t) ≡ some t

module _ {T Any : Type 0} (message : Message T Any) where
  unfoldable pub add_meta_data : T → M (EncodedObject Any) ℕ
  add_meta_data meta_data = guarded (add_descriptor (meta_data_desc (message.pack meta_data)))

  unfoldable pub meta_data_at : ℕ → EncodedObject Any → Outcome T
  meta_data_at idx e = bind (meta_of (get_elem? e.descriptors idx)) λ any.
      elim (message.unpack any) [ none ↦ throws Exception.wrong_message_type | some t ↦ ok t ]
