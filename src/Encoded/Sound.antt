-- ===== src/Encoded/Sound.antt =====
-- What each call on an encoded object keeps.
use srf.Base.{
  ℕ, ◌≤◌, ◌≡◌, ◌≢◌, ◌⊎◌, inl, inr, true, false, List, [], ◌∷◌, ◌++◌, some, Outcome, ok, throws,
  fatal, M, ◌>>=◌, ◌>>◌, and_then, get_elem?, length, All, All-append, All-weaken, length-append,
  get_elem?-length, get_elem?-append_some, Option-cases, Bool-cases, if_true, if_false, ==_iff,
  nat_key, arith, refl, sym, ◌∙◌, ◌==◌, some-injective, check,
}
use srf.Base.Map.{find, insert, find-insert}
use srf.Encoded.{
  Block, RemoteDescriptor, Descriptor, ObjectDescriptor, EncodedObject, remote_desc,
  encode_descriptor, encode_memory_type, decode_descriptor, memory_block, add_descriptor,
  add_memory_block, add_buffer, add_type_index, acquire, release, guarded, descriptor_count,
  holds_memory, MemoryKind,
}
use srf.Encoded.Reading.{decode_descriptor-encode, add_memory_block-acquired}

-- The object descriptors start no later than the descriptors that follow them, and in order.
abbrev pub Starts : ℕ → List ObjectDescriptor → Type 0
Starts n = All λ o. o.desc_id ≤ n

abbrev pub Ascending : List ObjectDescriptor → Type 0
Ascending [] = Unit {0}
Ascending (o ∷ os) = All (λ p. o.desc_id ≤ p.desc_id) os × Ascending os

-- Every buffer that the object owns is the one that its descriptor describes.
abbrev pub IsSound : {Any : Type 0} → EncodedObject Any → Type 0
IsSound e =
    ((i : ℕ) (b : Block) → find i e.buffers ≡ some b → memory_block i e ≡ ok b)
    × Starts (descriptor_count e) e.objects
    × Ascending e.objects

kind-cases : (k : MemoryKind) → (k ≡ MemoryKind.none_kind) ⊎ (k ≢ MemoryKind.none_kind)
kind-cases MemoryKind.none_kind = inl refl
kind-cases MemoryKind.host = inr λ e. absurd cc
kind-cases MemoryKind.pinned = inr λ e. absurd cc
kind-cases MemoryKind.device = inr λ e. absurd cc
kind-cases MemoryKind.managed = inr λ e. absurd cc

Ascending-append :
    (n : ℕ) (os : List ObjectDescriptor) (h : ℕ)
    → Starts n os
    → Ascending os
    → Ascending (os ++ (record { type_index_hash = h; desc_id = n } ∷ []))
Ascending-append n [] h s a = (tt, tt)
Ascending-append n (o ∷ os) h s a =
    (All-append (λ p. o.desc_id ≤ p.desc_id) os _ a.0 s.0, Ascending-append n os h s.1 a.1)

module _ {Any : Type 0} where
  memory_block-append :
      (e : EncodedObject Any) (ds : List (Descriptor Any)) (i : ℕ) (b : Block)
      → memory_block i e ≡ ok b
      → memory_block i (record e { descriptors = e.descriptors ++ ds }) ≡ ok b
  unfolding memory_block
  memory_block-append e ds i b h = elim (Option-cases (get_elem? e.descriptors i)) [
    | inl missing ↦ absurd cc (h, missing)
    | inr (d, found) ↦ rw (get_elem?-append_some e.descriptors ds i d found) (rw found at h)
  ]

  pub add_descriptor-IsSound :
      (d : Descriptor Any) (e : EncodedObject Any) → IsSound e → IsSound (add_descriptor d e).1
  add_descriptor-IsSound d e (h, s, a) = (
    λ i b f. memory_block-append e (d ∷ []) i b (h i b f),
    All-weaken e.objects (λ o l. omega (arith, length-append e.descriptors (d ∷ []))) s,
    a,
  )

  -- A successful add_memory_block adds the descriptor of the block; otherwise nothing changes.
  add_memory_block-cases :
      (view : Block) (e : EncodedObject Any)
      → (add_memory_block view e ≡ (fatal, e))
        ⊎ ((d : RemoteDescriptor) × (decode_descriptor d ≡ ok view)
            × (add_memory_block view e ≡ add_descriptor (remote_desc d) e))
  unfolding add_memory_block encode_descriptor encode_memory_type
  add_memory_block-cases view e = elim (Bool-cases e.context_acquired) [
    | inr free ↦ inl (rw free refl)
    | inl held ↦ elim (kind-cases view.kind) [
      | inl missing ↦ inl (rw missing (if_true _ _ held))
      | inr present ↦
          let r = decode_descriptor-encode view present in
          inr (r.0, r.2, add_memory_block-acquired view e r.0 held r.1)
    ]
  ]

  pub and_then-IsSound :
      {A : Type 0} (r : Outcome A × EncodedObject Any) (m : M (EncodedObject Any) (Unit {0}))
      → IsSound r.1
      → ((e : EncodedObject Any) → IsSound e → IsSound (m e).1)
      → IsSound (and_then r λ _. m).1
  and_then-IsSound (ok a, e) m h k = k e h
  and_then-IsSound (throws x, e) m h k = h
  and_then-IsSound (fatal, e) m h k = h

  pub guarded-IsSound :
      {A : Type 0} (m : M (EncodedObject Any) A) (e : EncodedObject Any)
      → (IsSound e → IsSound (m e).1)
      → IsSound e
      → IsSound (guarded m e).1
  guarded-IsSound m e h s = elim (Bool-cases e.context_acquired) [
    | inl held ↦ rw (if_true (m e) (fatal, e) held) (h s)
    | inr free ↦ rw (if_false (m e) (fatal, e) free) s
  ]

  pub add_memory_block-IsSound :
      (view : Block) (e : EncodedObject Any) → IsSound e → IsSound (add_memory_block view e).1
  add_memory_block-IsSound view e h = elim (add_memory_block-cases view e) [
    | inl failed ↦ rw failed h
    | inr (d, _, added) ↦ rw added (add_descriptor-IsSound (remote_desc d) e h)
  ]

  add_type_index-IsSound :
      (n : ℕ) (e : EncodedObject Any) → IsSound e → IsSound (add_type_index n e).1
  unfolding add_type_index memory_block
  add_type_index-IsSound n e =
      guarded-IsSound
        (λ s. (
          ok tt,
          record s {
            objects =
                s.objects ++ (record { type_index_hash = n; desc_id = length s.descriptors } ∷ []);
          },
        ))
        e
        λ (h, s, a). (
          h,
          All-append (λ o. o.desc_id ≤ descriptor_count e) e.objects
              (record { type_index_hash = n; desc_id = descriptor_count e }) s (omega arith),
          Ascending-append (descriptor_count e) e.objects n s a,
        )

  pub acquire-IsSound : (n : ℕ) (e : EncodedObject Any) → IsSound e → IsSound (acquire n e).1
  unfolding acquire memory_block
  acquire-IsSound n e h = elim (Bool-cases e.context_acquired) [
    | inl held ↦ rw held h
    | inr free ↦ rw free (add_type_index-IsSound n (record e { context_acquired = true }) h)
  ]

  pub release-IsSound : (e : EncodedObject Any) → IsSound e → IsSound (release e).1
  unfolding release memory_block
  release-IsSound e = guarded-IsSound (λ s. (ok tt, record s { context_acquired = false })) e λ h. h

  abbrev with_buffer : RemoteDescriptor → Block → EncodedObject Any → EncodedObject Any
  with_buffer d view e = record e {
    descriptors = e.descriptors ++ (remote_desc d ∷ []);
    buffers = insert (descriptor_count e) view e.buffers;
  }

  with_buffer-read :
      (d : RemoteDescriptor) (view : Block) (e : EncodedObject Any)
      → decode_descriptor d ≡ ok view
      → memory_block (descriptor_count e) (with_buffer d view e) ≡ ok view
  unfolding memory_block
  with_buffer-read d view e r = rw (get_elem?-length e.descriptors (remote_desc d), r)

  -- The object takes the buffer at the index of its descriptor.
  with_buffer-IsSound :
      (d : RemoteDescriptor) (view : Block) (e : EncodedObject Any)
      → decode_descriptor d ≡ ok view
      → IsSound e
      → IsSound (with_buffer d view e)
  unfolding memory_block
  with_buffer-IsSound d view e r (h, s, a) = (
    λ i b f.
        let g = sym (find-insert (descriptor_count e) i view e.buffers) ∙ f in
        elim (Bool-cases (descriptor_count e == i)) [
          | inl this ↦
              let same =
                some-injective view b (sym (if_true (some view) (find i e.buffers) this) ∙ g) in
              cc (with_buffer-read d view e r, (==_iff (descriptor_count e) i).0 this, same)
          | inr other ↦
              memory_block-append e (remote_desc d ∷ []) i b
                (h i b (sym (if_false (some view) (find i e.buffers) other) ∙ g))
        ],
    (add_descriptor-IsSound (remote_desc d) e (h, s, a)).1,
    a,
  )

  pub add_buffer-IsSound :
      (allocate : ℕ → Block) (n : ℕ) (e : EncodedObject Any)
      → IsSound e
      → IsSound (add_buffer allocate n e).1
  unfolding add_buffer
  add_buffer-IsSound allocate n e =
      let adding : M (EncodedObject Any) ℕ = do
        check (holds_memory (allocate n))
        index ← add_memory_block (allocate n)
        λ s. (ok index, record s { buffers = insert index (allocate n) s.buffers })
      in guarded-IsSound adding e λ s. elim (Bool-cases (holds_memory (allocate n))) [
        | inr null ↦ rw null s
        | inl memory ↦ elim (add_memory_block-cases (allocate n) e) [
          | inl failed ↦ rw (memory, failed) s
          | inr (d, r, added) ↦ rw (memory, added) (with_buffer-IsSound d (allocate n) e r s)
        ]
      ]
