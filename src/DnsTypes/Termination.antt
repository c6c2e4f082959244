-- ===== src/DnsTypes/Termination.antt =====
-- arataga/dns_resolver/dns_types.hpp: reading a name comes to an end, whatever the package holds.
use arataga.Prelude.{
  ℕ, zero, suc, ◌+◌, ◌-◌, ◌≤◌, ◌<◌, ◌≡◌, ◌≢◌, refl, ◌⊎◌, inl, inr, true, some, [], ◌∷◌, arith, ltb,
  length, length-append, Bool-cases, Option-cases,
}
use arataga.Prelude.Eq.{Bytes}
use arataga.DnsTypes.{
  BinaryIo, Loaded, loaded, failed, out_of_fuel, name_terminator, name_length, reference_offset,
  load_size_byte, load_next_label, at_reference, has_valid_length, read_from_memory_buffer_impl,
  read_from_memory_buffer, read_from_stream_impl, read_from_stream,
}

pub Loaded-cases :
    {A : Type 0} (r : Loaded A) → ((a : A) × (r ≡ loaded a)) ⊎ (r ≡ failed) ⊎ (r ≡ out_of_fuel)
Loaded-cases (loaded a) = inl (a, refl)
Loaded-cases failed = inr (inl refl)
Loaded-cases out_of_fuel = inr (inr refl)

module _ {S : Type 0} (io : BinaryIo S) where
  -- A label is one byte longer than its bytes.
  load_next_label-longer :
      (s t : S) (size : ℕ) (to longer : Bytes)
      → size ≢ 0
      → load_next_label io s size to ≡ some (longer, t)
      → length to < length longer
  unfolding load_next_label
  load_next_label-longer s t size to longer h e = elim (Option-cases (io.read size s)) [
    | inl f ↦ ground (arith, length-append to (size ∷ []))
    | inr ((label, j), f) ↦ ground (arith, length-append to (size ∷ label))
  ]

  load_size_byte-positive :
      (s t : S) (size : ℕ) → load_size_byte io s ≡ some (name_length size, t) → size ≢ 0
  unfolding load_size_byte
  load_size_byte-positive s t size e = elim (Option-cases (io.read_uchar s)) [
    | inl f ↦ ground arith
    | inr ((size_byte, j), f) ↦ elim (Option-cases (io.read_uchar j)) [
      | inl g ↦ ground arith
      | inr ((second, k), g) ↦ ground arith
    ]
  ]

  valid_length-le : (v : Bytes) → has_valid_length v ≡ true → length v ≤ 254
  valid_length-le v h = ground arith

  read_impl-ends :
      (fuel deep : ℕ) (all_buffer : Bytes) (s : S) (to : Bytes)
      → deep ≤ 127
      → (127 - deep) + (255 - length to) < fuel
      → read_from_memory_buffer_impl io fuel deep all_buffer s to ≢ out_of_fuel
  unfolding read_from_memory_buffer_impl
  read_impl-ends zero deep all_buffer s to d h = absurd (omega arith)
  read_impl-ends (suc fuel) deep all_buffer s to d h = elim (Option-cases (load_size_byte io s)) [
    | inl e ↦ λ f. ground arith
    | inr ((name_terminator, j), e) ↦ λ f. ground arith
    | inr ((name_length size, j), e) ↦ elim (Option-cases (load_next_label io j size to)) [
      | inl g ↦ λ f. ground arith
      | inr ((longer, k), g) ↦
          let more =
            load_next_label-longer j k size to longer (load_size_byte-positive s j size e) g in
          elim (Bool-cases (has_valid_length longer)) [
            | inl v ↦ λ f.
                read_impl-ends fuel deep all_buffer k longer d
                  (omega (arith, valid_length-le longer v)) (ground arith)
            | inr v ↦ λ f. ground arith
          ]
    ]
    | inr ((reference_offset offset, j), e) ↦
        elim (Option-cases (at_reference io all_buffer offset)) [
          | inl g ↦ λ f. ground arith
          | inr (place, g) ↦ elim (Bool-cases (ltb 127 (deep + 1))) [
            | inl v ↦ λ f. ground arith
            | inr v ↦ λ f.
                let within : deep + 1 ≤ 127 = ground arith in
                let ih = read_impl-ends fuel (deep + 1) all_buffer place to within (omega arith) in
                elim (Loaded-cases
                  (read_from_memory_buffer_impl io fuel (deep + 1) all_buffer place to)) [
                    | inl ((whole, k), r) ↦ ground arith
                    | inr (inl r) ↦ ground arith
                    | inr (inr r) ↦ ih r
                  ]
          ]
        ]
  ]

  read_from_stream_impl-ends :
      (fuel : ℕ) (s : S) (to : Bytes)
      → 255 - length to < fuel
      → read_from_stream_impl io fuel s to ≢ out_of_fuel
  unfolding read_from_stream_impl
  read_from_stream_impl-ends zero s to h = absurd (omega arith)
  read_from_stream_impl-ends (suc fuel) s to h = elim (Option-cases (load_size_byte io s)) [
    | inl e ↦ λ f. ground arith
    | inr ((name_terminator, j), e) ↦ λ f. ground arith
    | inr ((reference_offset offset, j), e) ↦ λ f. ground arith
    | inr ((name_length size, j), e) ↦ elim (Option-cases (load_next_label io j size to)) [
      | inl g ↦ λ f. ground arith
      | inr ((longer, k), g) ↦
          let more =
            load_next_label-longer j k size to longer (load_size_byte-positive s j size e) g in
          elim (Bool-cases (has_valid_length longer)) [
            | inl v ↦ λ f.
                read_from_stream_impl-ends fuel k longer (omega (arith, valid_length-le longer v))
                  (ground arith)
            | inr v ↦ λ f. ground arith
          ]
    ]
  ]

-- Reading a name ends, in a name or in an exception, whatever the package and the stream hold: also
-- where references form a circle.
pub read_from_memory_buffer-ends :
    {S : Type 0} (io : BinaryIo S) (all_buffer : Bytes) (s : S)
    → read_from_memory_buffer io all_buffer s ≢ out_of_fuel
unfolding read_from_memory_buffer
read_from_memory_buffer-ends io all_buffer s =
    read_impl-ends io 384 0 all_buffer s [] (omega arith) (omega arith)

-- Reading a name from a stream alone, where a reference is an exception, ends, in a name or in an
-- exception, whatever the stream holds.
pub read_from_stream-ends :
    {S : Type 0} (io : BinaryIo S) (s : S) → read_from_stream io s ≢ out_of_fuel
unfolding read_from_stream
read_from_stream-ends io s = read_from_stream_impl-ends io 384 s [] (omega arith)
