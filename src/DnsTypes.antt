-- ===== src/DnsTypes.antt =====
-- arataga/dns_resolver/dns_types.hpp: the names in DNS packages.
--
-- The streams of the library oess_2 are a parameter: operations that fail with an exception or give
-- a value and the stream after it. The loops run on fuel. `failed` stands for any exception.
pub mod Termination
pub mod Translate
pub mod RoundTrip
pub mod Packages
use arataga.Prelude.{
  ℕ, zero, suc, ◌+◌, ◌*◌, ◌/◌, ◌%◌, ◌≡◌, ◌<◌, Bool, true, false, Option, none, some, List, [], ◌∷◌,
  ◌++◌, ltb, ◌==◌, if◌then◌else◌, length, take, drop,
}
use arataga.Prelude.Eq.{Bytes}

-- What is used of `oess_2::io`.
pub record BinaryIo (S : Type 0) : Type 0 where
  pub read_uchar : S → Option (ℕ × S)
  pub read_ushort : S → Option (ℕ × S)
  pub read_uint : S → Option (ℕ × S)
  pub read_ushorts : ℕ → S → Option (List ℕ × S)
  pub read : ℕ → S → Option (Bytes × S)
  pub shift_bytes : ℕ → S → Option S
  pub ifixed_mem_buf : Bytes → S
  pub write_ushort : ℕ → Bytes

-- The documented behaviour: a stream holds the bytes that are left, and what is read is what stands
-- at their front.
pub record IsBinaryIo {S : Type 0} (io : BinaryIo S) : Type 0 where
  pub content : S → Bytes
  pub uchar :
      (s : S) (b : ℕ) (rest : Bytes)
      → content s ≡ b ∷ rest
      → (t : S) × (io.read_uchar s ≡ some (b, t)) × (content t ≡ rest)
  pub bytes :
      (s : S) (xs rest : Bytes)
      → content s ≡ xs ++ rest
      → (t : S) × (io.read (length xs) s ≡ some (xs, t)) × (content t ≡ rest)
  pub ushort :
      (s : S) (n : ℕ) (rest : Bytes)
      → n < 65536
      → content s ≡ io.write_ushort n ++ rest
      → (t : S) × (io.read_ushort s ≡ some (n, t)) × (content t ≡ rest)
  pub mem_buf : (xs : Bytes) → content (io.ifixed_mem_buf xs) ≡ xs

abbrev pub max_length : ℕ
max_length = 254

abbrev pub max_label_length : ℕ
max_label_length = 63

-- `ensure_valid_length` does not throw.
abbrev pub has_valid_length : Bytes → Bool
has_valid_length v = if ltb max_length (length v) then false else true

pub data Translated : Type 0 where
  translated : Bytes → Translated
  too_long_name empty_label out_of_fuel : Translated
  too_long_label : ℕ → Translated

abbrev pub dot : ℕ
dot = 46

-- The inner loop: the label, what is left, and whether a dot has been found.
unfoldable pub take_label : Bytes → Bytes × Bytes × Bool
take_label [] = ([], [], false)
take_label (c ∷ cs) =
    let (label, rest, dot_found) = take_label cs in
    if c == dot then ([], cs, true) else (c ∷ label, rest, dot_found)

-- The outer loop, from the current position on.
unfoldable pub translate_labels : ℕ → Bytes → Bool → Bytes → Translated
translate_labels fuel [] expects_next_label result =
    if expects_next_label then empty_label else translated (result ++ (0 ∷ []))
translate_labels zero (c ∷ cs) expects_next_label result = out_of_fuel
translate_labels (suc fuel) (c ∷ cs) expects_next_label result =
    let (label, rest, dot_found) = take_label (c ∷ cs) in
    let translation = translate_labels fuel rest dot_found (result ++ (length label ∷ label)) in
    if length label == 0
    then empty_label
    else if ltb max_label_length (length label)
    then too_long_label (length label)
    else translation

-- The ending dot is skipped.
unfoldable pub without_ending_dot : Bytes → Bytes
without_ending_dot [] = []
without_ending_dot (c ∷ []) = if c == dot then [] else c ∷ []
without_ending_dot (c ∷ d ∷ cs) = c ∷ without_ending_dot (d ∷ cs)

unfoldable pub translate : Bytes → Translated
translate src =
    if has_valid_length src
    then translate_labels (length src) (without_ending_dot src) false []
    else too_long_name

pub data Loaded (A : Type 0) : Type 0 where
  loaded : A → Loaded A
  failed out_of_fuel : Loaded A

pub data SizeByte : Type 0 where
  name_terminator : SizeByte
  name_length : ℕ → SizeByte
  reference_offset : ℕ → SizeByte

module _ {S : Type 0} (io : BinaryIo S) where
  -- `size_byte & 0xC0` is the value of the two highest bits.
  unfoldable pub load_size_byte : S → Option (SizeByte × S)
  load_size_byte i = elim (io.read_uchar i) [
    | none ↦ none
    | some (size_byte, j) ↦
        if size_byte / 64 % 4 == 0
        then (if size_byte == 0 then some (name_terminator, j) else some (name_length size_byte, j))
        else elim (io.read_uchar j) [
          | none ↦ none
          | some (second_offset_byte, k) ↦
              some (reference_offset (size_byte % 64 * 256 + second_offset_byte), k)
        ]
  ]

  unfoldable pub load_next_label : S → ℕ → Bytes → Option (Bytes × S)
  load_next_label from label_size to = elim (label_size == 0) [
    | true ↦ some (to, from)
    | false ↦ elim (io.read label_size from) [
      | none ↦ none
      | some (label, j) ↦ some (to ++ (label_size ∷ label), j)
    ]
  ]

  -- A stream at a place of the whole buffer.
  unfoldable pub at_reference : Bytes → ℕ → Option S
  at_reference all_buffer offset = io.shift_bytes offset (io.ifixed_mem_buf all_buffer)

  -- The name and the stream after it. After a reference that is the stream behind the offset,
  -- since the name goes on in a stream of its own.
  unfoldable pub read_from_memory_buffer_impl : ℕ → ℕ → Bytes → S → Bytes → Loaded (Bytes × S)
  unfolding load_size_byte load_next_label at_reference
  read_from_memory_buffer_impl zero deep all_buffer stream to = out_of_fuel
  read_from_memory_buffer_impl (suc fuel) deep all_buffer stream to = elim (load_size_byte stream) [
    | none ↦ failed
    | some (name_terminator, j) ↦ loaded (to ++ (0 ∷ []), j)
    | some (name_length size, j) ↦ elim (load_next_label j size to) [
      | none ↦ failed
      | some (longer, k) ↦ elim (has_valid_length longer) [
        | false ↦ failed
        | true ↦ read_from_memory_buffer_impl fuel deep all_buffer k longer
      ]
    ]
    | some (reference_offset offset, j) ↦ elim (at_reference all_buffer offset) [
      | none ↦ failed
      | some place ↦ elim (ltb 127 (deep + 1)) [
        | true ↦ failed
        | false ↦ elim (read_from_memory_buffer_impl fuel (deep + 1) all_buffer place to) [
          | loaded (whole, _) ↦ loaded (whole, j)
          | failed ↦ failed
          | out_of_fuel ↦ out_of_fuel
        ]
      ]
    ]
  ]

  abbrev pub enough_fuel : ℕ
  enough_fuel = 384

  unfoldable pub read_from_memory_buffer : Bytes → S → Loaded (Bytes × S)
  read_from_memory_buffer all_buffer stream =
      read_from_memory_buffer_impl enough_fuel 0 all_buffer stream []

  unfoldable pub read_from_stream_impl : ℕ → S → Bytes → Loaded (Bytes × S)
  unfolding load_size_byte load_next_label
  read_from_stream_impl zero stream to = out_of_fuel
  read_from_stream_impl (suc fuel) stream to = elim (load_size_byte stream) [
    | none ↦ failed
    | some (name_terminator, j) ↦ loaded (to ++ (0 ∷ []), j)
    | some (name_length size, j) ↦ elim (load_next_label j size to) [
      | none ↦ failed
      | some (longer, k) ↦ elim (has_valid_length longer) [
        | false ↦ failed
        | true ↦ read_from_stream_impl fuel k longer
      ]
    ]
    | some (reference_offset offset, j) ↦ failed
  ]

  unfoldable pub read_from_stream : S → Loaded (Bytes × S)
  read_from_stream stream = read_from_stream_impl enough_fuel stream []

-- The labels of a translated name, each with a dot behind it. Behind its end a `std::string` has
-- a 0.
unfoldable pub dump_labels : ℕ → Bytes → Loaded Bytes
dump_labels zero v = out_of_fuel
dump_labels (suc fuel) [] = loaded []
dump_labels (suc fuel) (size ∷ v) = elim (size == 0) [
  | true ↦ loaded []
  | false ↦ elim (dump_labels fuel (drop size v)) [
    | loaded rest ↦ loaded (take size v ++ (dot ∷ rest))
    | failed ↦ failed
    | out_of_fuel ↦ out_of_fuel
  ]
]

unfoldable pub dump_to : Bytes → Loaded Bytes
dump_to v = dump_labels (suc (length v)) v
