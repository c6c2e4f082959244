-- ===== src/DnsTypes/RoundTrip.antt =====
-- arataga/dns_resolver/dns_types.hpp: a translated name is read back, unless it is too long.
use arataga.Prelude.{
  ℕ, zero, suc, ◌+◌, ◌≤◌, ◌<◌, ◌≡◌, refl, sym, ap, ◌∙◌, inl, inr, true, some, List, [], ◌∷◌, ◌++◌,
  arith, if◌then◌else◌, length, drop, length-append, append_assoc, Bool-cases, All,
  take-length-append,
}
use arataga.Prelude.Eq.{Bytes}
use arataga.DnsTypes.{
  BinaryIo, IsBinaryIo, loaded, failed, name_terminator, name_length, load_size_byte,
  load_next_label, has_valid_length, read_from_memory_buffer_impl, read_from_memory_buffer,
  read_from_stream_impl, read_from_stream, dot, dump_to, dump_labels, translate, translated,
  without_ending_dot,
}
use arataga.DnsTypes.Translate.{IsLabel, encode, dotted, closed, translate-encode}

module _ {S : Type 0} (io : BinaryIo S) (h : IsBinaryIo io) where
  size_byte_of_label :
      (s : S) (size : ℕ) (rest : Bytes)
      → 0 < size
      → size ≤ 63
      → h.content s ≡ size ∷ rest
      → (t : S) × (load_size_byte io s ≡ some (name_length size, t)) × (h.content t ≡ rest)
  unfolding load_size_byte
  size_byte_of_label s size rest p q e =
      let (t, f, g) = h.uchar s size rest e in (t, ground arith, g)

  size_byte_of_end :
      (s : S) (rest : Bytes)
      → h.content s ≡ 0 ∷ rest
      → (t : S) × (load_size_byte io s ≡ some (name_terminator, t)) × (h.content t ≡ rest)
  unfolding load_size_byte
  size_byte_of_end s rest e = let (t, f, g) = h.uchar s 0 rest e in (t, ground arith, g)

  load_label :
      (s : S) (l rest to : Bytes)
      → 0 < length l
      → h.content s ≡ l ++ rest
      → (t : S) × (load_next_label io s (length l) to ≡ some (to ++ (length l ∷ l), t))
        × (h.content t ≡ rest)
  unfolding load_next_label
  load_label s l rest to p e = let (t, f, g) = h.bytes s l rest e in (t, ground arith, g)

  -- The rounds of the two loops on labels.
  module _ (fuel : ℕ) (s : S) (l : Bytes) (rest to : Bytes) where
    round :
        0 < length l
        → length l ≤ 63
        → h.content s ≡ length l ∷ (l ++ rest)
        → (t : S) × (h.content t ≡ rest)
          × ((deep : ℕ)
              → (all_buffer : Bytes)
              → read_from_memory_buffer_impl io (suc fuel) deep all_buffer s to ≡ (
                  if has_valid_length (to ++ (length l ∷ l))
                  then read_from_memory_buffer_impl io fuel deep all_buffer t (to ++ (length l ∷ l))
                  else failed))
          × (read_from_stream_impl io (suc fuel) s to ≡ (
              if has_valid_length (to ++ (length l ∷ l))
              then read_from_stream_impl io fuel t (to ++ (length l ∷ l))
              else failed))
    unfolding read_from_memory_buffer_impl read_from_stream_impl
    round p q e =
        let (j, f, g) = size_byte_of_label s (length l) (l ++ rest) p q e in
        let (t, f', g') = load_label j l rest to p g in
        (t, g', (λ deep all_buffer. ground arith), ground arith)

  read_labels :
      (ls : List Bytes) (fuel deep : ℕ) (all_buffer : Bytes) (s : S) (rest to : Bytes)
      → All IsLabel ls
      → length ls < fuel
      → length to + length (encode ls) ≤ 254
      → h.content s ≡ encode ls ++ (0 ∷ rest)
      → (t : S) × (h.content t ≡ rest)
        × (read_from_memory_buffer_impl io fuel deep all_buffer s to
            ≡ loaded (to ++ (encode ls ++ (0 ∷ [])), t))
        × (read_from_stream_impl io fuel s to ≡ loaded (to ++ (encode ls ++ (0 ∷ [])), t))
  unfolding read_from_memory_buffer_impl read_from_stream_impl
  read_labels ls zero deep all_buffer s rest to v f n e = absurd (omega arith)
  read_labels [] (suc fuel) deep all_buffer s rest to v f n e =
      let (t, g, c) = size_byte_of_end s rest e in (t, c, ground arith, ground arith)
  read_labels (l ∷ ls) (suc fuel) deep all_buffer s rest to ((p, q), v) f n e =
      let (j, c, by_memory, by_stream) =
        round fuel s l (encode ls ++ (0 ∷ rest)) to p q
          (e ∙ ap (λ x. length l ∷ x) (append_assoc l (encode ls) (0 ∷ rest))) in
      let longer = to ++ (length l ∷ l) in
      let size : length longer ≡ length to + suc (length l) = length-append to (length l ∷ l) in
      let (t, c', a, b) =
        read_labels ls fuel deep all_buffer j rest longer v (omega arith)
          (omega (arith, size, length-append l (encode ls))) c in
      let valid : has_valid_length longer ≡ true =
        ground (arith, size, length-append l (encode ls)) in
      let whole : longer ++ (encode ls ++ (0 ∷ [])) ≡ to ++ (encode (l ∷ ls) ++ (0 ∷ [])) =
        append_assoc to (length l ∷ l) (encode ls ++ (0 ∷ []))
        ∙ ap (λ x. to ++ (length l ∷ x)) (sym (append_assoc l (encode ls) (0 ∷ []))) in
      (t, c', by_memory deep all_buffer ∙ ground (arith, whole), by_stream ∙ ground (arith, whole))

  -- Labels that are longer together than a name may be are not read.
  refuse_labels :
      (ls : List Bytes) (fuel deep : ℕ) (all_buffer : Bytes) (s : S) (rest to : Bytes)
      → All IsLabel ls
      → length ls < fuel
      → length to ≤ 254
      → 254 < length to + length (encode ls)
      → h.content s ≡ encode ls ++ (0 ∷ rest)
      → (read_from_memory_buffer_impl io fuel deep all_buffer s to ≡ failed)
        × (read_from_stream_impl io fuel s to ≡ failed)
  refuse_labels ls zero deep all_buffer s rest to v f m n e = absurd (omega arith)
  refuse_labels [] (suc fuel) deep all_buffer s rest to v f m n e = absurd (omega arith)
  refuse_labels (l ∷ ls) (suc fuel) deep all_buffer s rest to ((p, q), v) f m n e =
      let (j, c, by_memory, by_stream) =
        round fuel s l (encode ls ++ (0 ∷ rest)) to p q
          (e ∙ ap (λ x. length l ∷ x) (append_assoc l (encode ls) (0 ∷ rest))) in
      let longer = to ++ (length l ∷ l) in
      let size : length longer ≡ length to + suc (length l) = length-append to (length l ∷ l) in
      elim (Bool-cases (has_valid_length longer)) [
        | inl valid ↦
            let within : length longer ≤ 254 = ground arith in
            let (a, b) =
              refuse_labels ls fuel deep all_buffer j rest longer v (omega arith) within
                (omega (arith, size, length-append l (encode ls))) c in
            (by_memory deep all_buffer ∙ ground arith, by_stream ∙ ground arith)
        | inr valid ↦ (by_memory deep all_buffer ∙ ground arith, by_stream ∙ ground arith)
      ]

length-encode : (ls : List Bytes) → length (encode ls) ≡ length (dotted ls)
length-encode [] = refl
length-encode (l ∷ ls) =
    omega (arith, length-append l (encode ls), length-append l (dot ∷ dotted ls), length-encode ls)

count-le-encode : (ls : List Bytes) → length ls ≤ length (encode ls)
count-le-encode [] = omega arith
count-le-encode (l ∷ ls) = omega (arith, length-append l (encode ls), count-le-encode ls)

length-closed : (src : Bytes) → length (closed src) ≤ suc (length src)
length-closed [] = omega arith
length-closed (c ∷ cs) = omega (arith, length-append cs (dot ∷ []))

closed_longer : (src : Bytes) → 0 < length src → length (closed src) ≡ suc (length src)
closed_longer [] h = absurd (omega arith)
closed_longer (c ∷ cs) h = omega (arith, length-append cs (dot ∷ []))

drop-length-append : (xs ys : Bytes) → drop (length xs) (xs ++ ys) ≡ ys
drop-length-append [] ys = refl
drop-length-append (x ∷ xs) ys = drop-length-append xs ys

dump_labels-encode :
    (ls : List Bytes) (fuel : ℕ)
    → All IsLabel ls
    → length ls < fuel
    → dump_labels fuel (encode ls ++ (0 ∷ [])) ≡ loaded (dotted ls)
unfolding dump_labels
dump_labels-encode ls zero v f = absurd (omega arith)
dump_labels-encode [] (suc fuel) v f = refl
dump_labels-encode (l ∷ ls) (suc fuel) ((p, q), v) f =
    let tail : (l ++ encode ls) ++ (0 ∷ []) ≡ l ++ (encode ls ++ (0 ∷ [])) =
      append_assoc l (encode ls) (0 ∷ []) in
    ground (
      arith,
      tail,
      take-length-append l (encode ls ++ (0 ∷ [])),
      drop-length-append l (encode ls ++ (0 ∷ [])),
      dump_labels-encode ls fuel v (omega arith),
    )

dump_to-encode :
    (ls : List Bytes) → All IsLabel ls → dump_to (encode ls ++ (0 ∷ [])) ≡ loaded (dotted ls)
unfolding dump_to
dump_to-encode ls v =
    dump_labels-encode ls (suc (length (encode ls ++ (0 ∷ [])))) v
      (omega (arith, count-le-encode ls, length-append (encode ls) (0 ∷ [])))

module _ {S : Type 0} (io : BinaryIo S) (h : IsBinaryIo io) where
  -- A translated name of at most 253 bytes, an ending dot not counted, is read back where it
  -- stands, by both readers, and nothing behind it is consumed; and its labels are printed as the
  -- name with a dot at its end.
  pub translated_name_read_back :
      (src v all_buffer rest : Bytes) (s : S)
      → translate src ≡ translated v
      → length (without_ending_dot src) ≤ 253
      → h.content s ≡ v ++ rest
      → (t : S) × (h.content t ≡ rest)
        × (read_from_memory_buffer io all_buffer s ≡ loaded (v, t))
        × (read_from_stream io s ≡ loaded (v, t))
        × (dump_to v ≡ loaded (closed (without_ending_dot src)))
  unfolding read_from_memory_buffer read_from_stream
  translated_name_read_back src v all_buffer rest s e n c =
      let (ls, valid, f, d) = translate-encode src v e in
      let short : length (encode ls) ≤ 254 =
        omega (arith, length-encode ls, ap length d, length-closed (without_ending_dot src)) in
      let (t, c', a, b) =
        read_labels io h ls 384 0 all_buffer s rest [] valid (omega (arith, count-le-encode ls))
          (omega (arith, short))
          (c ∙ ap (λ x. x ++ rest) f ∙ append_assoc (encode ls) (0 ∷ []) rest) in
      (
        t,
        c',
        a ∙ ap (λ x. loaded (x, t)) (sym f),
        b ∙ ap (λ x. loaded (x, t)) (sym f),
        ap dump_to f ∙ dump_to-encode ls valid ∙ ap loaded d,
      )

  -- A name of 254 bytes, an ending dot not counted, can be translated, but is not read back.
  pub longest_name_unreadable :
      (src v all_buffer rest : Bytes) (s : S)
      → translate src ≡ translated v
      → length (without_ending_dot src) ≡ 254
      → h.content s ≡ v ++ rest
      → (read_from_memory_buffer io all_buffer s ≡ failed) × (read_from_stream io s ≡ failed)
  unfolding read_from_memory_buffer read_from_stream
  longest_name_unreadable src v all_buffer rest s e n c =
      let (ls, valid, f, d) = translate-encode src v e in
      let long : length (encode ls) ≡ 255 = omega (
        arith,
        length-encode ls,
        ap length d,
        closed_longer (without_ending_dot src) (omega arith),
      ) in
      refuse_labels io h ls 384 0 all_buffer s rest [] valid (omega (arith, count-le-encode ls))
        (omega arith) (omega arith)
        (c ∙ ap (λ x. x ++ rest) f ∙ append_assoc (encode ls) (0 ∷ []) rest)
