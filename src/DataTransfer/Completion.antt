-- ===== src/DataTransfer/Completion.antt =====
-- arataga/acl_handler/handlers/data_transfer.cpp: completed reads and writes in the flow of bytes.
use arataga.Prelude.{
  ℕ, zero, suc, ◌+◌, ◌%◌, ◌<◌, ◌≡◌, refl, sym, ap, ◌∙◌, Bool, true, false, Option, none, some, List,
  [], ◌∷◌, ◌++◌, arith, subst, length, get_or, set, drop, append_assoc, get_or-set_self, length-set,
  take-length-append,
}
use arataga.Prelude.Eq.{Bytes}
use arataga.Limiter.{ReservedCapacity}
use native.Mathlib.Nat.{mod-lt}
use arataga.DataTransfer.{IoBuffer, empty_buffer, DirectionState, take_read_data}
use arataga.DataTransfer.Ring.{content, content_at, window, window-snoc, window-set, shift_base}
use arataga.DataTransfer.Stream.{Flow, WritePart, ReadPart, busy, busy_reading, receive, send}

set-set : {A : Type 0} (xs : List A) (i : ℕ) (u v : A) → set (set xs i u) i v ≡ set xs i v
set-set {A = A} [] i u v = refl
set-set {A = A} (x ∷ xs) zero u v = refl
set-set {A = A} (x ∷ xs) (suc i) u v = ap (λ (l : List A). x ∷ l) (set-set xs i u v)

-- What the source is after a read that succeeded.
abbrev pub after_read : ℕ → Bytes → DirectionState → DirectionState
after_read selected bytes src =
    take_read_data selected (length bytes)
      (record (receive selected bytes src) { active_read = false })

abbrev filled_buffer : ℕ → Bytes → DirectionState → IoBuffer
filled_buffer selected bytes src = record {
  data_read =
      bytes ++ drop (length bytes) (get_or src.in_buffers selected (empty_buffer 0)).data_read;
  data_size = length bytes;
}

-- The buffers after the read, with the bytes and the size in one write.
received_buffers :
    (selected : ℕ) (bytes : Bytes) (src : DirectionState)
    → selected < length src.in_buffers
    → (after_read selected bytes src).in_buffers
      ≡ set src.in_buffers selected (filled_buffer selected bytes src)
unfolding take_read_data receive
received_buffers selected bytes src h =
    let old = get_or src.in_buffers selected (empty_buffer 0) in
    let u = record old { data_read = bytes ++ drop (length bytes) old.data_read } in
    set-set src.in_buffers selected u
      (record (get_or (set src.in_buffers selected u) selected (empty_buffer 0)) {
        data_size = length bytes;
      })
    ∙ ap (λ (b : IoBuffer). set src.in_buffers selected (record b { data_size = length bytes }))
        (get_or-set_self src.in_buffers selected u (empty_buffer 0) h)

window_after_read :
    (bufs : List IoBuffer) (base count : ℕ) (b : IoBuffer)
    → base < length bufs
    → count < length bufs
    → window (length bufs) (set bufs ((base + count) % length bufs) b) base (suc count)
      ≡ window (length bufs) bufs base count ++ content b
window_after_read bufs base count b h k =
    let n = length bufs in
    let j = (base + count) % n in
    window-snoc n (set bufs j b) base count h
    ∙ ap (λ w. w ++ content_at (set bufs j b) j)
        (window-set n bufs base count count b h (omega arith) k)
    ∙ ap (λ x. window n bufs base count ++ content x)
        (get_or-set_self bufs j b (empty_buffer 0) (mod-lt (base + count) (omega arith)))

WritePart-suc :
    (w : Option ℕ) (active : Bool) (n i available base count : ℕ)
    → WritePart w active n i available base count
    → WritePart w active n i (available + 1) base (suc count)
WritePart-suc none active n i available base count h = ground arith
WritePart-suc (some x) active n i available base count h = ground arith

-- A read that succeeds adds its bytes at the end of the window.
pub read-Flow :
    {chunk : ℕ} (src dest : DirectionState) {base count : ℕ} (selected : ℕ) (bytes : Bytes)
    → Flow chunk src dest base count
    → src.is_alive ≡ true
    → src.active_read ≡ true
    → selected ≡ (base + count) % length src.in_buffers
    → Flow chunk (after_read selected bytes src) dest base (suc count)
unfolding take_read_data receive
read-Flow {chunk} src dest {base} {count} selected bytes f alive active e =
    let n = length src.in_buffers in
    let src' = after_read selected bytes src in
    let b = filled_buffer selected bytes src in
    let one = busy_reading src alive active in
    let none_left : busy src'.is_alive src'.active_read ≡ 0 = ground arith in
    let room : count < n = omega (arith, f.buffers, one) in
    let place : selected < n = omega (arith, e, mod-lt (base + count) {m = n} (omega arith)) in
    let bufs = received_buffers selected bytes src place in
    let len : n ≡ length src'.in_buffers =
      sym (ap length bufs ∙ length-set src.in_buffers selected b) in
    let same = ap (λ i. set src.in_buffers i b) e in
    let w : window n src'.in_buffers base (suc count)
        ≡ window n src.in_buffers base count ++ bytes =
      ap (λ x. window n x base (suc count)) (bufs ∙ same)
      ∙ window_after_read src.in_buffers base count b f.in_ring room
      ∙ ap (λ x. window n src.in_buffers base count ++ x)
          (take-length-append bytes
            (drop (length bytes) (get_or src.in_buffers selected (empty_buffer 0)).data_read)) in
    record {
      in_ring = omega (arith, f.in_ring, len);
      buffers = omega (arith, f.buffers, one, none_left, len);
      next_read =
          subst
            (λ m. src.read_index ≡ (base + (suc count + busy src'.is_alive src'.active_read)) % m)
            len
            (f.next_read
              ∙ ap (λ x. (base + x) % n) {x = count + busy src.is_alive src.active_read}
                  (omega (arith, one, none_left)));
      write_part =
          subst
            (λ m.
              WritePart dest.channel.writing dest.active_write m src.write_index
                (src.available_for_write_buffers + 1) base (suc count))
            len
            (WritePart-suc dest.channel.writing dest.active_write n src.write_index
              src.available_for_write_buffers base count f.write_part);
      read_part = refl;
      stream =
          subst
            (λ m.
              src.channel.received ++ bytes
              ≡ dest.channel.sent ++ window m src'.in_buffers base (suc count))
            len
            (ap (λ r. r ++ bytes) f.stream
              ∙ append_assoc dest.channel.sent (window n src.in_buffers base count) bytes
              ∙ ap (λ x. dest.channel.sent ++ x) (sym w));
    }

writing_part :
    {w : Option ℕ} (active : Bool) (n i available base count selected : ℕ)
    → w ≡ some selected
    → WritePart w active n i available base count
    → WritePart (some selected) active n i available base count
writing_part active n i available base count selected e h =
    subst (λ w. WritePart w active n i available base count) e h

ReadPart-shift :
    (r : Option (ℕ × ReservedCapacity)) (active alive : Bool) (n chunk base count : ℕ)
    → ReadPart r active alive n chunk base (suc count)
    → ReadPart r active alive n chunk ((base + 1) % n) count
ReadPart-shift none active alive n chunk base count h = h
ReadPart-shift (some (selected, rc)) active alive n chunk base count h =
    (h.0, h.1, h.2 ∙ sym (shift_base n base count), h.3)

-- A write of a whole buffer removes it from the window.
pub write-Flow :
    {chunk : ℕ} (src dest : DirectionState) {base count : ℕ} (selected : ℕ)
    → Flow chunk src dest base count
    → dest.channel.writing ≡ some selected
    → Flow chunk
        (record src { available_for_read_buffers = src.available_for_read_buffers + 1 })
        (record (send (content_at src.in_buffers selected) dest) { active_write = false })
        ((base + 1) % length src.in_buffers)
        src.available_for_write_buffers
unfolding send window
write-Flow {chunk} src dest {base} {count} selected f e =
    let n = length src.in_buffers in
    let k = src.available_for_write_buffers in
    let w = writing_part dest.active_write n src.write_index k base count selected e f.write_part in
    let size : count ≡ suc k = omega (arith, w) in
    let base' = (base + 1) % n in
    record {
      in_ring = mod-lt (base + 1) (omega (arith, f.in_ring));
      buffers = omega (arith, f.buffers, size);
      next_read =
          f.next_read
          ∙ ap (λ x. (base + x) % n) {x = count + busy src.is_alive src.active_read}
              {y = suc (k + busy src.is_alive src.active_read)} (omega (arith, size))
          ∙ sym (shift_base n base (k + busy src.is_alive src.active_read));
      write_part = (refl, w.2, refl);
      read_part = ReadPart-shift src.channel.reading src.active_read src.is_alive n chunk base k (
          subst (λ c. ReadPart src.channel.reading src.active_read src.is_alive n chunk base c) size
            f.read_part);
      stream =
          f.stream
          ∙ ap (λ c. dest.channel.sent ++ window n src.in_buffers base c) size
          ∙ ap
              (λ i.
                dest.channel.sent
                ++ (content_at src.in_buffers i ++ window n src.in_buffers base' k))
              (sym (w.1))
          ∙ sym (
              append_assoc dest.channel.sent (content_at src.in_buffers selected)
                (window n src.in_buffers base' k));
    }
