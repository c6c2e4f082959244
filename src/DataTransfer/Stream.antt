-- ===== src/DataTransfer/Stream.antt =====
-- arataga/acl_handler/handlers/data_transfer.cpp: the bytes on their way from one socket to the
-- other, and the steps that keep them in order.
use arataga.Prelude.{
  ℕ, ◌+◌, ◌%◌, ◌≤◌, ◌<◌, ◌≡◌, ◌≢◌, refl, ap, ◌∙◌, Bool, true, false, Option, none, some, List, ◌++◌,
  arith, subst, length, get_or, set, drop, if◌then◌else◌,
}
use arataga.Prelude.Eq.{Bytes}
use arataga.Limiter.{ReservedCapacity}
use native.Mathlib.Nat.{mod-add-mod}
use arataga.DataTransfer.{
  IoBuffer, empty_buffer, DirectionState, start_read, start_write_source, start_write_target,
  increment_read_index, increment_write_index,
}
use arataga.DataTransfer.Ring.{window}

-- The buffers that a read uses: one if a read is in progress, and one for ever once the source
-- is dead, whose read failed.
abbrev pub busy : Bool → Bool → ℕ
busy alive active = if alive then (if active then 1 else 0) else 1

-- The write in progress, and the buffers with data: `base` is the first, `count` their number.
abbrev pub WritePart : Option ℕ → Bool → ℕ → ℕ → ℕ → ℕ → ℕ → Type 0
WritePart none active n write_index available base count =
    (active ≡ false) × (write_index ≡ base) × (available ≡ count)
WritePart (some selected) active n write_index available base count =
    (active ≡ true) × (selected ≡ base) × (write_index ≡ (base + 1) % n) × (available + 1 ≡ count)

-- The read in progress.
abbrev pub ReadPart : Option (ℕ × ReservedCapacity) → Bool → Bool → ℕ → ℕ → ℕ → ℕ → Type 0
ReadPart none active alive n chunk base count = active ≡ false
ReadPart (some (selected, rc)) active alive n chunk base count =
    (active ≡ true) × (alive ≡ true) × (selected ≡ (base + count) % n) × (rc.capacity ≤ chunk)

-- What the flow of bytes from the socket of `src` to the socket of `dest` depends on.
pub record Link : Type 0 where
  pub reading : Option (ℕ × ReservedCapacity)
  pub writing : Option ℕ
  pub received : Bytes
  pub sent : Bytes
  pub in_buffers : List IoBuffer
  pub read_index : ℕ
  pub available_for_read_buffers : ℕ
  pub write_index : ℕ
  pub available_for_write_buffers : ℕ
  pub is_alive : Bool
  pub active_read : Bool
  pub active_write : Bool

abbrev pub link : DirectionState → DirectionState → Link
link src dest = record {
  reading = src.channel.reading;
  writing = dest.channel.writing;
  received = src.channel.received;
  sent = dest.channel.sent;
  in_buffers = src.in_buffers;
  read_index = src.read_index;
  available_for_read_buffers = src.available_for_read_buffers;
  write_index = src.write_index;
  available_for_write_buffers = src.available_for_write_buffers;
  is_alive = src.is_alive;
  active_read = src.active_read;
  active_write = dest.active_write;
}

-- The state of a link.
pub record LinkFlow (chunk : ℕ) (l : Link) (base count : ℕ) : Type 0 where
  pub in_ring : base < length l.in_buffers
  pub buffers :
      count + l.available_for_read_buffers + busy l.is_alive l.active_read ≡ length l.in_buffers
  pub next_read :
      l.read_index ≡ (base + (count + busy l.is_alive l.active_read)) % length l.in_buffers
  pub write_part :
      WritePart l.writing l.active_write
        (length l.in_buffers)
        l.write_index
        l.available_for_write_buffers
        base
        count
  pub read_part : ReadPart l.reading l.active_read l.is_alive (length l.in_buffers) chunk base count
  pub stream : l.received ≡ l.sent ++ window (length l.in_buffers) l.in_buffers base count

abbrev pub Flow : ℕ → DirectionState → DirectionState → ℕ → ℕ → Type 0
Flow chunk src dest base count = LinkFlow chunk (link src dest) base count

next_index : (n a r : ℕ) → r ≡ a % n → (r + 1) % n ≡ (a + 1) % n
next_index n a r e = ap (λ x. (x + 1) % n) e ∙ mod-add-mod a n 1

busy_idle :
    (src : DirectionState)
    → src.is_alive ≡ true
    → src.active_read ≡ false
    → busy src.is_alive src.active_read ≡ 0
busy_idle src alive idle = ground arith

-- A started read takes the next free buffer.
pub start_read-Flow :
    {chunk : ℕ} (src dest : DirectionState) {base count : ℕ} (rc : ReservedCapacity)
    → Flow chunk src dest base count
    → src.is_alive ≡ true
    → src.active_read ≡ false
    → src.available_for_read_buffers ≢ 0
    → rc.capacity ≤ chunk
    → Flow chunk (start_read rc src) dest base count
unfolding start_read increment_read_index
start_read-Flow src dest {base} {count} rc f alive idle free small =
    let n = length src.in_buffers in
    let no = busy_idle src alive idle in
    let r =
      f.next_read
      ∙ ap (λ x. x % n) {x = base + (count + busy src.is_alive src.active_read)} {y = base + count}
          (omega (arith, no)) in
    record {
      in_ring = f.in_ring;
      buffers = ground arith;
      next_read =
          next_index n (base + count) src.read_index r
          ∙ ap (λ x. x % n) {x = base + count + 1} (ground arith);
      write_part = f.write_part;
      read_part = (refl, alive, r, small);
      stream = f.stream;
    }

WritePart-idle :
    (w : Option ℕ) (n i available base count : ℕ)
    → WritePart w false n i available base count
    → (i ≡ base) × (available ≡ count)
WritePart-idle none n i available base count h = (h.1, h.2)
WritePart-idle (some x) n i available base count h = absurd (ground arith)

-- A started write takes the first buffer with data; the bytes stay in the window until the
-- write is complete.
pub start_write-Flow :
    {chunk : ℕ} (src dest : DirectionState) {base count : ℕ}
    → Flow chunk src dest base count
    → dest.active_write ≡ false
    → src.available_for_write_buffers ≢ 0
    → Flow chunk (start_write_source src) (start_write_target src.write_index dest) base count
unfolding start_write_source start_write_target increment_write_index
start_write-Flow {chunk} src dest {base} {count} f idle filled =
    let n = length src.in_buffers in
    let w =
      WritePart-idle dest.channel.writing n src.write_index src.available_for_write_buffers base
        count (rw idle at f.write_part) in
    record {
      in_ring = f.in_ring;
      buffers = f.buffers;
      next_read = f.next_read;
      write_part = (refl, w.0, ap (λ x. (x + 1) % n) (w.0), omega (arith, w, filled));
      read_part = f.read_part;
      stream = f.stream;
    }

-- What the sockets do: a read puts the bytes into its buffer and ends; a write ends when bytes of
-- its buffer are sent.
unfoldable pub receive : ℕ → Bytes → DirectionState → DirectionState
receive selected bytes d =
    let b = get_or d.in_buffers selected (empty_buffer 0) in
    record d {
      channel = record (d.channel) { reading = none; received = d.channel.received ++ bytes };
      in_buffers =
          set d.in_buffers selected
            (record b { data_read = bytes ++ drop (length bytes) b.data_read });
    }

unfoldable pub send : Bytes → DirectionState → DirectionState
send bytes d = record d {
  channel = record (d.channel) { writing = none; sent = d.channel.sent ++ bytes };
}

-- A read that fails leaves its buffer unused for ever.
pub failed_read-Flow :
    {chunk : ℕ} (src dest : DirectionState) {base count : ℕ}
    → Flow chunk src dest base count
    → src.is_alive ≡ true
    → src.active_read ≡ true
    → Flow chunk
        (record src {
          channel = record (src.channel) { reading = none };
          active_read = false;
          is_alive = false;
        })
        dest
        base
        count
failed_read-Flow {chunk} src dest {base} {count} f alive active =
    let one : busy src.is_alive src.active_read ≡ 1 = ground arith in
    record {
      in_ring = f.in_ring;
      buffers = omega (arith, f.buffers, one);
      next_read =
          subst (λ b. src.read_index ≡ (base + (count + b)) % length src.in_buffers) one
            f.next_read;
      write_part = f.write_part;
      read_part = refl;
      stream = f.stream;
    }

pub busy_reading :
    (src : DirectionState)
    → src.is_alive ≡ true
    → src.active_read ≡ true
    → busy src.is_alive src.active_read ≡ 1
busy_reading src alive active = ground arith
