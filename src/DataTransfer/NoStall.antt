-- ===== src/DataTransfer/NoStall.antt =====
-- arataga/acl_handler/handlers/data_transfer.cpp: at every moment what can go on goes on.
use arataga.Prelude.{
  ℕ, ◌≡◌, ◌⊎◌, inl, inr, refl, Bool, true, false, Option, none, some, arith, length, ◌<◌,
}
use arataga.DataTransfer.{
  DirectionState, DataTransferHandler, TrafficLimiterOps, IoBuffer, make_direction_state,
  make_data_transfer_handler,
}
use arataga.Limiter.{ReservedCapacity}
use arataga.DataTransfer.Stream.{Flow, WritePart, ReadPart}
use arataga.DataTransfer.Start.{make-Ordered}
use arataga.DataTransfer.Order.{Reach-Safe}
use arataga.DataTransfer.Runs.{Reach}
use arataga.DataTransfer.Progress.{WriteGoing, ReadGoing, Reach-Live}

-- A write is in progress, or there is nothing to write, or nobody to write to.
abbrev pub IsWriting : DirectionState → DirectionState → Type 0
IsWriting src dest =
    (src.available_for_write_buffers ≡ 0)
    ⊎ ((selected : ℕ) × (dest.channel.writing ≡ some selected))
    ⊎ (dest.is_alive ≡ false)

-- A read is in progress, or there is no free buffer, or no source, or the quote is used up.
abbrev pub IsReading : DirectionState → Type 0
IsReading src =
    (src.available_for_read_buffers ≡ 0)
    ⊎ ((op : ℕ × ReservedCapacity) × (src.channel.reading ≡ some op))
    ⊎ (src.is_alive ≡ false)
    ⊎ (src.is_traffic_limit_exceeded ≡ true)

WritePart-active :
    (w : Option ℕ) (active : Bool) (n i available base count : ℕ)
    → WritePart w active n i available base count
    → active ≡ true
    → (selected : ℕ) × (w ≡ some selected)
WritePart-active none active n i available base count h e = absurd (ground arith)
WritePart-active (some x) active n i available base count h e = (x, refl)

ReadPart-active :
    (r : Option (ℕ × ReservedCapacity)) (active alive : Bool) (n chunk base count : ℕ)
    → ReadPart r active alive n chunk base count
    → active ≡ true
    → (op : ℕ × ReservedCapacity) × (r ≡ some op)
ReadPart-active none active alive n chunk base count h e = absurd (ground arith)
ReadPart-active (some x) active alive n chunk base count h e = (x, refl)

Flow-IsWriting :
    (chunk : ℕ) (src dest : DirectionState) (base count : ℕ)
    → Flow chunk src dest base count
    → WriteGoing src dest
    → IsWriting src dest
Flow-IsWriting chunk src dest base count f (inl e) = inl e
Flow-IsWriting chunk src dest base count f (inr (inl e)) = inr (
    inl (
      WritePart-active dest.channel.writing dest.active_write (length src.in_buffers)
        src.write_index src.available_for_write_buffers base count f.write_part e))
Flow-IsWriting chunk src dest base count f (inr (inr e)) = inr (inr e)

Flow-IsReading :
    (chunk : ℕ) (src dest : DirectionState) (base count : ℕ)
    → Flow chunk src dest base count
    → ReadGoing src
    → IsReading src
Flow-IsReading chunk src dest base count f (inl e) = inl e
Flow-IsReading chunk src dest base count f (inr (inl e)) = inr (
    inl (
      ReadPart-active src.channel.reading src.active_read src.is_alive (length src.in_buffers) chunk
        base count f.read_part e))
Flow-IsReading chunk src dest base count f (inr (inr e)) = inr (inr e)

-- At every moment of a transfer with at least one buffer that is not removed, in both directions:
-- if a buffer holds bytes to be sent and the destination is alive, a write to its socket is in
-- progress; if a buffer is free and the source is alive, a read from its socket is in progress, or
-- the source is marked as having used up its quote, which makes the timer ask the limiter again.
pub no_stall :
    {L : Type 0} (ops : TrafficLimiterOps L) (first_chunk : IoBuffer) (chunk count : ℕ)
    (limiter : L) (now : ℕ) {h : DataTransferHandler L}
    → 0 < count
    → Reach ops (make_data_transfer_handler first_chunk chunk count limiter now) h
    → h.removed ≡ none
    → IsWriting h.src_dir h.dest_dir
      × IsReading h.src_dir
      × IsWriting h.dest_dir h.src_dir
      × IsReading h.dest_dir
unfolding make_data_transfer_handler make_direction_state
no_stall ops first_chunk chunk count limiter now {h} pos r active =
    let ((b, c, f), (b', c', f')) =
      (Reach-Safe ops (make-Ordered first_chunk chunk count limiter now pos) r).1 active in
    let (w, rd, (w', rd')) = Reach-Live ops refl r active in
    (
      Flow-IsWriting h.io_chunk_size h.src_dir h.dest_dir b c f w,
      Flow-IsReading h.io_chunk_size h.src_dir h.dest_dir b c f rd,
      Flow-IsWriting h.io_chunk_size h.dest_dir h.src_dir b' c' f' w',
      Flow-IsReading h.io_chunk_size h.dest_dir h.src_dir b' c' f' rd',
    )
