-- ===== src/DataTransfer/Steps.antt =====
-- arataga/acl_handler/handlers/data_transfer.cpp: how the methods of the handler keep the two
-- flows of bytes.
use arataga.Prelude.{ℕ, ◌≡◌, ◌≢◌, ◌⊎◌, inl, inr, sym, true, false, arith, subst}
use arataga.Limiter.{ReservedCapacity}
use arataga.DataTransfer.{
  DirectionState, DataTransferHandler, TrafficLimiterOps, start_read, start_write_source,
  start_write_target, increment_read_index, increment_write_index,
  initiate_async_read_for_direction, initiate_async_write_for_direction,
}
use arataga.DataTransfer.Stream.{Flow, start_read-Flow, start_write-Flow}

-- The bytes flow in order in both directions.
abbrev pub Flows : ℕ → DirectionState → DirectionState → Type 0
Flows chunk src dest =
    ((base : ℕ) × (count : ℕ) × Flow chunk src dest base count)
    × ((base : ℕ) × (count : ℕ) × Flow chunk dest src base count)

abbrev pub Ordered : {L : Type 0} → DataTransferHandler L → Type 0
Ordered h = Flows h.io_chunk_size h.src_dir h.dest_dir

module _ {L : Type 0} (ops : TrafficLimiterOps L) where
  abbrev reserved : DataTransferHandler L → ReservedCapacity × L
  reserved h =
      ops.reserve_read_portion h.src_dir.traffic_direction h.io_chunk_size h.traffic_limiter

  -- What `initiate_async_read_for_direction` can do.
  abbrev ReadOutcome : DataTransferHandler L → DataTransferHandler L → Type 0
  ReadOutcome h h' =
      (h' ≡ h)
      ⊎ (h' ≡ record h {
        traffic_limiter = (reserved h).1;
        src_dir = record (h.src_dir) { is_traffic_limit_exceeded = true };
      })
      ⊎ ((h' ≡ record h {
        traffic_limiter = (reserved h).1;
        src_dir = start_read ((reserved h).0) h.src_dir;
      })
          × (h.src_dir.is_alive ≡ true)
          × (h.src_dir.active_read ≡ false)
          × (h.src_dir.available_for_read_buffers ≢ 0))

  initiate_read-ReadOutcome :
      (h : DataTransferHandler L) → ReadOutcome h (initiate_async_read_for_direction ops h)
  unfolding initiate_async_read_for_direction
  initiate_read-ReadOutcome h = ground arith

  pub initiate_read-Ordered :
      (h : DataTransferHandler L) → Ordered h → Ordered (initiate_async_read_for_direction ops h)
  unfolding start_read increment_read_index
  initiate_read-Ordered h o = elim (initiate_read-ReadOutcome h) [
    | inl e ↦ subst Ordered (sym e) o
    | inr (inl e) ↦ subst Ordered (sym e) o
    | inr (inr (e, alive, idle, free)) ↦
        let ((b, c, f), back) = o in
        let fits = ops.reserve_fits h.src_dir.traffic_direction h.io_chunk_size h.traffic_limiter in
        let f' = start_read-Flow h.src_dir h.dest_dir ((reserved h).0) f alive idle free fits in
        subst Ordered (sym e) ((b, c, f'), back)
  ]

-- What `initiate_async_write_for_direction` can do.
abbrev WriteOutcome : {L : Type 0} → DataTransferHandler L → DataTransferHandler L → Type 0
WriteOutcome h h' =
    (h' ≡ h)
    ⊎ ((h' ≡ record h {
      src_dir = start_write_source h.src_dir;
      dest_dir = start_write_target h.src_dir.write_index h.dest_dir;
    })
        × (h.dest_dir.active_write ≡ false)
        × (h.src_dir.available_for_write_buffers ≢ 0))

initiate_write-WriteOutcome :
    {L : Type 0} (h : DataTransferHandler L) → WriteOutcome h (initiate_async_write_for_direction h)
unfolding initiate_async_write_for_direction
initiate_write-WriteOutcome h = ground arith

pub initiate_write-Ordered :
    {L : Type 0} (h : DataTransferHandler L)
    → Ordered h
    → Ordered (initiate_async_write_for_direction h)
unfolding start_write_source start_write_target increment_write_index
initiate_write-Ordered h o = elim (initiate_write-WriteOutcome h) [
  | inl e ↦ subst Ordered (sym e) o
  | inr (e, idle, filled) ↦
      let ((b, c, f), back) = o in
      subst Ordered (sym e) ((b, c, start_write-Flow h.src_dir h.dest_dir f idle filled), back)
]
