-- ===== src/DataTransfer/EndOfFile.antt =====
-- arataga/acl_handler/handlers/data_transfer.cpp: what an end of file of a source does to the bytes
-- that have been read from it.
use arataga.Prelude.{
  ℕ, suc, ◌+◌, ◌%◌, ◌<◌, ◌≡◌, ◌≢◌, sym, ap, ◌∙◌, ◌⊎◌, inl, inr, Bool, true, false, Option, none,
  some, List, [], ◌++◌, arith, length, append_assoc, ◌==◌, Bool-cases,
}
use arataga.Prelude.Eq.{Bytes}
use arataga.Limiter.{ReservedCapacity}
use arataga.DataTransfer.{
  DirectionState, DataTransferHandler, TrafficLimiterOps, IoBuffer, eof, remove_handler,
  initiate_async_write_for_direction, continue_after_read, handle_read_error_code, on_read_result,
  read_completed, normal_completion, read_failure, make_data_transfer_handler, start_write_source,
  start_write_target,
}
use arataga.DataTransfer.Ring.{content_at, window}
use arataga.DataTransfer.Stream.{WritePart, Flow}
use arataga.DataTransfer.Start.{make-Ordered}
use arataga.DataTransfer.Order.{Reach-Safe}
use arataga.DataTransfer.Runs.{Reach}

-- The bytes of the write in progress, if there is one.
abbrev pub in_write : List IoBuffer → Option ℕ → Bytes
in_write bufs none = []
in_write bufs (some selected) = content_at bufs selected

-- The bytes of the buffers that wait to be written.
abbrev pub waiting : DirectionState → Bytes
waiting src =
    window (length src.in_buffers) src.in_buffers src.write_index src.available_for_write_buffers

window_parts :
    (w : Option ℕ) (active : Bool) (n write_index available base count : ℕ) (bufs : List IoBuffer)
    → WritePart w active n write_index available base count
    → window n bufs base count ≡ in_write bufs w ++ window n bufs write_index available
unfolding window
window_parts none active n write_index available base count bufs (_, e, f) =
    ap (λ i. window n bufs i count) (sym e) ∙ ap (λ k. window n bufs write_index k) (sym f)
window_parts (some selected) active n write_index available base count bufs (_, e, f, g) =
    let more : count ≡ suc available = omega arith in
    ap (λ k. window n bufs base k) more
    ∙ ap (λ i. content_at bufs i ++ window n bufs ((base + 1) % n) available) (sym e)
    ∙ ap (λ i. content_at bufs selected ++ window n bufs i available) (sym f)

-- What was received is sent, in the write in progress, or waiting.
parts :
    {chunk base count : ℕ} (src dest : DirectionState)
    → Flow chunk src dest base count
    → src.channel.received
      ≡ (dest.channel.sent ++ in_write src.in_buffers dest.channel.writing) ++ waiting src
parts {chunk} {base} {count} src dest f =
    f.stream
    ∙ ap (λ x. dest.channel.sent ++ x)
        (window_parts dest.channel.writing dest.active_write (length src.in_buffers) src.write_index
          src.available_for_write_buffers base count src.in_buffers f.write_part)
    ∙ sym (
        append_assoc dest.channel.sent (in_write src.in_buffers dest.channel.writing) (waiting src))

module _ {L : Type 0} (ops : TrafficLimiterOps L) where
  -- The handler when the source's end of file is seen.
  abbrev pub at_end_of_file :
      ℕ → ReservedCapacity → ℕ → DataTransferHandler L → DataTransferHandler L
  at_end_of_file read_buffer rc now h = read_completed ops read_buffer rc eof 0 now (record h {
    src_dir = record (h.src_dir) { channel = record (h.src_dir.channel) { reading = none } };
  })

  end_of_file_cases :
      (read_buffer now : ℕ) (rc : ReservedCapacity) (h : DataTransferHandler L)
      → h.removed ≡ none
      → let after = at_end_of_file read_buffer rc now h in
        (after.dest_dir.channel.sent ≡ h.dest_dir.channel.sent)
        × (((after.removed ≡ some normal_completion)
              × ((h.src_dir.available_for_write_buffers ≡ 0) ⊎ (h.dest_dir.is_alive ≡ false)))
            ⊎ ((after.removed ≡ none)
                × (after.src_dir.is_alive ≡ false)
                × (h.src_dir.available_for_write_buffers ≢ 0)
                × (h.dest_dir.is_alive ≡ true)))
  unfolding read_completed on_read_result handle_read_error_code read_failure continue_after_read
      remove_handler initiate_async_write_for_direction start_write_source start_write_target
  end_of_file_cases read_buffer now rc h active = elim (Bool-cases h.dest_dir.is_alive) [
    | inr dead ↦ ground arith
    | inl alive ↦ elim (Bool-cases (h.src_dir.available_for_write_buffers == 0)) [
      | inl e ↦ ground arith
      | inr e ↦ elim (Bool-cases h.dest_dir.active_write) [
        | inl w ↦ ground arith
        | inr w ↦ ground arith
      ]
    ]
  ]

  -- In any history of a transfer that has at least one buffer, when the end of file of the user's end
  -- is seen while the handler is not removed: the bytes received from the user are those whose
  -- sending to the target has finished, then those of the write in progress, if there is one, and
  -- then those of the waiting buffers. The handler is removed, as after a normal completion, with
  -- that write unfinished, when no buffer waits or the target's end is dead. Only if a buffer waits
  -- and the target's end is alive it stays, with its source dead.
  pub end_of_file_parts :
      (first_chunk : IoBuffer) (chunk count : ℕ) (limiter : L) (start read_buffer now : ℕ)
      (rc : ReservedCapacity) {h : DataTransferHandler L}
      → 0 < count
      → Reach ops (make_data_transfer_handler first_chunk chunk count limiter start) h
      → h.removed ≡ none
      → let after = at_end_of_file read_buffer rc now h in
        (h.src_dir.channel.received
          ≡ (after.dest_dir.channel.sent
              ++ in_write h.src_dir.in_buffers h.dest_dir.channel.writing)
            ++ waiting h.src_dir)
        × (((after.removed ≡ some normal_completion)
              × ((h.src_dir.available_for_write_buffers ≡ 0) ⊎ (h.dest_dir.is_alive ≡ false)))
            ⊎ ((after.removed ≡ none)
                × (after.src_dir.is_alive ≡ false)
                × (h.src_dir.available_for_write_buffers ≢ 0)
                × (h.dest_dir.is_alive ≡ true)))
  end_of_file_parts first_chunk chunk count limiter start read_buffer now rc {h} pos r active =
      let ((b, c, f), _) =
        (Reach-Safe ops (make-Ordered first_chunk chunk count limiter start pos) r).1 active in
      let (same, cases) = end_of_file_cases read_buffer now rc h active in
      (
        parts h.src_dir h.dest_dir f
            ∙ ap
                (λ x.
                  (x ++ in_write h.src_dir.in_buffers h.dest_dir.channel.writing)
                  ++ waiting h.src_dir)
                (sym same),
        cases,
      )
