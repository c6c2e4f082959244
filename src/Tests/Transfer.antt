-- ===== src/Tests/Transfer.antt =====
-- A data transfer at concrete inputs, under a limiter that grants every read.
use arataga.Prelude.{ℕ, ◌≡◌, ◌≢◌, ◌⊎◌, refl, true, false, none, some, [], ◌∷◌, ◌++◌, arith}
use native.Mathlib.Nat.{le_refl}
use arataga.Limiter.{ReservedCapacity}
use arataga.DataTransfer.{
  TrafficLimiterOps, DataTransferHandler, IoBuffer, normal_completion, make_data_transfer_handler,
  on_start, on_write_result, read_completed, success,
}
use arataga.DataTransfer.Stream.{send}
use arataga.DataTransfer.NoStall.{IsWriting, IsReading, no_stall}
use arataga.DataTransfer.Methods.{IsPrefix}
use arataga.DataTransfer.Order.{transfer_in_order}
use arataga.DataTransfer.Runs.{Reach, started, next, from_user_to_target, write_ends}
use arataga.DataTransfer.EndOfFile.{at_end_of_file, in_write, waiting, end_of_file_parts}

abbrev unlimited : TrafficLimiterOps ℕ
unlimited = record {
  reserve_read_portion = λ d n l. (record { capacity = n; sequence_number = 0 }, l);
  release = λ d ec rc n l. l;
  reserve_fits = λ d n l. le_refl n;
}

abbrev first_chunk : IoBuffer
first_chunk = record { data_read = b'h' ∷ b'i' ∷ 0 ∷ 0 ∷ []; data_size = 2 }

abbrev opened : DataTransferHandler ℕ
opened = make_data_transfer_handler first_chunk 4 2 0 10

abbrev begun : DataTransferHandler ℕ
begun = on_start unlimited opened

abbrev written : DataTransferHandler ℕ
written =
    on_write_result unlimited 0 success 2
      (record begun { dest_dir = send (b'h' ∷ b'i' ∷ []) begun.dest_dir })

writes : Reach unlimited opened written
unfolding make_data_transfer_handler on_start
writes = next started refl (from_user_to_target (write_ends 0 refl))

transfer_in_order_example :
    IsPrefix written.dest_dir.channel.sent written.src_dir.channel.received
    × IsPrefix written.src_dir.channel.sent written.dest_dir.channel.received
transfer_in_order_example = transfer_in_order unlimited first_chunk 4 2 0 10 (omega arith) writes

no_stall_example :
    IsWriting written.src_dir written.dest_dir
    × IsReading written.src_dir
    × IsWriting written.dest_dir written.src_dir
    × IsReading written.dest_dir
unfolding make_data_transfer_handler on_start on_write_result send
no_stall_example = no_stall unlimited first_chunk 4 2 0 10 (omega arith) writes refl

abbrev granted : ReservedCapacity
granted = record { capacity = 4; sequence_number = 0 }

-- The end of file comes while the first chunk is being written and nothing else waits.
end_of_file_parts_example :
    let after = at_end_of_file unlimited 1 granted 20 begun in
    (begun.src_dir.channel.received
      ≡ (after.dest_dir.channel.sent
          ++ in_write begun.src_dir.in_buffers begun.dest_dir.channel.writing)
        ++ waiting begun.src_dir)
    × (((after.removed ≡ some normal_completion)
          × ((begun.src_dir.available_for_write_buffers ≡ 0) ⊎ (begun.dest_dir.is_alive ≡ false)))
        ⊎ ((after.removed ≡ none)
            × (after.src_dir.is_alive ≡ false)
            × (begun.src_dir.available_for_write_buffers ≢ 0)
            × (begun.dest_dir.is_alive ≡ true)))
unfolding make_data_transfer_handler on_start
end_of_file_parts_example =
    end_of_file_parts unlimited first_chunk 4 2 0 10 1 20 granted (omega arith) started refl

-- The write of the two bytes is in progress when the handler is removed.
two_bytes_unfinished :
    let after = at_end_of_file unlimited 1 granted 20 begun in
    (after.removed ≡ some normal_completion)
    × (after.dest_dir.channel.sent ≡ [])
    × (begun.src_dir.channel.received ≡ b'h' ∷ b'i' ∷ [])
unfolding make_data_transfer_handler on_start read_completed
two_bytes_unfinished = (refl, refl, refl)

both_delivered : written.dest_dir.channel.sent ≡ b'h' ∷ b'i' ∷ []
unfolding make_data_transfer_handler on_start on_write_result send
both_delivered = refl
