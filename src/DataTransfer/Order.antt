-- ===== src/DataTransfer/Order.antt =====
-- arataga/acl_handler/handlers/data_transfer.cpp: whatever the sockets do, the bytes arrive in
-- order.
use arataga.Prelude.{
  ℕ, suc, ◌+◌, ◌<◌, ◌≡◌, sym, ap, ◌∙◌, true, false, not, none, some, ◌++◌, arith, subst, length,
  take, drop, get_or, take-drop_append, if◌then◌else◌, ◌==◌, append_assoc,
}
use arataga.Prelude.Eq.{Bytes}
use arataga.Limiter.{ReservedCapacity}
use arataga.DataTransfer.{
  DirectionState, DataTransferHandler, TrafficLimiterOps, swap, ErrorCode, success, eof,
  operation_aborted, other_error, is_error, remove_handler, continue_after_write,
  handle_read_error_code, on_read_result, on_write_result, read_completed, on_start, io_error,
  make_data_transfer_handler, IoBuffer, empty_buffer, take_read_data, read_failure,
  work_should_be_continued,
}
use arataga.DataTransfer.Ring.{content_at}
use arataga.DataTransfer.Stream.{ReadPart, receive, send, failed_read-Flow}
use arataga.DataTransfer.Completion.{after_read, read-Flow, write-Flow}
use arataga.DataTransfer.Steps.{Ordered}
use arataga.DataTransfer.Methods.{
  IsPrefix, Safe, Ordered-Delivered, Ordered-Safe, remove-Safe, Bool_ind, continue_after_read-Safe,
  continue_after_write-Safe, on_timer-Safe, on_start-Ordered,
}
use arataga.DataTransfer.Start.{make-Ordered}
use arataga.DataTransfer.Runs.{
  Completion, read_ends, read_fails, write_ends, write_fails, Step, from_user_to_target,
  from_target_to_user, timer, limiter_changes, stopped, Reach, started, next,
}

reading_part :
    (src : DirectionState) (chunk b c selected : ℕ) (rc : ReservedCapacity)
    → src.channel.reading ≡ some (selected, rc)
    → ReadPart src.channel.reading src.active_read src.is_alive (length src.in_buffers) chunk b c
    → ReadPart (some (selected, rc)) src.active_read src.is_alive (length src.in_buffers) chunk b c
reading_part src chunk b c selected rc e h =
    subst (λ r. ReadPart r src.active_read src.is_alive (length src.in_buffers) chunk b c) e h

-- A part of the bytes that continue a beginning continues it.
cut :
    (count : ℕ) (sent bytes : Bytes) {received : Bytes}
    → IsPrefix (sent ++ bytes) received
    → IsPrefix (sent ++ take count bytes) received
cut count sent bytes (rest, e) = (
  drop count bytes ++ rest,
  e
      ∙ ap (λ x. (sent ++ x) ++ rest) (sym (take-drop_append count bytes))
      ∙ ap (λ x. x ++ rest) (sym (append_assoc sent (take count bytes) (drop count bytes)))
      ∙ append_assoc (sent ++ take count bytes) (drop count bytes) rest,
)

module _ {L : Type 0} (ops : TrafficLimiterOps L) where
  read_ends-Safe :
      (now selected : ℕ) (rc : ReservedCapacity) (bytes : Bytes) (h : DataTransferHandler L)
      → h.src_dir.channel.reading ≡ some (selected, rc)
      → Ordered h
      → Safe (
          read_completed ops selected rc success
            (length bytes)
            now
            (record h { src_dir = receive selected bytes h.src_dir }))
  unfolding read_completed on_read_result handle_read_error_code take_read_data receive
  read_ends-Safe now selected rc bytes h e ((b, c, f), back) =
      let (active, alive, place, _) =
        reading_part h.src_dir h.io_chunk_size b c selected rc e f.read_part in
      continue_after_read-Safe ops (work_should_be_continued true true)
        (record h {
          src_dir = after_read selected bytes h.src_dir;
          traffic_limiter =
              ops.release h.src_dir.traffic_direction false rc (length bytes) h.traffic_limiter;
          last_read_at = now;
        })
        ((b, suc c, read-Flow h.src_dir h.dest_dir selected bytes f alive active place), back)

  -- The handler after a read that failed.
  abbrev pub dead : ReservedCapacity → DataTransferHandler L → DataTransferHandler L
  dead rc h = record h {
    src_dir = record (h.src_dir) {
      channel = record (h.src_dir.channel) { reading = none };
      active_read = false;
      is_alive = false;
    };
    traffic_limiter = ops.release h.src_dir.traffic_direction true rc 0 h.traffic_limiter;
  }

  dead-Ordered :
      (selected : ℕ) (rc : ReservedCapacity) (h : DataTransferHandler L)
      → h.src_dir.channel.reading ≡ some (selected, rc)
      → Ordered h
      → Ordered (dead rc h)
  dead-Ordered selected rc h e ((b, c, f), back) =
      let (active, alive, _, _) =
        reading_part h.src_dir h.io_chunk_size b c selected rc e f.read_part in
      ((b, c, failed_read-Flow h.src_dir h.dest_dir f alive active), back)

  read_fails-Safe :
      (now selected : ℕ) (rc : ReservedCapacity) (ec : ErrorCode) (h : DataTransferHandler L)
      → h.src_dir.channel.reading ≡ some (selected, rc)
      → is_error ec ≡ true
      → Ordered h
      → Safe (
          read_completed ops selected rc ec 0 now (record h {
            src_dir = record (h.src_dir) {
              channel = record (h.src_dir.channel) { reading = none };
            };
          }))
  unfolding read_completed on_read_result handle_read_error_code
  read_fails-Safe now selected rc success h e bad o = absurd (ground arith)
  read_fails-Safe now selected rc eof h e bad o =
      let h' = record h {
        src_dir = record (h.src_dir) {
          channel = record (h.src_dir.channel) { reading = none };
          active_read = false;
        };
        traffic_limiter = ops.release h.src_dir.traffic_direction true rc 0 h.traffic_limiter;
      } in
      continue_after_read-Safe ops (read_failure eof h') (dead rc h)
        (dead-Ordered selected rc h e o)
  read_fails-Safe now selected rc operation_aborted h e bad o =
      let h' = record h {
        src_dir = record (h.src_dir) {
          channel = record (h.src_dir.channel) { reading = none };
          active_read = false;
        };
        traffic_limiter = ops.release h.src_dir.traffic_direction true rc 0 h.traffic_limiter;
      } in
      continue_after_read-Safe ops (read_failure operation_aborted h') (dead rc h)
        (dead-Ordered selected rc h e o)
  read_fails-Safe now selected rc other_error h e bad o =
      let h' = record h {
        src_dir = record (h.src_dir) {
          channel = record (h.src_dir.channel) { reading = none };
          active_read = false;
        };
        traffic_limiter = ops.release h.src_dir.traffic_direction true rc 0 h.traffic_limiter;
      } in
      continue_after_read-Safe ops (read_failure other_error h') (dead rc h)
        (dead-Ordered selected rc h e o)

  write_ends-Safe :
      (selected : ℕ) (h : DataTransferHandler L)
      → h.dest_dir.channel.writing ≡ some selected
      → Ordered h
      → Safe (
          on_write_result ops selected success
            (length (content_at h.src_dir.in_buffers selected))
            (record h { dest_dir = send (content_at h.src_dir.in_buffers selected) h.dest_dir }))
  unfolding on_write_result send
  write_ends-Safe selected h e ((b, c, f), back) =
      let bytes = content_at h.src_dir.in_buffers selected in
      let dest = record (send bytes h.dest_dir) { active_write = false } in
      let written = record h {
        src_dir = record (h.src_dir) {
          available_for_read_buffers = h.src_dir.available_for_read_buffers + 1;
        };
        dest_dir = dest;
      } in
      let o : Ordered written = ((_, _, write-Flow h.src_dir h.dest_dir selected f e), back) in
      Bool_ind
        (λ t. Safe (
          if not t
          then remove_handler io_error (record h { dest_dir = dest })
          else continue_after_write ops written))
        ((get_or h.src_dir.in_buffers selected (empty_buffer 0)).data_size == length bytes)
        (continue_after_write-Safe ops written o)
        (remove-Safe io_error (record h { dest_dir = dest }) (Ordered-Delivered written o))

  write_fails-Safe :
      (selected count : ℕ) (ec : ErrorCode) (h : DataTransferHandler L)
      → h.dest_dir.channel.writing ≡ some selected
      → is_error ec ≡ true
      → Ordered h
      → Safe (
          on_write_result ops selected ec count (record h {
            dest_dir = send (take count (content_at h.src_dir.in_buffers selected)) h.dest_dir;
          }))
  unfolding on_write_result send
  write_fails-Safe selected count ec h e bad ((b, c, f), back) =
      let bytes = content_at h.src_dir.in_buffers selected in
      let after = write-Flow h.src_dir h.dest_dir selected f e in
      let failed = record h {
        dest_dir = record (send (take count bytes) h.dest_dir) { active_write = false };
      } in
      let whole : IsPrefix (h.dest_dir.channel.sent ++ bytes) h.src_dir.channel.received =
        (_, after.stream) in
      rw bad (
        remove-Safe io_error failed (
          cut count h.dest_dir.channel.sent bytes whole,
          (Ordered-Delivered h ((b, c, f), back)).1,
        ))

  Completion-Safe : {h h' : DataTransferHandler L} → Completion ops h h' → Ordered h → Safe h'
  Completion-Safe {h} (read_ends now selected rc bytes e fits) o =
      read_ends-Safe now selected rc bytes h e o
  Completion-Safe {h} (read_fails now selected rc ec e bad) o =
      read_fails-Safe now selected rc ec h e bad o
  Completion-Safe {h} (write_ends selected e) o = write_ends-Safe selected h e o
  Completion-Safe {h} (write_fails selected count ec e bad) o =
      write_fails-Safe selected count ec h e bad o

  swap-Safe : (h : DataTransferHandler L) → Safe h → Safe (swap h)
  swap-Safe h s = (((s.0).1, (s.0).0), λ e. let o = s.1 e in (o.1, o.0))

  Step-Safe : {h h' : DataTransferHandler L} → Step ops h h' → Ordered h → Safe h'
  Step-Safe (from_user_to_target c) o = Completion-Safe c o
  Step-Safe (from_target_to_user {h'} c) o = swap-Safe h' (Completion-Safe c (o.1, o.0))
  Step-Safe {h} (timer timeout now) o = on_timer-Safe ops timeout now h o
  Step-Safe {h} (limiter_changes l) o = Ordered-Safe (record h { traffic_limiter = l }) o
  Step-Safe {h} (stopped reason) o = remove-Safe reason h (Ordered-Delivered h o)

  pub Reach-Safe : {h h' : DataTransferHandler L} → Ordered h → Reach ops h h' → Safe h'
  Reach-Safe {h} o started = Ordered-Safe (on_start ops h) (on_start-Ordered ops h o)
  Reach-Safe {h} o (next r active s) = Step-Safe s ((Reach-Safe o r).1 active)

-- From the start of a connection with at least one buffer on, whatever reads and writes succeed or
-- fail in whatever order, with whatever sizes, also when the handler is removed: what was sent to
-- one socket is the beginning of what was received from the other one, in both directions. The
-- bytes that the user sent before the start are the first ones.
pub transfer_in_order :
    {L : Type 0} (ops : TrafficLimiterOps L) (first_chunk : IoBuffer) (chunk count : ℕ)
    (limiter : L) (now : ℕ) {h : DataTransferHandler L}
    → 0 < count
    → Reach ops (make_data_transfer_handler first_chunk chunk count limiter now) h
    → IsPrefix h.dest_dir.channel.sent h.src_dir.channel.received
      × IsPrefix h.src_dir.channel.sent h.dest_dir.channel.received
transfer_in_order ops first_chunk chunk count limiter now pos r =
    (Reach-Safe ops (make-Ordered first_chunk chunk count limiter now pos) r).0
