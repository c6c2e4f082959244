-- ===== src/DataTransfer/Runs.antt =====
-- arataga/acl_handler/handlers/data_transfer.cpp: what can happen during a transfer.
use arataga.Prelude.{ℕ, ◌≤◌, ◌≡◌, true, none, some, length, take}
use arataga.Prelude.Eq.{Bytes}
use arataga.Limiter.{ReservedCapacity}
use arataga.DataTransfer.{
  DataTransferHandler, TrafficLimiterOps, swap, RemoveReason, ErrorCode, success, is_error,
  remove_handler, on_write_result, read_completed, on_start, on_timer,
}
use arataga.DataTransfer.Ring.{content_at}
use arataga.DataTransfer.Stream.{receive, send}

-- The ends of the operations on the socket of `src_dir` and on that of `dest_dir`.
pub data Completion {L : Type 0} (ops : TrafficLimiterOps L) (h : DataTransferHandler L)
    : DataTransferHandler L → Type 0 where
  read_ends :
      (now selected : ℕ) (rc : ReservedCapacity) (bytes : Bytes)
      → h.src_dir.channel.reading ≡ some (selected, rc)
      → length bytes ≤ rc.capacity
      → Completion ops h (
          read_completed ops selected rc success
            (length bytes)
            now
            (record h { src_dir = receive selected bytes h.src_dir }))
  read_fails :
      (now selected : ℕ) (rc : ReservedCapacity) (ec : ErrorCode)
      → h.src_dir.channel.reading ≡ some (selected, rc)
      → is_error ec ≡ true
      → Completion ops h (
          read_completed ops selected rc ec 0 now (record h {
            src_dir = record (h.src_dir) {
              channel = record (h.src_dir.channel) { reading = none };
            };
          }))
  write_ends :
      (selected : ℕ)
      → h.dest_dir.channel.writing ≡ some selected
      → Completion ops h (
          on_write_result ops selected success
            (length (content_at h.src_dir.in_buffers selected))
            (record h { dest_dir = send (content_at h.src_dir.in_buffers selected) h.dest_dir }))
  write_fails :
      (selected count : ℕ) (ec : ErrorCode)
      → h.dest_dir.channel.writing ≡ some selected
      → is_error ec ≡ true
      → Completion ops h (
          on_write_result ops selected ec count (record h {
            dest_dir = send (take count (content_at h.src_dir.in_buffers selected)) h.dest_dir;
          }))

-- What can happen to a handler that is not removed. `src_dir` is the user's end. The limiter is
-- shared with the user's other connections.
pub data Step {L : Type 0} (ops : TrafficLimiterOps L) (h : DataTransferHandler L)
    : DataTransferHandler L → Type 0 where
  from_user_to_target : {h' : DataTransferHandler L} → Completion ops h h' → Step ops h h'
  from_target_to_user :
      {h' : DataTransferHandler L} → Completion ops (swap h) h' → Step ops h (swap h')
  timer : (timeout now : ℕ) → Step ops h (on_timer ops timeout now h)
  limiter_changes : (l : L) → Step ops h (record h { traffic_limiter = l })
  stopped : (reason : RemoveReason) → Step ops h (remove_handler reason h)

-- A removed handler does nothing: its completion handlers see that it is not active.
pub data Reach {L : Type 0} (ops : TrafficLimiterOps L) (h : DataTransferHandler L)
    : DataTransferHandler L → Type 0 where
  started : Reach ops h (on_start ops h)
  next :
      {t u : DataTransferHandler L}
      → Reach ops h t
      → t.removed ≡ none
      → Step ops t u
      → Reach ops h u
