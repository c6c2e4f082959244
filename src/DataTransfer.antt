-- ===== src/DataTransfer.antt =====
-- arataga/acl_handler/handlers/data_transfer.cpp: `data_transfer_handler_t`.
--
-- A socket is modelled by the operations it has in progress and by the bytes that it received
-- and sent. The methods get the two directions in the order in which the source passes them
-- (`src_dir`, `dest_dir`), so that `swap` turns the handler round for the other direction. Of
-- Asio's error codes those that the source tells apart are constructors, the rest is
-- `other_error`. Logging is left out; the traffic limiter is an interface.
pub mod Ring
pub mod Stream
pub mod Completion
pub mod Steps
pub mod Methods
pub mod Start
pub mod Runs
pub mod Order
pub mod EndOfFile
pub mod Progress
pub mod NoStall
pub mod Limited
use arataga.Prelude.{
  ℕ, ◌+◌, ◌-◌, ◌%◌, ◌≤◌, ◌≡◌, Bool, true, false, ◌&&◌, ◌||◌, not, Option, none, some, List, [], ◌∷◌,
  ◌++◌, ltb, ◌==◌, if◌then◌else◌, length, get_or, set, take, drop, replicate,
}
use arataga.Prelude.Eq.{Bytes}
use arataga.Limiter.{Direction, from_user, from_target, ReservedCapacity}

pub data ErrorCode : Type 0 where
  success eof operation_aborted other_error : ErrorCode

pub data RemoveReason : Type 0 where
  normal_completion io_error current_operation_timed_out unsupported_protocol : RemoveReason
  protocol_error unexpected_and_unsupported_case no_activity_for_too_long : RemoveReason
  current_operation_canceled unhandled_exception ip_version_mismatch access_denied : RemoveReason
  unresolved_target target_end_broken user_end_broken : RemoveReason
  http_response_before_completion_of_http_request user_end_closed_by_client : RemoveReason
  http_no_incoming_request : RemoveReason

abbrev pub is_error : ErrorCode → Bool
is_error success = false
is_error _ = true

-- What a handler uses of `traffic_limiter_t`: a reservation is never larger than the buffer.
pub record TrafficLimiterOps (L : Type 0) : Type 0 where
  pub reserve_read_portion : Direction → ℕ → L → ReservedCapacity × L
  pub release : Direction → Bool → ReservedCapacity → ℕ → L → L
  pub reserve_fits : (d : Direction) (n : ℕ) (l : L) → ((reserve_read_portion d n l).0).capacity ≤ n

pub record Socket : Type 0 where
  pub reading : Option (ℕ × ReservedCapacity)
  pub writing : Option ℕ
  pub is_open : Bool
  pub received : Bytes
  pub sent : Bytes

pub record IoBuffer : Type 0 where
  pub data_read : Bytes
  pub data_size : ℕ

pub record DirectionState : Type 0 where
  pub channel : Socket
  pub in_buffers : List IoBuffer
  pub read_index : ℕ
  pub available_for_read_buffers : ℕ
  pub write_index : ℕ
  pub available_for_write_buffers : ℕ
  pub traffic_direction : Direction
  pub is_alive : Bool
  pub is_traffic_limit_exceeded : Bool
  pub active_read : Bool
  pub active_write : Bool

pub record DataTransferHandler (L : Type 0) : Type 0 where
  pub io_chunk_size : ℕ
  pub src_dir : DirectionState
  pub dest_dir : DirectionState
  pub traffic_limiter : L
  pub last_read_at : ℕ
  pub removed : Option RemoveReason

abbrev pub swap : {L : Type 0} → DataTransferHandler L → DataTransferHandler L
swap h = record h { src_dir = h.dest_dir; dest_dir = h.src_dir }

abbrev pub empty_buffer : ℕ → IoBuffer
empty_buffer io_chunk_size = record { data_read = replicate io_chunk_size 0; data_size = 0 }

abbrev pub new_socket : Bytes → Socket
new_socket initial = record {
  reading = none;
  writing = none;
  is_open = true;
  received = initial;
  sent = [];
}

unfoldable pub increment_read_index : DirectionState → DirectionState
increment_read_index d = record d { read_index = (d.read_index + 1) % length d.in_buffers }

unfoldable pub increment_write_index : DirectionState → DirectionState
increment_write_index d = record d { write_index = (d.write_index + 1) % length d.in_buffers }

-- The constructor for the target's end: every buffer is free.
unfoldable pub make_direction_state : ℕ → ℕ → Direction → DirectionState
make_direction_state io_chunk_size io_chunk_count dir = record {
  channel = new_socket [];
  in_buffers = replicate io_chunk_count (empty_buffer io_chunk_size);
  read_index = 0;
  available_for_read_buffers = io_chunk_count;
  write_index = 0;
  available_for_write_buffers = 0;
  traffic_direction = dir;
  is_alive = true;
  is_traffic_limit_exceeded = false;
  active_read = false;
  active_write = false;
}

-- The constructor for the user's end: the first buffer is the first chunk, whose remaining bytes
-- were read from the socket before.
unfoldable pub make_user_direction_state : IoBuffer → ℕ → ℕ → Direction → DirectionState
unfolding make_direction_state increment_read_index
make_user_direction_state first_chunk io_chunk_size io_chunk_count dir =
    let d = record (make_direction_state io_chunk_size io_chunk_count dir) {
      channel = new_socket (take first_chunk.data_size first_chunk.data_read);
      in_buffers = first_chunk ∷ replicate (io_chunk_count - 1) (empty_buffer io_chunk_size);
    } in
    if first_chunk.data_size == 0
    then d
    else increment_read_index (record d {
      available_for_read_buffers = io_chunk_count - 1;
      available_for_write_buffers = 1;
    })

unfoldable pub make_data_transfer_handler :
    {L : Type 0} → IoBuffer → ℕ → ℕ → L → ℕ → DataTransferHandler L
unfolding make_user_direction_state make_direction_state
make_data_transfer_handler first_chunk io_chunk_size io_chunk_count limiter now = record {
  io_chunk_size = io_chunk_size;
  src_dir = make_user_direction_state first_chunk io_chunk_size io_chunk_count from_user;
  dest_dir = make_direction_state io_chunk_size io_chunk_count from_target;
  traffic_limiter = limiter;
  last_read_at = now;
  removed = none;
}

-- The handler closes its sockets; the first reason is kept.
unfoldable pub remove_handler :
    {L : Type 0} → RemoveReason → DataTransferHandler L → DataTransferHandler L
remove_handler reason h = record h { removed = some reason }

-- Starts a read of at most `rc.capacity` bytes into the buffer that the read index names.
unfoldable pub start_read : ReservedCapacity → DirectionState → DirectionState
unfolding increment_read_index
start_read rc d =
    let d' = increment_read_index d in
    record d' {
      channel = record (d.channel) { reading = some (d.read_index, rc) };
      is_traffic_limit_exceeded = false;
      active_read = true;
      available_for_read_buffers = d.available_for_read_buffers - 1;
    }

module _ {L : Type 0} (ops : TrafficLimiterOps L) where
  unfoldable pub initiate_async_read_for_direction : DataTransferHandler L → DataTransferHandler L
  unfolding start_read
  initiate_async_read_for_direction h =
      let src = h.src_dir in
      if not src.is_alive
      then h
      else if src.active_read
      then h
      else if src.available_for_read_buffers == 0
      then h
      else let (rc, l) =
          ops.reserve_read_portion src.traffic_direction h.io_chunk_size h.traffic_limiter in
        if rc.capacity == 0
        then record h {
          traffic_limiter = l;
          src_dir = record src { is_traffic_limit_exceeded = true };
        }
        else record h { traffic_limiter = l; src_dir = start_read rc src }

-- The two directions after the write of the buffer that the write index names is started.
unfoldable pub start_write_source : DirectionState → DirectionState
unfolding increment_write_index
start_write_source src = record (increment_write_index src) {
  available_for_write_buffers = src.available_for_write_buffers - 1;
}

unfoldable pub start_write_target : ℕ → DirectionState → DirectionState
start_write_target selected_buffer dest = record dest {
  channel = record (dest.channel) { writing = some selected_buffer };
  active_write = true;
}

unfoldable pub initiate_async_write_for_direction :
    {L : Type 0} → DataTransferHandler L → DataTransferHandler L
unfolding start_write_source start_write_target
initiate_async_write_for_direction h =
    let src = h.src_dir in
    let dest = h.dest_dir in
    if not dest.is_alive
    then h
    else if dest.active_write
    then h
    else if src.available_for_write_buffers == 0
    then h
    else record h {
      src_dir = start_write_source src;
      dest_dir = start_write_target src.write_index dest;
    }

pub data ReadErrorCodeHandlingResult : Type 0 where
  handler_should_be_removed : RemoveReason → ReadErrorCodeHandlingResult
  work_should_be_continued :
      (can_read_src_dir can_write_dest_dir : Bool) → ReadErrorCodeHandlingResult

-- The buffer gets its size, and is ready for a write.
unfoldable pub take_read_data : ℕ → ℕ → DirectionState → DirectionState
take_read_data selected_buffer bytes_transferred src = record src {
  in_buffers =
      set src.in_buffers selected_buffer
        (record (get_or src.in_buffers selected_buffer (empty_buffer 0)) {
          data_size = bytes_transferred;
        });
  available_for_write_buffers = src.available_for_write_buffers + 1;
}

-- The result for an error, when the source is marked as dead.
unfoldable pub read_failure :
    {L : Type 0} → ErrorCode → DataTransferHandler L → ReadErrorCodeHandlingResult
read_failure eof h =
    if h.dest_dir.is_alive && not (h.src_dir.available_for_write_buffers == 0)
    then work_should_be_continued false true
    else handler_should_be_removed normal_completion
read_failure operation_aborted h = handler_should_be_removed current_operation_canceled
read_failure _ h =
    if not h.src_dir.channel.is_open
    then handler_should_be_removed current_operation_canceled
    else handler_should_be_removed io_error

abbrev pub kill_source : {L : Type 0} → DataTransferHandler L → DataTransferHandler L
kill_source h = record h { src_dir = record (h.src_dir) { is_alive = false } }

unfoldable pub handle_read_error_code :
    {L : Type 0}
    → ℕ
    → ErrorCode
    → ℕ
    → ℕ
    → DataTransferHandler L
    → ReadErrorCodeHandlingResult × DataTransferHandler L
unfolding take_read_data read_failure
handle_read_error_code selected_buffer success bytes_transferred now h = (
  work_should_be_continued true true,
  record h {
    src_dir = take_read_data selected_buffer bytes_transferred h.src_dir;
    last_read_at = now;
  },
)
handle_read_error_code selected_buffer ec bytes_transferred now h =
    (read_failure ec h, kill_source h)

module _ {L : Type 0} (ops : TrafficLimiterOps L) where
  -- What follows from the result of a read.
  unfoldable pub continue_after_read :
      ReadErrorCodeHandlingResult → DataTransferHandler L → DataTransferHandler L
  unfolding remove_handler initiate_async_write_for_direction initiate_async_read_for_direction
  continue_after_read (handler_should_be_removed reason) h = remove_handler reason h
  continue_after_read (work_should_be_continued can_read can_write) h =
      let written = if can_write then initiate_async_write_for_direction h else h in
      if can_read then initiate_async_read_for_direction ops written else written

  unfoldable pub on_read_result :
      ℕ → ErrorCode → ℕ → ℕ → DataTransferHandler L → DataTransferHandler L
  unfolding handle_read_error_code continue_after_read
  on_read_result selected_buffer ec bytes_transferred now h =
      let (result, h') =
        handle_read_error_code selected_buffer ec bytes_transferred now
          (record h { src_dir = record (h.src_dir) { active_read = false } }) in
      continue_after_read result h'

  -- The completion handler of a read: the reservation is given back first.
  unfoldable pub read_completed :
      ℕ → ReservedCapacity → ErrorCode → ℕ → ℕ → DataTransferHandler L → DataTransferHandler L
  unfolding on_read_result
  read_completed selected_buffer rc ec bytes now h =
      on_read_result selected_buffer ec bytes now (record h {
        traffic_limiter =
            ops.release h.src_dir.traffic_direction (is_error ec) rc bytes h.traffic_limiter;
      })

  -- What follows from a write of the whole buffer.
  unfoldable pub continue_after_write : DataTransferHandler L → DataTransferHandler L
  unfolding remove_handler initiate_async_write_for_direction initiate_async_read_for_direction
  continue_after_write h =
      let has_outgoing_data = not (h.src_dir.available_for_write_buffers == 0) in
      let h' =
        if h.src_dir.is_alive
        then initiate_async_read_for_direction ops h
        else if not has_outgoing_data
        then remove_handler normal_completion h
        else h in
      if has_outgoing_data then initiate_async_write_for_direction h' else h'

  unfoldable pub on_write_result : ℕ → ErrorCode → ℕ → DataTransferHandler L → DataTransferHandler L
  unfolding continue_after_write remove_handler
  on_write_result selected_buffer ec bytes_transferred h0 =
      let h = record h0 { dest_dir = record (h0.dest_dir) { active_write = false } } in
      let expected = (get_or h.src_dir.in_buffers selected_buffer (empty_buffer 0)).data_size in
      if is_error ec
      then remove_handler io_error h
      else if not (expected == bytes_transferred)
      then remove_handler io_error h
      else continue_after_write (record h {
        src_dir = record (h.src_dir) {
          available_for_read_buffers = h.src_dir.available_for_read_buffers + 1;
        };
      })

  -- `src_dir` is the user's end here and in `on_timer`.
  unfoldable pub on_start : DataTransferHandler L → DataTransferHandler L
  unfolding initiate_async_write_for_direction initiate_async_read_for_direction
  on_start h =
      let written =
        if h.src_dir.available_for_write_buffers == 0
        then h
        else initiate_async_write_for_direction h in
      let reading = initiate_async_read_for_direction ops written in
      swap (initiate_async_read_for_direction ops (swap reading))

  unfoldable pub on_timer : ℕ → ℕ → DataTransferHandler L → DataTransferHandler L
  unfolding remove_handler initiate_async_read_for_direction
  on_timer idle_connection_timeout now h =
      if not h.src_dir.is_alive && not h.dest_dir.is_alive
      then remove_handler unexpected_and_unsupported_case h
      else if ltb (h.last_read_at + idle_connection_timeout) now
      then remove_handler no_activity_for_too_long h
      else let user =
          if h.src_dir.is_traffic_limit_exceeded
          then initiate_async_read_for_direction ops h
          else h in
        if user.dest_dir.is_traffic_limit_exceeded
        then swap (initiate_async_read_for_direction ops (swap user))
        else user
