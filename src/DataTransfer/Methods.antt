-- ===== src/DataTransfer/Methods.antt =====
-- arataga/acl_handler/handlers/data_transfer.cpp: the methods keep the bytes in order, or remove
-- the handler.
use arataga.Prelude.{
  ℕ, ◌+◌, ◌≡◌, Bool, true, false, not, ◌&&◌, none, ◌++◌, arith, if◌then◌else◌, ◌==◌, ltb,
}
use arataga.Prelude.Eq.{Bytes}
use arataga.DataTransfer.{
  DataTransferHandler, TrafficLimiterOps, swap, RemoveReason, remove_handler,
  initiate_async_read_for_direction, initiate_async_write_for_direction, continue_after_read,
  continue_after_write, on_start, on_timer, normal_completion, no_activity_for_too_long,
  unexpected_and_unsupported_case, ReadErrorCodeHandlingResult, handler_should_be_removed,
  work_should_be_continued,
}
use arataga.DataTransfer.Steps.{Ordered, initiate_read-Ordered, initiate_write-Ordered}

-- `sent` is the beginning of `received`.
abbrev pub IsPrefix : Bytes → Bytes → Type 0
IsPrefix sent received = (rest : Bytes) × (received ≡ sent ++ rest)

abbrev pub Delivered : {L : Type 0} → DataTransferHandler L → Type 0
Delivered h =
    IsPrefix h.dest_dir.channel.sent h.src_dir.channel.received
    × IsPrefix h.src_dir.channel.sent h.dest_dir.channel.received

abbrev pub Safe : {L : Type 0} → DataTransferHandler L → Type 0
Safe h = Delivered h × (h.removed ≡ none → Ordered h)

pub Ordered-Delivered : {L : Type 0} (h : DataTransferHandler L) → Ordered h → Delivered h
Ordered-Delivered h ((b, c, f), (b', c', g)) = ((_, f.stream), (_, g.stream))

pub Ordered-Safe : {L : Type 0} (h : DataTransferHandler L) → Ordered h → Safe h
Ordered-Safe h o = (Ordered-Delivered h o, λ e. o)

pub remove-Safe :
    {L : Type 0} (reason : RemoveReason) (h : DataTransferHandler L)
    → Delivered h
    → Safe (remove_handler reason h)
unfolding remove_handler
remove-Safe reason h d = (d, λ e. absurd (ground arith))

pub Bool_ind : (P : Bool → Type 0) (b : Bool) → P true → P false → P b
Bool_ind P true t f = t
Bool_ind P false t f = f

module _ {L : Type 0} (ops : TrafficLimiterOps L) where
  pub continue_after_read-Safe :
      (r : ReadErrorCodeHandlingResult) (h : DataTransferHandler L)
      → Ordered h
      → Safe (continue_after_read ops r h)
  unfolding continue_after_read
  continue_after_read-Safe (handler_should_be_removed reason) h o =
      remove-Safe reason h (Ordered-Delivered h o)
  continue_after_read-Safe (work_should_be_continued true true) h o =
      Ordered-Safe (initiate_async_read_for_direction ops (initiate_async_write_for_direction h)) (
        initiate_read-Ordered ops (initiate_async_write_for_direction h)
          (initiate_write-Ordered h o))
  continue_after_read-Safe (work_should_be_continued false true) h o =
      Ordered-Safe (initiate_async_write_for_direction h) (initiate_write-Ordered h o)
  continue_after_read-Safe (work_should_be_continued true false) h o =
      Ordered-Safe (initiate_async_read_for_direction ops h) (initiate_read-Ordered ops h o)
  continue_after_read-Safe (work_should_be_continued false false) h o = Ordered-Safe h o

  -- The branches of `continue_after_write` by its two tests.
  abbrev pub after_write : DataTransferHandler L → Bool → Bool → DataTransferHandler L
  after_write h has_outgoing_data alive =
      let h' =
        if alive
        then initiate_async_read_for_direction ops h
        else if not has_outgoing_data
        then remove_handler normal_completion h
        else h in
      if has_outgoing_data then initiate_async_write_for_direction h' else h'

  pub continue_after_write-Safe :
      (h : DataTransferHandler L) → Ordered h → Safe (continue_after_write ops h)
  unfolding continue_after_write
  continue_after_write-Safe h o =
      let read = initiate_read-Ordered ops h o in
      Bool_ind (λ b. Safe (after_write h (not b) h.src_dir.is_alive))
        (h.src_dir.available_for_write_buffers == 0)
        (Bool_ind (λ b. Safe (after_write h false b)) h.src_dir.is_alive
          (Ordered-Safe (initiate_async_read_for_direction ops h) read)
          (remove-Safe normal_completion h (Ordered-Delivered h o)))
        (Bool_ind (λ b. Safe (after_write h true b)) h.src_dir.is_alive
          (Ordered-Safe
            (initiate_async_write_for_direction (initiate_async_read_for_direction ops h))
            (initiate_write-Ordered (initiate_async_read_for_direction ops h) read))
          (Ordered-Safe (initiate_async_write_for_direction h) (initiate_write-Ordered h o)))

  pub on_start-Ordered : (h : DataTransferHandler L) → Ordered h → Ordered (on_start ops h)
  unfolding on_start
  on_start-Ordered h o =
      let none_to_write = h.src_dir.available_for_write_buffers == 0 in
      let written =
        Bool_ind (λ b. Ordered (if b then h else initiate_async_write_for_direction h))
          none_to_write o (initiate_write-Ordered h o) in
      let h1 = if none_to_write then h else initiate_async_write_for_direction h in
      let read = initiate_read-Ordered ops h1 written in
      let h2 = initiate_async_read_for_direction ops h1 in
      let (forth, back) = initiate_read-Ordered ops (swap h2) (read.1, read.0) in (back, forth)

  -- The branches of `on_timer`.
  abbrev pub both_reads : DataTransferHandler L → DataTransferHandler L
  both_reads h =
      let user =
        if h.src_dir.is_traffic_limit_exceeded
        then initiate_async_read_for_direction ops h
        else h in
      if user.dest_dir.is_traffic_limit_exceeded
      then swap (initiate_async_read_for_direction ops (swap user))
      else user

  abbrev pub alive_timer : ℕ → ℕ → DataTransferHandler L → DataTransferHandler L
  alive_timer timeout now h =
      if ltb (h.last_read_at + timeout) now
      then remove_handler no_activity_for_too_long h
      else both_reads h

  pub on_timer-Safe :
      (timeout now : ℕ) (h : DataTransferHandler L) → Ordered h → Safe (on_timer ops timeout now h)
  unfolding on_timer
  on_timer-Safe timeout now h o =
      let user =
        Bool_ind (λ b. Ordered (if b then initiate_async_read_for_direction ops h else h))
          h.src_dir.is_traffic_limit_exceeded (initiate_read-Ordered ops h o) o in
      let h1 =
        if h.src_dir.is_traffic_limit_exceeded
        then initiate_async_read_for_direction ops h
        else h in
      let (forth, back) = initiate_read-Ordered ops (swap h1) (user.1, user.0) in
      Bool_ind
        (λ b. Safe (
          if b
          then remove_handler unexpected_and_unsupported_case h
          else alive_timer timeout now h))
        (not h.src_dir.is_alive && not h.dest_dir.is_alive)
        (remove-Safe unexpected_and_unsupported_case h (Ordered-Delivered h o))
        (Bool_ind
          (λ b. Safe (if b then remove_handler no_activity_for_too_long h else both_reads h))
          (ltb (h.last_read_at + timeout) now)
          (remove-Safe no_activity_for_too_long h (Ordered-Delivered h o))
          (Bool_ind
            (λ b. Safe (if b then swap (initiate_async_read_for_direction ops (swap h1)) else h1))
            h1.dest_dir.is_traffic_limit_exceeded
            (Ordered-Safe (swap (initiate_async_read_for_direction ops (swap h1))) (back, forth))
            (Ordered-Safe h1 user)))
