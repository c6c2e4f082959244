-- ===== src/DataTransfer/Progress.antt =====
-- arataga/acl_handler/handlers/data_transfer.cpp: a transfer does not stall.
use arataga.Prelude.{
  ℕ, ◌+◌, ◌≡◌, ◌⊎◌, inl, inr, refl, sym, subst, true, false, none, arith, ◌==◌, if◌then◌else◌, not,
  ◌&&◌, ltb, length, get_or, take, Bool-cases,
}
use arataga.DataTransfer.{
  RemoveReason, ErrorCode, current_operation_canceled, io_error, unexpected_and_unsupported_case,
  no_activity_for_too_long, normal_completion, DirectionState, DataTransferHandler,
  TrafficLimiterOps, swap, initiate_async_read_for_direction, initiate_async_write_for_direction,
  start_read, start_write_source, start_write_target, empty_buffer, increment_read_index,
  increment_write_index, on_start, on_timer, on_read_result, on_write_result, read_completed,
  handle_read_error_code, read_failure, continue_after_read, work_should_be_continued,
  handler_should_be_removed, continue_after_write, remove_handler, take_read_data, success, eof,
  operation_aborted, other_error, is_error,
}
use arataga.DataTransfer.Methods.{Bool_ind, after_write, both_reads, alive_timer}
use arataga.Limiter.{ReservedCapacity}
use arataga.DataTransfer.Stream.{send, receive}
use arataga.DataTransfer.Ring.{content_at}
use arataga.DataTransfer.Completion.{after_read}
use arataga.DataTransfer.Order.{dead}
use arataga.DataTransfer.Runs.{
  Completion, read_ends, read_fails, write_ends, write_fails, Step, from_user_to_target,
  from_target_to_user, timer, limiter_changes, stopped, Reach, started, next,
}

-- Buffers with data are being written, unless the destination is dead.
abbrev pub WriteGoing : DirectionState → DirectionState → Type 0
WriteGoing src dest =
    (src.available_for_write_buffers ≡ 0) ⊎ (dest.active_write ≡ true) ⊎ (dest.is_alive ≡ false)

-- A free buffer is being read into, unless the source is dead or waits for the next turn.
abbrev pub ReadGoing : DirectionState → Type 0
ReadGoing src =
    (src.available_for_read_buffers ≡ 0)
    ⊎ (src.active_read ≡ true)
    ⊎ (src.is_alive ≡ false)
    ⊎ (src.is_traffic_limit_exceeded ≡ true)

abbrev pub Others : {L : Type 0} → DataTransferHandler L → Type 0
Others h = WriteGoing h.dest_dir h.src_dir × ReadGoing h.dest_dir

abbrev pub Going : {L : Type 0} → DataTransferHandler L → Type 0
Going h = WriteGoing h.src_dir h.dest_dir × ReadGoing h.src_dir × Others h

initiate_write-WriteGoing :
    {L : Type 0} (h : DataTransferHandler L)
    → Others h
    → let h' = initiate_async_write_for_direction h in WriteGoing h'.src_dir h'.dest_dir × Others h'
unfolding initiate_async_write_for_direction start_write_source start_write_target
    increment_write_index
initiate_write-WriteGoing h o = ground arith

initiate_write-ReadGoing :
    {L : Type 0} (h : DataTransferHandler L)
    → ReadGoing h.src_dir
    → ReadGoing (initiate_async_write_for_direction h).src_dir
unfolding initiate_async_write_for_direction start_write_source start_write_target
    increment_write_index
initiate_write-ReadGoing h o = ground arith

abbrev Writes : {L : Type 0} → DataTransferHandler L → Type 0
Writes h = WriteGoing h.src_dir h.dest_dir × WriteGoing h.dest_dir h.src_dir

-- A handler that is not removed is going.
abbrev pub Live : {L : Type 0} → DataTransferHandler L → Type 0
Live h = h.removed ≡ none → Going h

remove-Live :
    {L : Type 0} (reason : RemoveReason) (h : DataTransferHandler L)
    → Live (remove_handler reason h)
unfolding remove_handler
remove-Live reason h e = absurd (ground arith)

start-Writes :
    {L : Type 0} (h : DataTransferHandler L)
    → h.dest_dir.available_for_write_buffers ≡ 0
    → Writes (
        if h.src_dir.available_for_write_buffers == 0
        then h
        else initiate_async_write_for_direction h)
unfolding initiate_async_write_for_direction start_write_source start_write_target
    increment_write_index
start-Writes h e = ground arith

module _ {L : Type 0} (ops : TrafficLimiterOps L) where
  initiate_read-Writes :
      (h : DataTransferHandler L)
      → Writes h
      → let h' = initiate_async_read_for_direction ops h in Writes h' × ReadGoing h'.src_dir
  unfolding initiate_async_read_for_direction start_read increment_read_index
  initiate_read-Writes h w = ground arith

  initiate_read-Others :
      (h : DataTransferHandler L)
      → Others h
      → let h' = initiate_async_read_for_direction ops h in ReadGoing h'.src_dir × Others h'
  unfolding initiate_async_read_for_direction start_read increment_read_index
  initiate_read-Others h o = ground arith

  initiate_read-Going :
      (h : DataTransferHandler L)
      → WriteGoing h.src_dir h.dest_dir
      → Others h
      → Going (initiate_async_read_for_direction ops h)
  unfolding initiate_async_read_for_direction start_read increment_read_index
  initiate_read-Going h w o = ground arith

  -- After a read that succeeded.
  read_on-Going :
      (h : DataTransferHandler L)
      → Others h
      → Going (continue_after_read ops (work_should_be_continued true true) h)
  unfolding continue_after_read
  read_on-Going h o =
      let (w, o') = initiate_write-WriteGoing h o in
      initiate_read-Going (initiate_async_write_for_direction h) w o'

  -- After a read that failed, when the source is dead.
  read_off-Live :
      (ec : ErrorCode) (g h : DataTransferHandler L)
      → is_error ec ≡ true
      → h.src_dir.is_alive ≡ false
      → Others h
      → Live (continue_after_read ops (read_failure ec g) h)
  unfolding continue_after_read read_failure
  read_off-Live success g h bad dead o = absurd (ground arith)
  read_off-Live eof g h bad dead o =
      let (w, o') = initiate_write-WriteGoing h o in
      let stays = initiate_write-ReadGoing h (inr (inr (inl dead))) in
      Bool_ind
        (λ t. Live (
          continue_after_read ops
            (if t
              then work_should_be_continued false true
              else handler_should_be_removed normal_completion)
            h))
        (g.dest_dir.is_alive && not (g.src_dir.available_for_write_buffers == 0))
        (λ e. (w, stays, o')) (remove-Live normal_completion h)
  read_off-Live operation_aborted g h bad dead o = remove-Live current_operation_canceled h
  read_off-Live other_error g h bad dead o =
      Bool_ind
        (λ t. Live (
          continue_after_read ops
            (if t
              then handler_should_be_removed current_operation_canceled
              else handler_should_be_removed io_error)
            h))
        (not g.src_dir.channel.is_open) (remove-Live current_operation_canceled h)
        (remove-Live io_error h)

  written-Live : (h : DataTransferHandler L) → Others h → Live (continue_after_write ops h)
  unfolding continue_after_write remove_handler
  written-Live h o =
      let (r, o') = initiate_read-Others h o in
      let read = initiate_async_read_for_direction ops h in
      let (w, o2) = initiate_write-WriteGoing read o' in
      let (w1, o3) = initiate_write-WriteGoing h o in
      elim (Bool-cases (h.src_dir.available_for_write_buffers == 0)) [
        | inl nothing ↦
            subst (λ b. Live (after_write ops h (not b) h.src_dir.is_alive)) (sym nothing)
              (Bool_ind (λ b. Live (after_write ops h false b)) h.src_dir.is_alive
                (λ e. initiate_read-Going h (inl (ground arith)) o)
                (remove-Live normal_completion h))
        | inr filled ↦
            subst (λ b. Live (after_write ops h (not b) h.src_dir.is_alive)) (sym filled)
              (elim (Bool-cases h.src_dir.is_alive) [
                | inl alive ↦
                    subst (λ b. Live (after_write ops h true b)) (sym alive)
                      (λ e. (w, initiate_write-ReadGoing read r, o2))
                | inr dead ↦
                    subst (λ b. Live (after_write ops h true b)) (sym dead)
                      (λ e. (w1, initiate_write-ReadGoing h (inr (inr (inl dead))), o3))
              ])
      ]

  on_timer-Live :
      (timeout now : ℕ) (h : DataTransferHandler L) → Going h → Live (on_timer ops timeout now h)
  unfolding on_timer remove_handler
  on_timer-Live timeout now h g =
      let read = initiate_read-Going h (g.0) (g.2) in
      let user =
        Bool_ind (λ b. Going (if b then initiate_async_read_for_direction ops h else h))
          h.src_dir.is_traffic_limit_exceeded read g in
      let h1 =
        if h.src_dir.is_traffic_limit_exceeded
        then initiate_async_read_for_direction ops h
        else h in
      let (w, r, (w', r')) = initiate_read-Going (swap h1) ((user.2).0) (user.0, user.1) in
      Bool_ind
        (λ b. Live (
          if b
          then remove_handler unexpected_and_unsupported_case h
          else alive_timer ops timeout now h))
        (not h.src_dir.is_alive && not h.dest_dir.is_alive)
        (remove-Live unexpected_and_unsupported_case h)
        (Bool_ind
          (λ b. Live (if b then remove_handler no_activity_for_too_long h else both_reads ops h))
          (ltb (h.last_read_at + timeout) now) (remove-Live no_activity_for_too_long h)
          (Bool_ind
            (λ b. Live (if b then swap (initiate_async_read_for_direction ops (swap h1)) else h1))
            h1.dest_dir.is_traffic_limit_exceeded (λ e. (w', r', (w, r))) (λ e. user)))

  on_start-Going :
      (h : DataTransferHandler L)
      → h.dest_dir.available_for_write_buffers ≡ 0
      → Going (on_start ops h)
  unfolding on_start
  on_start-Going h e =
      let h1 =
        if h.src_dir.available_for_write_buffers == 0
        then h
        else initiate_async_write_for_direction h in
      let h2 = initiate_async_read_for_direction ops h1 in
      let ((w, w'), r) = initiate_read-Writes h1 (start-Writes h e) in
      let (a, b, (c, d)) = initiate_read-Going (swap h2) w' (w, r) in (c, d, (a, b))

  abbrev ended : ReservedCapacity → DataTransferHandler L → DataTransferHandler L
  ended rc h = record h {
    src_dir = record (h.src_dir) {
      channel = record (h.src_dir.channel) { reading = none };
      active_read = false;
    };
    traffic_limiter = ops.release h.src_dir.traffic_direction true rc 0 h.traffic_limiter;
  }

  read_fails-Live :
      (now selected : ℕ) (rc : ReservedCapacity) (ec : ErrorCode) (h : DataTransferHandler L)
      → is_error ec ≡ true
      → Going h
      → Live (
          read_completed ops selected rc ec 0 now (record h {
            src_dir = record (h.src_dir) {
              channel = record (h.src_dir.channel) { reading = none };
            };
          }))
  unfolding read_completed on_read_result handle_read_error_code
  read_fails-Live now selected rc success h bad g = absurd (ground arith)
  read_fails-Live now selected rc eof h bad g =
      read_off-Live eof (ended rc h) (dead ops rc h) refl refl (inr (inr refl), (g.2).1)
  read_fails-Live now selected rc operation_aborted h bad g =
      read_off-Live operation_aborted (ended rc h) (dead ops rc h) refl refl
        (inr (inr refl), (g.2).1)
  read_fails-Live now selected rc other_error h bad g =
      read_off-Live other_error (ended rc h) (dead ops rc h) refl refl (inr (inr refl), (g.2).1)

  Completion-Live : {h h' : DataTransferHandler L} → Completion ops h h' → Going h → Live h'
  unfolding read_completed on_read_result handle_read_error_code on_write_result send receive
      take_read_data
  Completion-Live {h} (read_ends now selected rc bytes e fits) g = λ active.
      read_on-Going
        (record h {
          src_dir = after_read selected bytes h.src_dir;
          traffic_limiter =
              ops.release h.src_dir.traffic_direction false rc (length bytes) h.traffic_limiter;
          last_read_at = now;
        })
        (g.2)
  Completion-Live {h} (read_fails now selected rc ec e bad) g =
      read_fails-Live now selected rc ec h bad g
  Completion-Live {h} (write_ends selected e) g =
      let bytes = content_at h.src_dir.in_buffers selected in
      let dest = record (send bytes h.dest_dir) { active_write = false } in
      let written = record h {
        src_dir = record (h.src_dir) {
          available_for_read_buffers = h.src_dir.available_for_read_buffers + 1;
        };
        dest_dir = dest;
      } in
      Bool_ind
        (λ t. Live (
          if not t
          then remove_handler io_error (record h { dest_dir = dest })
          else continue_after_write ops written))
        ((get_or h.src_dir.in_buffers selected (empty_buffer 0)).data_size == length bytes)
        (written-Live written (g.2)) (remove-Live io_error (record h { dest_dir = dest }))
  Completion-Live {h} (write_fails selected count ec e bad) g =
      let failed = record h {
        dest_dir =
            record (send (take count (content_at h.src_dir.in_buffers selected)) h.dest_dir) {
              active_write = false;
            };
      } in
      rw bad (remove-Live io_error failed)

  Step-Live : {h h' : DataTransferHandler L} → Step ops h h' → Going h → Live h'
  Step-Live (from_user_to_target c) g = Completion-Live c g
  Step-Live (from_target_to_user c) g = λ active.
      let (w, r, o) = Completion-Live c ((g.2).0, (g.2).1, (g.0, g.1)) active in (o.0, o.1, (w, r))
  Step-Live {h} (timer timeout now) g = on_timer-Live timeout now h g
  Step-Live {h} (limiter_changes l) g = λ active. g
  Step-Live {h} (stopped reason) g = remove-Live reason h

  pub Reach-Live :
      {h h' : DataTransferHandler L}
      → h.dest_dir.available_for_write_buffers ≡ 0
      → Reach ops h h'
      → Live h'
  Reach-Live {h} e started = λ active. on_start-Going h e
  Reach-Live {h} e (next r active s) = Step-Live s (Reach-Live e r active)
