-- ===== src/DataTransfer/Start.antt =====
-- arataga/acl_handler/handlers/data_transfer.cpp: the flows of a new handler.
use arataga.Prelude.{
  ℕ, suc, ◌-◌, ◌%◌, ◌<◌, ◌≡◌, refl, sym, ap, ◌∙◌, false, none, inl, inr, [], ◌∷◌, ◌++◌, arith,
  length, take, ◌==◌, replicate, length-replicate, append-nil, Bool-cases,
}
use native.Mathlib.Nat.{mod-eq_of_lt}
use arataga.Limiter.{Direction, from_user, from_target}
use arataga.DataTransfer.{
  new_socket, DirectionState, IoBuffer, empty_buffer, make_direction_state,
  make_user_direction_state, make_data_transfer_handler, increment_read_index,
}
use arataga.DataTransfer.Ring.{window}
use arataga.DataTransfer.Stream.{Flow}
use arataga.Prelude.Eq.{Bytes}
use arataga.DataTransfer.Steps.{Ordered}

zero_mod : (n : ℕ) → 0 < n → 0 ≡ 0 % n
zero_mod n pos = sym (mod-eq_of_lt {n = 0} {m = n} pos)

-- A ring of free buffers.
free-Flow :
    (chunk count : ℕ) (dir : Direction) (dest : DirectionState)
    → 0 < count
    → dest.active_write ≡ false
    → dest.channel.writing ≡ none
    → dest.channel.sent ≡ []
    → Flow chunk (make_direction_state chunk count dir) dest 0 0
unfolding make_direction_state window
free-Flow chunk count dir dest pos idle no_write empty =
    let len = length-replicate count (empty_buffer chunk) in
    record {
      in_ring = omega (arith, len);
      buffers = omega (arith, len);
      next_read = zero_mod (length (replicate count (empty_buffer chunk))) (omega (arith, len));
      write_part = rw no_write (idle, refl, refl);
      read_part = refl;
      stream = sym (ap (λ (x : Bytes). x ++ []) empty);
    }

-- The user's end before the first chunk is looked at.
abbrev user_end : IoBuffer → ℕ → ℕ → Direction → DirectionState
user_end first chunk count dir = record (make_direction_state chunk count dir) {
  channel = new_socket (take first.data_size first.data_read);
  in_buffers = first ∷ replicate (count - 1) (empty_buffer chunk);
}

empty_chunk :
    (first : IoBuffer) (chunk count : ℕ) (dir : Direction) (dest : DirectionState)
    → 0 < count
    → first.data_size ≡ 0
    → dest.active_write ≡ false
    → dest.channel.writing ≡ none
    → dest.channel.sent ≡ []
    → Flow chunk (user_end first chunk count dir) dest 0 0
unfolding make_direction_state window
empty_chunk first chunk count dir dest pos size idle no_write empty =
    let len = length-replicate (count - 1) (empty_buffer chunk) in
    record {
      in_ring = omega (arith, len);
      buffers = omega (arith, len);
      next_read =
          zero_mod (suc (length (replicate (count - 1) (empty_buffer chunk)))) (omega (arith, len));
      write_part = rw no_write (idle, refl, refl);
      read_part = refl;
      stream = ap (λ n. take n first.data_read) size ∙ sym (ap (λ (x : Bytes). x ++ []) empty);
    }

filled_chunk :
    (first : IoBuffer) (chunk count : ℕ) (dir : Direction) (dest : DirectionState)
    → 0 < count
    → dest.active_write ≡ false
    → dest.channel.writing ≡ none
    → dest.channel.sent ≡ []
    → Flow chunk
        (increment_read_index (record (user_end first chunk count dir) {
          available_for_read_buffers = count - 1;
          available_for_write_buffers = 1;
        }))
        dest
        0
        1
unfolding make_direction_state window increment_read_index
filled_chunk first chunk count dir dest pos idle no_write empty =
    let len = length-replicate (count - 1) (empty_buffer chunk) in
    record {
      in_ring = omega (arith, len);
      buffers = omega (arith, len);
      next_read = refl;
      write_part = rw no_write (idle, refl, refl);
      read_part = refl;
      stream =
          sym (append-nil (take first.data_size first.data_read))
          ∙ sym (ap (λ (x : Bytes). x ++ (take first.data_size first.data_read ++ [])) empty);
    }

-- Every buffer of a new handler is free, but the first, if it holds data already.
pub make-Ordered :
    {L : Type 0} (first_chunk : IoBuffer) (chunk count : ℕ) (limiter : L) (now : ℕ)
    → 0 < count
    → Ordered (make_data_transfer_handler first_chunk chunk count limiter now)
unfolding make_data_transfer_handler make_user_direction_state make_direction_state
    increment_read_index
make-Ordered first_chunk chunk count limiter now pos =
    let t = make_direction_state chunk count from_target in
    elim (Bool-cases (first_chunk.data_size == 0)) [
      | inl nothing ↦ rw nothing (
        (0, 0, empty_chunk first_chunk chunk count from_user t pos (ground arith) refl refl refl),
        (
          0,
          0,
          free-Flow chunk count from_target (user_end first_chunk chunk count from_user) pos refl
              refl refl,
        ),
      )
      | inr filled ↦ rw filled (
        (0, 1, filled_chunk first_chunk chunk count from_user t pos refl refl refl),
        (
          0,
          0,
          free-Flow chunk count from_target (user_end first_chunk chunk count from_user) pos refl
              refl refl,
        ),
      )
    ]
