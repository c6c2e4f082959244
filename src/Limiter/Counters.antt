-- ===== src/Limiter/Counters.antt =====
-- arataga/acl_handler/{a_handler.cpp,bandlim_manager.cpp}: the counters of one direction when a read is
-- granted, when it has finished, and when a turn begins.
use arataga.Prelude.{
  ℕ, ◌+◌, ◌-◌, ◌≤◌, ◌<◌, ◌≡◌, ◌≢◌, ==_iff, refl, Option, none, some, arith, if◌then◌else◌, ap, ◌∙◌,
}
use arataga.Prelude.Eq.{Bytes, bytes_eq}
use arataga.Words.{u64_mod, add64_lem, sub64_lem}
use arataga.Bandlim.{DirectionTrafficInfo, BandlimManager}
use arataga.Bandlim.Turn.{
  Double, update_traffic_counters_for_new_turn, quote_calculator, turn_multiplier, dir_handler,
}
use arataga.Limiter.{
  Direction, from_user, from_target, ReservedCapacity, member, change_traffic, add_reserved, settle,
}
use arataga.Limiter.Ledger.{is_same, if_same, counters, turn_allows}

actual-dir_handler :
    (seq : ℕ) (calculator : ℕ → ℕ) (q : ℕ) (f : DirectionTrafficInfo)
    → f.actual < u64_mod
    → let f' = dir_handler seq calculator q f in
      (f.actual ≤ f'.actual + calculator f.m_quote) × (f'.actual < u64_mod)
unfolding dir_handler
actual-dir_handler seq calculator q f h = ground (arith, sub64_lem f.actual (calculator f.m_quote))

actual-settle :
    (rc : ReservedCapacity) (bytes : ℕ) (t : DirectionTrafficInfo)
    → t.actual + bytes < u64_mod
    → (settle rc bytes t).actual ≡ t.actual + bytes
unfolding settle
actual-settle rc bytes t h = add64_lem t.actual bytes h

-- The counters of a direction after a change of the counters of a direction.
counters-change_traffic :
    (dir d : Direction) (f : DirectionTrafficInfo → DirectionTrafficInfo) (domain : Option Bytes)
    (m : BandlimManager)
    → counters dir (change_traffic d f domain m)
      ≡ (if is_same d dir then f (counters dir m) else counters dir m)
unfolding change_traffic member
counters-change_traffic from_user from_user f none m = refl
counters-change_traffic from_user from_user f (some x) m = refl
counters-change_traffic from_user from_target f none m = refl
counters-change_traffic from_user from_target f (some x) m = refl
counters-change_traffic from_target from_user f none m = refl
counters-change_traffic from_target from_user f (some x) m = refl
counters-change_traffic from_target from_target f none m = refl
counters-change_traffic from_target from_target f (some x) m = refl

actual-add_reserved : (n : ℕ) (t : DirectionTrafficInfo) → (add_reserved n t).actual ≡ t.actual
unfolding add_reserved
actual-add_reserved n t = refl

pub actual-reserve :
    (dir d : Direction) (n : ℕ) (domain : Option Bytes) (m : BandlimManager)
    → (counters dir (change_traffic d (add_reserved n) domain m)).actual ≡ (counters dir m).actual
actual-reserve dir d n domain m = ground (
  arith,
  counters-change_traffic dir d (add_reserved n) domain m,
  actual-add_reserved n (counters dir m),
)

pub actual-release :
    (dir d : Direction) (rc : ReservedCapacity) (bytes : ℕ) (domain : Option Bytes)
    (m : BandlimManager)
    → (counters d m).actual + bytes < u64_mod
    → (counters dir (change_traffic d (settle rc bytes) domain m)).actual
      ≡ (counters dir m).actual + if_same d dir bytes
actual-release from_user from_user rc bytes domain m h =
    ap (λ (t : DirectionTrafficInfo). t.actual)
      (counters-change_traffic from_user from_user (settle rc bytes) domain m)
    ∙ actual-settle rc bytes (counters from_user m) h
actual-release from_target from_target rc bytes domain m h =
    ap (λ (t : DirectionTrafficInfo). t.actual)
      (counters-change_traffic from_target from_target (settle rc bytes) domain m)
    ∙ actual-settle rc bytes (counters from_target m) h
actual-release from_user from_target rc bytes domain m h =
    ground (arith, counters-change_traffic from_user from_target (settle rc bytes) domain m)
actual-release from_target from_user rc bytes domain m h =
    ground (arith, counters-change_traffic from_target from_user (settle rc bytes) domain m)

-- What is reserved in a direction after a grant, and after the end of a read.
pub reserved-reserve :
    (dir d : Direction) (n : ℕ) (domain : Option Bytes) (m : BandlimManager)
    → (counters d m).reserved + n < u64_mod
    → (counters dir (change_traffic d (add_reserved n) domain m)).reserved
      ≡ (counters dir m).reserved + if_same d dir n
unfolding add_reserved
reserved-reserve from_user from_user n domain m h =
    ap (λ (t : DirectionTrafficInfo). t.reserved)
      (counters-change_traffic from_user from_user (add_reserved n) domain m)
    ∙ add64_lem (counters from_user m).reserved n h
reserved-reserve from_target from_target n domain m h =
    ap (λ (t : DirectionTrafficInfo). t.reserved)
      (counters-change_traffic from_target from_target (add_reserved n) domain m)
    ∙ add64_lem (counters from_target m).reserved n h
reserved-reserve from_user from_target n domain m h =
    ground (arith, counters-change_traffic from_user from_target (add_reserved n) domain m)
reserved-reserve from_target from_user n domain m h =
    ground (arith, counters-change_traffic from_target from_user (add_reserved n) domain m)

reserved-settle :
    (rc : ReservedCapacity) (bytes o : ℕ) (t : DirectionTrafficInfo)
    → o ≤ t.reserved
    → o - rc.capacity ≤ (settle rc bytes t).reserved
unfolding settle
reserved-settle rc bytes o t h = ground arith

reserved-settle_late :
    (rc : ReservedCapacity) (bytes : ℕ) (t : DirectionTrafficInfo)
    → rc.sequence_number ≢ t.sequence_number
    → (settle rc bytes t).reserved ≡ t.reserved
unfolding settle
reserved-settle_late rc bytes t h = ground (arith, ==_iff rc.sequence_number t.sequence_number)

pub reserved-release :
    (dir d : Direction) (rc : ReservedCapacity) (bytes o : ℕ) (domain : Option Bytes)
    (m : BandlimManager)
    → o ≤ (counters dir m).reserved
    → o - if_same d dir rc.capacity
      ≤ (counters dir (change_traffic d (settle rc bytes) domain m)).reserved
reserved-release from_user from_user rc bytes o domain m h = ground (
  arith,
  counters-change_traffic from_user from_user (settle rc bytes) domain m,
  reserved-settle rc bytes o (counters from_user m) h,
)
reserved-release from_target from_target rc bytes o domain m h = ground (
  arith,
  counters-change_traffic from_target from_target (settle rc bytes) domain m,
  reserved-settle rc bytes o (counters from_target m) h,
)
reserved-release from_user from_target rc bytes o domain m h =
    ground (arith, counters-change_traffic from_user from_target (settle rc bytes) domain m)
reserved-release from_target from_user rc bytes o domain m h =
    ground (arith, counters-change_traffic from_target from_user (settle rc bytes) domain m)

pub reserved-late_release :
    (dir d : Direction) (rc : ReservedCapacity) (bytes : ℕ) (domain : Option Bytes)
    (m : BandlimManager)
    → rc.sequence_number ≢ (counters d m).sequence_number
    → (counters dir (change_traffic d (settle rc bytes) domain m)).reserved
      ≡ (counters dir m).reserved
reserved-late_release from_user from_user rc bytes domain m h =
    ap (λ (t : DirectionTrafficInfo). t.reserved)
      (counters-change_traffic from_user from_user (settle rc bytes) domain m)
    ∙ reserved-settle_late rc bytes (counters from_user m) h
reserved-late_release from_target from_target rc bytes domain m h =
    ap (λ (t : DirectionTrafficInfo). t.reserved)
      (counters-change_traffic from_target from_target (settle rc bytes) domain m)
    ∙ reserved-settle_late rc bytes (counters from_target m) h
reserved-late_release from_user from_target rc bytes domain m h =
    ground (arith, counters-change_traffic from_user from_target (settle rc bytes) domain m)
reserved-late_release from_target from_user rc bytes domain m h =
    ground (arith, counters-change_traffic from_target from_user (settle rc bytes) domain m)

-- The bytes of a read are no more than the counters can hold.
pub read_fits :
    (dir d : Direction) (bytes : ℕ) (m : BandlimManager)
    → (counters d m).actual + bytes < u64_mod
    → (counters dir m).actual < u64_mod
    → (counters dir m).actual + if_same d dir bytes < u64_mod
read_fits from_user from_user bytes m h k = h
read_fits from_target from_target bytes m h k = h
read_fits from_user from_target bytes m h k = omega arith
read_fits from_target from_user bytes m h k = omega arith

pub counters-new_turn :
    (dbl : Double) (dir : Direction) (now : ℕ) (m : BandlimManager)
    → (counters dir m).actual < u64_mod
    → let t = counters dir (update_traffic_counters_for_new_turn dbl now m) in
      ((counters dir m).actual ≤ t.actual + turn_allows dbl dir now m) × (t.actual < u64_mod)
unfolding update_traffic_counters_for_new_turn member
counters-new_turn dbl from_user now m h =
    actual-dir_handler m.sequence_number
      (quote_calculator dbl (turn_multiplier dbl m.last_update_at now))
      m.general_traffic.directive_values.m_out m.general_traffic.user_end_traffic h
counters-new_turn dbl from_target now m h =
    actual-dir_handler m.sequence_number
      (quote_calculator dbl (turn_multiplier dbl m.last_update_at now))
      m.general_traffic.directive_values.m_in m.general_traffic.target_end_traffic h
