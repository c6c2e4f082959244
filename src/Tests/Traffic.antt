-- ===== src/Tests/Traffic.antt =====
-- The traffic limiter at concrete inputs, with fixed-point numbers in thousandths in place of the
-- floating-point ones.
use arataga.Prelude.{ℕ, ◌+◌, ◌*◌, ◌/◌, ◌≤◌, ◌≡◌, ◌⊎◌, refl, none, some, [], ◌∷◌, arith}
use arataga.Prelude.Eq.{Bytes, bytes_eq, bytes_beq}
use arataga.Prelude.Map.{lookup, emplace, update}
use arataga.Bandlim.{
  BandlimConfig, BandlimManager, DomainTrafficData, DirectionTrafficInfo, make_bandlim_manager,
  make_domain_limits,
}
use arataga.Bandlim.Turn.{Double, update_traffic_counters_for_new_turn}
use arataga.Limiter.{
  from_user, from_target, ReservedCapacity, detect_max_read_size_for, update_counter, member,
  change_traffic, add_reserved, settle, reserved_amount,
}
use arataga.Limiter.Reserve.{
  WithinQuote, FillsQuote, reserved_amount_lem, add_actual, update_counter-detect_max_read_size_for,
}
use arataga.Limiter.Turns.{entered, domain_reservation_lost}
use arataga.Limiter.Ledger.{Ledger}

abbrev thousandths : Double
thousandths = record {
  D = ℕ;
  of_uint = λ n. n * 1000;
  to_uint = λ d. d / 1000;
  add = λ a b. a + b;
  mul = λ a b. a * b / 1000;
  div = λ a b. a * 1000 / b;
  thousand = 1000000;
  half = 500;
}

abbrev limits : BandlimConfig
limits = record { m_in = 1000; m_out = 500 }

abbrev none_set : BandlimConfig
none_set = record { m_in = 0; m_out = 0 }

abbrev manager : BandlimManager
manager = make_bandlim_manager limits none_set 0

abbrev some_spent : DirectionTrafficInfo
some_spent = record { m_quote = 1000; reserved = 300; actual = 500; sequence_number = 0 }

reserved_amount_lem_example :
    let amount = reserved_amount some_spent none 4096 in
    (amount ≤ 4096)
    × ((amount ≡ 0) ⊎ (WithinQuote amount (some some_spent) × WithinQuote amount none))
    × ((amount ≡ 4096) ⊎ FillsQuote amount (some some_spent) ⊎ FillsQuote amount none)
reserved_amount_lem_example = reserved_amount_lem some_spent none 4096 (omega arith) tt

abbrev of_user : ReservedCapacity
of_user = record { capacity = 500; sequence_number = 0 }

update_counter-detect_max_read_size_for_example :
    update_counter from_user of_user 120 none
      (change_traffic from_user (add_reserved 500) none manager)
    ≡ some (change_traffic from_user (add_actual 120) none manager)
unfolding make_bandlim_manager detect_max_read_size_for
update_counter-detect_max_read_size_for_example =
    update_counter-detect_max_read_size_for from_user 4096 120 none manager (omega arith) refl

abbrev of_target : ReservedCapacity
of_target = record { capacity = 400; sequence_number = 0 }

abbrev reading : BandlimManager
reading = change_traffic from_target (add_reserved 400) none manager

abbrev read_done : BandlimManager
read_done = change_traffic from_target (settle of_target 350) none reading

abbrev turned : BandlimManager
turned = update_traffic_counters_for_new_turn thousandths 1000 read_done

-- A second read is granted 100 while the first one is in progress.
abbrev second : ReservedCapacity
second = record { capacity = 100; sequence_number = 0 }

abbrev both_reading : BandlimManager
both_reading = change_traffic from_target (add_reserved 100) none reading

abbrev first_done : BandlimManager
first_done = change_traffic from_target (settle of_target 350) none both_reading

abbrev history : Ledger
history = record { manager = first_done; allowed = 0; consumed = 350; outstanding = 100 }

abbrev vk : Bytes
vk = b'v' ∷ b'k' ∷ []

abbrev domain_capacity : ReservedCapacity
domain_capacity = record { capacity = 100; sequence_number = 0 }

abbrev in_domain : BandlimManager
in_domain =
    change_traffic from_user (add_reserved 100) (some vk)
      (entered thousandths 1000 vk limits manager)

abbrev after_domain : BandlimManager
after_domain = change_traffic from_user (settle domain_capacity 60) (some vk) in_domain

domain_reservation_lost_example :
    (d : DomainTrafficData) × (lookup vk after_domain.domain_traffic ≡ some d)
    × ((member from_user d.traffic).reserved ≡ 100)
    × ((member from_user after_domain.general_traffic).reserved ≡ 0)
unfolding make_bandlim_manager detect_max_read_size_for entered lookup make_domain_limits
    update_traffic_counters_for_new_turn emplace bytes_beq update_counter update
domain_reservation_lost_example =
    domain_reservation_lost thousandths 1000 vk limits from_user 100 60 manager
      {rc = domain_capacity} {reading = in_domain} {done = after_domain} refl (omega arith)
      (omega arith) refl refl
