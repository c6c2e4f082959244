-- ===== src/Bandlim/Turn.antt =====
-- arataga/acl_handler/bandlim_manager.cpp: the recalculation of the counters when a turn begins.
use arataga.Prelude.{ℕ, ◌-◌, map, leb, if◌then◌else◌}
use arataga.Words.{sub64}
use arataga.Bandlim.{
  quote, increment, DirectionTrafficInfo, ChannelLimitsData, DomainTrafficData, BandlimManager,
}

-- The floating-point type `double` as far as the recalculation uses it: conversions, the
-- arithmetic, and the literals 1000.0 and 0.5.
pub record Double : Type 1 where
  pub D : Type 0
  pub of_uint : ℕ → D
  pub to_uint : D → ℕ
  pub add : D → D → D
  pub mul : D → D → D
  pub div : D → D → D
  pub thousand : D
  pub half : D

module _ (dbl : Double) where
  open dbl use {D, of_uint, to_uint, add, mul, div, thousand, half}

  unfoldable pub quote_calculator : D → ℕ → ℕ
  quote_calculator multiplier nat_value = to_uint (add (mul (of_uint nat_value) multiplier) half)

  unfoldable pub turn_multiplier : ℕ → ℕ → D
  turn_multiplier last_update_at update_at = div (of_uint (update_at - last_update_at)) thousand

-- `dir_handler`. `old_quote` is what the previous turn allowed, by its real duration.
unfoldable pub dir_handler : ℕ → (ℕ → ℕ) → ℕ → DirectionTrafficInfo → DirectionTrafficInfo
unfolding sub64 quote
dir_handler seq_num calculator new_quote f =
    let old_quote = calculator f.m_quote in
    record f {
      sequence_number = seq_num;
      actual = if leb f.actual old_quote then 0 else sub64 f.actual old_quote;
      m_quote = quote new_quote;
      reserved = 0;
    }

unfoldable pub processor : ℕ → (ℕ → ℕ) → ChannelLimitsData → ChannelLimitsData
unfolding dir_handler
processor seq_num calculator traffic = record traffic {
  user_end_traffic =
      dir_handler seq_num calculator traffic.directive_values.m_out traffic.user_end_traffic;
  target_end_traffic =
      dir_handler seq_num calculator traffic.directive_values.m_in traffic.target_end_traffic;
}

unfoldable pub process_domain : ℕ → (ℕ → ℕ) → DomainTrafficData → DomainTrafficData
process_domain seq_num calculator d = record d { traffic = processor seq_num calculator d.traffic }

-- `seq_num` is captured before the turn number grows, as the lambda of the source captures it.
unfoldable pub update_traffic_counters_for_new_turn : Double → ℕ → BandlimManager → BandlimManager
unfolding quote_calculator turn_multiplier increment process_domain processor
update_traffic_counters_for_new_turn dbl update_at m =
    let calculator = quote_calculator dbl (turn_multiplier dbl m.last_update_at update_at) in
    let seq_num = m.sequence_number in
    record m {
      last_update_at = update_at;
      sequence_number = increment m.sequence_number;
      general_traffic = processor seq_num calculator m.general_traffic;
      domain_traffic = map (λ kv. (kv.0, process_domain seq_num calculator kv.1)) m.domain_traffic;
    }
