-- ===== src/Bandlim.antt =====
-- arataga/bandlim_config.hpp, arataga/acl_handler/sequence_number.hpp and
-- arataga/acl_handler/bandlim_manager.{hpp,cpp}: the bandwidth limits of one user.
--
-- Byte counts and turn numbers are 64-bit words with their wrap-around. Time points are
-- milliseconds. An iterator into the map of domains is the key that it stands at. Logging and the
-- stream operators are left out. The floating-point numbers of the turn's recalculation are the
-- parameter `Double`.
pub mod Turn
use arataga.Prelude.{
  ℕ, ◌+◌, ◌-◌, ◌≡◌, Bool, Option, none, some, List, [], map, ltb, leb, ◌==◌, if◌then◌else◌,
}
use arataga.Prelude.Eq.{Bytes, bytes_eq}
use arataga.Prelude.Map.{lookup, emplace, erase, update}
use arataga.Words.{u64_mod, add64, sub64}

pub record BandlimConfig : Type 0 where
  pub m_in : ℕ
  pub m_out : ℕ

abbrev pub unlimited : ℕ
unlimited = 0

abbrev pub is_unlimited : ℕ → Bool
is_unlimited v = unlimited == v

-- `quote_t`: the constructor from a limit. `quote_t::maximum` stands for `unlimited`.
abbrev pub maximum : ℕ
maximum = 18446744073709551615

unfoldable pub quote : ℕ → ℕ
quote limit = if is_unlimited limit then maximum else limit

unfoldable pub increment : ℕ → ℕ
unfolding add64
increment n = add64 n 1

pub record DirectionTrafficInfo : Type 0 where
  pub m_quote : ℕ
  pub reserved : ℕ
  pub actual : ℕ
  pub sequence_number : ℕ

pub record ChannelLimitsData : Type 0 where
  pub directive_values : BandlimConfig
  pub user_end_traffic : DirectionTrafficInfo
  pub target_end_traffic : DirectionTrafficInfo

pub record DomainTrafficData : Type 0 where
  pub connection_count : ℕ
  pub traffic : ChannelLimitsData

pub record BandlimManager : Type 0 where
  pub directive_personal_limits : BandlimConfig
  pub general_limits : BandlimConfig
  pub general_traffic : ChannelLimitsData
  pub domain_traffic : List (Bytes × DomainTrafficData)
  pub sequence_number : ℕ
  pub last_update_at : ℕ

abbrev selector : ℕ → ℕ → ℕ
selector p d = if is_unlimited p then d else p

unfoldable pub make_personal_limits_with_respect_to_defaults :
    BandlimConfig → BandlimConfig → BandlimConfig
make_personal_limits_with_respect_to_defaults personal defaults = record {
  m_in = selector personal.m_in defaults.m_in;
  m_out = selector personal.m_out defaults.m_out;
}

abbrev fresh_direction : ℕ → ℕ → DirectionTrafficInfo
fresh_direction limit seq = record {
  m_quote = quote limit;
  reserved = 0;
  actual = 0;
  sequence_number = seq;
}

unfoldable pub make_new_channel_limits_data : ℕ → BandlimConfig → ChannelLimitsData
unfolding quote
make_new_channel_limits_data seq from = record {
  directive_values = from;
  user_end_traffic = fresh_direction from.m_out seq;
  target_end_traffic = fresh_direction from.m_in seq;
}

-- The constructor; `now` is the reading of the clock.
unfoldable pub make_bandlim_manager : BandlimConfig → BandlimConfig → ℕ → BandlimManager
unfolding make_personal_limits_with_respect_to_defaults make_new_channel_limits_data
make_bandlim_manager personal defaults now =
    let general = make_personal_limits_with_respect_to_defaults personal defaults in
    record {
      directive_personal_limits = personal;
      general_limits = general;
      general_traffic = make_new_channel_limits_data 0 general;
      domain_traffic = [];
      sequence_number = 0;
      last_update_at = now;
    }

unfoldable pub update_personal_limits :
    BandlimConfig → BandlimConfig → BandlimManager → BandlimManager
unfolding make_personal_limits_with_respect_to_defaults
update_personal_limits personal defaults m =
    let general = make_personal_limits_with_respect_to_defaults personal defaults in
    record m {
      directive_personal_limits = personal;
      general_limits = general;
      general_traffic = record (m.general_traffic) { directive_values = general };
    }

unfoldable pub update_default_limits : BandlimConfig → BandlimManager → BandlimManager
unfolding make_personal_limits_with_respect_to_defaults
update_default_limits defaults m =
    let general =
      make_personal_limits_with_respect_to_defaults m.directive_personal_limits defaults in
    record m {
      general_limits = general;
      general_traffic = record (m.general_traffic) { directive_values = general };
    }

-- A new connection of a domain that is known already.
unfoldable pub count_domain_connection : BandlimConfig → DomainTrafficData → DomainTrafficData
count_domain_connection limits d = record d {
  connection_count = d.connection_count + 1;
  traffic = record (d.traffic) { directive_values = limits };
}

-- A new item, with its first connection counted.
unfoldable pub new_domain : ℕ → BandlimConfig → DomainTrafficData
unfolding make_new_channel_limits_data
new_domain seq limits = record {
  connection_count = 1;
  traffic = make_new_channel_limits_data seq limits;
}

-- The iterator that the method returns stands at `domain`.
unfoldable pub make_domain_limits : Bytes → BandlimConfig → BandlimManager → BandlimManager
unfolding new_domain count_domain_connection
make_domain_limits domain limits m = elim (lookup domain m.domain_traffic) [
  | none ↦ record m {
    domain_traffic = emplace domain (new_domain m.sequence_number limits) m.domain_traffic;
  }
  | some d ↦ record m {
    domain_traffic = update domain (count_domain_connection limits) m.domain_traffic;
  }
]

unfoldable pub uncount_domain_connection : DomainTrafficData → DomainTrafficData
unfolding sub64
uncount_domain_connection d = record d { connection_count = sub64 d.connection_count 1 }

-- `none` is the use of an iterator whose element is gone.
unfoldable pub connection_removed : Bytes → BandlimManager → Option BandlimManager
unfolding uncount_domain_connection
connection_removed domain m = elim (lookup domain m.domain_traffic) [
  | none ↦ none
  | some d ↦ some (record m {
    domain_traffic =
        if (uncount_domain_connection d).connection_count == 0
        then erase domain m.domain_traffic
        else update domain uncount_domain_connection m.domain_traffic;
  })
]
