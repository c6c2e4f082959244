-- ===== src/Limiter.antt =====
-- arataga/acl_handler/a_handler.cpp: `actual_traffic_limiter_t` and the map of authentificated
-- users, with `traffic_limiter_t` of arataga/acl_handler/connection_handler_ifaces.{hpp,cpp}.
--
-- A limiter holds the keys that its iterators stand at. A method that would use an iterator whose
-- element is gone returns `none`.
pub mod Users
pub mod Ledger
pub mod Counters
pub mod Rate
pub mod Turns
pub mod Reserve
use arataga.Prelude.{
  ℕ, ◌+◌, ◌-◌, ◌≡◌, Bool, true, false, ◌&&◌, Option, none, some, List, min, map, ltb, leb, ◌==◌,
  if◌then◌else◌,
}
use arataga.Prelude.Eq.{Bytes, bytes_eq, nat_eq}
use arataga.Prelude.Map.{lookup, emplace, erase, update}
use arataga.Words.{add64, sub64}
use arataga.Bandlim.{
  BandlimConfig, DirectionTrafficInfo, ChannelLimitsData, DomainTrafficData, BandlimManager,
  make_bandlim_manager, update_personal_limits, update_default_limits, make_domain_limits,
  connection_removed,
}
use arataga.Bandlim.Turn.{Double, update_traffic_counters_for_new_turn}
use arataga.UserList.{OneLimit}

pub data Direction : Type 0 where
  from_user from_target : Direction

pub record ReservedCapacity : Type 0 where
  pub capacity : ℕ
  pub sequence_number : ℕ

-- `get_reference_to_member` with the member that the direction selects.
unfoldable pub member : Direction → ChannelLimitsData → DirectionTrafficInfo
member from_user c = c.user_end_traffic
member from_target c = c.target_end_traffic

-- A change through that reference.
unfoldable pub change_member :
    Direction
    → (DirectionTrafficInfo → DirectionTrafficInfo)
    → ChannelLimitsData
    → ChannelLimitsData
change_member from_user f c = record c { user_end_traffic = f c.user_end_traffic }
change_member from_target f c = record c { target_end_traffic = f c.target_end_traffic }

abbrev change_domain :
    Direction
    → (DirectionTrafficInfo → DirectionTrafficInfo)
    → DomainTrafficData
    → DomainTrafficData
change_domain dir f d = record d { traffic = change_member dir f d.traffic }

-- The general counters and, if the limiter has a domain, the counters of the domain.
unfoldable pub change_traffic :
    Direction
    → (DirectionTrafficInfo → DirectionTrafficInfo)
    → Option Bytes
    → BandlimManager
    → BandlimManager
unfolding change_member
change_traffic dir f none m = record m { general_traffic = change_member dir f m.general_traffic }
change_traffic dir f (some domain) m = record m {
  general_traffic = change_member dir f m.general_traffic;
  domain_traffic = update domain (change_domain dir f) m.domain_traffic;
}

unfoldable pub free_space_or_zero : DirectionTrafficInfo → ℕ
unfolding add64
free_space_or_zero t =
    let spent = add64 t.reserved t.actual in if ltb spent t.m_quote then t.m_quote - spent else 0

-- The traffic counters of the limiter's domain, if it has one.
unfoldable pub domain_member :
    Direction → Option Bytes → BandlimManager → Option (Option DirectionTrafficInfo)
unfolding member
domain_member dir none m = some none
domain_member dir (some domain) m = elim (lookup domain m.domain_traffic) [
  | none ↦ none
  | some d ↦ some (some (member dir d.traffic))
]

unfoldable pub reserved_amount : DirectionTrafficInfo → Option DirectionTrafficInfo → ℕ → ℕ
unfolding free_space_or_zero
reserved_amount total none buffer_size = min (free_space_or_zero total) buffer_size
reserved_amount total (some domain) buffer_size =
    min (min (free_space_or_zero total) (free_space_or_zero domain)) buffer_size

unfoldable pub add_reserved : ℕ → DirectionTrafficInfo → DirectionTrafficInfo
unfolding add64
add_reserved amount t = record t { reserved = add64 t.reserved amount }

unfoldable pub detect_max_read_size_for :
    Direction → ℕ → Option Bytes → BandlimManager → Option (ReservedCapacity × BandlimManager)
unfolding domain_member reserved_amount change_traffic add_reserved
detect_max_read_size_for dir buffer_size domain m =
    let total = member dir m.general_traffic in
    elim (domain_member dir domain m) [
      | none ↦ none
      | some opt_domain ↦
          let amount = reserved_amount total opt_domain buffer_size in
          some (
            record { capacity = amount; sequence_number = total.sequence_number },
            change_traffic dir (add_reserved amount) domain m,
          )
    ]

-- The part of `update_counter` for one set of counters.
unfoldable pub settle : ReservedCapacity → ℕ → DirectionTrafficInfo → DirectionTrafficInfo
unfolding add64
settle rc bytes t = record t {
  actual = add64 t.actual bytes;
  reserved =
      if (rc.sequence_number == t.sequence_number) && leb rc.capacity t.reserved
      then t.reserved - rc.capacity
      else t.reserved;
}

unfoldable pub update_counter :
    Direction → ReservedCapacity → ℕ → Option Bytes → BandlimManager → Option BandlimManager
unfolding domain_member change_traffic settle
update_counter dir rc bytes domain m = elim (domain_member dir domain m) [
  | none ↦ none
  | some opt_domain ↦ some (change_traffic dir (settle rc bytes) domain m)
]

pub record AuthentificatedUserInfo : Type 0 where
  pub connection_count : ℕ
  pub bandlims : BandlimManager

abbrev pub AuthentificatedUserMap : Type 0
AuthentificatedUserMap = List (ℕ × AuthentificatedUserInfo)

pub record TrafficLimiter : Type 0 where
  pub user : ℕ
  pub domain : Option Bytes

abbrev set_bandlims : BandlimManager → AuthentificatedUserInfo → AuthentificatedUserInfo
set_bandlims m u = record u { bandlims = m }

unfoldable pub reserve_read_portion :
    Direction
    → ℕ
    → TrafficLimiter
    → AuthentificatedUserMap
    → Option (ReservedCapacity × AuthentificatedUserMap)
unfolding detect_max_read_size_for
reserve_read_portion dir buffer_size l users = elim (lookup l.user users) [
  | none ↦ none
  | some u ↦ elim (detect_max_read_size_for dir buffer_size l.domain u.bandlims) [
    | none ↦ none
    | some (rc, m) ↦ some (rc, update l.user (set_bandlims m) users)
  ]
]

unfoldable pub release_reserved_capacity :
    Direction
    → ReservedCapacity
    → ℕ
    → TrafficLimiter
    → AuthentificatedUserMap
    → Option AuthentificatedUserMap
unfolding update_counter
release_reserved_capacity dir rc bytes l users = elim (lookup l.user users) [
  | none ↦ none
  | some u ↦ elim (update_counter dir rc bytes l.domain u.bandlims) [
    | none ↦ none
    | some m ↦ some (update l.user (set_bandlims m) users)
  ]
]

-- `reserved_capacity_t::release`: after an error no byte counts as read.
unfoldable pub release :
    Direction
    → Bool
    → ReservedCapacity
    → ℕ
    → TrafficLimiter
    → AuthentificatedUserMap
    → Option AuthentificatedUserMap
unfolding release_reserved_capacity
release dir ec rc bytes_transferred l users =
    release_reserved_capacity dir rc (if ec then 0 else bytes_transferred) l users
