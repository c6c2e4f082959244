-- ===== src/Limiter/Users.antt =====
-- arataga/acl_handler/a_handler.cpp: how limiters are made and destroyed, and what the agent does
-- with the map of authentificated users when the config changes and when a turn begins.
use arataga.Prelude.{ℕ, ◌+◌, Option, none, some, List, map, ◌==◌, if◌then◌else◌}
use arataga.Prelude.Eq.{nat_eq}
use arataga.Prelude.Map.{lookup, emplace, erase, update}
use arataga.Words.{sub64}
use arataga.Bandlim.{
  BandlimConfig, BandlimManager, make_bandlim_manager, update_personal_limits,
  update_default_limits, make_domain_limits, connection_removed,
}
use arataga.Bandlim.Turn.{Double, update_traffic_counters_for_new_turn}
use arataga.UserList.{OneLimit}
use arataga.Authentificator.{SuccessfulAuth}
use arataga.Limiter.{AuthentificatedUserInfo, AuthentificatedUserMap, TrafficLimiter}

-- The first part of `user_authentificated`: the user's entry.
unfoldable pub enter_user :
    SuccessfulAuth → BandlimConfig → ℕ → AuthentificatedUserMap → AuthentificatedUserInfo
enter_user info client_bandlim now users = elim (lookup info.user_id users) [
  | none ↦ record {
    connection_count = 1;
    bandlims = make_bandlim_manager info.user_bandlims client_bandlim now;
  }
  | some u ↦ record {
    connection_count = u.connection_count + 1;
    bandlims = update_personal_limits info.user_bandlims client_bandlim u.bandlims;
  }
]

-- The second part: the limits of the target's domain.
unfoldable pub enter_domain : Option OneLimit → BandlimManager → BandlimManager
enter_domain none m = m
enter_domain (some l) m = make_domain_limits l.domain l.bandlims m

-- The map with the entry of `uid` set, present or not.
unfoldable pub store_user :
    ℕ → AuthentificatedUserInfo → AuthentificatedUserMap → AuthentificatedUserMap
store_user uid u users = elim (lookup uid users) [
  | none ↦ emplace uid u users
  | some _ ↦ update uid (λ _. u) users
]

abbrev limit_domain : Option OneLimit → Option (List ℕ)
limit_domain none = none
limit_domain (some l) = some l.domain

unfoldable pub user_authentificated :
    SuccessfulAuth
    → BandlimConfig
    → ℕ
    → AuthentificatedUserMap
    → AuthentificatedUserMap × TrafficLimiter
unfolding enter_user enter_domain store_user
user_authentificated info client_bandlim now users =
    let u = enter_user info client_bandlim now users in
    (
      store_user info.user_id (record u { bandlims = enter_domain info.domain_limits u.bandlims })
          users,
      record { user = info.user_id; domain = limit_domain info.domain_limits },
    )

-- The destructor's use of the domain's iterator.
unfoldable pub leave_domain : Option (List ℕ) → BandlimManager → Option BandlimManager
leave_domain none m = some m
leave_domain (some domain) m = connection_removed domain m

-- The destructor of `actual_traffic_limiter_t`. `none` is the use of an iterator whose element is
-- gone.
unfoldable pub destroy_limiter :
    TrafficLimiter → AuthentificatedUserMap → Option AuthentificatedUserMap
unfolding leave_domain sub64
destroy_limiter l users = elim (lookup l.user users) [
  | none ↦ none
  | some u ↦ elim (leave_domain l.domain u.bandlims) [
    | none ↦ none
    | some m ↦
        let count = sub64 u.connection_count 1 in
        some (
          if count == 0
          then erase l.user users
          else update l.user (λ _. record { connection_count = count; bandlims = m }) users)
  ]
]

unfoldable pub update_default_bandlims_on_confg_change :
    BandlimConfig → AuthentificatedUserMap → AuthentificatedUserMap
update_default_bandlims_on_confg_change client_bandlim users =
    map
      (λ kv.
        (kv.0, record (kv.1) { bandlims = update_default_limits client_bandlim (kv.1).bandlims }))
      users

unfoldable pub update_traffic_limit_quotes_on_new_turn :
    Double → ℕ → AuthentificatedUserMap → AuthentificatedUserMap
update_traffic_limit_quotes_on_new_turn dbl now users =
    map
      (λ kv. (
        kv.0,
        record (kv.1) { bandlims = update_traffic_counters_for_new_turn dbl now (kv.1).bandlims },
      ))
      users
