-- ===== src/Authentificator.antt =====
-- arataga/authentificator/{pub.hpp,a_authentificator.hpp,a_authentificator.cpp}, and
-- `denied_ports_config_t` of arataga/config.hpp: the agent that decides who may connect where.
--
-- A handler takes the agent's state and returns the new one with the message that it sends. Mboxes
-- and completion tokens are passed through, as numbers. Logging is left out, and so is the
-- registration of the statistics. The counters count events and are not bounded.
pub mod Decision
pub mod Replies
use arataga.Prelude.{
  ℕ, ◌+◌, ◌≡◌, Bool, true, false, ◌&&◌, ◌||◌, Option, none, some, List, [], ◌∷◌, leb, ◌==◌,
  if◌then◌else◌,
}
use arataga.Prelude.Eq.{Eq, Bytes, bytes_beq, nat_eq, bytes_eq}
use arataga.Prelude.Map.{lookup}
use arataga.Bandlim.{BandlimConfig}
use arataga.UserList.{
  OneLimit, SiteLimitsData, AuthData, UserData, domain_name, try_find_limits_for, by_ip_eq,
  by_login_eq,
}

pub data DeniedCase : Type 0 where
  single_port : ℕ → DeniedCase
  ports_range : ℕ → ℕ → DeniedCase

unfoldable pub checker : ℕ → DeniedCase → Bool
checker port (single_port p) = p == port
checker port (ports_range low high) = leb low port && leb port high

unfoldable pub is_denied : ℕ → List DeniedCase → Bool
unfolding checker
is_denied port [] = false
is_denied port (c ∷ cs) = checker port c || is_denied port cs

pub data FailureReason : Type 0 where
  unknown_user target_blocked auth_operation_timedout : FailureReason

pub record SuccessfulAuth : Type 0 where
  pub user_id : ℕ
  pub user_bandlims : BandlimConfig
  pub domain_limits : Option OneLimit

pub data AuthResult : Type 0 where
  failed_auth : FailureReason → AuthResult
  successful_auth : SuccessfulAuth → AuthResult

-- `arataga::utils::acl_req_id_t` with its seed.
pub record AclReqId : Type 0 where
  pub seed : ℕ
  pub ordinal : ℕ
  pub proxy_port : ℕ
  pub id : ℕ

pub record AuthRequest : Type 0 where
  pub req_id : AclReqId
  pub reply_to : ℕ
  pub completion_token : Option ℕ
  pub proxy_in_addr : ℕ
  pub proxy_port : ℕ
  pub user_ip : ℕ
  pub username : Option Bytes
  pub password : Option Bytes
  pub target_host : Bytes
  pub target_port : ℕ

-- `auth_reply_t` with its receiver and the delay, in milliseconds, of the sending.
pub record AuthReply : Type 0 where
  pub reply_to : ℕ
  pub delay : ℕ
  pub req_id : AclReqId
  pub completion_token : Option ℕ
  pub result : AuthResult

pub record AuthStats : Type 0 where
  pub auth_total_count : ℕ
  pub auth_by_ip_count : ℕ
  pub failed_auth_by_ip_count : ℕ
  pub auth_by_login_count : ℕ
  pub failed_auth_by_login_count : ℕ
  pub failed_authorization_denied_port : ℕ

pub record Authentificator : Type 0 where
  pub auth_data : AuthData
  pub denied_ports : List DeniedCase
  pub failed_auth_reply_timeout : ℕ
  pub auth_stats : AuthStats

unfoldable pub on_updated_user_list : AuthData → Authentificator → Authentificator
on_updated_user_list d a = record a { auth_data = d }

unfoldable pub on_updated_auth_params : List DeniedCase → ℕ → Authentificator → Authentificator
on_updated_auth_params ports timeout a = record a {
  denied_ports = ports;
  failed_auth_reply_timeout = timeout;
}

unfoldable pub complete_failed_auth : Authentificator → AuthRequest → FailureReason → AuthReply
complete_failed_auth a req reason = record {
  reply_to = req.reply_to;
  delay = a.failed_auth_reply_timeout;
  req_id = req.req_id;
  completion_token = req.completion_token;
  result = failed_auth reason;
}

unfoldable pub try_detect_domain_limits : Authentificator → UserData → Bytes → Option OneLimit
try_detect_domain_limits a user_data target_host =
    elim (lookup user_data.site_limits_id a.auth_data.site_limits) [
      | none ↦ none
      | some limits ↦ try_find_limits_for (domain_name target_host) limits
    ]

unfoldable pub complete_successful_auth : Authentificator → AuthRequest → UserData → AuthReply
unfolding try_detect_domain_limits
complete_successful_auth a req user_data = record {
  reply_to = req.reply_to;
  delay = 0;
  req_id = req.req_id;
  completion_token = req.completion_token;
  result = successful_auth (record {
    user_id = user_data.user_id;
    user_bandlims = user_data.bandlims;
    domain_limits = try_detect_domain_limits a user_data req.target_host;
  });
}

unfoldable pub try_authorize_user : Authentificator → AuthRequest → Option FailureReason
try_authorize_user a req =
    if is_denied req.target_port a.denied_ports then some target_blocked else none

abbrev change_stats : (AuthStats → AuthStats) → Authentificator → Authentificator
change_stats f a = record a { auth_stats = f a.auth_stats }

unfoldable pub count_total : AuthStats → AuthStats
count_total s = record s { auth_total_count = s.auth_total_count + 1 }

unfoldable pub count_by_ip : AuthStats → AuthStats
count_by_ip s = record s { auth_by_ip_count = s.auth_by_ip_count + 1 }

unfoldable pub count_failed_by_ip : AuthStats → AuthStats
count_failed_by_ip s = record s { failed_auth_by_ip_count = s.failed_auth_by_ip_count + 1 }

unfoldable pub count_by_login : AuthStats → AuthStats
count_by_login s = record s { auth_by_login_count = s.auth_by_login_count + 1 }

unfoldable pub count_failed_by_login : AuthStats → AuthStats
count_failed_by_login s = record s { failed_auth_by_login_count = s.failed_auth_by_login_count + 1 }

unfoldable pub count_denied_port : FailureReason → AuthStats → AuthStats
count_denied_port target_blocked s = record s {
  failed_authorization_denied_port = s.failed_authorization_denied_port + 1;
}
count_denied_port _ s = s

-- What both kinds of authentification do once the client is known.
unfoldable pub authorize : AuthRequest → UserData → Authentificator → Authentificator × AuthReply
unfolding try_authorize_user complete_failed_auth complete_successful_auth count_denied_port
authorize req user_data a = elim (try_authorize_user a req) [
  | some reason ↦ (change_stats (count_denied_port reason) a, complete_failed_auth a req reason)
  | none ↦ (a, complete_successful_auth a req user_data)
]

unfoldable pub do_auth_by_ip : AuthRequest → Authentificator → Authentificator × AuthReply
unfolding authorize complete_failed_auth count_by_ip count_failed_by_ip
do_auth_by_ip req a =
    elim (lookup
      (record {
        proxy_in_addr = req.proxy_in_addr;
        proxy_port = req.proxy_port;
        user_ip = req.user_ip;
      })
      a.auth_data.by_ip) [
        | none ↦ (change_stats count_failed_by_ip a, complete_failed_auth a req unknown_user)
        | some user_data ↦ authorize req user_data (change_stats count_by_ip a)
      ]

unfoldable pub do_auth_by_login_password :
    Bytes → AuthRequest → Authentificator → Authentificator × AuthReply
unfolding authorize complete_failed_auth count_by_login count_failed_by_login
do_auth_by_login_password username req a =
    elim (lookup
      (record {
        proxy_in_addr = req.proxy_in_addr;
        proxy_port = req.proxy_port;
        username = username;
        password = elim req.password [ some p ↦ p | none ↦ [] ];
      })
      a.auth_data.by_login) [
        | none ↦ (change_stats count_failed_by_login a, complete_failed_auth a req unknown_user)
        | some user_data ↦ authorize req user_data (change_stats count_by_login a)
      ]

unfoldable pub on_auth_request : AuthRequest → Authentificator → Authentificator × AuthReply
unfolding do_auth_by_ip do_auth_by_login_password count_total
on_auth_request req a = elim req.username [
  | some username ↦ do_auth_by_login_password username req (change_stats count_total a)
  | none ↦ do_auth_by_ip req (change_stats count_total a)
]
