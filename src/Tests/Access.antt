-- ===== src/Tests/Access.antt =====
-- Authentification and the limits of sites at concrete inputs.
use arataga.Prelude.{ℕ, ◌≡◌, ◌↔◌, refl, true, none, some, List, [], ◌∷◌, if◌then◌else◌}
use arataga.Prelude.Eq.{Bytes, bytes_beq}
use arataga.Prelude.Map.{lookup}
use arataga.Bandlim.{BandlimConfig}
use arataga.UserList.{
  AuthByLoginKey, UserData, SiteLimitsData, is_subdomain_of, try_find_limits_for, domain_name,
}
use arataga.UserList.Subdomain.{Subdomain, is_subdomain_of_iff}
use arataga.UserList.Limits.{IsLongest, try_find_limits_for-IsLongest}
use arataga.Authentificator.{
  is_denied, single_port, ports_range, AuthRequest, Authentificator, on_auth_request, failed_auth,
  target_blocked,
}
use arataga.Authentificator.Decision.{Outcome, on_auth_request-Outcome}
use arataga.Authentificator.Replies.{
  Event, auth_request, updated_auth_params, run, is_failed, on_auth_request_replies, run-Counted,
  Counted, tally,
}

abbrev vk : Bytes
vk = b'v' ∷ b'k' ∷ b'.' ∷ b'c' ∷ b'o' ∷ b'm' ∷ []

abbrev m_vk : Bytes
m_vk = b'm' ∷ b'.' ∷ b'v' ∷ b'k' ∷ b'.' ∷ b'c' ∷ b'o' ∷ b'm' ∷ []

abbrev host_name : Bytes
host_name = b'A' ∷ b'.' ∷ b'm' ∷ b'.' ∷ b'V' ∷ b'k' ∷ b'.' ∷ b'c' ∷ b'o' ∷ b'm' ∷ []

abbrev slow : BandlimConfig
slow = record { m_in = 1000; m_out = 500 }

abbrev fast : BandlimConfig
fast = record { m_in = 0; m_out = 0 }

abbrev sites : SiteLimitsData
sites = record { domain = vk; bandlims = slow } ∷ record { domain = m_vk; bandlims = fast } ∷ []

abbrev alice : UserData
alice = record { bandlims = slow; site_limits_id = 7; user_id = 42 }

abbrev by_login_key : AuthByLoginKey
by_login_key = record {
  proxy_in_addr = 1;
  proxy_port = 8080;
  username = b'a' ∷ [];
  password = b'p' ∷ [];
}

abbrev agent : Authentificator
agent = record {
  auth_data = record {
    by_ip = [];
    by_login = (by_login_key, alice) ∷ [];
    site_limits = (7, sites) ∷ [];
  };
  denied_ports = single_port 25 ∷ ports_range 100 200 ∷ [];
  failed_auth_reply_timeout = 750;
  auth_stats = record {
    auth_total_count = 0;
    auth_by_ip_count = 0;
    failed_auth_by_ip_count = 0;
    auth_by_login_count = 0;
    failed_auth_by_login_count = 0;
    failed_authorization_denied_port = 0;
  };
}

abbrev asks : ℕ → AuthRequest
asks port = record {
  req_id = record { seed = 1; ordinal = 2; proxy_port = 8080; id = 3 };
  reply_to = 5;
  completion_token = none;
  proxy_in_addr = 1;
  proxy_port = 8080;
  user_ip = 9;
  username = some (b'a' ∷ []);
  password = some (b'p' ∷ []);
  target_host = host_name;
  target_port = port;
}

is_subdomain_of_iff_example : (is_subdomain_of m_vk vk ≡ true) ↔ Subdomain m_vk vk
is_subdomain_of_iff_example = is_subdomain_of_iff m_vk vk

try_find_limits_for-IsLongest_example : IsLongest m_vk sites (try_find_limits_for m_vk sites)
try_find_limits_for-IsLongest_example = try_find_limits_for-IsLongest m_vk sites

finds_longest :
    try_find_limits_for (domain_name host_name) sites
    ≡ some (record { domain = m_vk; bandlims = fast })
unfolding try_find_limits_for domain_name
finds_longest = refl

denied_port : (on_auth_request (asks 150) agent).1.result ≡ failed_auth target_blocked
unfolding on_auth_request lookup bytes_beq is_denied
denied_port = refl

on_auth_request-Outcome_example : Outcome agent (asks 80) (on_auth_request (asks 80) agent).1.result
on_auth_request-Outcome_example = on_auth_request-Outcome agent (asks 80)

on_auth_request_replies_example :
    let (a', reply) = on_auth_request (asks 25) agent in
    (reply.reply_to ≡ 5)
    × (reply.req_id ≡ (asks 25).req_id)
    × (reply.completion_token ≡ none)
    × (reply.delay ≡ (if is_failed reply.result then 750 else 0))
    × (a'.auth_data ≡ agent.auth_data)
    × (a'.denied_ports ≡ agent.denied_ports)
    × (a'.failed_auth_reply_timeout ≡ 750)
on_auth_request_replies_example = on_auth_request_replies agent (asks 25)

abbrev events : List Event
events = auth_request (asks 25) ∷ updated_auth_params [] 10 ∷ auth_request (asks 25) ∷ []

run-Counted_example :
    Counted agent.auth_stats (run events agent).0.auth_stats (λ w. tally w events agent)
run-Counted_example = run-Counted events agent
