-- ===== src/Tests/Configs.antt =====
-- The config processor at concrete configs, with one byte of a text for each config.
use arataga.Prelude.{
  ℕ, zero, suc, ◌<◌, ◌≡◌, ◌⊎◌, inl, inr, refl, true, false, not, none, some, List, [], ◌∷◌, map,
  arith, ◌++◌, All, length,
}
use arataga.Prelude.Eq.{Bytes}
use arataga.Prelude.Order.{nat_order, pair_order}
use arataga.Prelude.Sorted.{sort, filter, find_key}
use arataga.Prelude.Sorting.{count_if}
use arataga.Prelude.Duplicates.{has_duplicates}
use arataga.Words.{add64, sub64}
use arataga.Config.{AclConfig, Config, CommonAclParams, socks, http}
use arataga.ConfigProcessor.{
  Processor, RunningAcl, IoThread, so_direct_mbox, Message, exact, make_processor, shutdown,
  port_and_in_addr, try_handle_just_parsed_config, accept_new_config, handle_upcoming_acl_list,
  stop_and_remove_outdated_acls, launch_new_acls, launch_acl, next_io_thread, create_dispatchers,
  create_dispatchers_if_necessary, detect_io_threads_count, acl_count,
  index_of_io_thread_with_lowest_acl_count, sort_acl_list_and_ensure_uniqueness,
}
use arataga.ConfigProcessor.Running.{config_of}
use arataga.ConfigProcessor.Accept.{try_handle_just_parsed_config-runs}
use arataga.ConfigProcessor.Replace.{
  running_key, is_listed, stop_and_remove_outdated_acls-parts, listed_acl_stays,
}
use arataga.ConfigProcessor.Counts.{on_thread}
use arataga.ConfigProcessor.Threads.{IsConsistent}
use arataga.ConfigProcessor.Histories.{after_config, after_configs, after_configs-IsConsistent}
use arataga.ConfigProcessor.Requests.{
  Authentificate, on_debug_auth, find_acl, at_index, debug_auth_request, passed_on, replied,
  no_acl_with_parameters,
}
use arataga.ConfigProcessor.Routing.{IsOther, IsFirst, on_debug_auth-routed}

abbrev params : CommonAclParams
params = record {
  maxconn = 100;
  client_bandlim = record { m_in = 0; m_out = 0 };
  failed_auth_reply_timeout = 750;
  protocol_detection_timeout = 3000;
  socks_handshake_phase_timeout = 5000;
  dns_resolving_timeout = 4000;
  authentification_timeout = 1500;
  connect_target_timeout = 5000;
  socks_bind_timeout = 20000;
  idle_connection_timeout = 300000;
  http_headers_complete_timeout = 5000;
  http_negative_response_timeout = 2000;
  io_chunk_size = 8192;
  io_chunk_count = 4;
  http_message_limits = record {
    max_request_target_length = 8192;
    max_field_name_length = 2048;
    max_field_value_length = 10240;
    max_total_headers_size = 81920;
    max_status_line_length = 1024;
  };
}

abbrev with_acl_list : List AclConfig → Config
with_acl_list acls = record {
  log_level = 2;
  dns_cache_cleanup_period = 30000;
  nameserver_ips = [];
  denied_ports = [];
  common_acl_params = params;
  acls = acls;
}

abbrev socks_acl : ℕ → AclConfig
socks_acl port = record { protocol = socks; port = port; in_addr = 1; out_addr = 7 }

abbrev http_acl : ℕ → AclConfig
http_acl port = record { protocol = http; port = port; in_addr = 1; out_addr = 7 }

abbrev first_config : Config
first_config = with_acl_list (socks_acl 3002 ∷ socks_acl 3001 ∷ socks_acl 3003 ∷ [])

-- One ACL stays, one changes its protocol, one is gone, one is new.
abbrev second_config : Config
second_config = with_acl_list (socks_acl 3001 ∷ http_acl 3002 ∷ socks_acl 3004 ∷ [])

abbrev doubled_config : Config
doubled_config = with_acl_list (socks_acl 3001 ∷ http_acl 3001 ∷ [])

abbrev parse : Bytes → Bytes ⊎ Config
parse [] = inl []
parse (zero ∷ rest) = inr first_config
parse (suc n ∷ rest) = inr doubled_config

abbrev started : Processor
started = make_processor (exact 2) 77

abbrev after_first : Processor
after_first = after_config 4 first_config started

abbrev place : RunningAcl → ℕ × ℕ
place racl = (racl.config.port, racl.io_thread_index)

first_runs : map place after_first.running_acls ≡ (3001, 0) ∷ (3002, 1) ∷ (3003, 1) ∷ []
unfolding try_handle_just_parsed_config sort_acl_list_and_ensure_uniqueness accept_new_config
    handle_upcoming_acl_list launch_new_acls stop_and_remove_outdated_acls
    create_dispatchers_if_necessary make_processor launch_acl create_dispatchers
    detect_io_threads_count index_of_io_thread_with_lowest_acl_count next_io_thread add64 sub64
first_runs = refl

second_runs :
    map place (after_config 4 second_config after_first).running_acls
    ≡ (3001, 0) ∷ (3002, 1) ∷ (3004, 1) ∷ []
unfolding try_handle_just_parsed_config sort_acl_list_and_ensure_uniqueness accept_new_config
    handle_upcoming_acl_list launch_new_acls stop_and_remove_outdated_acls
    create_dispatchers_if_necessary make_processor launch_acl create_dispatchers
    detect_io_threads_count index_of_io_thread_with_lowest_acl_count next_io_thread add64 sub64
second_runs = refl

abbrev two_running : Processor
two_running = record {
  io_threads_count = exact 2;
  io_threads =
      (record { auth_mbox = 1; dns_mbox = 2; timer_provider = 3; running_acl_count = 1 }
        ∷ record { auth_mbox = 4; dns_mbox = 5; timer_provider = 6; running_acl_count = 1 }
        ∷ []);
  running_acls =
      (record { config = socks_acl 3001; io_thread_index = 0; mbox = 7 }
        ∷ record { config = socks_acl 3002; io_thread_index = 1; mbox = 8 }
        ∷ []);
  config_update_counter = 1;
  acl_id_seed = record { seed = 77; ordinal = 3 };
  own_acl_id_seed = record { seed = 77; ordinal = 1 };
  next_mbox = 9;
}

two_running-Counted :
    (i : ℕ) → acl_count i two_running.io_threads ≡ count_if (on_thread i) two_running.running_acls
two_running-Counted zero = refl
two_running-Counted (suc zero) = refl
two_running-Counted (suc (suc i)) = ground arith

two_running-IsConsistent : IsConsistent two_running
two_running-IsConsistent = record {
  sorted = ((refl, tt), (tt, tt));
  few = omega arith;
  counted = two_running-Counted;
}

two_threads : 0 < detect_io_threads_count 4 (exact 2)
unfolding detect_io_threads_count
two_threads = omega arith

after_configs-IsConsistent_example :
    IsConsistent (after_configs 4 (first_config ∷ doubled_config ∷ second_config ∷ []) started)
after_configs-IsConsistent_example =
    after_configs-IsConsistent 4 77 (exact 2) (first_config ∷ doubled_config ∷ second_config ∷ [])
      two_threads (omega arith, (omega arith, (omega arith, tt)))

try_handle_just_parsed_config-runs_example :
    ((has_duplicates port_and_in_addr second_config.acls ≡ true)
      × (acl : AclConfig) × (try_handle_just_parsed_config 4 second_config two_running ≡ inl acl))
    ⊎ ((has_duplicates port_and_in_addr second_config.acls ≡ false)
        × (after : Processor) × (messages : List Message) × (try_handle_just_parsed_config 4
              second_config two_running
            ≡ inr (after, messages))
        × (map config_of after.running_acls ≡ sort port_and_in_addr second_config.acls))
try_handle_just_parsed_config-runs_example =
    try_handle_just_parsed_config-runs 4 second_config two_running

stop_and_remove_outdated_acls-parts_example :
    ((stop_and_remove_outdated_acls second_config two_running).0.running_acls
      ≡ filter (is_listed second_config) two_running.running_acls)
    × ((stop_and_remove_outdated_acls second_config two_running).1
        ≡ map
            (λ racl. shutdown racl.mbox)
            (filter (λ racl. not (is_listed second_config racl)) two_running.running_acls))
stop_and_remove_outdated_acls-parts_example =
    stop_and_remove_outdated_acls-parts second_config two_running ((refl, tt), (tt, tt))
      ((refl, (refl, tt)), ((refl, tt), (tt, tt)))

listed_acl_stays_example :
    find_key running_key
      (3001, 1)
      (handle_upcoming_acl_list 4 second_config two_running).0.running_acls
    ≡ some (record { config = socks_acl 3001; io_thread_index = 0; mbox = 7 })
listed_acl_stays_example =
    listed_acl_stays 4 second_config two_running (3001, 1)
      (record { config = socks_acl 3001; io_thread_index = 0; mbox = 7 }) ((refl, tt), (tt, tt))
      ((refl, (refl, tt)), ((refl, tt), (tt, tt))) refl refl

abbrev debug_request : Authentificate
debug_request = record {
  proxy_in_addr = 1;
  proxy_port = 3002;
  user_ip = 9;
  username = none;
  password = none;
  target_host = 97 ∷ [];
  target_port = 80;
}

on_debug_auth-routed_example :
    (All (IsOther 1 3002) two_running.running_acls
      × (on_debug_auth 5 debug_request two_running
          ≡ replied (record { replier = 5; status = 400; body = no_acl_with_parameters })))
    ⊎ ((racl : RunningAcl) × IsFirst 1 3002 racl two_running.running_acls
        × (t : IoThread) × (before : List IoThread) × (after : List IoThread)
        × (two_running.io_threads ≡ before ++ (t ∷ after))
        × (length before ≡ racl.io_thread_index)
        × (on_debug_auth 5 debug_request two_running
            ≡ passed_on t.auth_mbox (record {
              req_id = record {
                seed = two_running.own_acl_id_seed.seed;
                ordinal = two_running.own_acl_id_seed.ordinal;
                proxy_port = 0;
                id = 0;
              };
              reply_to = so_direct_mbox;
              completion_token = some 5;
              proxy_in_addr = 1;
              proxy_port = 3002;
              user_ip = 9;
              username = none;
              password = none;
              target_host = 97 ∷ [];
              target_port = 80;
            })))
on_debug_auth-routed_example =
    on_debug_auth-routed 5 debug_request two_running two_running-IsConsistent

debug_auth_passed :
    on_debug_auth 5 debug_request two_running
    ≡ passed_on 4 (debug_auth_request 5 debug_request two_running)
unfolding on_debug_auth find_acl at_index
debug_auth_passed = refl
