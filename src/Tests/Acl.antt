-- ===== src/Tests/Acl.antt =====
-- The theorems about the agent of an ACL at a concrete history, and a run of it.
use arataga.Prelude.{◌≤◌, ◌≡◌, refl, Bool, true, false, some, List, [], ◌∷◌, ◌++◌, arith, length}
use arataga.Prelude.Map.{lookup, emplace, erase}
use arataga.Words.{add64}
use arataga.Limiter.Users.{update_default_bandlims_on_confg_change}
use arataga.Config.{CommonAclParams}
use arataga.DataTransfer.{io_error}
use arataga.AclAgent.{
  too_many_connections, accepting, EntryCall, accept_failure, new_socket, handle, send,
  on_try_create_entry_point, enter_accepting, on_accept_next_when_accepting, on_accepted,
  accept_new_connection, on_accept_completion_when_accepting, remove_connection_handler,
  try_switch_to_accepting_if_necessary_and_possible, on_updated_config, update_remove_handle_stats,
}
use arataga.AclAgent.History.{
  Event, message_handled, delayed_arrived, accept_completed, connection_removed, config_sent, run,
  step, handle_next, make_acl,
}
use arataga.AclAgent.Reached.{most}
use arataga.AclAgent.Acceptance.{run-connections_bounded, Awaits, run-Awaits}
use arataga.AclAgent.Resuming.{LeavesWithin, run-resumes}
use arataga.AclAgent.Timer.{Timed, run-Timed}

abbrev params : CommonAclParams
params = record {
  maxconn = 1;
  client_bandlim = record { m_in = 0; m_out = 0 };
  failed_auth_reply_timeout = 750;
  protocol_detection_timeout = 3000;
  socks_handshake_phase_timeout = 5000;
  dns_resolving_timeout = 4000;
  authentification_timeout = 1500;
  connect_target_timeout = 5000;
  socks_bind_timeout = 20000;
  idle_connection_timeout = 300000;
  http_headers_complete_timeout = 5000;
  http_negative_response_timeout = 2000;
  io_chunk_size = 8192;
  io_chunk_count = 4;
  http_message_limits = record {
    max_request_target_length = 8192;
    max_field_name_length = 2048;
    max_field_value_length = 10240;
    max_total_headers_size = 81920;
    max_status_line_length = 1024;
  };
}

abbrev no_failure : EntryCall → Bool
no_failure _ = false

abbrev all_fail : EntryCall → Bool
all_fail _ = true

-- The entry point is made at the second attempt, and one connection is accepted, which is the limit.
abbrev to_the_limit : List Event
to_the_limit =
    message_handled all_fail
    ∷ delayed_arrived
    ∷ message_handled no_failure
    ∷ message_handled no_failure
    ∷ accept_completed (new_socket false (some 9))
    ∷ message_handled no_failure
    ∷ []

at_the_limit : (run to_the_limit (make_acl params)).state ≡ too_many_connections
unfolding run step handle_next make_acl handle on_try_create_entry_point send enter_accepting
    on_accept_next_when_accepting on_accepted accept_new_connection
    on_accept_completion_when_accepting emplace
at_the_limit = refl

-- The limit becomes 2, and the connection is removed before this is known to the agent.
abbrev resumed : List Event
resumed =
    message_handled no_failure
    ∷ message_handled no_failure
    ∷ accept_completed accept_failure
    ∷ message_handled no_failure
    ∷ message_handled no_failure
    ∷ accept_completed (new_socket false (some 9))
    ∷ message_handled no_failure
    ∷ config_sent (record params { maxconn = 2 })
    ∷ connection_removed 1 io_error
    ∷ message_handled no_failure
    ∷ message_handled no_failure
    ∷ []

accepting_again : (run resumed (make_acl params)).state ≡ accepting
unfolding run step handle_next make_acl handle on_try_create_entry_point send enter_accepting
    on_accept_next_when_accepting on_accepted accept_new_connection
    on_accept_completion_when_accepting emplace remove_connection_handler lookup add64
    try_switch_to_accepting_if_necessary_and_possible on_updated_config update_remove_handle_stats
    update_default_bandlims_on_confg_change erase
accepting_again = refl

no_connections_left : (run resumed (make_acl params)).connections ≡ []
unfolding run step handle_next make_acl handle on_try_create_entry_point send enter_accepting
    on_accept_next_when_accepting on_accepted accept_new_connection
    on_accept_completion_when_accepting emplace remove_connection_handler lookup add64
    try_switch_to_accepting_if_necessary_and_possible on_updated_config update_remove_handle_stats
    update_default_bandlims_on_confg_change erase
no_connections_left = refl

run-connections_bounded_example : length (run resumed (make_acl params)).connections ≤ 2
unfolding most
run-connections_bounded_example =
    run-connections_bounded 2 params resumed (omega arith) (omega arith) (ground arith)

run-Awaits_example :
    Awaits (run to_the_limit (make_acl params)).state (run to_the_limit (make_acl params))
run-Awaits_example = run-Awaits params to_the_limit

run-Timed_example : Timed (run to_the_limit (make_acl params))
run-Timed_example = run-Timed params to_the_limit

-- At the limit the only connection is removed.
abbrev with_a_place : List Event
with_a_place = to_the_limit ++ (connection_removed 1 io_error ∷ [])

run-resumes_example :
    LeavesWithin no_failure
      (length (run with_a_place (make_acl params)).queue)
      (run with_a_place (make_acl params))
unfolding run step handle_next make_acl handle on_try_create_entry_point send enter_accepting
    on_accept_next_when_accepting on_accepted accept_new_connection
    on_accept_completion_when_accepting emplace remove_connection_handler lookup add64
    try_switch_to_accepting_if_necessary_and_possible on_updated_config update_remove_handle_stats
    update_default_bandlims_on_confg_change erase
run-resumes_example = run-resumes no_failure params with_a_place refl (omega arith)
