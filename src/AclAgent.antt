-- ===== src/AclAgent.antt =====
-- arataga/acl_handler/a_handler.{hpp,cpp}: the agent of one ACL, which opens the entry point and
-- accepts connections.
--
-- The agent's events and the callbacks of Asio run on one thread, so that an event is one step on the
-- agent's state. Its messages are kept in the order of their sending. The acceptor, the handlers of
-- connections (numbers here) and the results of calls of Asio are given with the event.
pub mod History
pub mod Signals
pub mod Driven
pub mod Reached
pub mod Acceptance
pub mod Resuming
pub mod Timer
use arataga.Prelude.{
  ℕ, ◌+◌, ◌==◌, Bool, true, false, Option, none, some, List, [], ◌∷◌, ◌++◌, ltb, if◌then◌else◌,
  length,
}
use arataga.Prelude.Eq.{nat_eq}
use arataga.Prelude.Map.{lookup, emplace, erase, update}
use arataga.Words.{add64}
use arataga.Config.{CommonAclParams}
use arataga.DataTransfer.{
  RemoveReason, normal_completion, io_error, current_operation_timed_out, unsupported_protocol,
  protocol_error, unexpected_and_unsupported_case, no_activity_for_too_long,
  current_operation_canceled, unhandled_exception, ip_version_mismatch, access_denied,
  unresolved_target, target_end_broken, user_end_broken,
  http_response_before_completion_of_http_request, user_end_closed_by_client,
  http_no_incoming_request,
}
use arataga.Limiter.{AuthentificatedUserMap}
use arataga.Limiter.Users.{update_default_bandlims_on_confg_change}

pub data AclState : Type 0 where
  entry_not_created accepting too_many_connections shutting_down : AclState

-- Messages and signals to the agent; a reply names the connection and the completion token.
pub data AclMessage : Type 0 where
  try_create_entry_point accept_next current_accept_completed : AclMessage
  enable_accepting_connections shutdown : AclMessage
  updated_common_acl_params : CommonAclParams → AclMessage
  resolve_reply auth_reply : ℕ → ℕ → AclMessage

-- The counters of removed connections, by their fields' names.
pub record RemoveStats : Type 0 where
  pub remove_reason_normal_completion : ℕ
  pub remove_reason_io_error : ℕ
  pub remove_reason_current_operation_timed_out : ℕ
  pub remove_reason_unsupported_protocol : ℕ
  pub remove_reason_protocol_error : ℕ
  pub remove_reason_unexpected_error : ℕ
  pub remove_reason_no_activity_for_too_long : ℕ
  pub remove_reason_current_operation_canceled : ℕ
  pub remove_reason_unhandled_exception : ℕ
  pub remove_reason_ip_version_mismatch : ℕ
  pub remove_reason_access_denied : ℕ
  pub remove_reason_unresolved_target : ℕ
  pub remove_reason_target_end_broken : ℕ
  pub remove_reason_user_end_broken : ℕ
  pub remove_reason_early_http_response : ℕ
  pub remove_reason_user_end_closed_by_client : ℕ
  pub remove_reason_http_no_incoming_request : ℕ

-- The agent, with the messages that wait for it, the calls of `async_accept` that have not completed
-- and the delayed messages that have not arrived.
pub record Acl : Type 0 where
  pub state : AclState
  pub connections : List (ℕ × ℕ)
  pub connection_id_counter : ℕ
  pub current_common_acl_params : CommonAclParams
  pub authentificated_users : AuthentificatedUserMap
  pub timer_active : Bool
  pub stats : RemoveStats
  pub completed : List (ℕ × ℕ)
  pub queue : List AclMessage
  pub accepts : ℕ
  pub delayed : ℕ

unfoldable pub send : AclMessage → Acl → Acl
send m a = record a { queue = a.queue ++ (m ∷ []) }

unfoldable pub update_remove_handle_stats : RemoveReason → RemoveStats → RemoveStats
update_remove_handle_stats normal_completion s = record s {
  remove_reason_normal_completion = add64 s.remove_reason_normal_completion 1;
}
update_remove_handle_stats io_error s = record s {
  remove_reason_io_error = add64 s.remove_reason_io_error 1;
}
update_remove_handle_stats current_operation_timed_out s = record s {
  remove_reason_current_operation_timed_out = add64 s.remove_reason_current_operation_timed_out 1;
}
update_remove_handle_stats unsupported_protocol s = record s {
  remove_reason_unsupported_protocol = add64 s.remove_reason_unsupported_protocol 1;
}
update_remove_handle_stats protocol_error s = record s {
  remove_reason_protocol_error = add64 s.remove_reason_protocol_error 1;
}
update_remove_handle_stats unexpected_and_unsupported_case s = record s {
  remove_reason_unexpected_error = add64 s.remove_reason_unexpected_error 1;
}
update_remove_handle_stats no_activity_for_too_long s = record s {
  remove_reason_no_activity_for_too_long = add64 s.remove_reason_no_activity_for_too_long 1;
}
update_remove_handle_stats current_operation_canceled s = record s {
  remove_reason_current_operation_canceled = add64 s.remove_reason_current_operation_canceled 1;
}
update_remove_handle_stats unhandled_exception s = record s {
  remove_reason_unhandled_exception = add64 s.remove_reason_unhandled_exception 1;
}
update_remove_handle_stats ip_version_mismatch s = record s {
  remove_reason_ip_version_mismatch = add64 s.remove_reason_ip_version_mismatch 1;
}
update_remove_handle_stats access_denied s = record s {
  remove_reason_access_denied = add64 s.remove_reason_access_denied 1;
}
update_remove_handle_stats unresolved_target s = record s {
  remove_reason_unresolved_target = add64 s.remove_reason_unresolved_target 1;
}
update_remove_handle_stats target_end_broken s = record s {
  remove_reason_target_end_broken = add64 s.remove_reason_target_end_broken 1;
}
update_remove_handle_stats user_end_broken s = record s {
  remove_reason_user_end_broken = add64 s.remove_reason_user_end_broken 1;
}
update_remove_handle_stats http_response_before_completion_of_http_request s = record s {
  remove_reason_early_http_response = add64 s.remove_reason_early_http_response 1;
}
update_remove_handle_stats user_end_closed_by_client s = record s {
  remove_reason_user_end_closed_by_client = add64 s.remove_reason_user_end_closed_by_client 1;
}
update_remove_handle_stats http_no_incoming_request s = record s {
  remove_reason_http_no_incoming_request = add64 s.remove_reason_http_no_incoming_request 1;
}

unfoldable pub try_switch_to_accepting_if_necessary_and_possible : Acl → Acl
try_switch_to_accepting_if_necessary_and_possible a = elim a.state [
  | too_many_connections ↦
      if ltb (length a.connections) a.current_common_acl_params.maxconn
      then send enable_accepting_connections a
      else a
  | entry_not_created ↦ a
  | accepting ↦ a
  | shutting_down ↦ a
]

-- The end of `remove_connection_handler`.
abbrev pub deactivate_if_empty : Acl → Acl
deactivate_if_empty a = elim a.connections [ [] ↦ record a { timer_active = false } | _ ∷ _ ↦ a ]

unfoldable pub remove_connection_handler : ℕ → RemoveReason → Acl → Acl
unfolding update_remove_handle_stats
remove_connection_handler id reason a = deactivate_if_empty (elim (lookup id a.connections) [
  | none ↦ a
  | some _ ↦ try_switch_to_accepting_if_necessary_and_possible (record a {
    connections = erase id a.connections;
    stats = update_remove_handle_stats reason a.stats;
  })
])

-- `none` is the exception of an id that is not known.
unfoldable pub replace_connection_handler : ℕ → ℕ → Acl → Option Acl
replace_connection_handler id handler a = elim (lookup id a.connections) [
  | none ↦ none
  | some _ ↦ some (record a { connections = update id (λ _. handler) a.connections })
]

-- The calls that make an entry point, in their order, each of which may fail.
pub data EntryCall : Type 0 where
  open_acceptor non_blocking reuse_address bind_endpoint start_listening : EntryCall

abbrev pub finish_on_failure : Acl → Acl
finish_on_failure a = record a { delayed = a.delayed + 1 }

-- `on_enter_st_accepting` follows the change of the state.
unfoldable pub enter_accepting : Acl → Acl
enter_accepting a = send accept_next (record a { state = accepting })

unfoldable pub on_try_create_entry_point : (EntryCall → Bool) → Acl → Acl
on_try_create_entry_point fails a =
    if fails open_acceptor
    then finish_on_failure a
    else if fails non_blocking
    then finish_on_failure a
    else if fails reuse_address
    then finish_on_failure a
    else if fails bind_endpoint
    then finish_on_failure a
    else if fails start_listening
    then finish_on_failure a
    else enter_accepting a

unfoldable pub on_accept_next_when_accepting : Acl → Acl
on_accept_next_when_accepting a = record a { accepts = a.accepts + 1 }

unfoldable pub on_accept_completion_when_accepting : Acl → Acl
on_accept_completion_when_accepting a =
    if ltb (length a.connections) a.current_common_acl_params.maxconn
    then send accept_next a
    else record a { state = too_many_connections }

-- The result of a call of `async_accept`: an error, or a socket with the error of its non-blocking
-- mode and the handler that has been made and started for it (`none` when this throws).
pub data Accepted : Type 0 where
  accept_failure : Accepted
  new_socket : Bool → Option ℕ → Accepted

unfoldable pub accept_new_connection : Bool → Option ℕ → Acl → Acl
accept_new_connection error made a =
    let id = add64 a.connection_id_counter 1 in
    if error then record a { connection_id_counter = id } else elim made [
      | none ↦ record a { connection_id_counter = id }
      | some handler ↦ record a {
        connection_id_counter = id;
        timer_active = elim a.connections [ [] ↦ true | _ ∷ _ ↦ a.timer_active ];
        connections = emplace id handler a.connections;
      }
    ]

-- The callback of `async_accept`.
unfoldable pub on_accepted : Accepted → Acl → Acl
on_accepted accept_failure a = send current_accept_completed a
on_accepted (new_socket error made) a =
    send current_accept_completed (accept_new_connection error made a)

-- `on_dns_result` and `on_auth_result`: the token is completed when its connection still exists.
unfoldable pub on_reply : ℕ → ℕ → Acl → Acl
on_reply id token a = elim (lookup id a.connections) [
  | none ↦ a
  | some _ ↦ record a { completed = a.completed ++ ((id, token) ∷ []) }
]

unfoldable pub on_updated_config : CommonAclParams → Acl → Acl
on_updated_config p a = try_switch_to_accepting_if_necessary_and_possible (record a {
  current_common_acl_params = p;
  authentificated_users =
      update_default_bandlims_on_confg_change p.client_bandlim a.authentificated_users;
})

unfoldable pub on_shutdown : Acl → Acl
on_shutdown a = record a { state = shutting_down }

-- `so_evt_finish`.
unfoldable pub so_evt_finish : Acl → Acl
so_evt_finish a = record a { connections = []; timer_active = false }

-- The subscriptions of `so_define_agent`: a message without a handler in the state is dropped.
unfoldable pub handle : (EntryCall → Bool) → AclState → AclMessage → Acl → Acl
handle fails shutting_down m a = a
handle fails entry_not_created shutdown a = on_shutdown a
handle fails entry_not_created (updated_common_acl_params p) a = on_updated_config p a
handle fails entry_not_created try_create_entry_point a = on_try_create_entry_point fails a
handle fails accepting shutdown a = on_shutdown a
handle fails accepting (updated_common_acl_params p) a = on_updated_config p a
handle fails accepting (resolve_reply id token) a = on_reply id token a
handle fails accepting (auth_reply id token) a = on_reply id token a
handle fails accepting accept_next a = on_accept_next_when_accepting a
handle fails accepting current_accept_completed a = on_accept_completion_when_accepting a
handle fails too_many_connections shutdown a = on_shutdown a
handle fails too_many_connections (updated_common_acl_params p) a = on_updated_config p a
handle fails too_many_connections (resolve_reply id token) a = on_reply id token a
handle fails too_many_connections (auth_reply id token) a = on_reply id token a
handle fails too_many_connections enable_accepting_connections a = enter_accepting a
handle fails _ _ a = a
