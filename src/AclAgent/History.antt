-- ===== src/AclAgent/History.antt =====
-- arataga/acl_handler/a_handler.cpp: the agent's histories, one event after another.
use arataga.Prelude.{
  ℕ, ◌≡◌, ◌⊎◌, inl, inr, arith, Option-cases, ◌-◌, ◌==◌, Bool, false, none, some, List, [], ◌∷◌,
  if◌then◌else◌,
}
use arataga.Prelude.Eq.{nat_eq}
use arataga.Prelude.Map.{lookup, update}
use arataga.Config.{CommonAclParams}
use arataga.DataTransfer.{RemoveReason}
use arataga.AclAgent.{
  Acl, entry_not_created, accepting, too_many_connections, shutting_down, try_create_entry_point,
  shutdown, updated_common_acl_params, resolve_reply, auth_reply, EntryCall, Accepted, send, handle,
  on_accepted, remove_connection_handler, replace_connection_handler, so_evt_finish,
}

-- What can happen to the agent: a waiting message is handled, a delayed one arrives, an accept
-- completes, a handler of a connection calls the agent, or another agent sends a message.
pub data Event : Type 0 where
  message_handled : (EntryCall → Bool) → Event
  delayed_arrived finished shutdown_sent : Event
  accept_completed : Accepted → Event
  connection_removed : ℕ → RemoveReason → Event
  handler_replaced : ℕ → ℕ → Event
  config_sent : CommonAclParams → Event
  dns_reply_sent auth_reply_sent : ℕ → ℕ → Event

-- The next message is taken out of the queue and handled.
unfoldable pub handle_next : (EntryCall → Bool) → Acl → Acl
handle_next fails a = elim a.queue [
  | [] ↦ a
  | m ∷ rest ↦ handle fails a.state m (record a { queue = rest })
]

-- An event that is not possible in the state changes nothing.
unfoldable pub step : Event → Acl → Acl
step (message_handled fails) a = handle_next fails a
step delayed_arrived a =
    if a.delayed == 0 then a else send try_create_entry_point (record a { delayed = a.delayed - 1 })
step finished a = elim a.state [
  | shutting_down ↦ so_evt_finish a
  | entry_not_created ↦ a
  | accepting ↦ a
  | too_many_connections ↦ a
]
step shutdown_sent a = send shutdown a
step (accept_completed result) a =
    if a.accepts == 0 then a else on_accepted result (record a { accepts = a.accepts - 1 })
step (connection_removed id reason) a = remove_connection_handler id reason a
step (handler_replaced id handler) a = elim (replace_connection_handler id handler a) [
  | none ↦ a
  | some replaced ↦ replaced
]
step (config_sent p) a = send (updated_common_acl_params p) a
step (dns_reply_sent id token) a = send (resolve_reply id token) a
step (auth_reply_sent id token) a = send (auth_reply id token) a

-- A handler is replaced, or its connection is not known and nothing changes.
pub replaced-cases :
    (id handler : ℕ) (a : Acl)
    → (step (handler_replaced id handler) a ≡ a)
      ⊎ (step (handler_replaced id handler) a
          ≡ record a { connections = update id (λ _. handler) a.connections })
unfolding step replace_connection_handler
replaced-cases id handler a = elim (Option-cases (lookup id a.connections)) [
  | inl e ↦ inl (ground arith)
  | inr (g, e) ↦ inr (ground arith)
]

unfoldable pub run : List Event → Acl → Acl
run [] a = a
run (e ∷ es) a = run es (step e a)

-- The agent when it has been started.
unfoldable pub make_acl : CommonAclParams → Acl
make_acl p = record {
  state = entry_not_created;
  connections = [];
  connection_id_counter = 0;
  current_common_acl_params = p;
  authentificated_users = [];
  timer_active = false;
  stats = record {
    remove_reason_normal_completion = 0;
    remove_reason_io_error = 0;
    remove_reason_current_operation_timed_out = 0;
    remove_reason_unsupported_protocol = 0;
    remove_reason_protocol_error = 0;
    remove_reason_unexpected_error = 0;
    remove_reason_no_activity_for_too_long = 0;
    remove_reason_current_operation_canceled = 0;
    remove_reason_unhandled_exception = 0;
    remove_reason_ip_version_mismatch = 0;
    remove_reason_access_denied = 0;
    remove_reason_unresolved_target = 0;
    remove_reason_target_end_broken = 0;
    remove_reason_user_end_broken = 0;
    remove_reason_early_http_response = 0;
    remove_reason_user_end_closed_by_client = 0;
    remove_reason_http_no_incoming_request = 0;
  };
  completed = [];
  queue = try_create_entry_point ∷ [];
  accepts = 0;
  delayed = 0;
}
