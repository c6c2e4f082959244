-- ===== src/AclAgent/Reached.antt =====
-- arataga/acl_handler/a_handler.cpp: what waits for the agent and how many connections it has, in any
-- history.
use arataga.Prelude.{
  ℕ, ◌+◌, ◌-◌, ◌≤◌, ◌≡◌, sym, subst, inl, inr, Bool, true, false, none, some, List, [], ◌∷◌, arith,
  ltb, ◌==◌, if◌then◌else◌, length, Bool-cases, option_both,
}
use arataga.Prelude.Eq.{nat_eq}
use arataga.Prelude.Map.{lookup, emplace, erase, update}
use arataga.Words.{add64}
use arataga.Config.{CommonAclParams}
use arataga.DataTransfer.{RemoveReason}
use arataga.AclAgent.Signals.{
  is_try, is_next, is_completed, is_enable, count, behind, peak, counts-append, behind-append,
  peak-append, length-erase, length-emplace, length-update,
}
use arataga.AclAgent.Driven.{Fits, Driven, switch-Driven, remove-Loose, handle-Driven}
use arataga.AclAgent.History.{
  Event, message_handled, delayed_arrived, finished, shutdown_sent, accept_completed,
  connection_removed, handler_replaced, config_sent, dns_reply_sent, auth_reply_sent, step, run,
  handle_next, make_acl, replaced-cases,
}
use arataga.AclAgent.{
  Acl, AclState, entry_not_created, accepting, too_many_connections, shutting_down, AclMessage,
  try_create_entry_point, current_accept_completed, shutdown, updated_common_acl_params,
  resolve_reply, auth_reply, Accepted, accept_failure, new_socket, send, on_accepted,
  accept_new_connection, handle, so_evt_finish, remove_connection_handler, deactivate_if_empty,
  replace_connection_handler, update_remove_handle_stats,
}

-- The limit that a new config brings.
abbrev pub brought : Event → ℕ
brought (config_sent p) = p.maxconn
brought _ = 0

-- The largest limit that the events of a history bring.
unfoldable pub most : List Event → ℕ
most [] = 0
most (e ∷ es) = let rest = most es in if ltb rest (brought e) then brought e else rest

module _ (b : ℕ) where
  -- A message from outside that the agent does not count.
  send-Driven :
      (s : AclState) (m : AclMessage) (a : Acl)
      → is_try m + is_next m + is_completed m + is_enable m ≡ 0
      → peak (m ∷ []) ≤ b
      → Driven b (record a { state = s })
      → Driven b (send m (record a { state = s }))
  unfolding Driven Fits send
  send-Driven entry_not_created m a n p h =
      ground (arith, counts-append a.queue m, behind-append a.queue m, peak-append b a.queue m)
  send-Driven accepting m a n p h =
      ground (arith, counts-append a.queue m, behind-append a.queue m, peak-append b a.queue m)
  send-Driven too_many_connections m a n p h =
      ground (arith, counts-append a.queue m, behind-append a.queue m, peak-append b a.queue m)
  send-Driven shutting_down m a n p h =
      ground (arith, counts-append a.queue m, behind-append a.queue m, peak-append b a.queue m)

  delayed-Driven :
      (s : AclState) (a : Acl)
      → Driven b (record a { state = s })
      → Driven b (step delayed_arrived (record a { state = s }))
  unfolding Driven Fits send step peak
  delayed-Driven entry_not_created a h = ground (
    arith,
    counts-append a.queue try_create_entry_point,
    behind-append a.queue try_create_entry_point,
    peak-append b a.queue try_create_entry_point,
  )
  delayed-Driven accepting a h = ground (
    arith,
    counts-append a.queue try_create_entry_point,
    behind-append a.queue try_create_entry_point,
    peak-append b a.queue try_create_entry_point,
  )
  delayed-Driven too_many_connections a h = ground (
    arith,
    counts-append a.queue try_create_entry_point,
    behind-append a.queue try_create_entry_point,
    peak-append b a.queue try_create_entry_point,
  )
  delayed-Driven shutting_down a h = ground (
    arith,
    counts-append a.queue try_create_entry_point,
    behind-append a.queue try_create_entry_point,
    peak-append b a.queue try_create_entry_point,
  )

  -- The signal that the accept has completed, with at most one connection more.
  completed-Driven :
      (s : AclState) (c : List (ℕ × ℕ)) (a : Acl) (id : ℕ) (timer : Bool)
      → length c ≤ length a.connections + 1
      → 1 ≤ a.accepts
      → Driven b (record a { state = s })
      → Driven b (
          send current_accept_completed (record a {
            state = s;
            accepts = a.accepts - 1;
            connections = c;
            connection_id_counter = id;
            timer_active = timer;
          }))
  unfolding Driven Fits send peak
  completed-Driven entry_not_created c a id timer l n h = ground (
    arith,
    counts-append a.queue current_accept_completed,
    behind-append a.queue current_accept_completed,
    peak-append b a.queue current_accept_completed,
  )
  completed-Driven accepting c a id timer l n h = ground (
    arith,
    counts-append a.queue current_accept_completed,
    behind-append a.queue current_accept_completed,
    peak-append b a.queue current_accept_completed,
  )
  completed-Driven too_many_connections c a id timer l n h = ground (
    arith,
    counts-append a.queue current_accept_completed,
    behind-append a.queue current_accept_completed,
    peak-append b a.queue current_accept_completed,
  )
  completed-Driven shutting_down c a id timer l n h = ground (
    arith,
    counts-append a.queue current_accept_completed,
    behind-append a.queue current_accept_completed,
    peak-append b a.queue current_accept_completed,
  )

  accepted-Driven :
      (result : Accepted) (a : Acl)
      → 1 ≤ a.accepts
      → Driven b a
      → Driven b (on_accepted result (record a { accepts = a.accepts - 1 }))
  unfolding on_accepted accept_new_connection
  accepted-Driven accept_failure a n h =
      completed-Driven a.state a.connections a a.connection_id_counter a.timer_active (omega arith)
        n h
  accepted-Driven (new_socket true made) a n h =
      completed-Driven a.state a.connections a (add64 a.connection_id_counter 1) a.timer_active
        (omega arith) n h
  accepted-Driven (new_socket false none) a n h =
      completed-Driven a.state a.connections a (add64 a.connection_id_counter 1) a.timer_active
        (omega arith) n h
  accepted-Driven (new_socket false (some handler)) a n h =
      let id = add64 a.connection_id_counter 1 in
      completed-Driven a.state (emplace id handler a.connections) a id
        (elim a.connections [ [] ↦ true | _ ∷ _ ↦ a.timer_active ])
        (length-emplace id handler a.connections) n h

  replaced-Driven :
      (id handler : ℕ) (a : Acl)
      → Driven b a
      → Driven b (record a { connections = update id (λ _. handler) a.connections })
  unfolding Driven
  replaced-Driven id handler a h = ground (arith, length-update id (λ _. handler) a.connections)

  deactivate-Driven : (a : Acl) → Driven b a → Driven b (deactivate_if_empty a)
  unfolding Driven
  deactivate-Driven a h =
      elim a.connections
        as (λ c. Driven b (elim c [ [] ↦ record a { timer_active = false } | _ ∷ _ ↦ a ])) [
          | [] ↦ h
          | _ ∷ _ ↦ h
        ]

  removed-Driven :
      (id : ℕ) (reason : RemoveReason) (a : Acl)
      → Driven b a
      → Driven b (remove_connection_handler id reason a)
  unfolding remove_connection_handler
  removed-Driven id reason a h = deactivate-Driven _ (
      option_both (Driven b) (lookup id a.connections) _ _ h (λ _.
        switch-Driven b a.state
          (record a {
            connections = erase id a.connections;
            stats = update_remove_handle_stats reason a.stats;
          })
          (remove-Loose b a.state a (erase id a.connections)
            (update_remove_handle_stats reason a.stats) (length-erase id a.connections) h)))

  finished-Driven :
      (s : AclState) (a : Acl)
      → Driven b (record a { state = s })
      → Driven b (step finished (record a { state = s }))
  unfolding Driven Fits step so_evt_finish
  finished-Driven shutting_down a h = ground arith
  finished-Driven entry_not_created a h = h
  finished-Driven accepting a h = h
  finished-Driven too_many_connections a h = h

  pub step-Driven : (e : Event) (a : Acl) → brought e ≤ b → Driven b a → Driven b (step e a)
  unfolding step handle_next replace_connection_handler peak
  step-Driven (message_handled fails) a k h = next a.queue h
    where
      next :
          (q : List AclMessage)
          → Driven b (record a { queue = q })
          → Driven b
              (elim q [ [] ↦ a | m ∷ rest ↦ handle fails a.state m (record a { queue = rest }) ])
      next [] g = h
      next (m ∷ rest) g = handle-Driven b fails a.state m a rest g
  step-Driven delayed_arrived a k h = delayed-Driven a.state a h
  step-Driven finished a k h = finished-Driven a.state a h
  step-Driven shutdown_sent a k h = send-Driven a.state shutdown a (omega arith) (ground arith) h
  step-Driven (accept_completed result) a k h =
      let P : Bool → Type 0 = λ t.
        Driven b (if t then a else on_accepted result (record a { accepts = a.accepts - 1 })) in
      elim (Bool-cases (a.accepts == 0)) [
        | inl e ↦ subst P (sym e) h
        | inr e ↦ subst P (sym e) (accepted-Driven result a (ground arith) h)
      ]
  step-Driven (connection_removed id reason) a k h = removed-Driven id reason a h
  step-Driven (handler_replaced id handler) a k h = elim (replaced-cases id handler a) [
    | inl e ↦ subst (Driven b) (sym e) h
    | inr e ↦ subst (Driven b) (sym e) (replaced-Driven id handler a h)
  ]
  step-Driven (config_sent p) a k h =
      send-Driven a.state (updated_common_acl_params p) a (omega arith) (ground arith) h
  step-Driven (dns_reply_sent id token) a k h =
      send-Driven a.state (resolve_reply id token) a (omega arith) (ground arith) h
  step-Driven (auth_reply_sent id token) a k h =
      send-Driven a.state (auth_reply id token) a (omega arith) (ground arith) h

  run-Driven : (es : List Event) (a : Acl) → most es ≤ b → Driven b a → Driven b (run es a)
  unfolding run most
  run-Driven [] a k h = h
  run-Driven (e ∷ es) a k h =
      run-Driven es (step e a) (ground arith) (step-Driven e a (ground arith) h)

  make_acl-Driven : (p : CommonAclParams) → 1 ≤ b → p.maxconn ≤ b → Driven b (make_acl p)
  unfolding make_acl Driven Fits count behind peak
  make_acl-Driven p o k = ground arith

  pub history-Driven :
      (p : CommonAclParams) (es : List Event)
      → 1 ≤ b
      → p.maxconn ≤ b
      → most es ≤ b
      → Driven b (run es (make_acl p))
  history-Driven p es o k m = run-Driven es (make_acl p) m (make_acl-Driven p o k)
