-- ===== src/AclAgent/Timer.antt =====
-- arataga/acl_handler/a_handler.cpp: when the agent is a consumer of the timer.
use arataga.Prelude.{
  ℕ, ◌-◌, ◌≡◌, refl, sym, ◌∙◌, subst, inl, inr, Bool, true, false, none, some, List, [], ◌∷◌, ltb,
  ◌==◌, length, Option, Option-cases, List-cases, arith, if_both, option_both,
}
use arataga.Prelude.Eq.{nat_eq}
use arataga.Prelude.Map.{lookup, emplace, erase, update}
use arataga.Words.{add64}
use arataga.Config.{CommonAclParams}
use arataga.Limiter.Users.{update_default_bandlims_on_confg_change}
use arataga.DataTransfer.{RemoveReason}
use arataga.AclAgent.History.{
  Event, message_handled, delayed_arrived, finished, shutdown_sent, accept_completed,
  connection_removed, handler_replaced, config_sent, dns_reply_sent, auth_reply_sent, step, run,
  handle_next, make_acl, replaced-cases,
}
use arataga.AclAgent.{
  Acl, AclState, entry_not_created, accepting, too_many_connections, shutting_down, AclMessage,
  try_create_entry_point, accept_next, current_accept_completed, enable_accepting_connections,
  shutdown, updated_common_acl_params, resolve_reply, auth_reply, EntryCall, open_acceptor,
  non_blocking, reuse_address, bind_endpoint, start_listening, Accepted, accept_failure, new_socket,
  send, handle, enter_accepting, on_try_create_entry_point, on_accept_next_when_accepting,
  on_accept_completion_when_accepting, on_accepted, accept_new_connection, on_reply,
  on_updated_config, on_shutdown, so_evt_finish, remove_connection_handler, deactivate_if_empty,
  replace_connection_handler, update_remove_handle_stats,
  try_switch_to_accepting_if_necessary_and_possible,
}

abbrev pub has_any : List (ℕ × ℕ) → Bool
has_any [] = false
has_any (_ ∷ _) = true

-- The agent is called by the timer while it has connections.
unfoldable pub Timed : Acl → Type 0
Timed a = a.timer_active ≡ has_any a.connections

has_any-update : (id h : ℕ) (m : List (ℕ × ℕ)) → has_any (update id (λ _. h) m) ≡ has_any m
unfolding update
has_any-update id h [] = refl
has_any-update id h ((j, g) ∷ m) =
    if_both (λ (c : List (ℕ × ℕ)). has_any c ≡ true) (j == id) _ _ refl refl

has_any-emplace : (id h : ℕ) (m : List (ℕ × ℕ)) → has_any (emplace id h m) ≡ true
unfolding emplace
has_any-emplace id h [] = refl
has_any-emplace id h ((j, g) ∷ m) =
    if_both (λ (c : List (ℕ × ℕ)). has_any c ≡ true) (j == id) _ _ refl refl

switch-Timed :
    (s : AclState) (a : Acl)
    → Timed (record a { state = s })
    → Timed (try_switch_to_accepting_if_necessary_and_possible (record a { state = s }))
unfolding Timed try_switch_to_accepting_if_necessary_and_possible send
switch-Timed too_many_connections a h =
    if_both Timed (ltb (length a.connections) a.current_common_acl_params.maxconn) _ _ h h
switch-Timed entry_not_created a h = h
switch-Timed accepting a h = h
switch-Timed shutting_down a h = h

module _ (fails : EntryCall → Bool) where
  entry : (a : Acl) → Timed a → Timed (on_try_create_entry_point fails a)
  unfolding Timed on_try_create_entry_point enter_accepting send
  entry a h = if_both Timed (fails open_acceptor) _ _ h (
      if_both Timed (fails non_blocking) _ _ h (
        if_both Timed (fails reuse_address) _ _ h (
          if_both Timed (fails bind_endpoint) _ _ h
            (if_both Timed (fails start_listening) _ _ h h))))

  config : (p : CommonAclParams) (a : Acl) → Timed a → Timed (on_updated_config p a)
  unfolding Timed on_updated_config
  config p a h =
      switch-Timed a.state
        (record a {
          current_common_acl_params = p;
          authentificated_users =
              update_default_bandlims_on_confg_change p.client_bandlim a.authentificated_users;
        })
        h

  reply : (i t : ℕ) (a : Acl) → Timed a → Timed (on_reply i t a)
  unfolding Timed on_reply
  reply i t a h = option_both Timed (lookup i a.connections) _ _ h (λ _. h)

  handle-Timed : (s : AclState) (m : AclMessage) (a : Acl) → Timed a → Timed (handle fails s m a)
  unfolding Timed handle enter_accepting send on_accept_next_when_accepting
      on_accept_completion_when_accepting on_shutdown
  handle-Timed shutting_down m a h = h
  handle-Timed entry_not_created try_create_entry_point a h = entry a h
  handle-Timed entry_not_created accept_next a h = h
  handle-Timed entry_not_created current_accept_completed a h = h
  handle-Timed entry_not_created enable_accepting_connections a h = h
  handle-Timed entry_not_created shutdown a h = h
  handle-Timed entry_not_created (updated_common_acl_params p) a h = config p a h
  handle-Timed entry_not_created (resolve_reply i t) a h = h
  handle-Timed entry_not_created (auth_reply i t) a h = h
  handle-Timed accepting try_create_entry_point a h = h
  handle-Timed accepting accept_next a h = h
  handle-Timed accepting current_accept_completed a h =
      if_both Timed (ltb (length a.connections) a.current_common_acl_params.maxconn) _ _ h h
  handle-Timed accepting enable_accepting_connections a h = h
  handle-Timed accepting shutdown a h = h
  handle-Timed accepting (updated_common_acl_params p) a h = config p a h
  handle-Timed accepting (resolve_reply i t) a h = reply i t a h
  handle-Timed accepting (auth_reply i t) a h = reply i t a h
  handle-Timed too_many_connections try_create_entry_point a h = h
  handle-Timed too_many_connections accept_next a h = h
  handle-Timed too_many_connections current_accept_completed a h = h
  handle-Timed too_many_connections enable_accepting_connections a h = h
  handle-Timed too_many_connections shutdown a h = h
  handle-Timed too_many_connections (updated_common_acl_params p) a h = config p a h
  handle-Timed too_many_connections (resolve_reply i t) a h = reply i t a h
  handle-Timed too_many_connections (auth_reply i t) a h = reply i t a h

accepted-Timed : (result : Accepted) (a : Acl) → Timed a → Timed (on_accepted result a)
unfolding Timed on_accepted accept_new_connection send
accepted-Timed accept_failure a h = h
accepted-Timed (new_socket true made) a h = h
accepted-Timed (new_socket false none) a h = h
accepted-Timed (new_socket false (some handler)) a h =
    timer a.connections h
    ∙ sym (has_any-emplace (add64 a.connection_id_counter 1) handler a.connections)
  where
    timer :
        (c : List (ℕ × ℕ))
        → a.timer_active ≡ has_any c
        → (elim c [ [] ↦ true | _ ∷ _ ↦ a.timer_active ]) ≡ true
    timer [] e = refl
    timer (_ ∷ _) e = e

-- The end of a removal sets the timer right when connections have been lost.
deactivate-Timed :
    (a : Acl)
    → (has_any a.connections ≡ true → a.timer_active ≡ true)
    → Timed (deactivate_if_empty a)
unfolding Timed
deactivate-Timed a h = elim (List-cases a.connections) [
  | inl e ↦ ground arith
  | inr (x, c, e) ↦ ground arith
]

switch-timer :
    (s : AclState) (a : Acl)
    → (try_switch_to_accepting_if_necessary_and_possible (record a { state = s })).timer_active
      ≡ a.timer_active
unfolding try_switch_to_accepting_if_necessary_and_possible send
switch-timer too_many_connections a =
    if_both (λ (x : Acl). x.timer_active ≡ a.timer_active)
      (ltb (length a.connections) a.current_common_acl_params.maxconn) _ _ refl refl
switch-timer entry_not_created a = refl
switch-timer accepting a = refl
switch-timer shutting_down a = refl

lookup-has_any : (id h : ℕ) (m : List (ℕ × ℕ)) → lookup id m ≡ some h → has_any m ≡ true
unfolding lookup
lookup-has_any id h [] e = ground arith
lookup-has_any id h (_ ∷ _) e = refl

removed-Timed :
    (id : ℕ) (reason : RemoveReason) (a : Acl)
    → Timed a
    → Timed (remove_connection_handler id reason a)
unfolding remove_connection_handler Timed
removed-Timed id reason a h = elim (Option-cases (lookup id a.connections)) [
  | inl e ↦ subst P (sym e) (deactivate-Timed a (λ k. h ∙ k))
  | inr (g, e) ↦ subst P (sym e) (
      deactivate-Timed _
        (λ _. switch-timer a.state (removed a) ∙ h ∙ lookup-has_any id g a.connections e))
]
  where
    removed : Acl → Acl
    removed x = record x {
      connections = erase id x.connections;
      stats = update_remove_handle_stats reason x.stats;
    }

    P : Option ℕ → Type 0
    P o = Timed (
        deactivate_if_empty (elim o [
          | none ↦ a
          | some _ ↦ try_switch_to_accepting_if_necessary_and_possible (record a {
            connections = erase id a.connections;
            stats = update_remove_handle_stats reason a.stats;
          })
        ]))

step-Timed : (e : Event) (a : Acl) → Timed a → Timed (step e a)
unfolding step handle_next replace_connection_handler so_evt_finish Timed send
step-Timed (message_handled fails) a h = next a.queue h
  where
    next :
        (q : List AclMessage)
        → Timed (record a { queue = q })
        → Timed (elim q [ [] ↦ a | m ∷ rest ↦ handle fails a.state m (record a { queue = rest }) ])
    next [] g = h
    next (m ∷ rest) g = handle-Timed fails a.state m (record a { queue = rest }) g
step-Timed delayed_arrived a h = if_both Timed (a.delayed == 0) _ _ h h
step-Timed finished a h = stopped a.state a h
  where
    stopped : (s : AclState) (a : Acl) → Timed a → Timed (step finished (record a { state = s }))
    stopped shutting_down a h = refl
    stopped entry_not_created a h = h
    stopped accepting a h = h
    stopped too_many_connections a h = h
step-Timed shutdown_sent a h = h
step-Timed (accept_completed result) a h =
    if_both Timed (a.accepts == 0) _ _ h
      (accepted-Timed result (record a { accepts = a.accepts - 1 }) h)
step-Timed (connection_removed id reason) a h = removed-Timed id reason a h
step-Timed (handler_replaced id handler) a h = elim (replaced-cases id handler a) [
  | inl e ↦ subst Timed (sym e) h
  | inr e ↦ subst Timed (sym e) (h ∙ sym (has_any-update id handler a.connections))
]
step-Timed (config_sent p) a h = h
step-Timed (dns_reply_sent id token) a h = h
step-Timed (auth_reply_sent id token) a h = h

run_timed : (es : List Event) (a : Acl) → Timed a → Timed (run es a)
unfolding run
run_timed [] a h = h
run_timed (e ∷ es) a h = run_timed es (step e a) (step-Timed e a h)

-- In any history of an ACL's agent, the agent is a consumer of the timer exactly when it has
-- connections.
pub run-Timed : (p : CommonAclParams) (es : List Event) → Timed (run es (make_acl p))
unfolding make_acl Timed
run-Timed p es = run_timed es (make_acl p) refl
