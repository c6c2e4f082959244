-- ===== src/AclAgent/Driven.antt =====
-- arataga/acl_handler/a_handler.cpp: what waits for the agent in each of its states, in any history.
use arataga.Prelude.{
  ℕ, ◌+◌, ◌≤◌, ◌<◌, ◌≡◌, ◌⊎◌, Bool, List, [], ◌∷◌, ◌++◌, arith, length, if_both, option_both,
}
use arataga.Prelude.Eq.{nat_eq}
use arataga.Prelude.Map.{lookup}
use arataga.Config.{CommonAclParams}
use arataga.Limiter.{AuthentificatedUserMap}
use arataga.Limiter.Users.{update_default_bandlims_on_confg_change}
use arataga.AclAgent.Signals.{
  is_try, is_next, is_completed, is_enable, count, behind, peak, counts-append, behind_none,
  behind-append, behind-append_enable, peak-append,
}
use arataga.AclAgent.{
  Acl, AclState, entry_not_created, accepting, too_many_connections, shutting_down, AclMessage,
  try_create_entry_point, accept_next, current_accept_completed, enable_accepting_connections,
  shutdown, updated_common_acl_params, resolve_reply, auth_reply, RemoveStats, EntryCall,
  open_acceptor, non_blocking, reuse_address, bind_endpoint, start_listening, send, handle,
  enter_accepting, on_try_create_entry_point, on_accept_next_when_accepting,
  on_accept_completion_when_accepting, on_reply, on_updated_config, on_shutdown,
  try_switch_to_accepting_if_necessary_and_possible,
}

-- In one state: the attempts to make an entry point, the waiting signals, the calls of
-- `async_accept`, the connections and their limit, under the bound `b`.
unfoldable pub Fits : AclState → (t n c e accepts k maxconn b : ℕ) → Type 0
Fits entry_not_created t n c e accepts k maxconn b = (t ≡ 1) × (n + c + e + accepts ≡ 0) × (k ≡ 0)
Fits accepting t n c e accepts k maxconn b =
    (t ≡ 0) × (n + c + accepts ≡ 1) × ((n ≡ 1) ⊎ (e ≡ 0)) × (k + n + accepts ≤ b)
Fits too_many_connections t n c e accepts k maxconn b =
    (t ≡ 0) × (n + c + accepts ≡ 0) × ((k < b) ⊎ (e ≡ 0)) × ((maxconn ≤ k) ⊎ (1 ≤ e)) × (k ≤ b)
Fits shutting_down t n c e accepts k maxconn b = (accepts ≤ 1) × (k + accepts ≤ b)

abbrev pub FitsWith : ℕ → AclState → Acl → Type 0
FitsWith b s a =
    Fits s (count is_try a.queue + a.delayed) (count is_next a.queue) (count is_completed a.queue)
      (count is_enable a.queue) a.accepts (length a.connections) a.current_common_acl_params.maxconn
      b

unfoldable pub Driven : ℕ → Acl → Type 0
Driven b a =
    (1 ≤ b)
    × (behind a.queue ≡ 0)
    × (peak a.queue ≤ b)
    × (a.current_common_acl_params.maxconn ≤ b)
    × FitsWith b a.state a

module _ (b : ℕ) (a : Acl) (rest : List AclMessage) where
  -- The agent in a state, with a queue.
  abbrev at : AclState → List AclMessage → Acl
  at s q = record a { state = s; queue = q }

  enter_accepting-Driven :
      Driven b (at too_many_connections (enable_accepting_connections ∷ rest))
      → Driven b (enter_accepting (at too_many_connections rest))
  unfolding Driven Fits count behind peak enter_accepting send
  enter_accepting-Driven (h1, h2, h3, h4, h) = ground (
    arith,
    counts-append rest accept_next,
    behind-append rest accept_next,
    peak-append b rest accept_next,
  )

  entry_created-Driven :
      Driven b (at entry_not_created (try_create_entry_point ∷ rest))
      → Driven b (enter_accepting (at entry_not_created rest))
  unfolding Driven Fits count behind peak enter_accepting send
  entry_created-Driven (h1, h2, h3, h4, h) = ground (
    arith,
    counts-append rest accept_next,
    behind-append rest accept_next,
    peak-append b rest accept_next,
  )

  accept_completion-Driven :
      Driven b (at accepting (current_accept_completed ∷ rest))
      → Driven b (on_accept_completion_when_accepting (at accepting rest))
  unfolding Driven Fits count behind peak on_accept_completion_when_accepting send
  accept_completion-Driven (h1, h2, h3, h4, h) = ground (
    arith,
    counts-append rest accept_next,
    behind-append rest accept_next,
    peak-append b rest accept_next,
  )

  accept_next-Driven :
      Driven b (at accepting (accept_next ∷ rest))
      → Driven b (on_accept_next_when_accepting (at accepting rest))
  unfolding Driven Fits count behind peak on_accept_next_when_accepting
  accept_next-Driven (h1, h2, h3, h4, h) = ground (arith, behind_none rest)

-- What `Driven` asks, but for the signal to resume that a free place asks for.
unfoldable pub Loose : ℕ → Acl → Type 0
Loose b a =
    (1 ≤ b)
    × (behind a.queue ≡ 0)
    × (peak a.queue ≤ b)
    × (a.current_common_acl_params.maxconn ≤ b)
    × Fits a.state (count is_try a.queue + a.delayed) (count is_next a.queue)
        (count is_completed a.queue) (count is_enable a.queue) a.accepts (length a.connections) 0 b

module _ (b : ℕ) where
  pub switch-Driven :
      (s : AclState) (a : Acl)
      → Loose b (record a { state = s })
      → Driven b (try_switch_to_accepting_if_necessary_and_possible (record a { state = s }))
  unfolding Driven Loose Fits count peak try_switch_to_accepting_if_necessary_and_possible send
  switch-Driven too_many_connections a (h1, h2, h3, h4, h) = ground (
    arith,
    counts-append a.queue enable_accepting_connections,
    behind-append_enable a.queue,
    peak-append b a.queue enable_accepting_connections,
  )
  switch-Driven entry_not_created a h = h
  switch-Driven accepting a h = h
  switch-Driven shutting_down a h = h

  pub remove-Loose :
      (s : AclState) (a : Acl) (m : List (ℕ × ℕ)) (r : RemoveStats)
      → length m ≤ length a.connections
      → Driven b (record a { state = s })
      → Loose b (record a { state = s; connections = m; stats = r })
  unfolding Driven Loose Fits
  remove-Loose too_many_connections a m r l h = ground arith
  remove-Loose entry_not_created a m r l h = ground arith
  remove-Loose accepting a m r l h = ground arith
  remove-Loose shutting_down a m r l h = ground arith

  updated_config-Loose :
      (s : AclState) (p : CommonAclParams) (a : Acl) (rest : List AclMessage)
      (u : AuthentificatedUserMap)
      → Driven b (record a { state = s; queue = updated_common_acl_params p ∷ rest })
      → Loose b (record a {
        state = s;
        queue = rest;
        current_common_acl_params = p;
        authentificated_users = u;
      })
  unfolding Driven Loose Fits count behind peak
  updated_config-Loose too_many_connections p a rest u h = ground arith
  updated_config-Loose entry_not_created p a rest u h = ground arith
  updated_config-Loose accepting p a rest u h = ground arith
  updated_config-Loose shutting_down p a rest u h = ground arith

  updated_config-Driven :
      (s : AclState) (p : CommonAclParams) (a : Acl) (rest : List AclMessage)
      → Driven b (record a { state = s; queue = updated_common_acl_params p ∷ rest })
      → Driven b (on_updated_config p (record a { state = s; queue = rest }))
  unfolding on_updated_config
  updated_config-Driven s p a rest h =
      switch-Driven s
        (record a {
          queue = rest;
          current_common_acl_params = p;
          authentificated_users =
              update_default_bandlims_on_confg_change p.client_bandlim a.authentificated_users;
        })
        (updated_config-Loose s p a rest _ h)

  shutdown-Driven :
      (s : AclState) (a : Acl) (rest : List AclMessage)
      → Driven b (record a { state = s; queue = shutdown ∷ rest })
      → Driven b (on_shutdown (record a { state = s; queue = rest }))
  unfolding Driven Fits count behind peak on_shutdown
  shutdown-Driven too_many_connections a rest h = ground arith
  shutdown-Driven entry_not_created a rest h = ground arith
  shutdown-Driven accepting a rest h = ground arith
  shutdown-Driven shutting_down a rest h = ground arith

  replied-Driven :
      (s : AclState) (a : Acl) (rest : List AclMessage) (i t : ℕ)
      → Driven b (record a { state = s; queue = rest })
      → Driven b (on_reply i t (record a { state = s; queue = rest }))
  unfolding on_reply Driven
  replied-Driven s a rest i t h =
      option_both (Driven b) (lookup i a.connections) (record a { state = s; queue = rest })
        (λ _. record a { state = s; queue = rest; completed = a.completed ++ ((i, t) ∷ []) }) h
        (λ _. h)

  retry :
      (a : Acl) (rest : List AclMessage)
      → Driven b (record a { state = entry_not_created; queue = try_create_entry_point ∷ rest })
      → Driven b (record a { state = entry_not_created; queue = rest; delayed = a.delayed + 1 })
  unfolding Driven Fits count behind peak
  retry a rest h = ground arith

  -- After the shutdown every message is dropped.
  stopped-Driven :
      (m : AclMessage) (a : Acl) (rest : List AclMessage)
      → Driven b (record a { state = shutting_down; queue = m ∷ rest })
      → Driven b (record a { state = shutting_down; queue = rest })
  unfolding Driven Fits count behind peak
  stopped-Driven try_create_entry_point a rest h = ground arith
  stopped-Driven accept_next a rest h = ground (arith, behind_none rest)
  stopped-Driven current_accept_completed a rest h = ground arith
  stopped-Driven enable_accepting_connections a rest h = ground arith
  stopped-Driven shutdown a rest h = ground arith
  stopped-Driven (updated_common_acl_params p) a rest h = ground arith
  stopped-Driven (resolve_reply i t) a rest h = ground arith
  stopped-Driven (auth_reply i t) a rest h = ground arith

  try_create-Driven :
      (fails : EntryCall → Bool) (a : Acl) (rest : List AclMessage)
      → Driven b (record a { state = entry_not_created; queue = try_create_entry_point ∷ rest })
      → Driven b
          (on_try_create_entry_point fails (record a { state = entry_not_created; queue = rest }))
  unfolding on_try_create_entry_point
  try_create-Driven fails a rest h =
      let later = retry a rest h in
      if_both (Driven b) (fails open_acceptor) _ _ later (
        if_both (Driven b) (fails non_blocking) _ _ later (
          if_both (Driven b) (fails reuse_address) _ _ later (
            if_both (Driven b) (fails bind_endpoint) _ _ later (
              if_both (Driven b) (fails start_listening) _ _ later
                (entry_created-Driven b a rest h)))))

  pub handle-Driven :
      (fails : EntryCall → Bool) (s : AclState) (m : AclMessage) (a : Acl) (rest : List AclMessage)
      → Driven b (record a { state = s; queue = m ∷ rest })
      → Driven b (handle fails s m (record a { state = s; queue = rest }))
  unfolding handle Driven Fits count behind peak
  handle-Driven fails shutting_down m a rest h = stopped-Driven m a rest h
  handle-Driven fails entry_not_created shutdown a rest h = shutdown-Driven _ a rest h
  handle-Driven fails entry_not_created (updated_common_acl_params p) a rest h =
      updated_config-Driven _ p a rest h
  handle-Driven fails entry_not_created try_create_entry_point a rest h =
      try_create-Driven fails a rest h
  handle-Driven fails accepting shutdown a rest h = shutdown-Driven _ a rest h
  handle-Driven fails accepting (updated_common_acl_params p) a rest h =
      updated_config-Driven _ p a rest h
  handle-Driven fails accepting (resolve_reply i t) a rest h =
      replied-Driven accepting a rest i t (ground arith)
  handle-Driven fails accepting (auth_reply i t) a rest h =
      replied-Driven accepting a rest i t (ground arith)
  handle-Driven fails accepting accept_next a rest h = accept_next-Driven b a rest h
  handle-Driven fails accepting current_accept_completed a rest h =
      accept_completion-Driven b a rest h
  handle-Driven fails too_many_connections shutdown a rest h = shutdown-Driven _ a rest h
  handle-Driven fails too_many_connections (updated_common_acl_params p) a rest h =
      updated_config-Driven _ p a rest h
  handle-Driven fails too_many_connections (resolve_reply i t) a rest h =
      replied-Driven too_many_connections a rest i t (ground arith)
  handle-Driven fails too_many_connections (auth_reply i t) a rest h =
      replied-Driven too_many_connections a rest i t (ground arith)
  handle-Driven fails too_many_connections enable_accepting_connections a rest h =
      enter_accepting-Driven b a rest h
  handle-Driven fails entry_not_created accept_next a rest h = ground (arith, behind_none rest)
  handle-Driven fails entry_not_created current_accept_completed a rest h =
      ground (arith, behind_none rest)
  handle-Driven fails entry_not_created enable_accepting_connections a rest h =
      ground (arith, behind_none rest)
  handle-Driven fails entry_not_created (resolve_reply i t) a rest h =
      ground (arith, behind_none rest)
  handle-Driven fails entry_not_created (auth_reply i t) a rest h = ground (arith, behind_none rest)
  handle-Driven fails accepting try_create_entry_point a rest h = ground (arith, behind_none rest)
  handle-Driven fails accepting enable_accepting_connections a rest h =
      ground (arith, behind_none rest)
  handle-Driven fails too_many_connections try_create_entry_point a rest h =
      ground (arith, behind_none rest)
  handle-Driven fails too_many_connections accept_next a rest h = ground (arith, behind_none rest)
  handle-Driven fails too_many_connections current_accept_completed a rest h =
      ground (arith, behind_none rest)
