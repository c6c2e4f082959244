-- ===== src/AclAgent/Resuming.antt =====
-- arataga/acl_handler/a_handler.cpp: that the agent does not stay in the state of too many
-- connections.
use arataga.Prelude.{
  ℕ, zero, suc, ◌≤◌, ◌<◌, ◌≡◌, refl, sym, subst, ◌⊎◌, inl, inr, Bool, List, [], ◌∷◌, ◌++◌,
  append-nil, append_assoc, arith, ltb, length, if_both, option_both,
}
use arataga.Prelude.Eq.{nat_eq}
use arataga.Prelude.Map.{lookup}
use arataga.Config.{CommonAclParams}
use arataga.Limiter.Users.{update_default_bandlims_on_confg_change}
use arataga.AclAgent.Signals.{is_enable, count}
use arataga.AclAgent.History.{Event, run, make_acl, handle_next}
use arataga.AclAgent.Acceptance.{Awaits, run-Awaits}
use arataga.AclAgent.{
  Acl, AclState, entry_not_created, accepting, too_many_connections, shutting_down, AclMessage,
  try_create_entry_point, accept_next, current_accept_completed, enable_accepting_connections,
  shutdown, updated_common_acl_params, resolve_reply, auth_reply, EntryCall, send, handle,
  enter_accepting, on_reply, on_updated_config, on_shutdown,
  try_switch_to_accepting_if_necessary_and_possible,
}

module _ (fails : EntryCall → Bool) where
  -- `n` waiting messages are handled, one after another.
  unfoldable pub handled : ℕ → Acl → Acl
  handled zero a = a
  handled (suc n) a = handled n (handle_next fails a)

  abbrev HasLeft : AclState → Type 0
  HasLeft s = (s ≡ accepting) ⊎ (s ≡ shutting_down)

  abbrev pub LeavesWithin : ℕ → Acl → Type 0
  LeavesWithin k a = (n : ℕ) × (n ≤ k) × HasLeft (handled n a).state

  leaves_later : (k : ℕ) (a : Acl) → LeavesWithin k (handle_next fails a) → LeavesWithin (suc k) a
  unfolding handled
  leaves_later k a (n, h, l) = (suc n, omega arith, l)

  leaves :
      (q extra : List AclMessage) (a : Acl)
      → 1 ≤ count is_enable q
      → LeavesWithin (length q) (record a { state = too_many_connections; queue = q ++ extra })
  unfolding count handled enter_accepting send on_shutdown handle_next handle on_reply
      on_updated_config try_switch_to_accepting_if_necessary_and_possible
  leaves [] extra a h = ground arith
  leaves (enable_accepting_connections ∷ q) extra a h =
      leaves_later (length q) _ (0, omega arith, inl refl)
  leaves (shutdown ∷ q) extra a h = leaves_later (length q) _ (0, omega arith, inr refl)
  leaves (updated_common_acl_params p ∷ q) extra a h =
      let b : Acl = record a {
        current_common_acl_params = p;
        authentificated_users =
            update_default_bandlims_on_confg_change p.client_bandlim a.authentificated_users;
      } in
      let P : List AclMessage → Type 0 =
        λ r. LeavesWithin (length q) (record b { state = too_many_connections; queue = r }) in
      leaves_later (length q) _ (
        if_both (LeavesWithin (length q)) (ltb (length a.connections) p.maxconn) _ _
          (subst P (sym (append_assoc q extra (enable_accepting_connections ∷ [])))
            (leaves q (extra ++ (enable_accepting_connections ∷ [])) b (omega arith)))
          (leaves q extra b (omega arith)))
  leaves (resolve_reply i t ∷ q) extra a h = leaves_later (length q) _ (
      option_both (LeavesWithin (length q)) (lookup i a.connections) _ _
        (leaves q extra a (omega arith))
        (λ _. leaves q extra (record a { completed = a.completed ++ ((i, t) ∷ []) }) (omega arith)))
  leaves (auth_reply i t ∷ q) extra a h = leaves_later (length q) _ (
      option_both (LeavesWithin (length q)) (lookup i a.connections) _ _
        (leaves q extra a (omega arith))
        (λ _. leaves q extra (record a { completed = a.completed ++ ((i, t) ∷ []) }) (omega arith)))
  leaves (try_create_entry_point ∷ q) extra a h =
      leaves_later (length q) _ (leaves q extra a (omega arith))
  leaves (accept_next ∷ q) extra a h = leaves_later (length q) _ (leaves q extra a (omega arith))
  leaves (current_accept_completed ∷ q) extra a h =
      leaves_later (length q) _ (leaves q extra a (omega arith))

  resumes :
      (s : AclState) (a : Acl)
      → s ≡ too_many_connections
      → Awaits s a
      → length a.connections < a.current_common_acl_params.maxconn
      → LeavesWithin (length a.queue) (record a { state = s })
  unfolding Awaits
  resumes too_many_connections a e w l =
      subst
        (λ q. LeavesWithin (length a.queue) (record a { state = too_many_connections; queue = q }))
        (append-nil a.queue) (leaves a.queue [] a (ground arith))
  resumes entry_not_created a e w l = ground arith
  resumes accepting a e w l = ground arith
  resumes shutting_down a e w l = ground arith

  -- In any history of an ACL's agent that ends with too many connections but fewer than the limit in
  -- force, handling no more than the messages that already wait brings the agent back to accepting,
  -- or to its shutdown.
  pub run-resumes :
      (p : CommonAclParams) (es : List Event)
      → (run es (make_acl p)).state ≡ too_many_connections
      → length (run es (make_acl p)).connections
        < (run es (make_acl p)).current_common_acl_params.maxconn
      → LeavesWithin (length (run es (make_acl p)).queue) (run es (make_acl p))
  run-resumes p es e l = let a = run es (make_acl p) in resumes a.state a e (run-Awaits p es) l
