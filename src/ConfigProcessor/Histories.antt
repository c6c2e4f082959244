-- ===== src/ConfigProcessor/Histories.antt =====
-- arataga/config_processor/a_processor.cpp: the agent over any sequence of configs.
use arataga.Prelude.{
  ℕ, ◌<◌, ◌≡◌, refl, sym, subst, ap, ◌∙◌, inl, inr, List, [], ◌∷◌, arith, length, All,
}
use arataga.Words.{add64}
use arataga.Prelude.Order.{nat_order, pair_order}
use arataga.Prelude.Sorted.{sort}
use arataga.Prelude.Sorting.{length-sort}
use arataga.Config.{AclConfig, Config}
use arataga.ConfigProcessor.{
  Processor, IoThreadsCount, Launching, detect_io_threads_count, make_processor, launch_acl,
  launch_all, try_handle_just_parsed_config, accept_new_config, handle_upcoming_acl_list,
  launch_new_acls, stop_and_remove_outdated_acls, create_dispatchers_if_necessary, new_acls,
  index_of_io_thread_with_lowest_acl_count, port_and_in_addr,
}
use arataga.ConfigProcessor.Accept.{with_acls, unique_cases}
use arataga.ConfigProcessor.Threads.{IsConsistent, accept_new_config-IsConsistent, created_cases}

module _ (config : Config) where
  kept-launch_all :
      (cs : List AclConfig) (l : Launching)
      → (launch_all config cs l).processor.io_threads_count ≡ l.processor.io_threads_count
  unfolding launch_acl
  kept-launch_all [] l = refl
  kept-launch_all (c ∷ cs) l = kept-launch_all cs (launch_acl config c l)

  kept-launch_new_acls :
      (p : Processor) → (launch_new_acls config p).0.io_threads_count ≡ p.io_threads_count
  unfolding launch_new_acls
  kept-launch_new_acls p = kept-launch_all (new_acls config p.running_acls) (record {
    processor = p;
    io_thread_index = index_of_io_thread_with_lowest_acl_count p.io_threads;
    launched = [];
  })

  kept-create_dispatchers_if_necessary :
      (cpus : ℕ) (p : Processor)
      → (create_dispatchers_if_necessary cpus p).0.io_threads_count ≡ p.io_threads_count
  kept-create_dispatchers_if_necessary cpus p = elim (created_cases cpus p) [
    | inl (_, e) ↦ ap (λ q. q.io_threads_count) e
    | inr (_, e) ↦ ap (λ q. q.io_threads_count) e
  ]

  kept-accept_new_config :
      (cpus : ℕ) (p : Processor)
      → (accept_new_config cpus config p).0.io_threads_count ≡ p.io_threads_count
  unfolding accept_new_config handle_upcoming_acl_list stop_and_remove_outdated_acls
  kept-accept_new_config cpus p =
      let counted = record p { config_update_counter = add64 p.config_update_counter 1 } in
      let created = (create_dispatchers_if_necessary cpus counted).0 in
      kept-launch_new_acls (stop_and_remove_outdated_acls config created).0
      ∙ kept-create_dispatchers_if_necessary cpus counted

-- A config that is refused changes nothing.
abbrev pub after_config : ℕ → Config → Processor → Processor
after_config cpus config p = elim (try_handle_just_parsed_config cpus config p) [
  | inl acl ↦ p
  | inr (after, messages) ↦ after
]

abbrev pub after_configs : ℕ → List Config → Processor → Processor
after_configs cpus [] p = p
after_configs cpus (config ∷ configs) p = after_configs cpus configs (after_config cpus config p)

after_config-IsConsistent :
    (cpus : ℕ) (config : Config) (p : Processor)
    → IsConsistent p
    → 0 < detect_io_threads_count cpus p.io_threads_count
    → length config.acls < 18446744073709551616
    → IsConsistent (after_config cpus config p)
      × (0 < detect_io_threads_count cpus (after_config cpus config p).io_threads_count)
unfolding try_handle_just_parsed_config
after_config-IsConsistent cpus config p h k b = elim (unique_cases config.acls) [
  | inl (acl, e, _) ↦
      let same : after_config cpus config p ≡ p = ground arith in subst Good (sym same) (h, k)
  | inr (e, s, _) ↦
      let sorted = with_acls config (sort port_and_in_addr config.acls) in
      let same : after_config cpus config p ≡ (accept_new_config cpus sorted p).0 = ground arith in
      subst Good (sym same) (
        accept_new_config-IsConsistent cpus sorted p h k s
            (omega (arith, length-sort port_and_in_addr config.acls)),
        subst (λ n. 0 < detect_io_threads_count cpus n) (sym (kept-accept_new_config sorted cpus p))
            k,
      )
]
  where
    Good : Processor → Type 0
    Good q = IsConsistent q × (0 < detect_io_threads_count cpus q.io_threads_count)

from_any-IsConsistent :
    (cpus : ℕ) (configs : List Config) (p : Processor)
    → IsConsistent p
    → 0 < detect_io_threads_count cpus p.io_threads_count
    → All (λ config. length config.acls < 18446744073709551616) configs
    → IsConsistent (after_configs cpus configs p)
from_any-IsConsistent cpus [] p h k b = h
from_any-IsConsistent cpus (config ∷ configs) p h k (b, bs) =
    let (h', k') = after_config-IsConsistent cpus config p h k b in
    from_any-IsConsistent cpus configs (after_config cpus config p) h' k' bs

-- Whatever configs arrive, of fewer than 2^64 ACLs each, and where at least one IO-thread is to be
-- used: the ACLs that run are sorted by port and address, no two have the same, and the counter of
-- every IO-thread is the number of the ACLs that run on it.
pub after_configs-IsConsistent :
    (cpus random : ℕ) (count : IoThreadsCount) (configs : List Config)
    → 0 < detect_io_threads_count cpus count
    → All (λ config. length config.acls < 18446744073709551616) configs
    → IsConsistent (after_configs cpus configs (make_processor count random))
unfolding make_processor
after_configs-IsConsistent cpus random count configs k b =
    from_any-IsConsistent cpus configs (make_processor count random)
      (record { sorted = tt; few = omega arith; counted = λ i. refl }) k b
