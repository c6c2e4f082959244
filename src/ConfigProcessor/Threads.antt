-- ===== src/ConfigProcessor/Threads.antt =====
-- arataga/config_processor/a_processor.cpp: the IO-threads' counters are the numbers of the ACLs that
-- run on them, whatever configs arrive.
use arataga.Prelude.{
  ℕ, ◌+◌, ◌<◌, ◌≡◌, sym, ap, subst, ◌∙◌, ◌⊎◌, ◌*◌, inl, inr, [], ◌++◌, map, arith, length,
  length-append, length-map, List-cases,
}
use arataga.Prelude.Order.{nat_order, pair_order}
use arataga.Prelude.Sorted.{sort, IsSorted}
use arataga.Prelude.Sorting.{count_if-sort, length-sort}
use arataga.Prelude.Sets.{count_if-parts, length-parts}
use arataga.Prelude.Projected.{IsSorted-map}
use arataga.Words.{add64}
use arataga.Config.{Config}
use arataga.ConfigProcessor.{
  Processor, Launching, detect_io_threads_count, port_and_in_addr, running_identity,
  full_acl_identity, create_dispatchers, acl_count, create_dispatchers_if_necessary, outdated_acls,
  living_acls, new_acls, launch_all, launch_new_acls, stop_and_remove_outdated_acls,
  handle_upcoming_acl_list, index_of_io_thread_with_lowest_acl_count, accept_new_config,
}
use arataga.ConfigProcessor.Running.{config_of, replaced_are_config, launch_new_acls-configs}
use arataga.ConfigProcessor.Replace.{running_key}
use arataga.ConfigProcessor.Counts.{
  on_thread, Counted, handle_outdated-Counted, length-handle_outdated, launch_all-Counted,
  create_dispatchers-Counted, length-create_dispatchers,
  index_of_io_thread_with_lowest_acl_count-lt,
}

-- The running ACLs are sorted without two for one port and address, fewer than 2^64, and counted on
-- their IO-threads.
pub record IsConsistent (p : Processor) : Type 0 where
  pub sorted : IsSorted running_key p.running_acls
  pub few : length p.running_acls < 18446744073709551616
  pub counted : Counted p.io_threads p.running_acls

abbrev pub first_io_threads : ℕ → Processor → Processor
first_io_threads cpus p =
    let count = detect_io_threads_count cpus p.io_threads_count in
    record p {
      io_threads = create_dispatchers count p.next_mbox;
      next_mbox = p.next_mbox + 3 * count;
    }

pub created_cases :
    (cpus : ℕ) (p : Processor)
    → ((p.io_threads ≡ []) × ((create_dispatchers_if_necessary cpus p).0 ≡ first_io_threads cpus p))
      ⊎ ((0 < length p.io_threads) × ((create_dispatchers_if_necessary cpus p).0 ≡ p))
unfolding create_dispatchers_if_necessary
created_cases cpus p = elim (List-cases p.io_threads) [
  | inl e ↦ inl (e, ground arith)
  | inr (t, ts, e) ↦ inr (ground arith, ground arith)
]

created-IsConsistent :
    (cpus : ℕ) (p : Processor)
    → IsConsistent p
    → 0 < detect_io_threads_count cpus p.io_threads_count
    → IsConsistent (create_dispatchers_if_necessary cpus p).0
      × (0 < length (create_dispatchers_if_necessary cpus p).0.io_threads)
created-IsConsistent cpus p h k = elim (created_cases cpus p) [
  | inl (e, same) ↦
      subst (λ q. IsConsistent q × (0 < length q.io_threads)) (sym same)
        (
          record {
            sorted = h.sorted;
            few = h.few;
            counted = λ i.
                create_dispatchers-Counted (detect_io_threads_count cpus p.io_threads_count)
                  p.next_mbox i
                ∙ ap (acl_count i) (sym e)
                ∙ h.counted i;
          },
          omega (
            arith,
            length-create_dispatchers (detect_io_threads_count cpus p.io_threads_count) p.next_mbox,
          ),
        )
  | inr (some_threads, same) ↦
      subst (λ q. IsConsistent q × (0 < length q.io_threads)) (sym same) (h, some_threads)
]

stopped-Counted :
    (config : Config) (p : Processor)
    → IsConsistent p
    → Counted
        (stop_and_remove_outdated_acls config p).0.io_threads
        (stop_and_remove_outdated_acls config p).0.running_acls
unfolding stop_and_remove_outdated_acls
stopped-Counted config p h =
    let outdated = outdated_acls config p.running_acls in
    let living = living_acls config p.running_acls in
    handle_outdated-Counted outdated living p.io_threads
      (omega
        (arith, h.few, length-parts running_identity full_acl_identity p.running_acls config.acls))
      (λ i.
        h.counted i
        ∙ sym (
            count_if-parts running_identity full_acl_identity (on_thread i) p.running_acls
              config.acls))

-- The ACLs that stay and those that are launched are as many as the config has.
replaced_length :
    (config : Config) (p : Processor)
    → IsSorted port_and_in_addr config.acls
    → length (living_acls config p.running_acls)
        + length (new_acls config (living_acls config p.running_acls))
      ≡ length config.acls
unfolding stop_and_remove_outdated_acls
replaced_length config p s =
    let living = living_acls config p.running_acls in
    let cs = new_acls config living in
    let e : sort port_and_in_addr (map config_of living ++ cs) ≡ config.acls =
      sym (launch_new_acls-configs config (stop_and_remove_outdated_acls config p).0)
      ∙ replaced_are_config config p s in
    omega (
      arith,
      ap length e,
      length-sort port_and_in_addr (map config_of living ++ cs),
      length-append (map config_of living) cs,
      length-map living config_of,
    )

launched-Counted :
    (config : Config) (p : Processor)
    → length p.running_acls + length (new_acls config p.running_acls) < 18446744073709551616
    → 0 < length p.io_threads
    → Counted p.io_threads p.running_acls
    → Counted (launch_new_acls config p).0.io_threads (launch_new_acls config p).0.running_acls
unfolding launch_new_acls
launched-Counted config p h k c i =
    let cs = new_acls config p.running_acls in
    let l : Launching = record {
      processor = p;
      io_thread_index = index_of_io_thread_with_lowest_acl_count p.io_threads;
      launched = [];
    } in
    let inside = index_of_io_thread_with_lowest_acl_count-lt p.io_threads k in
    launch_all-Counted config cs l inside h c i
    ∙ sym (
        count_if-sort (λ racl. port_and_in_addr racl.config) (on_thread i)
          (launch_all config cs l).processor.running_acls)

-- A sorted config of fewer than 2^64 ACLs keeps the agent consistent.
handle_upcoming_acl_list-IsConsistent :
    (cpus : ℕ) (config : Config) (p : Processor)
    → IsConsistent p
    → 0 < detect_io_threads_count cpus p.io_threads_count
    → IsSorted port_and_in_addr config.acls
    → length config.acls < 18446744073709551616
    → IsConsistent (handle_upcoming_acl_list cpus config p).0
unfolding handle_upcoming_acl_list stop_and_remove_outdated_acls
handle_upcoming_acl_list-IsConsistent cpus config p h k s b =
    let created = (create_dispatchers_if_necessary cpus p).0 in
    let stopped = (stop_and_remove_outdated_acls config created).0 in
    let after = (launch_new_acls config stopped).0.running_acls in
    let same : map config_of after ≡ config.acls = replaced_are_config config created s in
    let (hc, some_threads) = created-IsConsistent cpus p h k in
    record {
      sorted =
          IsSorted-map config_of port_and_in_addr after
            (subst (IsSorted port_and_in_addr) (sym same) s);
      few = omega (arith, ap length same, length-map after config_of);
      counted =
          launched-Counted config stopped (stopped_few created)
            (stopped_threads created some_threads) (stopped-Counted config created hc);
    }
  where
    stopped_few :
        (q : Processor)
        → length (stop_and_remove_outdated_acls config q).0.running_acls
            + length (new_acls config (stop_and_remove_outdated_acls config q).0.running_acls)
          < 18446744073709551616
    stopped_few q = subst (λ n. n < 18446744073709551616) (sym (replaced_length config q s)) b

    stopped_threads :
        (q : Processor)
        → 0 < length q.io_threads
        → 0 < length (stop_and_remove_outdated_acls config q).0.io_threads
    stopped_threads q e =
        subst (λ n. 0 < n)
          (sym (length-handle_outdated (outdated_acls config q.running_acls) q.io_threads)) e

pub accept_new_config-IsConsistent :
    (cpus : ℕ) (config : Config) (p : Processor)
    → IsConsistent p
    → 0 < detect_io_threads_count cpus p.io_threads_count
    → IsSorted port_and_in_addr config.acls
    → length config.acls < 18446744073709551616
    → IsConsistent (accept_new_config cpus config p).0
unfolding accept_new_config
accept_new_config-IsConsistent cpus config p h =
    handle_upcoming_acl_list-IsConsistent cpus config
      (record p { config_update_counter = add64 p.config_update_counter 1 })
      (record { sorted = h.sorted; few = h.few; counted = h.counted })
