-- ===== src/ConfigProcessor/Replace.antt =====
-- arataga/config_processor/a_processor.cpp: which ACLs are shut down, kept and launched.
use arataga.Prelude.{
  ℕ, ◌≡◌, sym, ap, subst, ◌∙◌, Bool, true, not, some, List, [], ◌∷◌, ◌++◌, map, arith,
}
use arataga.Prelude.Order.{nat_order, pair_order}
use arataga.Prelude.Sorted.{IsSorted, filter, find_key, has_key}
use arataga.Prelude.Sorting.{All-map_lem, find_key-sort}
use arataga.Prelude.Sets.{set_difference-filter, set_intersection-filter}
use arataga.Config.{AclConfig, Config}
use arataga.ConfigProcessor.{
  Processor, RunningAcl, Launching, shutdown, port_and_in_addr, full_acl_identity, running_identity,
  create_dispatchers_if_necessary, new_acls, launch_acl, launch_all, launch_new_acls,
  stop_and_remove_outdated_acls, handle_upcoming_acl_list, index_of_io_thread_with_lowest_acl_count,
}
use arataga.ConfigProcessor.Running.{identity_refines, running-create_dispatchers_if_necessary}

abbrev pub running_key : RunningAcl → ℕ × ℕ
running_key racl = port_and_in_addr racl.config

-- The config has the very ACL that runs.
abbrev pub is_listed : Config → RunningAcl → Bool
is_listed config racl = has_key full_acl_identity (running_identity racl) config.acls

full-IsSorted : (cs : List AclConfig) → IsSorted port_and_in_addr cs → IsSorted full_acl_identity cs
full-IsSorted [] s = tt
full-IsSorted (c ∷ cs) (b, s) = (All-map_lem _ _ (identity_refines c) cs b, full-IsSorted cs s)

running-IsSorted : (rs : List RunningAcl) → IsSorted running_key rs → IsSorted running_identity rs
running-IsSorted [] s = tt
running-IsSorted (r ∷ rs) (b, s) =
    (All-map_lem _ _ (λ z. identity_refines r.config z.config) rs b, running-IsSorted rs s)

-- Where the running ACLs and the config's are sorted and unique: exactly the ACLs that the config
-- does not have any more are told to shut down, and the others go on, unchanged and in their order.
pub stop_and_remove_outdated_acls-parts :
    (config : Config) (p : Processor)
    → IsSorted running_key p.running_acls
    → IsSorted port_and_in_addr config.acls
    → ((stop_and_remove_outdated_acls config p).0.running_acls
        ≡ filter (is_listed config) p.running_acls)
      × ((stop_and_remove_outdated_acls config p).1
          ≡ map
              (λ racl. shutdown racl.mbox)
              (filter (λ racl. not (is_listed config racl)) p.running_acls))
unfolding stop_and_remove_outdated_acls
stop_and_remove_outdated_acls-parts config p s r =
    let running = running-IsSorted p.running_acls s in
    let acls = full-IsSorted config.acls r in
    (
      set_intersection-filter running_identity full_acl_identity p.running_acls config.acls running
          acls,
      ap (map (λ racl. shutdown racl.mbox)) (
          set_difference-filter running_identity full_acl_identity p.running_acls config.acls
            running acls),
    )

module _ (k : ℕ × ℕ) (racl : RunningAcl) where
  find_key-filter :
      (t : RunningAcl → Bool) (rs : List RunningAcl)
      → find_key running_key k rs ≡ some racl
      → t racl ≡ true
      → find_key running_key k (filter t rs) ≡ some racl
  find_key-filter t [] e h = e
  find_key-filter t (r ∷ rs) e h = ground (arith, find_key-filter t rs)

  find_key-append :
      (rs more : List RunningAcl)
      → find_key running_key k rs ≡ some racl
      → find_key running_key k (rs ++ more) ≡ some racl
  find_key-append [] more e = ground arith
  find_key-append (r ∷ rs) more e = ground (arith, find_key-append rs more)

  find_key-launch_all :
      (config : Config) (cs : List AclConfig) (l : Launching)
      → find_key running_key k l.processor.running_acls ≡ some racl
      → find_key running_key k (launch_all config cs l).processor.running_acls ≡ some racl
  unfolding launch_acl
  find_key-launch_all config [] l e = e
  find_key-launch_all config (c ∷ cs) l e = find_key-launch_all config cs (launch_acl config c l) (
      find_key-append l.processor.running_acls
        (record { config = c; io_thread_index = l.io_thread_index; mbox = l.processor.next_mbox }
          ∷ [])
        e)

  launch_new_acls-keeps :
      (config : Config) (p : Processor)
      → find_key running_key k p.running_acls ≡ some racl
      → find_key running_key k (launch_new_acls config p).0.running_acls ≡ some racl
  unfolding launch_new_acls
  launch_new_acls-keeps config p e =
      let l : Launching = record {
        processor = p;
        io_thread_index = index_of_io_thread_with_lowest_acl_count p.io_threads;
        launched = [];
      } in
      find_key-sort running_key k
        (launch_all config (new_acls config p.running_acls) l).processor.running_acls
      ∙ find_key-launch_all config (new_acls config p.running_acls) l e

-- An ACL that runs and that the new config has as it is stays on its IO-thread with its mbox.
pub listed_acl_stays :
    (cpus : ℕ) (config : Config) (p : Processor) (k : ℕ × ℕ) (racl : RunningAcl)
    → IsSorted running_key p.running_acls
    → IsSorted port_and_in_addr config.acls
    → find_key running_key k p.running_acls ≡ some racl
    → is_listed config racl ≡ true
    → find_key running_key k (handle_upcoming_acl_list cpus config p).0.running_acls ≡ some racl
unfolding handle_upcoming_acl_list
listed_acl_stays cpus config p k racl s r e h =
    let created = (create_dispatchers_if_necessary cpus p).0 in
    let same = running-create_dispatchers_if_necessary config cpus p in
    let sorted = subst (IsSorted running_key) (sym same) s in
    let (living, _) = stop_and_remove_outdated_acls-parts config created sorted r in
    launch_new_acls-keeps k racl config (stop_and_remove_outdated_acls config created).0 (
      ap (find_key running_key k) living
      ∙ find_key-filter k racl (is_listed config) created.running_acls
          (ap (find_key running_key k) same ∙ e) h)
