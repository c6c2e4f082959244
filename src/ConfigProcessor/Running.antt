-- ===== src/ConfigProcessor/Running.antt =====
-- arataga/config_processor/a_processor.cpp: after a config the running ACLs are those of the config,
-- and those that ran before go on as they are.
use arataga.Prelude.{
  ℕ, ◌≡◌, refl, ap, ◌∙◌, true, List, [], ◌∷◌, ◌++◌, map, arith, sym, append-nil, append_assoc,
  map-append,
}
use arataga.Prelude.Order.{◌<?◌, nat_order, pair_order}
use arataga.Prelude.Sorted.{sort, set_difference, IsSorted}
use arataga.Prelude.Sets.{sort-parts}
use arataga.Prelude.Projected.{map-sort, map-set_intersection, set_difference-map}
use arataga.Config.{AclConfig, AclProtocol, autodetect, socks, http, protocol_value, Config}
use arataga.ConfigProcessor.{
  Processor, RunningAcl, Launching, port_and_in_addr, full_acl_identity,
  create_dispatchers_if_necessary, living_acls, new_acls, launch_acl, launch_all, launch_new_acls,
  stop_and_remove_outdated_acls, handle_upcoming_acl_list, index_of_io_thread_with_lowest_acl_count,
}

abbrev pub config_of : RunningAcl → AclConfig
config_of racl = racl.config

value_injective : (p q : AclProtocol) → protocol_value p ≡ protocol_value q → p ≡ q
value_injective autodetect autodetect e = refl
value_injective autodetect socks e = absurd (omega arith)
value_injective autodetect http e = absurd (omega arith)
value_injective socks autodetect e = absurd (omega arith)
value_injective socks socks e = refl
value_injective socks http e = absurd (omega arith)
value_injective http autodetect e = absurd (omega arith)
value_injective http socks e = absurd (omega arith)
value_injective http http e = refl

identity_injective : (a b : AclConfig) → full_acl_identity a ≡ full_acl_identity b → a ≡ b
identity_injective a b e =
    let protocols = value_injective a.protocol b.protocol (ap (λ k. k.1.1) e) in
    λ i. record {
      protocol = protocols i;
      port = (e i).0.0;
      in_addr = (e i).0.1;
      out_addr = (e i).1.0;
    }

pub identity_refines :
    (a b : AclConfig)
    → (port_and_in_addr a <? port_and_in_addr b) ≡ true
    → (full_acl_identity a <? full_acl_identity b) ≡ true
identity_refines a b h = ground arith

module _ (config : Config) where
  configs-launch_all :
      (cs : List AclConfig) (l : Launching)
      → map config_of (launch_all config cs l).processor.running_acls
        ≡ map config_of l.processor.running_acls ++ cs
  unfolding launch_acl
  configs-launch_all [] l = sym (append-nil (map config_of l.processor.running_acls))
  configs-launch_all (c ∷ cs) l =
      configs-launch_all cs (launch_acl config c l)
      ∙ ap (λ r. r ++ cs)
          (map-append config_of l.processor.running_acls (
            record { config = c; io_thread_index = l.io_thread_index; mbox = l.processor.next_mbox }
            ∷ []))
      ∙ append_assoc (map config_of l.processor.running_acls) (c ∷ []) cs

  pub launch_new_acls-configs :
      (p : Processor)
      → map config_of (launch_new_acls config p).0.running_acls
        ≡ sort port_and_in_addr (map config_of p.running_acls ++ new_acls config p.running_acls)
  unfolding launch_new_acls
  launch_new_acls-configs p =
      let cs = new_acls config p.running_acls in
      let l : Launching = record {
        processor = p;
        io_thread_index = index_of_io_thread_with_lowest_acl_count p.io_threads;
        launched = [];
      } in
      map-sort config_of port_and_in_addr (launch_all config cs l).processor.running_acls
      ∙ ap (sort port_and_in_addr) (configs-launch_all cs l)

  pub running-create_dispatchers_if_necessary :
      (cpus : ℕ) (p : Processor)
      → (create_dispatchers_if_necessary cpus p).0.running_acls ≡ p.running_acls
  unfolding create_dispatchers_if_necessary
  running-create_dispatchers_if_necessary cpus p = ground arith

  -- The two steps that follow on any state with the same ACLs.
  pub replaced_are_config :
      (p : Processor)
      → IsSorted port_and_in_addr config.acls
      → map config_of
          (launch_new_acls config (stop_and_remove_outdated_acls config p).0).0.running_acls
        ≡ config.acls
  unfolding stop_and_remove_outdated_acls
  replaced_are_config p s =
      let living = living_acls config p.running_acls in
      let shared = map-set_intersection config_of full_acl_identity p.running_acls config.acls in
      launch_new_acls-configs (stop_and_remove_outdated_acls config p).0
      ∙ ap (λ l. sort port_and_in_addr (map config_of living ++ l))
          (set_difference-map config_of full_acl_identity config.acls living)
      ∙ ap
          (λ l.
            sort port_and_in_addr
              (l ++ set_difference full_acl_identity full_acl_identity config.acls l))
          shared
      ∙ sort-parts full_acl_identity port_and_in_addr identity_refines identity_injective
          (map config_of p.running_acls) config.acls s

  -- After a config whose ACLs are sorted and unique, the ACLs that run are those of the config, in
  -- their order, whatever ran before.
  pub running_are_config :
      (cpus : ℕ) (p : Processor)
      → IsSorted port_and_in_addr config.acls
      → map config_of (handle_upcoming_acl_list cpus config p).0.running_acls ≡ config.acls
  unfolding handle_upcoming_acl_list
  running_are_config cpus p s = replaced_are_config (create_dispatchers_if_necessary cpus p).0 s
