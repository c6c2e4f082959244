-- ===== src/ConfigProcessor/Accept.antt =====
-- arataga/config_processor/a_processor.cpp: a config is applied as a whole or refused as a whole.
use arataga.Prelude.{ℕ, ◌≡◌, ◌⊎◌, inl, inr, true, false, List, map, Option-cases, arith}
use arataga.Prelude.Order.{nat_order, pair_order}
use arataga.Prelude.Sorted.{sort, adjacent_find, IsSorted}
use arataga.Prelude.Duplicates.{has_duplicates, unique_sort, doubled_sort}
use arataga.Words.{add64}
use arataga.Config.{AclConfig, Config}
use arataga.ConfigProcessor.{
  Processor, Message, port_and_in_addr, sort_acl_list_and_ensure_uniqueness, accept_new_config,
  try_handle_just_parsed_config,
}
use arataga.ConfigProcessor.Running.{config_of, running_are_config}

abbrev pub with_acls : Config → List AclConfig → Config
with_acls config acls = record config { acls = acls }

module _ (acls : List AclConfig) where
  pub unique_cases :
      ((acl : AclConfig) × (sort_acl_list_and_ensure_uniqueness acls ≡ inl acl)
        × (has_duplicates port_and_in_addr acls ≡ true))
      ⊎ ((sort_acl_list_and_ensure_uniqueness acls ≡ inr (sort port_and_in_addr acls))
          × IsSorted port_and_in_addr (sort port_and_in_addr acls)
          × (has_duplicates port_and_in_addr acls ≡ false))
  unfolding sort_acl_list_and_ensure_uniqueness
  unique_cases = elim (Option-cases (adjacent_find port_and_in_addr (sort port_and_in_addr acls))) [
    | inl e ↦ let (s, d) = unique_sort port_and_in_addr acls e in inr (ground arith, s, d)
    | inr (a, e) ↦ inl (a, ground arith, doubled_sort port_and_in_addr acls a e)
  ]

configs-accept_new_config :
    (cpus : ℕ) (config : Config) (p : Processor)
    → IsSorted port_and_in_addr config.acls
    → map config_of (accept_new_config cpus config p).0.running_acls ≡ config.acls
unfolding accept_new_config
configs-accept_new_config cpus config p s =
    running_are_config config cpus
      (record p { config_update_counter = add64 p.config_update_counter 1 }) s

-- A config that names a port with an address twice is refused. Any other is accepted, and then the
-- ACLs that run are those of the config, sorted by port and address, whatever ran before.
pub try_handle_just_parsed_config-runs :
    (cpus : ℕ) (config : Config) (p : Processor)
    → ((has_duplicates port_and_in_addr config.acls ≡ true)
        × (acl : AclConfig) × (try_handle_just_parsed_config cpus config p ≡ inl acl))
      ⊎ ((has_duplicates port_and_in_addr config.acls ≡ false)
          × (after : Processor) × (messages : List Message) × (try_handle_just_parsed_config cpus
                config p
              ≡ inr (after, messages))
          × (map config_of after.running_acls ≡ sort port_and_in_addr config.acls))
unfolding try_handle_just_parsed_config
try_handle_just_parsed_config-runs cpus config p = elim (unique_cases config.acls) [
  | inl (acl, e, d) ↦ inl (d, acl, ground arith)
  | inr (e, s, d) ↦
      let sorted = with_acls config (sort port_and_in_addr config.acls) in
      let (after, messages) = accept_new_config cpus sorted p in
      inr (d, after, messages, ground arith, configs-accept_new_config cpus sorted p s)
]
