-- ===== src/ConfigProcessor.antt =====
-- arataga/config_processor/{a_processor.hpp,a_processor.cpp} and arataga/io_threads_count.hpp: the
-- agent that turns a new config into running ACLs on IO-threads.
--
-- A handler takes the agent's state and returns the new one with the messages that it sends. An
-- agent that is created gets the next number as its mbox. The parser of the config is a parameter.
-- Logging is left out, and so is reading the local file.
pub mod Running
pub mod Counts
pub mod Requests
pub mod Routing
pub mod Histories
pub mod Threads
pub mod Accept
pub mod Replace
use arataga.Prelude.{
  ℕ, zero, suc, ◌+◌, ◌-◌, ◌*◌, ◌%◌, ◌⊎◌, inl, inr, none, some, List, [], ◌∷◌, ◌++◌, map, ltb, ◌==◌,
  if◌then◌else◌, length, get_or, update_at,
}
use arataga.Prelude.Eq.{Bytes}
use arataga.Prelude.Order.{nat_order, pair_order}
use arataga.Prelude.Sorted.{sort, adjacent_find, set_difference, set_intersection}
use arataga.Words.{add64, sub64}
use arataga.Authentificator.{DeniedCase}
use arataga.Config.{AclConfig, protocol_value, CommonAclParams, Config, AclReqIdSeed}

pub data IoThreadsCount : Type 0 where
  default : IoThreadsCount
  exact : ℕ → IoThreadsCount
  all_cores : IoThreadsCount

-- The first argument is what `std::thread::hardware_concurrency` answers.
unfoldable pub detect_io_threads_count : ℕ → IoThreadsCount → ℕ
detect_io_threads_count cpus default = if ltb 2 cpus then cpus - 2 else 1
detect_io_threads_count cpus (exact number) = number
detect_io_threads_count cpus all_cores = if cpus == 0 then 1 else cpus

abbrev pub PortAndInAddr : Type 0
PortAndInAddr = ℕ × ℕ

abbrev pub FullAclIdentity : Type 0
FullAclIdentity = (ℕ × ℕ) × (ℕ × ℕ)

abbrev pub port_and_in_addr : AclConfig → PortAndInAddr
port_and_in_addr v = (v.port, v.in_addr)

-- The tuple of four is compared as two pairs.
abbrev pub full_acl_identity : AclConfig → FullAclIdentity
full_acl_identity v = ((v.port, v.in_addr), (v.out_addr, protocol_value v.protocol))

-- Throws, with the entry of the message, where two entries have one port and address.
unfoldable pub sort_acl_list_and_ensure_uniqueness : List AclConfig → AclConfig ⊎ List AclConfig
sort_acl_list_and_ensure_uniqueness acls =
    let sorted = sort port_and_in_addr acls in
    elim (adjacent_find port_and_in_addr sorted) [ none ↦ inr sorted | some acl ↦ inl acl ]

pub record RunningAcl : Type 0 where
  pub config : AclConfig
  pub io_thread_index : ℕ
  pub mbox : ℕ

pub record IoThread : Type 0 where
  pub auth_mbox : ℕ
  pub dns_mbox : ℕ
  pub timer_provider : ℕ
  pub running_acl_count : ℕ

-- `next_mbox` is the number for the next agent.
pub record Processor : Type 0 where
  pub io_threads_count : IoThreadsCount
  pub io_threads : List IoThread
  pub running_acls : List RunningAcl
  pub config_update_counter : ℕ
  pub acl_id_seed : AclReqIdSeed
  pub own_acl_id_seed : AclReqIdSeed
  pub next_mbox : ℕ

-- What a new ACL is created with, its name's parts included.
pub record LaunchedAcl : Type 0 where
  pub acl : RunningAcl
  pub io_thread : IoThread
  pub version : ℕ
  pub id_seed : AclReqIdSeed
  pub common_params : CommonAclParams

pub data Message : Type 0 where
  updated_dns_params : ℕ → ℕ → List ℕ → Message
  updated_common_acl_params : CommonAclParams → Message
  updated_auth_params : List DeniedCase → ℕ → Message
  io_thread_started : IoThread → Message
  shutdown : ℕ → Message
  acl_launched : LaunchedAcl → Message

abbrev pub make_next_acl_req_id_seed : AclReqIdSeed → AclReqIdSeed
make_next_acl_req_id_seed last_value = record last_value { ordinal = add64 last_value.ordinal 1 }

-- The agent's own mbox.
abbrev pub so_direct_mbox : ℕ
so_direct_mbox = 0

-- The first seed is random.
unfoldable pub make_processor : IoThreadsCount → ℕ → Processor
make_processor count random =
    let first = make_next_acl_req_id_seed (record { seed = random; ordinal = 0 }) in
    record {
      io_threads_count = count;
      io_threads = [];
      running_acls = [];
      config_update_counter = 0;
      acl_id_seed = first;
      own_acl_id_seed = first;
      next_mbox = so_direct_mbox + 1;
    }

abbrev pub send_updated_config_messages : Config → List Message
send_updated_config_messages config =
    (updated_dns_params config.dns_cache_cleanup_period
        config.common_acl_params.dns_resolving_timeout config.nameserver_ips
      ∷ updated_common_acl_params config.common_acl_params
      ∷ updated_auth_params config.denied_ports config.common_acl_params.failed_auth_reply_timeout
      ∷ [])

-- The authentificator, the DNS resolver and the timer provider of a thread are created in turn.
unfoldable pub create_dispatchers : ℕ → ℕ → List IoThread
create_dispatchers zero next_mbox = []
create_dispatchers (suc n) next_mbox =
    record {
      auth_mbox = next_mbox;
      dns_mbox = next_mbox + 1;
      timer_provider = next_mbox + 2;
      running_acl_count = 0;
    }
    ∷ create_dispatchers n (next_mbox + 3)

unfoldable pub create_dispatchers_if_necessary : ℕ → Processor → Processor × List Message
create_dispatchers_if_necessary cpus p = elim p.io_threads [
  | [] ↦
      let count = detect_io_threads_count cpus p.io_threads_count in
      let io_threads = create_dispatchers count p.next_mbox in
      (
        record p { io_threads = io_threads; next_mbox = p.next_mbox + 3 * count },
        map io_thread_started io_threads,
      )
  | _ ∷ _ ↦ (p, [])
]

abbrev pub add_acl : IoThread → IoThread
add_acl t = record t { running_acl_count = add64 t.running_acl_count 1 }

abbrev pub remove_acl : IoThread → IoThread
remove_acl t = record t { running_acl_count = sub64 t.running_acl_count 1 }

abbrev pub handle_outdated : List RunningAcl → List IoThread → List IoThread
handle_outdated [] io_threads = io_threads
handle_outdated (racl ∷ racls) io_threads =
    handle_outdated racls (update_at racl.io_thread_index remove_acl io_threads)

abbrev pub running_identity : RunningAcl → FullAclIdentity
running_identity racl = full_acl_identity racl.config

abbrev pub outdated_acls : Config → List RunningAcl → List RunningAcl
outdated_acls config running = set_difference running_identity full_acl_identity running config.acls

abbrev pub living_acls : Config → List RunningAcl → List RunningAcl
living_acls config running = set_intersection running_identity full_acl_identity running config.acls

unfoldable pub stop_and_remove_outdated_acls : Config → Processor → Processor × List Message
stop_and_remove_outdated_acls config p =
    let outdated = outdated_acls config p.running_acls in
    (
      record p {
        running_acls = living_acls config p.running_acls;
        io_threads = handle_outdated outdated p.io_threads;
      },
      map (λ racl. shutdown racl.mbox) outdated,
    )

-- `std::min_element`: the index and the count of the best so far, and the index that is next.
abbrev pub min_element : ℕ → ℕ → ℕ → List IoThread → ℕ
min_element best count i [] = best
min_element best count i (t ∷ ts) =
    let better = ltb t.running_acl_count count in
    min_element (if better then i else best) (if better then t.running_acl_count else count) (i + 1)
      ts

unfoldable pub index_of_io_thread_with_lowest_acl_count : List IoThread → ℕ
index_of_io_thread_with_lowest_acl_count [] = 0
index_of_io_thread_with_lowest_acl_count (t ∷ ts) = min_element 0 t.running_acl_count 1 ts

-- The loop's variables.
pub record Launching : Type 0 where
  pub processor : Processor
  pub io_thread_index : ℕ
  pub launched : List LaunchedAcl

abbrev pub no_io_thread : IoThread
no_io_thread = record { auth_mbox = 0; dns_mbox = 0; timer_provider = 0; running_acl_count = 0 }

abbrev pub acl_count : ℕ → List IoThread → ℕ
acl_count i io_threads = (get_or io_threads i no_io_thread).running_acl_count

unfoldable pub next_io_thread : ℕ → List IoThread → ℕ
next_io_thread i io_threads =
    let next_index = (i + 1) % length io_threads in
    if ltb (acl_count next_index io_threads) (acl_count i io_threads) then next_index else i

unfoldable pub launch_acl : Config → AclConfig → Launching → Launching
launch_acl config acl_conf l =
    let p = l.processor in
    let id_seed = make_next_acl_req_id_seed p.acl_id_seed in
    let acl : RunningAcl = record {
      config = acl_conf;
      io_thread_index = l.io_thread_index;
      mbox = p.next_mbox;
    } in
    let io_threads = update_at l.io_thread_index add_acl p.io_threads in
    record {
      processor = record p {
        running_acls = p.running_acls ++ (acl ∷ []);
        io_threads = io_threads;
        acl_id_seed = id_seed;
        next_mbox = p.next_mbox + 1;
      };
      io_thread_index = next_io_thread l.io_thread_index io_threads;
      launched =
          l.launched
          ++ (record {
            acl = acl;
            io_thread = get_or p.io_threads l.io_thread_index no_io_thread;
            version = p.config_update_counter;
            id_seed = id_seed;
            common_params = config.common_acl_params;
          }
              ∷ []);
    }

abbrev pub launch_all : Config → List AclConfig → Launching → Launching
launch_all config [] l = l
launch_all config (acl_conf ∷ acls) l = launch_all config acls (launch_acl config acl_conf l)

abbrev pub new_acls : Config → List RunningAcl → List AclConfig
new_acls config running = set_difference full_acl_identity running_identity config.acls running

unfoldable pub launch_new_acls : Config → Processor → Processor × List Message
launch_new_acls config p =
    let l = launch_all config (new_acls config p.running_acls) (record {
      processor = p;
      io_thread_index = index_of_io_thread_with_lowest_acl_count p.io_threads;
      launched = [];
    }) in
    (
      record (l.processor) {
        running_acls = sort (λ racl. port_and_in_addr racl.config) l.processor.running_acls;
      },
      map acl_launched l.launched,
    )

unfoldable pub handle_upcoming_acl_list : ℕ → Config → Processor → Processor × List Message
handle_upcoming_acl_list cpus config p =
    let (created, started) = create_dispatchers_if_necessary cpus p in
    let (living, stopped) = stop_and_remove_outdated_acls config created in
    let (running, launched) = launch_new_acls config living in
    (running, started ++ stopped ++ launched)

unfoldable pub accept_new_config : ℕ → Config → Processor → Processor × List Message
accept_new_config cpus config p =
    let (running, messages) =
      handle_upcoming_acl_list cpus config
        (record p { config_update_counter = add64 p.config_update_counter 1 }) in
    (running, send_updated_config_messages config ++ messages)

-- On the exception nothing has been changed.
unfoldable pub try_handle_just_parsed_config :
    ℕ → Config → Processor → AclConfig ⊎ (Processor × List Message)
try_handle_just_parsed_config cpus config p =
    elim (sort_acl_list_and_ensure_uniqueness config.acls) [
      | inl acl ↦ inl acl
      | inr acls ↦ inr (accept_new_config cpus (record config { acls = acls }) p)
    ]
