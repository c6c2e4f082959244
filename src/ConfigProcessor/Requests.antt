-- ===== src/ConfigProcessor/Requests.antt =====
-- arataga/config_processor/a_processor.cpp, with arataga/admin_http_entry/{pub.hpp,helpers.hpp}: the
-- requests of the admin HTTP-entry to the agent.
--
-- How the writing of the local file goes is given with the request. A reply has its status and what
-- its text is made of. The completion token of a request is the
-- number of its replier. An exception of a handler is a negative reply, as
-- `envelope_sync_request_handling` and `envelope_async_request_handling` make it.
use arataga.Prelude.{
  ℕ, ◌&&◌, ◌⊎◌, inl, inr, Option, none, some, List, [], ◌∷◌, map, take, zero, suc, ◌==◌,
  if◌then◌else◌,
}
use arataga.Prelude.Eq.{Bytes, bytes_beq}
use arataga.Authentificator.{
  AclReqId, AuthRequest, FailureReason, SuccessfulAuth, AuthResult, failed_auth, successful_auth,
}
use arataga.DnsConductor.{
  IpVersion, ip_v4, ip_v6, ResolveResult, failed_resolve, successful_resolve,
}
use arataga.Config.{AclConfig, Config}
use arataga.ConfigProcessor.{
  Processor, RunningAcl, Message, so_direct_mbox, try_handle_just_parsed_config,
}

abbrev pub status_ok : ℕ
status_ok = 200

abbrev pub status_bad_request : ℕ
status_bad_request = 400

abbrev pub status_config_processor_failure : ℕ
status_config_processor_failure = 520

pub data Exception : Type 0 where
  parser_exception : Bytes → Exception
  not_unique : AclConfig → Exception
  out_of_range : ℕ → Exception
  invalid_ip_version : Bytes → Exception

pub data Body : Type 0 where
  new_config_accepted no_acl_with_parameters : Body
  acl_list : List (ℕ × AclConfig) → Body
  failed_authentification : FailureReason → Body
  successful_authentification : SuccessfulAuth → Body
  dns_resolve_failed : Bytes → Body
  successful_dns_resolve : ℕ → Body
  exception_caught : Exception → Body

pub record HttpReply : Type 0 where
  pub replier : ℕ
  pub status : ℕ
  pub body : Body

abbrev pub failure : ℕ → Exception → HttpReply
failure replier x = record {
  replier = replier;
  status = status_config_processor_failure;
  body = exception_caught x;
}

-- The state and the messages after a new config, with what the local file has (`none` when there is
-- no such file).
pub record Updated : Type 0 where
  pub processor : Processor
  pub messages : List Message
  pub local_file : Option Bytes
  pub reply : HttpReply

abbrev pub refuse_config : ℕ → Option Bytes → Processor → Exception → Updated
refuse_config replier file p x = record {
  processor = p;
  messages = [];
  local_file = file;
  reply = failure replier x;
}

-- How the writing of the local file goes: it cannot be opened, it fails after some bytes, or it is
-- completed.
pub data FileWriting : Type 0 where
  not_opened : FileWriting
  failed_after : ℕ → FileWriting
  completed : FileWriting

-- The opening truncates the file. Its failure and that of the writing are logged and ignored.
unfoldable pub store_new_config_to_file : FileWriting → Bytes → Option Bytes → Option Bytes
store_new_config_to_file not_opened content file = file
store_new_config_to_file (failed_after n) content file = some (take n content)
store_new_config_to_file completed content file = some content

-- The state, the messages and the local file, or the exception.
unfoldable pub try_handle_new_config_from_post_request :
    (Bytes → Bytes ⊎ Config)
    → ℕ
    → FileWriting
    → Bytes
    → Option Bytes
    → Processor
    → Exception ⊎ (Processor × List Message × Option Bytes)
unfolding store_new_config_to_file
try_handle_new_config_from_post_request parse cpus writing content file p = elim (parse content) [
  | inl what ↦ inl (parser_exception what)
  | inr config ↦ elim (try_handle_just_parsed_config cpus config p) [
    | inl acl ↦ inl (not_unique acl)
    | inr (after, messages) ↦ inr (after, messages, store_new_config_to_file writing content file)
  ]
]

unfoldable pub on_new_config :
    (Bytes → Bytes ⊎ Config) → ℕ → FileWriting → ℕ → Bytes → Option Bytes → Processor → Updated
unfolding try_handle_new_config_from_post_request
on_new_config parse cpus writing replier content file p =
    elim (try_handle_new_config_from_post_request parse cpus writing content file p) [
      | inl x ↦ refuse_config replier file p x
      | inr (after, messages, stored) ↦ record {
        processor = after;
        messages = messages;
        local_file = stored;
        reply = record { replier = replier; status = status_ok; body = new_config_accepted };
      }
    ]

-- `none` stands for a file that cannot be read. Every exception is ignored.
unfoldable pub try_load_local_config_first_time :
    (Bytes → Bytes ⊎ Config) → ℕ → Option Bytes → Processor → Processor × List Message
try_load_local_config_first_time parse cpus none p = (p, [])
try_load_local_config_first_time parse cpus (some content) p = elim (parse content) [
  | inl what ↦ (p, [])
  | inr config ↦ elim (try_handle_just_parsed_config cpus config p) [
    | inl acl ↦ (p, [])
    | inr (after, messages) ↦ (after, messages)
  ]
]

unfoldable pub on_get_acl_list : ℕ → Processor → HttpReply
on_get_acl_list replier p = record {
  replier = replier;
  status = status_ok;
  body = acl_list (map (λ racl. (racl.io_thread_index, racl.config)) p.running_acls);
}

-- `debug_requests::authentificate_t` and `debug_requests::dns_resolve_t`.
pub record Authentificate : Type 0 where
  pub proxy_in_addr : ℕ
  pub proxy_port : ℕ
  pub user_ip : ℕ
  pub username : Option Bytes
  pub password : Option Bytes
  pub target_host : Bytes
  pub target_port : ℕ

pub record DnsResolve : Type 0 where
  pub proxy_in_addr : ℕ
  pub proxy_port : ℕ
  pub target_host : Bytes
  pub ip_version : Bytes

-- The resolver's request, with the fields that the agent sets.
pub record ResolveRequest : Type 0 where
  pub req_id : AclReqId
  pub reply_to : ℕ
  pub completion_token : ℕ
  pub name : Bytes
  pub ip_version : IpVersion

-- An asynchronous request is passed on to an mbox, or there is a reply at once.
pub data Handling (R : Type 0) : Type 0 where
  passed_on : ℕ → R → Handling R
  replied : HttpReply → Handling R

-- `std::find_if` by the address and the port.
unfoldable pub find_acl : ℕ → ℕ → List RunningAcl → Option RunningAcl
find_acl in_addr port [] = none
find_acl in_addr port (racl ∷ racls) =
    let rest = find_acl in_addr port racls in
    if (racl.config.in_addr == in_addr) && (racl.config.port == port) then some racl else rest

-- `std::vector::at`; `none` is its exception.
unfoldable pub at_index {ℓ} : {A : Type ℓ} → List A → ℕ → Option A
at_index [] i = none
at_index (x ∷ xs) zero = some x
at_index (x ∷ xs) (suc i) = at_index xs i

abbrev pub debug_req_id : Processor → AclReqId
debug_req_id p = record {
  seed = p.own_acl_id_seed.seed;
  ordinal = p.own_acl_id_seed.ordinal;
  proxy_port = 0;
  id = 0;
}

abbrev pub no_such_acl : ℕ → HttpReply
no_such_acl replier = record {
  replier = replier;
  status = status_bad_request;
  body = no_acl_with_parameters;
}

-- The fields of the request that is sent.
abbrev pub debug_auth_request : ℕ → Authentificate → Processor → AuthRequest
debug_auth_request replier request p = record {
  req_id = debug_req_id p;
  reply_to = so_direct_mbox;
  completion_token = some replier;
  proxy_in_addr = request.proxy_in_addr;
  proxy_port = request.proxy_port;
  user_ip = request.user_ip;
  username = request.username;
  password = request.password;
  target_host = request.target_host;
  target_port = request.target_port;
}

unfoldable pub on_debug_auth : ℕ → Authentificate → Processor → Handling AuthRequest
unfolding find_acl at_index
on_debug_auth replier request p =
    elim (find_acl request.proxy_in_addr request.proxy_port p.running_acls) [
      | none ↦ replied (no_such_acl replier)
      | some racl ↦ elim (at_index p.io_threads racl.io_thread_index) [
        | none ↦ replied (failure replier (out_of_range racl.io_thread_index))
        | some io_thread ↦ passed_on io_thread.auth_mbox (debug_auth_request replier request p)
      ]
    ]

-- "IPv4" and "IPv6"; anything else throws.
unfoldable pub from_string : Bytes → Option IpVersion
from_string ip =
    if bytes_beq ip (73 ∷ 80 ∷ 118 ∷ 52 ∷ [])
    then some ip_v4
    else if bytes_beq ip (73 ∷ 80 ∷ 118 ∷ 54 ∷ [])
    then some ip_v6
    else none

abbrev requested_version : Bytes → Option IpVersion
requested_version [] = some ip_v4
requested_version (c ∷ cs) = from_string (c ∷ cs)

unfoldable pub on_debug_dns_resolve : ℕ → DnsResolve → Processor → Handling ResolveRequest
unfolding find_acl at_index
on_debug_dns_resolve replier request p =
    elim (find_acl request.proxy_in_addr request.proxy_port p.running_acls) [
      | none ↦ replied (no_such_acl replier)
      | some racl ↦ elim (at_index p.io_threads racl.io_thread_index) [
        | none ↦ replied (failure replier (out_of_range racl.io_thread_index))
        | some io_thread ↦ elim (requested_version request.ip_version) [
          | none ↦ replied (failure replier (invalid_ip_version request.ip_version))
          | some version ↦ passed_on io_thread.dns_mbox (record {
            req_id = debug_req_id p;
            reply_to = so_direct_mbox;
            completion_token = replier;
            name = request.target_host;
            ip_version = version;
          })
        ]
      ]
    ]

-- The completion of a debug request, by its token.
unfoldable pub on_auth_reply : Option ℕ → AuthResult → Option HttpReply
on_auth_reply none result = none
on_auth_reply (some replier) (failed_auth reason) =
    some (record { replier = replier; status = status_ok; body = failed_authentification reason })
on_auth_reply (some replier) (successful_auth user) =
    some (record { replier = replier; status = status_ok; body = successful_authentification user })

unfoldable pub on_resolve_reply : Option ℕ → ResolveResult ℕ → Option HttpReply
on_resolve_reply none result = none
on_resolve_reply (some replier) (failed_resolve error_desc) =
    some (record { replier = replier; status = status_ok; body = dns_resolve_failed error_desc })
on_resolve_reply (some replier) (successful_resolve address) =
    some (record { replier = replier; status = status_ok; body = successful_dns_resolve address })
