-- ===== src/DnsConductor.antt =====
-- arataga/dns_resolver/lookup_conductor/{a_conductor.cpp,a_conductor.hpp,
-- waiting_requests_handler.hpp}: the agent that answers the requests to resolve names.
--
-- An event handler returns the replies and the lookups that it sends. Names are strings of bytes,
-- mboxes and completion tokens are numbers, and times are in nanoseconds. Asio's IP addresses are
-- a parameter. A successful lookup has an address: a_nameserver_interactor.cpp sends a failure in
-- place of an empty list.
pub mod Waiting
pub mod Answers
pub mod Cached
pub mod Expiry
use arataga.Prelude.{
  ℕ, ◌+◌, ◌-◌, ◌/◌, Bool, true, false, ◌&&◌, Option, none, some, List, [], ◌∷◌, ◌++◌, map, leb,
  if◌then◌else◌,
}
use arataga.Prelude.Eq.{Bytes, bytes_eq}
use arataga.Prelude.Map.{lookup, emplace, erase, update}

pub data IpVersion : Type 0 where
  ip_v4 ip_v6 : IpVersion

-- What the agent uses of `asio::ip`.
pub record AsioIp (A : Type 0) : Type 0 where
  pub make_address : Bytes → Option A
  pub is_v4 : A → Bool
  pub is_v6 : A → Bool
  pub v4_mapped : A → A

pub data ResolveResult (A : Type 0) : Type 0 where
  successful_resolve : A → ResolveResult A
  failed_resolve : Bytes → ResolveResult A

pub data LookupResult (A : Type 0) : Type 0 where
  successful_lookup : A → List A → LookupResult A
  failed_lookup : Bytes → LookupResult A

pub record ResolveRequestInfo : Type 0 where
  pub req_id : ℕ
  pub ip_version : IpVersion
  pub completion_token : ℕ
  pub reply_to : ℕ

pub record ResolveReply (A : Type 0) : Type 0 where
  pub request : ResolveRequestInfo
  pub result : ResolveResult A

pub record ResolveInfo (A : Type 0) : Type 0 where
  pub first_address : A
  pub other_addresses : List A
  pub creation_time : ℕ

-- A lookup that the agent asks the nameserver's agent for.
pub record LookupRequest : Type 0 where
  pub domain_name : Bytes
  pub ip_version : IpVersion

abbrev pub LocalCache : Type 0 → Type 0
LocalCache A = List (Bytes × ResolveInfo A)

abbrev pub WaitingRequests : Type 0
WaitingRequests = List (Bytes × List ResolveRequestInfo)

pub record Conductor (A : Type 0) : Type 0 where
  pub own_ip_version : IpVersion
  pub cache_cleanup_period : ℕ
  pub cache : LocalCache A
  pub waiting_forward_requests : WaitingRequests
  pub dns_cache_hits : ℕ
  pub dns_successful_lookups : ℕ
  pub dns_failed_lookups : ℕ

pub record Sent (A : Type 0) : Type 0 where
  pub replies : List (ResolveReply A)
  pub lookups : List LookupRequest

unfoldable pub resolve : {A : Type 0} → Bytes → LocalCache A → Option A
resolve name cache = elim (lookup name cache) [ none ↦ none | some info ↦ some info.first_address ]

abbrev pub resolve_info_time_to_live : ℕ
resolve_info_time_to_live = 30

-- The age is in whole seconds.
unfoldable pub is_outdated : {A : Type 0} → ℕ → ℕ → ResolveInfo A → Bool
is_outdated time_to_live now info = leb time_to_live ((now - info.creation_time) / 1000000000)

unfoldable pub remove_outdated_records : {A : Type 0} → ℕ → ℕ → LocalCache A → LocalCache A
unfolding is_outdated
remove_outdated_records time_to_live now [] = []
remove_outdated_records time_to_live now ((name, info) ∷ m) =
    let rest = remove_outdated_records time_to_live now m in
    if is_outdated time_to_live now info then rest else (name, info) ∷ rest

unfoldable pub add_records : {A : Type 0} → Bytes → A → List A → ℕ → LocalCache A → LocalCache A
add_records name first others now cache =
    emplace name (record { first_address = first; other_addresses = others; creation_time = now })
      cache

-- `true` if a lookup is needed.
unfoldable pub add_request : Bytes → ResolveRequestInfo → WaitingRequests → Bool × WaitingRequests
add_request key req waiting = elim (lookup key waiting) [
  | none ↦ (true, emplace key (req ∷ []) waiting)
  | some _ ↦ (false, update key (λ requests. requests ++ (req ∷ [])) waiting)
]

abbrev pub reply_with : {A : Type 0} → ResolveResult A → ResolveRequestInfo → ResolveReply A
reply_with result req = record { request = req; result = result }

-- `handle_failure` and `handle_success`, which differ in how the result is made: every request
-- that waits for the name gets it.
unfoldable pub handle_result :
    {A : Type 0}
    → Bytes
    → ResolveResult A
    → WaitingRequests
    → List (ResolveReply A) × WaitingRequests
handle_result key result waiting = elim (lookup key waiting) [
  | none ↦ ([], waiting)
  | some requests ↦ (map (reply_with result) requests, erase key waiting)
]

-- "IP version mismatch for direct IP address".
abbrev pub mismatch_text : Bytes
mismatch_text =
    73 ∷ 80 ∷ 32 ∷ 118 ∷ 101 ∷ 114 ∷ 115 ∷ 105 ∷ 111 ∷ 110 ∷ 32 ∷ 109 ∷ 105 ∷ 115 ∷ 109 ∷ 97 ∷ 116
    ∷ 99 ∷ 104 ∷ 32 ∷ 102 ∷ 111 ∷ 114 ∷ 32 ∷ 100 ∷ 105 ∷ 114 ∷ 101 ∷ 99 ∷ 116 ∷ 32 ∷ 73 ∷ 80 ∷ 32
    ∷ 97 ∷ 100 ∷ 100 ∷ 114 ∷ 101 ∷ 115 ∷ 115 ∷ []

module _ {A : Type 0} (asio : AsioIp A) where
  unfoldable pub ip_to_reply : IpVersion → A → Option A
  ip_to_reply ip_v4 addr = if asio.is_v4 addr then some addr else none
  ip_to_reply ip_v6 addr =
      if asio.is_v6 addr
      then some addr
      else if asio.is_v4 addr
      then some (asio.v4_mapped addr)
      else none

  abbrev pub direct_result : Option A → ResolveResult A
  direct_result (some addr) = successful_resolve addr
  direct_result none = failed_resolve mismatch_text

  -- The result for a name that is a direct IP address.
  unfoldable pub try_handle_direct_ip_case : Bytes → Conductor A → Option (ResolveResult A)
  unfolding ip_to_reply
  try_handle_direct_ip_case name c = elim (asio.make_address name) [
    | none ↦ none
    | some addr ↦ some (direct_result (ip_to_reply c.own_ip_version addr))
  ]

  unfoldable pub add_to_waiting_and_resolve :
      Bytes → ResolveRequestInfo → Conductor A → Sent A × Conductor A
  unfolding add_request
  add_to_waiting_and_resolve name req c =
      let (need_resolve, waiting) = add_request name req c.waiting_forward_requests in
      (
        record {
          replies = [];
          lookups =
              if need_resolve
              then record { domain_name = name; ip_version = req.ip_version } ∷ []
              else [];
        },
        record c { waiting_forward_requests = waiting },
      )

  unfoldable pub on_resolve : Bytes → ResolveRequestInfo → Conductor A → Sent A × Conductor A
  unfolding try_handle_direct_ip_case resolve add_to_waiting_and_resolve
  on_resolve name req c = elim (try_handle_direct_ip_case name c) [
    | some result ↦ (record { replies = reply_with result req ∷ []; lookups = [] }, c)
    | none ↦ elim (resolve name c.cache) [
      | some addr ↦ (
        record { replies = reply_with (successful_resolve addr) req ∷ []; lookups = [] },
        record c { dns_cache_hits = c.dns_cache_hits + 1 },
      )
      | none ↦ add_to_waiting_and_resolve name req c
    ]
  ]

unfoldable pub handle_lookup_result :
    {A : Type 0} → Bytes → LookupResult A → ℕ → Conductor A → List (ResolveReply A) × Conductor A
unfolding add_records handle_result
handle_lookup_result name (successful_lookup first others) now c =
    let (replies, waiting) =
      handle_result name (successful_resolve first) c.waiting_forward_requests in
    (
      replies,
      record c {
        dns_successful_lookups = c.dns_successful_lookups + 1;
        cache = add_records name first others now c.cache;
        waiting_forward_requests = waiting;
      },
    )
handle_lookup_result name (failed_lookup description) now c =
    let (replies, waiting) =
      handle_result name (failed_resolve description) c.waiting_forward_requests in
    (
      replies,
      record c {
        dns_failed_lookups = c.dns_failed_lookups + 1;
        waiting_forward_requests = waiting;
      },
    )

-- The delay of the message that initiates the next clean-up, and the state.
unfoldable pub on_clear_cache : {A : Type 0} → ℕ → Conductor A → ℕ × Conductor A
unfolding remove_outdated_records
on_clear_cache now c = (
  c.cache_cleanup_period,
  record c { cache = remove_outdated_records resolve_info_time_to_live now c.cache },
)

unfoldable pub on_updated_dns_params : {A : Type 0} → ℕ → Conductor A → Conductor A
on_updated_dns_params cache_cleanup_period c = record c {
  cache_cleanup_period = cache_cleanup_period;
}

unfoldable pub make_conductor : {A : Type 0} → IpVersion → ℕ → Conductor A
make_conductor ip cache_cleanup_period = record {
  own_ip_version = ip;
  cache_cleanup_period = cache_cleanup_period;
  cache = [];
  waiting_forward_requests = [];
  dns_cache_hits = 0;
  dns_successful_lookups = 0;
  dns_failed_lookups = 0;
}
