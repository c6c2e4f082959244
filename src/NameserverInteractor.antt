-- ===== src/NameserverInteractor.antt =====
-- arataga/dns_resolver/interactor/{pub.hpp,a_nameserver_interactor.hpp,a_nameserver_interactor.cpp}:
-- the agent that asks nameservers by UDP and passes their answers on.
--
-- An event handler returns the agent's state with the responses and the packages that it sends. IP
-- addresses of nameservers are numbers, mboxes and result processors too, and times are in one unit.
-- The addresses in answers, with Asio's conversion of a text, are a parameter, as are the streams.
-- The next read of the socket, logging, and exceptions of the sending itself are left out.
pub mod Ongoing
pub mod Accounts
pub mod Servers
pub mod Request
use arataga.Prelude.{
  ℕ, zero, suc, ◌+◌, ◌*◌, ◌/◌, ◌%◌, ◌≡◌, ◌↔◌, Bool, true, false, ◌&&◌, ◌||◌, Option, none, some,
  List, [], ◌∷◌, ◌++◌, map, arith, ltb, ◌==◌, ==_iff, if◌then◌else◌, length, get_or, update_at,
}
use arataga.Prelude.Eq.{Eq, Bytes, nat_eq}
use arataga.Prelude.Map.{lookup, emplace, erase}
use arataga.DnsConductor.{IpVersion, ip_v4, ip_v6}
use arataga.DnsTypes.{BinaryIo, Translated, translated, translate}
use arataga.DnsTypes.Packages.{
  DnsHeader, DnsQuestion, DnsResourceRecord, ResourceData, make_header, set_qr, rcode, qtype_a,
  qtype_aaaa, qclass_in, write_header, write_question, read_header, read_question, read_record,
}

pub data FailedLookup : Type 0 where
  no_name_servers no_unique_id request_timed_out no_ips unable_to_send : FailedLookup
  negative_reply : ℕ → FailedLookup

pub data LookupResult (A : Type 0) : Type 0 where
  successful_lookup : List A → LookupResult A
  failed_lookup : FailedLookup → LookupResult A

pub record LookupRequest : Type 0 where
  pub domain_name : Bytes
  pub ip_version : IpVersion
  pub reply_to : ℕ
  pub result_processor : ℕ

pub record LookupResponse (A : Type 0) : Type 0 where
  pub reply_to : ℕ
  pub result : LookupResult A
  pub result_processor : ℕ

pub record OngoingReqData : Type 0 where
  pub domain_name : Bytes
  pub reply_to : ℕ
  pub result_processor : ℕ
  pub start_time : ℕ

pub record OngoingReqId : Type 0 where
  pub id : ℕ
  pub address : ℕ

abbrev pub ongoing_req_id_beq : OngoingReqId → OngoingReqId → Bool
ongoing_req_id_beq a b = (a.id == b.id) && (a.address == b.address)

pub ongoing_req_id_beq_iff : (a b : OngoingReqId) → (ongoing_req_id_beq a b ≡ true) ↔ (a ≡ b)
ongoing_req_id_beq_iff a b = ground arith

instance abbrev pub ongoing_req_id_eq : Eq OngoingReqId
ongoing_req_id_eq = record { beq = ongoing_req_id_beq; beq_iff = ongoing_req_id_beq_iff }

pub record NameserverInfo : Type 0 where
  pub address : ℕ
  pub req_id_counter : ℕ

abbrev pub OngoingRequests : Type 0
OngoingRequests = List (OngoingReqId × OngoingReqData)

pub record Interactor : Type 0 where
  pub dns_resolving_timeout : ℕ
  pub nservers : List NameserverInfo
  pub last_nserver_index : ℕ
  pub ongoing_requests : OngoingRequests

abbrev pub make_interactor : ℕ → Interactor
make_interactor timeout = record {
  dns_resolving_timeout = timeout;
  nservers = [];
  last_nserver_index = 0;
  ongoing_requests = [];
}

-- A package, with the nameserver that it is sent to.
pub record Package : Type 0 where
  pub address : ℕ
  pub bytes : Bytes

pub record Sent (A : Type 0) : Type 0 where
  pub responses : List (LookupResponse A)
  pub packages : List Package

abbrev pub nothing : {A : Type 0} → Sent A
nothing = record { responses = []; packages = [] }

abbrev pub respond : {A : Type 0} → ℕ → ℕ → LookupResult A → Sent A
respond reply_to result_processor result = record {
  responses =
      (record { reply_to = reply_to; result = result; result_processor = result_processor } ∷ []);
  packages = [];
}

abbrev pub respond_to : {A : Type 0} → OngoingReqData → LookupResult A → Sent A
respond_to d result = respond d.reply_to d.result_processor result

-- `++counter` of 16 bits.
abbrev pub count_req_id : NameserverInfo → NameserverInfo
count_req_id n = record n { req_id_counter = (n.req_id_counter + 1) % 65536 }

abbrev pub no_nameserver : NameserverInfo
no_nameserver = record { address = 0; req_id_counter = 0 }

unfoldable pub detect_nsrv_for_new_request : Interactor → Option ℕ
detect_nsrv_for_new_request s = elim s.nservers [
  | [] ↦ none
  | n ∷ ns ↦ some ((s.last_nserver_index + 1) % length (n ∷ ns))
]

-- The ID of a request to the nameserver at an index, whose counter has been incremented.
abbrev pub request_id : ℕ → Interactor → OngoingReqId
request_id index s =
    let nsrv_to_use = get_or (update_at index count_req_id s.nservers) index no_nameserver in
    record { id = nsrv_to_use.req_id_counter; address = nsrv_to_use.address }

abbrev pub qtype_of : IpVersion → ℕ
qtype_of ip_v4 = qtype_a
qtype_of ip_v6 = qtype_aaaa

unfoldable pub request_header : ℕ → DnsHeader
unfolding make_header set_qr
request_header id = record (set_qr false (make_header id true)) { qdcount = 1 }

-- First `updated_list` and the addresses that are not in it; then what is new.
unfoldable pub remove_first : ℕ → List ℕ → List ℕ
remove_first a [] = []
remove_first a (b ∷ bs) = let rest = remove_first a bs in if b == a then bs else b ∷ rest

abbrev pub has_ip : ℕ → List ℕ → Bool
has_ip a [] = false
has_ip a (b ∷ bs) = (b == a) || has_ip a bs

-- The items that stay, the addresses that are left, and whether an item has been removed.
unfoldable pub first_pass : List NameserverInfo → List ℕ → List NameserverInfo × List ℕ × Bool
unfolding remove_first
first_pass [] ips = ([], ips, false)
first_pass (n ∷ ns) ips =
    let known = has_ip n.address ips in
    let (stay, left, removed) = first_pass ns (if known then remove_first n.address ips else ips) in
    if known then (n ∷ stay, left, removed) else (stay, left, true)

abbrev pub new_nameserver : ℕ → NameserverInfo
new_nameserver ip = record { address = ip; req_id_counter = 0 }

unfoldable pub update_nameservers_list : List ℕ → Interactor → Interactor
unfolding first_pass
update_nameservers_list ips s =
    let (stay, left, removed) = first_pass s.nservers ips in
    let added : Bool = elim left [ [] ↦ false | _ ∷ _ ↦ true ] in
    if removed || added
    then record s { nservers = stay ++ map new_nameserver left; last_nserver_index = 0 }
    else s

unfoldable pub evt_updated_dns_params : ℕ → List ℕ → Interactor → Interactor
evt_updated_dns_params timeout ips s =
    update_nameservers_list ips (record s { dns_resolving_timeout = timeout })

abbrev pub is_timed_out : ℕ → ℕ → OngoingReqData → Bool
is_timed_out timeout now d = ltb (d.start_time + timeout) now

module _ {A : Type 0} where
  -- The loop over the ongoing requests: those that stay, and the responses.
  unfoldable pub remove_timed_out :
      ℕ → ℕ → OngoingRequests → OngoingRequests × List (LookupResponse A)
  remove_timed_out timeout now [] = ([], [])
  remove_timed_out timeout now ((id, d) ∷ m) =
      let (stay, responses) = remove_timed_out timeout now m in
      if is_timed_out timeout now d
      then (stay, (respond_to d (failed_lookup request_timed_out)).responses ++ responses)
      else ((id, d) ∷ stay, responses)

  unfoldable pub evt_one_second_timer : ℕ → Interactor → Interactor × Sent A
  evt_one_second_timer now s =
      let (stay, responses) = remove_timed_out s.dns_resolving_timeout now s.ongoing_requests in
      (record s { ongoing_requests = stay }, record { responses = responses; packages = [] })

  unfoldable pub handle_async_send_result : OngoingReqId → Bool → Interactor → Interactor × Sent A
  handle_async_send_result id true s = (s, nothing)
  handle_async_send_result id false s = elim (lookup id s.ongoing_requests) [
    | none ↦ (s, nothing)
    | some d ↦ (
      record s { ongoing_requests = erase id s.ongoing_requests },
      respond_to d (failed_lookup unable_to_send),
    )
  ]

  unfoldable pub try_handle_negative_nameserver_response :
      OngoingReqId → DnsHeader → Interactor → Interactor × Sent A
  try_handle_negative_nameserver_response id header s = elim (lookup id s.ongoing_requests) [
    | none ↦ (s, nothing)
    | some d ↦ (
      record s { ongoing_requests = erase id s.ongoing_requests },
      respond_to d (failed_lookup (negative_reply (rcode header))),
    )
  ]

module _ {S A : Type 0} (io : BinaryIo S) (make_address : ResourceData → Option A) where
  -- A name that cannot be translated throws: then there is a response, and the request stays.
  unfoldable pub form_and_send_dns_udp_package :
      Bytes → IpVersion → OngoingReqId → OngoingReqData → Sent A
  form_and_send_dns_udp_package domain_name ip_version id d = elim (translate domain_name) [
    | translated name ↦ record {
      responses = [];
      packages =
          (record {
            address = id.address;
            bytes =
                write_header io (request_header id.id)
                ++ write_question io
                    (record { qname = name; qtype = qtype_of ip_version; qclass = qclass_in });
          }
            ∷ []);
    }
    | _ ↦ respond_to d (failed_lookup request_timed_out)
  ]

  unfoldable pub evt_lookup_request : ℕ → LookupRequest → Interactor → Interactor × Sent A
  unfolding form_and_send_dns_udp_package
  evt_lookup_request now cmd s = elim (detect_nsrv_for_new_request s) [
    | none ↦ (s, respond cmd.reply_to cmd.result_processor (failed_lookup no_name_servers))
    | some index ↦
        let id = request_id index s in
        let counted = record s {
          nservers = update_at index count_req_id s.nservers;
          last_nserver_index = index;
        } in
        let d : OngoingReqData = record {
          domain_name = cmd.domain_name;
          reply_to = cmd.reply_to;
          result_processor = cmd.result_processor;
          start_time = now;
        } in
        elim (lookup id s.ongoing_requests) [
          | some _ ↦
              (counted, respond cmd.reply_to cmd.result_processor (failed_lookup no_unique_id))
          | none ↦ (
            record counted { ongoing_requests = emplace id d s.ongoing_requests },
            form_and_send_dns_udp_package cmd.domain_name cmd.ip_version id d,
          )
        ]
  ]

  unfoldable pub read_questions : ℕ → S → Option S
  read_questions zero s = some s
  read_questions (suc n) s = elim (read_question io s) [
    | none ↦ none
    | some (_, t) ↦ read_questions n t
  ]

  -- The addresses of the answers, in their order.
  unfoldable pub read_answers : ℕ → Bytes → S → Option (List A)
  read_answers zero all_bin_data s = some []
  read_answers (suc n) all_bin_data s = elim (read_record io all_bin_data s) [
    | none ↦ none
    | some (rr, t) ↦ elim ((rr.record_type == qtype_a) || (rr.record_type == qtype_aaaa)) [
      | false ↦ read_answers n all_bin_data t
      | true ↦ elim (make_address rr.resource_data) [
        | none ↦ none
        | some ip ↦ elim (read_answers n all_bin_data t) [
          | none ↦ none
          | some ips ↦ some (ip ∷ ips)
        ]
      ]
    ]
  ]

  -- `none` is an exception in one of the stages of the parsing.
  unfoldable pub parse_response : DnsHeader → Bytes → S → Option (List A)
  parse_response header all_bin_data s = elim (read_questions header.qdcount s) [
    | none ↦ none
    | some t ↦ read_answers header.ancount all_bin_data t
  ]

  -- An exception of the parsing is logged and ignored, then the request is erased.
  unfoldable pub try_handle_positive_nameserver_response :
      OngoingReqId → DnsHeader → Bytes → S → Interactor → Interactor × Sent A
  try_handle_positive_nameserver_response id header all_bin_data stream s =
      elim (lookup id s.ongoing_requests) [
        | none ↦ (s, nothing)
        | some d ↦ (
          record s { ongoing_requests = erase id s.ongoing_requests },
          elim (parse_response header all_bin_data stream) [
            | none ↦ nothing
            | some [] ↦ respond_to d (failed_lookup no_ips)
            | some (ip ∷ ips) ↦ respond_to d (successful_lookup (ip ∷ ips))
          ],
        )
      ]

  -- A package of a sender. Where its header cannot be read, it is ignored.
  unfoldable pub try_handle_incoming_pkg : ℕ → Bytes → Interactor → Interactor × Sent A
  unfolding try_handle_positive_nameserver_response
  try_handle_incoming_pkg sender bytes s = elim (read_header io (io.ifixed_mem_buf bytes)) [
    | none ↦ (s, nothing)
    | some (header, stream) ↦
        let id : OngoingReqId = record { id = header.id; address = sender } in
        elim (rcode header == 0) [
          | true ↦ try_handle_positive_nameserver_response id header bytes stream s
          | false ↦ try_handle_negative_nameserver_response id header s
        ]
  ]
