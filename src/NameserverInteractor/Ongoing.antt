-- ===== src/NameserverInteractor/Ongoing.antt =====
-- arataga/dns_resolver/interactor/a_nameserver_interactor.cpp: what the handlers do to the table of
-- the ongoing requests.
use arataga.Prelude.{
  ℕ, ◌≡◌, refl, sym, subst, ◌⊎◌, inl, inr, Bool, true, false, Option, none, List, [], ◌∷◌, arith,
  Option-cases, Bool-cases,
}
use arataga.Prelude.Eq.{Bytes}
use arataga.Prelude.Map.{lookup, emplace, erase}
use arataga.Prelude.Keys.{Unique, emplace-Unique, erase-Unique}
use arataga.DnsTypes.{BinaryIo}
use arataga.DnsTypes.Packages.{ResourceData, read_header}
use arataga.NameserverInteractor.{
  Interactor, OngoingReqId, OngoingReqData, OngoingRequests, LookupRequest, ongoing_req_id_eq,
  evt_lookup_request, evt_updated_dns_params, remove_timed_out, is_timed_out,
  handle_async_send_result, try_handle_incoming_pkg, try_handle_positive_nameserver_response,
  try_handle_negative_nameserver_response, update_nameservers_list, detect_nsrv_for_new_request,
  request_id,
}

-- What a step does to the ongoing requests, the timer's aside.
unfoldable pub Kept : OngoingRequests → OngoingRequests → Type 0
Kept before now =
    (now ≡ before)
    ⊎ ((id : OngoingReqId) × (d : OngoingReqData) × (now ≡ emplace id d before))
    ⊎ ((id : OngoingReqId) × (now ≡ erase id before))

pub Kept-Unique : (before now : OngoingRequests) → Kept before now → Unique before → Unique now
unfolding Kept
Kept-Unique before now (inl e) u = subst Unique (sym e) u
Kept-Unique before now (inr (inl (id, d, e))) u =
    subst Unique (sym e) (emplace-Unique id d before u)
Kept-Unique before now (inr (inr (id, e))) u = subst Unique (sym e) (erase-Unique id before u)

pub updated_dns_params-same :
    (timeout : ℕ) (ips : List ℕ) (s : Interactor)
    → (evt_updated_dns_params timeout ips s).ongoing_requests ≡ s.ongoing_requests
unfolding evt_updated_dns_params update_nameservers_list
updated_dns_params-same timeout ips s = ground arith

module _ (A : Type 0) where
  lookup_timed_out :
      (timeout now : ℕ) (id : OngoingReqId) (m : OngoingRequests)
      → lookup id m ≡ none
      → lookup id (remove_timed_out {A = A} timeout now m).0 ≡ none
  unfolding lookup remove_timed_out
  lookup_timed_out timeout now id [] e = refl
  lookup_timed_out timeout now id ((j, d) ∷ m) e = ground (arith, lookup_timed_out timeout now id m)

  pub timed_out-Unique :
      (timeout now : ℕ) (m : OngoingRequests)
      → Unique m
      → Unique (remove_timed_out {A = A} timeout now m).0
  unfolding remove_timed_out
  timed_out-Unique timeout now [] u = u
  timed_out-Unique timeout now ((j, d) ∷ m) (e, u) =
      elim (Bool-cases (is_timed_out timeout now d)) [
        | inl t ↦ rw t (timed_out-Unique timeout now m u)
        | inr t ↦ rw t (lookup_timed_out timeout now j m e, timed_out-Unique timeout now m u)
      ]

  pub package_sent-Kept :
      (id : OngoingReqId) (success : Bool) (s : Interactor)
      → Kept s.ongoing_requests (handle_async_send_result {A = A} id success s).0.ongoing_requests
  unfolding Kept handle_async_send_result
  package_sent-Kept id true s = inl refl
  package_sent-Kept id false s = elim (Option-cases (lookup id s.ongoing_requests)) [
    | inl e ↦ inl (ground arith)
    | inr (d, e) ↦ inr (inr (id, ground arith))
  ]

module _ {S A : Type 0} (io : BinaryIo S) (make_address : ResourceData → Option A) where
  pub lookup_request-Kept :
      (now : ℕ) (cmd : LookupRequest) (s : Interactor)
      → Kept s.ongoing_requests (evt_lookup_request io make_address now cmd s).0.ongoing_requests
  unfolding Kept evt_lookup_request
  lookup_request-Kept now cmd s = elim (Option-cases (detect_nsrv_for_new_request s)) [
    | inl e ↦ inl (ground arith)
    | inr (index, e) ↦ elim (Option-cases (lookup (request_id index s) s.ongoing_requests)) [
      | inr (other, f) ↦ inl (ground arith)
      | inl f ↦ inr (
          inl (
            request_id index s,
            record {
              domain_name = cmd.domain_name;
              reply_to = cmd.reply_to;
              result_processor = cmd.result_processor;
              start_time = now;
            },
            ground arith,
          ))
    ]
  ]

  pub package_received-Kept :
      (sender : ℕ) (bytes : Bytes) (s : Interactor)
      → Kept s.ongoing_requests
          (try_handle_incoming_pkg io make_address sender bytes s).0.ongoing_requests
  unfolding Kept try_handle_incoming_pkg try_handle_positive_nameserver_response
      try_handle_negative_nameserver_response
  package_received-Kept sender bytes s =
      elim (Option-cases (read_header io (io.ifixed_mem_buf bytes))) [
        | inl e ↦ inl (ground arith)
        | inr ((header, stream), e) ↦
            let id : OngoingReqId = record { id = header.id; address = sender } in
            elim (Option-cases (lookup id s.ongoing_requests)) [
              | inl f ↦ inl (ground arith)
              | inr (d, f) ↦ inr (inr (id, ground arith))
            ]
      ]
