-- ===== src/NameserverInteractor/Accounts.antt =====
-- arataga/dns_resolver/interactor/a_nameserver_interactor.cpp: which requests are answered, in any
-- history.
use arataga.Prelude.{
  ℕ, ◌+◌, ◌≤◌, ◌≡◌, refl, sym, subst, inl, inr, Bool, true, false, Option, none, some, List, [],
  ◌∷◌, arith, ◌==◌, if◌then◌else◌, Option-cases, ==_refl,
}
use arataga.Prelude.Eq.{Bytes}
use arataga.Prelude.Map.{lookup}
use arataga.Prelude.Keys.{total, Unique, total-emplace, total-erase}
use arataga.DnsTypes.{BinaryIo, translate, translated}
use arataga.DnsTypes.Packages.{DnsHeader, ResourceData, rcode, read_header}
use arataga.NameserverInteractor.Ongoing.{
  Kept-Unique, updated_dns_params-same, timed_out-Unique, lookup_request-Kept,
  package_received-Kept, package_sent-Kept,
}
use arataga.NameserverInteractor.{
  Interactor, OngoingReqId, OngoingReqData, OngoingRequests, LookupRequest, LookupResponse, Sent,
  ongoing_req_id_eq, nothing, evt_lookup_request, evt_updated_dns_params, evt_one_second_timer,
  remove_timed_out, handle_async_send_result, try_handle_incoming_pkg,
  try_handle_positive_nameserver_response, try_handle_negative_nameserver_response, parse_response,
  form_and_send_dns_udp_package, detect_nsrv_for_new_request, request_id, make_interactor,
}

-- What the agent is told, each with what it needs of the moment.
pub data Event : Type 0 where
  lookup_request : ℕ → LookupRequest → Event
  updated_dns_params : ℕ → List ℕ → Event
  one_second_timer : ℕ → Event
  package_received : ℕ → Bytes → Event
  package_sent : OngoingReqId → Bool → Event

-- A weight that counts one result processor.
abbrev pub only : ℕ → ℕ → ℕ
only k n = if n == k then 1 else 0

module _ (w : ℕ → ℕ) where
  abbrev pub ongoing_weight : Interactor → ℕ
  ongoing_weight s = total (λ d. w d.result_processor) s.ongoing_requests

  abbrev pub responses_weight : {A : Type 0} → List (LookupResponse A) → ℕ
  responses_weight [] = 0
  responses_weight (r ∷ rs) = w r.result_processor + responses_weight rs

  abbrev pub asked : Event → ℕ
  asked (lookup_request now cmd) = w cmd.result_processor
  asked _ = 0

module _ (A : Type 0) where
  timed_out_weight :
      (w : ℕ → ℕ) (timeout now : ℕ) (m : OngoingRequests)
      → total (λ d. w d.result_processor) m
        ≡ total (λ d. w d.result_processor) (remove_timed_out {A = A} timeout now m).0
          + responses_weight w (remove_timed_out {A = A} timeout now m).1
  unfolding remove_timed_out
  timed_out_weight w timeout now [] = omega arith
  timed_out_weight w timeout now ((id, d) ∷ m) = ground (arith, timed_out_weight w timeout now m)

module _ {S A : Type 0} (io : BinaryIo S) (make_address : ResourceData → Option A) where
  unfoldable pub step : Event → Interactor → Interactor × Sent A
  step (lookup_request now cmd) s = evt_lookup_request io make_address now cmd s
  step (updated_dns_params timeout ips) s = (evt_updated_dns_params timeout ips s, nothing)
  step (one_second_timer now) s = evt_one_second_timer now s
  step (package_received sender bytes) s = try_handle_incoming_pkg io make_address sender bytes s
  step (package_sent id success) s = handle_async_send_result id success s

  module _ (w : ℕ → ℕ) where
    -- A positive package for an ongoing request that cannot be parsed.
    abbrev pub unparsed : Event → Interactor → ℕ
    unparsed (package_received sender bytes) s = elim (read_header io (io.ifixed_mem_buf bytes)) [
      | none ↦ 0
      | some (header, stream) ↦ elim (rcode header == 0) [
        | false ↦ 0
        | true ↦ elim (lookup (record { id = header.id; address = sender }) s.ongoing_requests) [
          | none ↦ 0
          | some d ↦ elim (parse_response io make_address header bytes stream) [
            | none ↦ w d.result_processor
            | some _ ↦ 0
          ]
        ]
      ]
    ]
    unparsed _ s = 0

    -- A request with a name that cannot be translated, though there is a nameserver for it.
    abbrev pub untranslated : Event → Interactor → ℕ
    untranslated (lookup_request now cmd) s = elim (detect_nsrv_for_new_request s) [
      | none ↦ 0
      | some index ↦ elim (lookup (request_id index s) s.ongoing_requests) [
        | some _ ↦ 0
        | none ↦ elim (translate cmd.domain_name) [ translated _ ↦ 0 | _ ↦ w cmd.result_processor ]
      ]
    ]
    untranslated _ s = 0

    -- What was ongoing or is asked for, against what is ongoing after it or is answered.
    abbrev Balance : Event → Interactor → Type 0
    Balance e s =
        ongoing_weight w s + asked w e + untranslated e s
        ≡ ongoing_weight w (step e s).0 + responses_weight w (step e s).1.responses + unparsed e s

    form_responses :
        (cmd : LookupRequest) (id : OngoingReqId) (d : OngoingReqData)
        → d.result_processor ≡ cmd.result_processor
        → responses_weight w
            (form_and_send_dns_udp_package io make_address cmd.domain_name cmd.ip_version id
              d).responses
          ≡ elim (translate cmd.domain_name) as (λ _. ℕ) [
            | translated _ ↦ 0
            | _ ↦ w cmd.result_processor
          ]
    unfolding form_and_send_dns_udp_package
    form_responses cmd id d e = ground arith

    lookup_request-Balance :
        (now : ℕ) (cmd : LookupRequest) (s : Interactor) → Balance (lookup_request now cmd) s
    unfolding step evt_lookup_request form_and_send_dns_udp_package
    lookup_request-Balance now cmd s = elim (Option-cases (detect_nsrv_for_new_request s)) [
      | inl e ↦ ground arith
      | inr (index, e) ↦ elim (Option-cases (lookup (request_id index s) s.ongoing_requests)) [
        | inr (other, f) ↦ ground arith
        | inl f ↦
            let d : OngoingReqData = record {
              domain_name = cmd.domain_name;
              reply_to = cmd.reply_to;
              result_processor = cmd.result_processor;
              start_time = now;
            } in
            ground (
              arith,
              form_responses cmd (request_id index s) d refl,
              total-emplace (λ d. w d.result_processor) (request_id index s) d s.ongoing_requests f,
            )
      ]
    ]

    one_second_timer-Balance : (now : ℕ) (s : Interactor) → Balance (one_second_timer now) s
    unfolding step evt_one_second_timer
    one_second_timer-Balance now s =
        omega (arith, timed_out_weight A w s.dns_resolving_timeout now s.ongoing_requests)

    package_sent-Balance :
        (id : OngoingReqId) (success : Bool) (s : Interactor)
        → Unique s.ongoing_requests
        → Balance (package_sent id success) s
    unfolding step handle_async_send_result
    package_sent-Balance id true s u = omega arith
    package_sent-Balance id false s u = elim (Option-cases (lookup id s.ongoing_requests)) [
      | inl e ↦ ground arith
      | inr (d, e) ↦
          ground (arith, total-erase (λ d. w d.result_processor) id d s.ongoing_requests u e)
    ]

    package_received-Balance :
        (sender : ℕ) (bytes : Bytes) (s : Interactor)
        → Unique s.ongoing_requests
        → Balance (package_received sender bytes) s
    unfolding step try_handle_incoming_pkg try_handle_positive_nameserver_response
        try_handle_negative_nameserver_response
    package_received-Balance sender bytes s u =
        elim (Option-cases (read_header io (io.ifixed_mem_buf bytes))) [
          | inl e ↦ ground arith
          | inr ((header, stream), e) ↦
              let id : OngoingReqId = record { id = header.id; address = sender } in
              elim (Option-cases (lookup id s.ongoing_requests)) [
                | inl f ↦ ground arith
                | inr (d, f) ↦
                    let less =
                      total-erase (λ d. w d.result_processor) id d s.ongoing_requests u f in
                    elim (Option-cases (parse_response io make_address header bytes stream)) [
                      | inl g ↦ ground (arith, less)
                      | inr ([], g) ↦ ground (arith, less)
                      | inr (ip ∷ ips, g) ↦ ground (arith, less)
                    ]
              ]
        ]

  -- The ongoing requests have different IDs.
  step-Unique :
      (e : Event) (s : Interactor)
      → Unique s.ongoing_requests
      → Unique (step e s).0.ongoing_requests
  unfolding step evt_one_second_timer
  step-Unique (lookup_request now cmd) s u =
      Kept-Unique _ _ (lookup_request-Kept io make_address now cmd s) u
  step-Unique (updated_dns_params timeout ips) s u =
      subst Unique (sym (updated_dns_params-same timeout ips s)) u
  step-Unique (one_second_timer now) s u =
      timed_out-Unique A s.dns_resolving_timeout now s.ongoing_requests u
  step-Unique (package_received sender bytes) s u =
      Kept-Unique _ _ (package_received-Kept io make_address sender bytes s) u
  step-Unique (package_sent id success) s u = Kept-Unique _ _ (package_sent-Kept A id success s) u

  abbrev pub after : List Event → Interactor → Interactor
  after [] s = s
  after (e ∷ es) s = after es (step e s).0

  -- The sum of a measure over the steps of a history.
  abbrev pub over : (Event → Interactor → ℕ) → List Event → Interactor → ℕ
  over f [] s = 0
  over f (e ∷ es) s = f e s + over f es (step e s).0

  abbrev pub answered : (ℕ → ℕ) → Event → Interactor → ℕ
  answered w e s = responses_weight w (step e s).1.responses

  step-Balance :
      (w : ℕ → ℕ) (e : Event) (s : Interactor) → Unique s.ongoing_requests → Balance w e s
  unfolding step
  step-Balance w (lookup_request now cmd) s u = lookup_request-Balance w now cmd s
  step-Balance w (updated_dns_params timeout ips) s u =
      ground (arith, updated_dns_params-same timeout ips s)
  step-Balance w (one_second_timer now) s u = one_second_timer-Balance w now s
  step-Balance w (package_received sender bytes) s u = package_received-Balance w sender bytes s u
  step-Balance w (package_sent id success) s u = package_sent-Balance w id success s u

  history-Balance :
      (w : ℕ → ℕ) (es : List Event) (s : Interactor)
      → Unique s.ongoing_requests
      → ongoing_weight w s + over (λ e _. asked w e) es s + over (untranslated w) es s
        ≡ ongoing_weight w (after es s) + over (answered w) es s + over (unparsed w) es s
  history-Balance w [] s u = omega arith
  history-Balance w (e ∷ es) s u =
      omega (arith, step-Balance w e s u, history-Balance w es (step e s).0 (step-Unique e s u))

  -- In any history: every request is answered or ongoing, each as often as it was asked for, with
  -- two exceptions. A request whose name cannot be translated counts twice, since it is answered
  -- and stays ongoing; and a request that gets a positive package that cannot be parsed is neither
  -- answered nor ongoing. The requests are counted by any weight of their result processors.
  pub lookups_accounted :
      (w : ℕ → ℕ) (es : List Event) (timeout : ℕ)
      → over (λ e _. asked w e) es (make_interactor timeout)
          + over (untranslated w) es (make_interactor timeout)
        ≡ ongoing_weight w (after es (make_interactor timeout))
          + over (answered w) es (make_interactor timeout)
          + over (unparsed w) es (make_interactor timeout)
  lookups_accounted w es timeout = omega (arith, history-Balance w es (make_interactor timeout) tt)

  untranslated-le-asked : (w : ℕ → ℕ) (e : Event) (s : Interactor) → untranslated w e s ≤ asked w e
  untranslated-le-asked w (lookup_request now cmd) s = ground arith
  untranslated-le-asked w (updated_dns_params timeout ips) s = omega arith
  untranslated-le-asked w (one_second_timer now) s = omega arith
  untranslated-le-asked w (package_received sender bytes) s = omega arith
  untranslated-le-asked w (package_sent id success) s = omega arith

  over_le :
      (w : ℕ → ℕ) (es : List Event) (s : Interactor)
      → over (untranslated w) es s ≤ over (λ e _. asked w e) es s
  over_le w [] s = omega arith
  over_le w (e ∷ es) s = omega (arith, untranslated-le-asked w e s, over_le w es (step e s).0)

  -- A positive package that cannot be parsed takes the request that it belongs to out of the table
  -- without an answer: where no other request of its result processor is ongoing, the processor
  -- gets nothing from then on, whatever happens, until it asks again.
  pub unparsed_request_lost :
      (sender : ℕ) (bytes : Bytes) (s : Interactor) (d : OngoingReqData)
      → (header : DnsHeader) → (stream : S) → (es : List Event) → Unique s.ongoing_requests
      → read_header io (io.ifixed_mem_buf bytes) ≡ some (header, stream)
      → rcode header ≡ 0
      → parse_response io make_address header bytes stream ≡ none
      → lookup (record { id = header.id; address = sender }) s.ongoing_requests ≡ some d
      → ongoing_weight (only d.result_processor) s ≡ 1
      → over (λ e _. asked (only d.result_processor) e) (package_received sender bytes ∷ es) s ≡ 0
      → over (answered (only d.result_processor)) (package_received sender bytes ∷ es) s ≡ 0
  unparsed_request_lost sender bytes s d header stream es u r z p l o a =
      let k = d.result_processor in
      let gone : unparsed (only k) (package_received sender bytes) s ≡ 1 =
        ground (arith, ==_refl k) in
      let balance = history-Balance (only k) (package_received sender bytes ∷ es) s u in
      omega (arith, gone, balance, over_le (only k) (package_received sender bytes ∷ es) s)
