-- ===== src/NameserverInteractor/Servers.antt =====
-- arataga/dns_resolver/interactor/a_nameserver_interactor.cpp: the list of nameservers, and the
-- time that a request waits.
use arataga.Prelude.{
  ℕ, ◌+◌, ◌≡◌, refl, inl, inr, true, false, List, [], ◌∷◌, map, arith, ◌==◌, if◌then◌else◌,
  Bool-cases, List-cases, ==_iff, Bool, not, leb,
}
use arataga.Prelude.Sorting.{count_if, count_if-append}
use arataga.Prelude.Sorted.{filter}
use arataga.NameserverInteractor.{
  Interactor, NameserverInfo, OngoingReqId, OngoingReqData, LookupResponse, failed_lookup,
  request_timed_out, OngoingRequests, new_nameserver, has_ip, remove_first, first_pass,
  update_nameservers_list, evt_updated_dns_params, remove_timed_out, evt_one_second_timer,
}

-- How many nameservers have an address, and how often a list names it.
abbrev pub servers_at : ℕ → List NameserverInfo → ℕ
servers_at a ns = count_if (λ n. n.address == a) ns

abbrev pub times : ℕ → List ℕ → ℕ
times a ips = count_if (λ ip. ip == a) ips

times-remove_first :
    (a b : ℕ) (ips : List ℕ)
    → has_ip b ips ≡ true
    → times a ips ≡ (if b == a then 1 else 0) + times a (remove_first b ips)
unfolding remove_first
times-remove_first a b [] h = ground arith
times-remove_first a b (c ∷ cs) h = ground (arith, times-remove_first a b cs, ==_iff c b)

first_pass-times :
    (a : ℕ) (ns : List NameserverInfo) (ips : List ℕ)
    → servers_at a (first_pass ns ips).0 + times a (first_pass ns ips).1 ≡ times a ips
unfolding first_pass
first_pass-times a [] ips = omega arith
first_pass-times a (n ∷ ns) ips = elim (Bool-cases (has_ip n.address ips)) [
  | inl h ↦ ground (
    arith,
    times-remove_first a n.address ips h,
    first_pass-times a ns (remove_first n.address ips),
  )
  | inr h ↦ ground (arith, first_pass-times a ns ips)
]

servers_at-new : (a : ℕ) (ips : List ℕ) → servers_at a (map new_nameserver ips) ≡ times a ips
servers_at-new a [] = refl
servers_at-new a (ip ∷ ips) = ground (arith, servers_at-new a ips)

-- Nothing removed: the list is as it was.
first_pass_same :
    (ns : List NameserverInfo) (ips : List ℕ)
    → (first_pass ns ips).2 ≡ false
    → (first_pass ns ips).0 ≡ ns
unfolding first_pass
first_pass_same [] ips h = refl
first_pass_same (n ∷ ns) ips h = elim (Bool-cases (has_ip n.address ips)) [
  | inl k ↦ ground (arith, first_pass_same ns (remove_first n.address ips))
  | inr k ↦ ground arith
]

-- After an update there are as many nameservers for an address as the config has it, whatever the
-- list was before.
pub evt_updated_dns_params_lem :
    (timeout a : ℕ) (ips : List ℕ) (s : Interactor)
    → servers_at a (evt_updated_dns_params timeout ips s).nservers ≡ times a ips
unfolding evt_updated_dns_params update_nameservers_list
evt_updated_dns_params_lem timeout a ips s =
    let (stay, left, removed) = first_pass s.nservers ips in
    let counts = first_pass-times a s.nservers ips in
    elim (List-cases left) [
      | inr (x, xs, e) ↦ ground (
        arith,
        counts,
        count_if-append (λ n. n.address == a) stay (map new_nameserver left),
        servers_at-new a left,
      )
      | inl e ↦ elim (Bool-cases removed) [
        | inl r ↦ ground (
          arith,
          counts,
          count_if-append (λ n. n.address == a) stay (map new_nameserver left),
          servers_at-new a left,
        )
        | inr r ↦ ground (arith, counts, first_pass_same s.nservers ips)
      ]
    ]

-- An ongoing request that may still wait, and one that may not.
abbrev pub within : ℕ → ℕ → OngoingReqId × OngoingReqData → Bool
within timeout now kd = leb now (kd.1.start_time + timeout)

abbrev pub overdue : ℕ → ℕ → OngoingReqId × OngoingReqData → Bool
overdue timeout now kd = not (within timeout now kd)

-- The negative response to an overdue request.
abbrev pub timed_out_response : {A : Type 0} → OngoingReqId × OngoingReqData → LookupResponse A
timed_out_response kd = record {
  reply_to = kd.1.reply_to;
  result = failed_lookup request_timed_out;
  result_processor = kd.1.result_processor;
}

remove_timed_out-parts :
    (A : Type 0) (timeout now : ℕ) (m : OngoingRequests)
    → remove_timed_out {A = A} timeout now m
      ≡ (filter (within timeout now) m, map timed_out_response (filter (overdue timeout now) m))
unfolding remove_timed_out
remove_timed_out-parts A timeout now [] = refl
remove_timed_out-parts A timeout now ((id, d) ∷ m) =
    ground (arith, remove_timed_out-parts A timeout now m)

-- The timer at `now` leaves exactly the ongoing requests whose start plus the timeout of the config
-- is not before `now`, in their order. Each of the others is answered once, in their order, with a
-- negative response to its own mbox and result processor. No package is sent, and the rest of the
-- agent's state is as it was.
pub evt_one_second_timer_lem :
    (A : Type 0) (now : ℕ) (s : Interactor)
    → evt_one_second_timer {A = A} now s ≡ (
      record s {
        ongoing_requests = filter (within s.dns_resolving_timeout now) s.ongoing_requests;
      },
      record {
        responses =
            map timed_out_response
              (filter (overdue s.dns_resolving_timeout now) s.ongoing_requests);
        packages = [];
      },
    )
unfolding evt_one_second_timer
evt_one_second_timer_lem A now s =
    ground (arith, remove_timed_out-parts A s.dns_resolving_timeout now s.ongoing_requests)
