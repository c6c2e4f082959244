-- ===== src/DnsConductor/Cached.antt =====
-- arataga/dns_resolver/lookup_conductor: the cache after a lookup.
use arataga.Prelude.{
  ℕ, ◌+◌, ◌≡◌, ◌⊎◌, inl, inr, refl, false, none, some, List, [], ◌∷◌, ◌++◌, map, arith,
  Option-cases, subst,
}
use arataga.Prelude.Eq.{Bytes, bytes_eq, bytes_beq_iff, ◌=?◌}
use arataga.Prelude.Map.{
  lookup, erase, lookup-emplace, lookup-erase, lookup-update, lookup-emplace_absent,
}
use arataga.DnsConductor.{
  AsioIp, ResolveRequestInfo, ResolveResult, Conductor, WaitingRequests, LocalCache, add_request,
  add_records, handle_result, reply_with, on_resolve, handle_lookup_result, on_clear_cache,
  on_updated_dns_params, make_conductor, successful_lookup, failed_lookup,
  try_handle_direct_ip_case, resolve, add_to_waiting_and_resolve, IpVersion, successful_resolve,
  failed_resolve, remove_outdated_records, ResolveInfo,
}
use arataga.DnsConductor.Answers.{Reach, History, start, request, response, clear, params}

-- No request waits for a name that the cache has.
abbrev pub IsDisjoint : {A : Type 0} → Conductor A → Type 0
IsDisjoint c =
    (name : Bytes) (rs : List ResolveRequestInfo)
    → lookup name c.waiting_forward_requests ≡ some rs
    → lookup name c.cache ≡ none

pub outdated_absent :
    {A : Type 0} (ttl now : ℕ) (name : Bytes) (m : LocalCache A)
    → lookup name m ≡ none
    → lookup name (remove_outdated_records ttl now m) ≡ none
unfolding remove_outdated_records lookup
outdated_absent ttl now name [] h = h
outdated_absent ttl now name ((j, i) ∷ m) h = ground (arith, outdated_absent ttl now name m)

resolve-lookup :
    {A : Type 0} (name : Bytes) (m : LocalCache A) → resolve name m ≡ none → lookup name m ≡ none
unfolding resolve
resolve-lookup name m h = ground arith

-- A name that waits after a request waited before it, or is the name of the request.
add_request_waits :
    (key name : Bytes) (req : ResolveRequestInfo) (waiting : WaitingRequests)
    (rs : List ResolveRequestInfo)
    → lookup name ((add_request key req waiting).1) ≡ some rs
    → (key ≡ name) ⊎ ((old : List ResolveRequestInfo) × (lookup name waiting ≡ some old))
unfolding add_request
add_request_waits key name req waiting rs h = elim (Option-cases (lookup key waiting)) [
  | inl absent ↦
      let h' = rw (absent, add_request) at h in
      ground (arith, lookup-emplace key name (req ∷ []) waiting, bytes_beq_iff key name)
  | inr (old, found) ↦
      let h' = rw (found, add_request) at h in
      ground (
        arith,
        lookup-update key name (λ requests. requests ++ (req ∷ [])) waiting,
        bytes_beq_iff key name,
      )
]

-- Nobody waits for a name that has its result, and the others wait as before.
handle_result_waits :
    {A : Type 0} (key name : Bytes) (result : ResolveResult A) (waiting : WaitingRequests)
    (rs : List ResolveRequestInfo)
    → lookup name ((handle_result key result waiting).1) ≡ some rs
    → (((key =? name) ≡ false)) × (lookup name waiting ≡ some rs)
unfolding handle_result
handle_result_waits key name result waiting rs h = elim (Option-cases (lookup key waiting)) [
  | inl absent ↦ let h' = rw (absent, handle_result) at h in ground (arith, bytes_beq_iff key name)
  | inr (old, found) ↦
      let h' = rw (found, handle_result) at h in ground (arith, lookup-erase key name waiting)
]

module _ {A : Type 0} (asio : AsioIp A) where
  request-IsDisjoint :
      (name : Bytes) (req : ResolveRequestInfo) (c : Conductor A)
      → IsDisjoint c
      → IsDisjoint ((on_resolve asio name req c).1)
  unfolding on_resolve add_to_waiting_and_resolve
  request-IsDisjoint name req c d n rs h =
      elim (Option-cases (try_handle_direct_ip_case asio name c)) [
        | inl domain ↦ elim (Option-cases (resolve name c.cache)) [
          | inl unknown ↦
              let h' = rw (domain, unknown, on_resolve, add_to_waiting_and_resolve) at h in
              rw (domain, unknown, on_resolve, add_to_waiting_and_resolve)
                (elim (add_request_waits name n req c.waiting_forward_requests rs h') [
                  | inl same ↦
                      subst (λ k. lookup k c.cache ≡ none) same
                        (resolve-lookup name c.cache unknown)
                  | inr (old, waits) ↦ d n old waits
                ])
          | inr (addr, cached) ↦
              rw (domain, cached, on_resolve) (d n rs (rw (domain, cached, on_resolve) at h))
        ]
        | inr (result, direct) ↦ rw (direct, on_resolve) (d n rs (rw (direct, on_resolve) at h))
      ]

  Reach-IsDisjoint :
      {ip : IpVersion} {period : ℕ} {h : History A}
      → Reach asio ip period h
      → IsDisjoint h.conductor
  unfolding make_conductor on_clear_cache on_updated_dns_params lookup handle_lookup_result
      add_records
  Reach-IsDisjoint start n rs h = refl
  Reach-IsDisjoint (request {h = h} name req r) n rs e =
      request-IsDisjoint name req h.conductor (Reach-IsDisjoint r) n rs e
  Reach-IsDisjoint (response {h = h} name (successful_lookup first others) now r) n rs e =
      let (other, waits) =
        handle_result_waits name n (successful_resolve first) h.conductor.waiting_forward_requests
          rs e in
      let before = Reach-IsDisjoint r n rs waits in
      ground (
        arith,
        lookup-emplace name n
            (record { first_address = first; other_addresses = others; creation_time = now })
            h.conductor.cache,
      )
  Reach-IsDisjoint (response {h = h} name (failed_lookup description) now r) n rs e =
      let (other, waits) =
        handle_result_waits name n (failed_resolve description) h.conductor.waiting_forward_requests
          rs e in
      Reach-IsDisjoint r n rs waits
  Reach-IsDisjoint (clear {h = h} now r) n rs e =
      outdated_absent 30 now n h.conductor.cache (Reach-IsDisjoint r n rs e)
  Reach-IsDisjoint (params new_period r) n rs e = Reach-IsDisjoint r n rs e

known_name :
    {A : Type 0} (asio : AsioIp A) (name : Bytes) (req : ResolveRequestInfo) (c : Conductor A)
    (info : ResolveInfo A)
    → asio.make_address name ≡ none
    → lookup name c.cache ≡ some info
    → (on_resolve asio name req c).0 ≡ record {
      replies = reply_with (successful_resolve info.first_address) req ∷ [];
      lookups = [];
    }
unfolding on_resolve try_handle_direct_ip_case resolve
known_name asio name req c info domain cached =
    rw (domain, cached, on_resolve, try_handle_direct_ip_case, resolve) refl

-- When a lookup succeeds for a name that requests wait for, in any history: each of them gets the
-- first address found, in the order of their arrival, and nothing else is sent; then nobody waits
-- for the name; and the next request for it, if the name is not a direct address, is answered by
-- that address at once, without a lookup.
pub answered_from_cache :
    {A : Type 0} (asio : AsioIp A) (ip : IpVersion) (period : ℕ) (name : Bytes) (first : A)
    (others : List A) (now : ℕ) (rs : List ResolveRequestInfo) (req : ResolveRequestInfo)
    {h : History A}
    → Reach asio ip period h
    → lookup name h.conductor.waiting_forward_requests ≡ some rs
    → asio.make_address name ≡ none
    → let (replies, c) =
        handle_lookup_result name (successful_lookup first others) now h.conductor in
      (replies ≡ map (reply_with (successful_resolve first)) rs)
      × (lookup name c.waiting_forward_requests ≡ none)
      × ((on_resolve asio name req c).0
          ≡ record { replies = reply_with (successful_resolve first) req ∷ []; lookups = [] })
unfolding handle_lookup_result handle_result add_records on_resolve try_handle_direct_ip_case
    resolve
answered_from_cache {A} asio ip period name first others now rs req {h} r waits domain =
    let c = h.conductor in
    let info : ResolveInfo A = record {
      first_address = first;
      other_addresses = others;
      creation_time = now;
    } in
    let cached = lookup-emplace_absent name info c.cache (Reach-IsDisjoint asio r name rs waits) in
    rw (waits, handle_result)
      (
        refl,
        ground (arith, lookup-erase name name c.waiting_forward_requests, bytes_beq_iff name name),
        known_name asio name req
            (record c {
              dns_successful_lookups = c.dns_successful_lookups + 1;
              cache = add_records name first others now c.cache;
              waiting_forward_requests = erase name c.waiting_forward_requests;
            })
            info domain cached,
      )
