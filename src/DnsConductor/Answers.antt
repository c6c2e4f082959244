-- ===== src/DnsConductor/Answers.antt =====
-- arataga/dns_resolver/lookup_conductor: every request is answered once, and no name is looked up
-- twice at a time.
use arataga.Prelude.{
  ℕ, ◌+◌, ◌≡◌, inl, inr, refl, sym, ap, ◌∙◌, Bool, true, false, List, [], ◌∷◌, ◌++◌, map, arith,
  if◌then◌else◌, Option-cases, append-nil,
}
use arataga.Prelude.Eq.{Bytes, bytes_eq}
use arataga.Prelude.Keys.{keys, total, Unique, without}
use arataga.DnsConductor.{
  AsioIp, ResolveRequestInfo, ResolveReply, LookupRequest, LookupResult, Conductor, add_request,
  handle_result, reply_with, on_resolve, handle_lookup_result, on_clear_cache,
  on_updated_dns_params, make_conductor, successful_lookup, failed_lookup,
  try_handle_direct_ip_case, resolve, add_to_waiting_and_resolve, IpVersion, successful_resolve,
  failed_resolve,
}
use arataga.DnsConductor.Waiting.{
  count, count-append, requests_of, add_request_lem, handle_result_lem,
}

-- The agent with its history: the requests that arrived, the replies sent, and the names of the
-- lookups that have no response yet.
pub record History (A : Type 0) : Type 0 where
  pub conductor : Conductor A
  pub arrived : List ResolveRequestInfo
  pub replies : List (ResolveReply A)
  pub in_flight : List Bytes

abbrev pub names_of : List LookupRequest → List Bytes
names_of lookups = map (λ (l : LookupRequest). l.domain_name) lookups

module _ {A : Type 0} (asio : AsioIp A) where
  abbrev pub after_request : Bytes → ResolveRequestInfo → History A → History A
  after_request name req h =
      let (sent, c) = on_resolve asio name req h.conductor in
      record {
        conductor = c;
        arrived = h.arrived ++ (req ∷ []);
        replies = h.replies ++ sent.replies;
        in_flight = h.in_flight ++ names_of sent.lookups;
      }

  abbrev pub after_response : Bytes → LookupResult A → ℕ → History A → History A
  after_response name result now h =
      let (replies, c) = handle_lookup_result name result now h.conductor in
      record h {
        conductor = c;
        replies = h.replies ++ replies;
        in_flight = without name h.in_flight;
      }

  -- Whatever the agent is sent.
  pub data Reach (ip : IpVersion) (period : ℕ) : History A → Type 0 where
    start : Reach ip period (record {
      conductor = make_conductor ip period;
      arrived = [];
      replies = [];
      in_flight = [];
    })
    request :
        {h : History A} (name : Bytes) (req : ResolveRequestInfo)
        → Reach ip period h
        → Reach ip period (after_request name req h)
    response :
        {h : History A} (name : Bytes) (result : LookupResult A) (now : ℕ)
        → Reach ip period h
        → Reach ip period (after_response name result now h)
    clear :
        {h : History A} (now : ℕ)
        → Reach ip period h
        → Reach ip period (record h { conductor = (on_clear_cache now h.conductor).1 })
    params :
        {h : History A} (new_period : ℕ)
        → Reach ip period h
        → Reach ip period (record h { conductor = on_updated_dns_params new_period h.conductor })

-- The requests that wait for a name, the names in flight, and the requests in all.
abbrev pub IsAccounted : {A : Type 0} → (ResolveRequestInfo → Bool) → History A → Type 0
IsAccounted p h =
    let waiting = h.conductor.waiting_forward_requests in
    Unique waiting
    × (count p h.arrived ≡ count p (requests_of h.replies) + total (count p) waiting)
    × (keys waiting ≡ h.in_flight)

names_of_one :
    (need : Bool) (name : Bytes) (req : ResolveRequestInfo)
    → (if need then name ∷ [] else [])
      ≡ names_of
          (if need then record { domain_name = name; ip_version = req.ip_version } ∷ [] else [])
names_of_one true name req = refl
names_of_one false name req = refl

count-requests_of-append :
    {A : Type 0} (p : ResolveRequestInfo → Bool) (rs ss : List (ResolveReply A))
    → count p (requests_of (rs ++ ss)) ≡ count p (requests_of rs) + count p (requests_of ss)
count-requests_of-append p [] ss = omega arith
count-requests_of-append p (r ∷ rs) ss = omega (arith, count-requests_of-append p rs ss)

module _ {A : Type 0} (asio : AsioIp A) (p : ResolveRequestInfo → Bool) where
  request-IsAccounted :
      (name : Bytes) (req : ResolveRequestInfo) (h : History A)
      → IsAccounted p h
      → IsAccounted p (after_request asio name req h)
  unfolding on_resolve add_to_waiting_and_resolve
  request-IsAccounted name req h (u, sum, same) =
      elim (Option-cases (try_handle_direct_ip_case asio name h.conductor)) [
        | inl domain ↦ elim (Option-cases (resolve name h.conductor.cache)) [
          | inl unknown ↦
              let waiting = h.conductor.waiting_forward_requests in
              let (unique, grown, names) = add_request_lem p name req waiting u in
              rw (domain, unknown, on_resolve, add_to_waiting_and_resolve)
                (
                  unique,
                  omega (
                    arith,
                    sum,
                    grown,
                    count-append p h.arrived (req ∷ []),
                    count-requests_of-append p h.replies [],
                  ),
                  names
                      ∙ ap
                          (λ ks. ks ++ (if (add_request name req waiting).0 then name ∷ [] else []))
                          same
                      ∙ ap (λ ks. h.in_flight ++ ks)
                          (names_of_one (add_request name req waiting).0 name req),
                )
          | inr (addr, cached) ↦
              rw (domain, cached, on_resolve)
                (
                  u,
                  omega (
                    arith,
                    sum,
                    count-append p h.arrived (req ∷ []),
                    count-requests_of-append p h.replies
                        (reply_with (successful_resolve addr) req ∷ []),
                  ),
                  same ∙ sym (append-nil h.in_flight),
                )
        ]
        | inr (result, direct) ↦
            rw (direct, on_resolve)
              (
                u,
                omega (
                  arith,
                  sum,
                  count-append p h.arrived (req ∷ []),
                  count-requests_of-append p h.replies (reply_with result req ∷ []),
                ),
                same ∙ sym (append-nil h.in_flight),
              )
      ]

  response-IsAccounted :
      (name : Bytes) (result : LookupResult A) (now : ℕ) (h : History A)
      → IsAccounted p h
      → IsAccounted p (after_response asio name result now h)
  unfolding handle_lookup_result
  response-IsAccounted name (successful_lookup first others) now h (u, sum, same) =
      let waiting = h.conductor.waiting_forward_requests in
      let (unique, answered, names) =
        handle_result_lem p name (successful_resolve first) waiting u in
      (
        unique,
        omega (
          arith,
          sum,
          answered,
          count-requests_of-append p h.replies
              ((handle_result name (successful_resolve first) waiting).0),
        ),
        names ∙ ap (without name) same,
      )
  response-IsAccounted name (failed_lookup description) now h (u, sum, same) =
      let waiting = h.conductor.waiting_forward_requests in
      let (unique, answered, names) =
        handle_result_lem p name (failed_resolve description) waiting u in
      (
        unique,
        omega (
          arith,
          sum,
          answered,
          count-requests_of-append p h.replies
              ((handle_result name (failed_resolve description) waiting).0),
        ),
        names ∙ ap (without name) same,
      )

  Reach-IsAccounted :
      {ip : IpVersion} {period : ℕ} {h : History A} → Reach asio ip period h → IsAccounted p h
  unfolding make_conductor on_clear_cache on_updated_dns_params
  Reach-IsAccounted start = (tt, refl, refl)
  Reach-IsAccounted (request {h = h} name req r) =
      request-IsAccounted name req h (Reach-IsAccounted r)
  Reach-IsAccounted (response {h = h} name result now r) =
      response-IsAccounted name result now h (Reach-IsAccounted r)
  Reach-IsAccounted (clear now r) = Reach-IsAccounted r
  Reach-IsAccounted (params new_period r) = Reach-IsAccounted r

-- For any choice of requests, in any history of requests, responses, clean-ups and new parameters:
-- those that arrived are as many as those answered and those waiting; and the names that requests
-- wait for are those of the lookups in flight, each once.
pub requests_accounted :
    {A : Type 0} (asio : AsioIp A) (ip : IpVersion) (period : ℕ) (p : ResolveRequestInfo → Bool)
    {h : History A}
    → Reach asio ip period h
    → let waiting = h.conductor.waiting_forward_requests in
      (count p h.arrived ≡ count p (requests_of h.replies) + total (count p) waiting)
      × (keys waiting ≡ h.in_flight)
      × Unique waiting
requests_accounted asio ip period p {h} r =
    let (u, sum, same) = Reach-IsAccounted asio p r in (sum, same, u)
