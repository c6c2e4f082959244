-- ===== src/Authentificator/Replies.antt =====
-- Who gets the reply, when, and how the counters of the agent account for it.
use arataga.Prelude.{
  ℕ, ◌+◌, ◌≡◌, Bool, true, false, List, [], ◌∷◌, ◌++◌, arith, none, some, not, ◌&&◌, if◌then◌else◌,
}
use arataga.UserList.{AuthData}
use arataga.Authentificator.{
  Authentificator, AuthRequest, AuthReply, AuthResult, AuthStats, failed_auth, successful_auth,
  unknown_user, target_blocked, DeniedCase, on_auth_request, on_updated_user_list,
  on_updated_auth_params,
}

abbrev pub is_failed : AuthResult → Bool
is_failed (failed_auth r) = true
is_failed (successful_auth s) = false

-- The one reply to a request goes to the mbox of the request with the request's ID and token. A
-- negative reply is delayed by the timeout of the config, a positive one is sent at once. The
-- request changes no rule of the agent.
pub on_auth_request_replies :
    (a : Authentificator) (req : AuthRequest)
    → let (a', reply) = on_auth_request req a in
      (reply.reply_to ≡ req.reply_to)
      × (reply.req_id ≡ req.req_id)
      × (reply.completion_token ≡ req.completion_token)
      × (reply.delay ≡ (if is_failed reply.result then a.failed_auth_reply_timeout else 0))
      × (a'.auth_data ≡ a.auth_data)
      × (a'.denied_ports ≡ a.denied_ports)
      × (a'.failed_auth_reply_timeout ≡ a.failed_auth_reply_timeout)
unfolding on_auth_request
on_auth_request_replies a req = ground arith

pub data Event : Type 0 where
  updated_user_list : AuthData → Event
  updated_auth_params : List DeniedCase → ℕ → Event
  auth_request : AuthRequest → Event

unfoldable pub step : Event → Authentificator → Authentificator × List AuthReply
step (updated_user_list d) a = (on_updated_user_list d a, [])
step (updated_auth_params ports timeout) a = (on_updated_auth_params ports timeout a, [])
step (auth_request req) a = let (a', reply) = on_auth_request req a in (a', reply ∷ [])

-- The messages of the whole history, oldest first.
unfoldable pub run : List Event → Authentificator → Authentificator × List AuthReply
run [] a = (a, [])
run (e ∷ es) a = let (b, out) = step e a in let (c, rest) = run es b in (c, out ++ rest)

-- A sum over the requests of a history, each with the result that it gets.
unfoldable pub tally : (AuthRequest → AuthResult → ℕ) → List Event → Authentificator → ℕ
tally w [] a = 0
tally w (updated_user_list d ∷ es) a = tally w es (on_updated_user_list d a)
tally w (updated_auth_params ports timeout ∷ es) a =
    tally w es (on_updated_auth_params ports timeout a)
tally w (auth_request req ∷ es) a =
    let (b, reply) = on_auth_request req a in w req reply.result + tally w es b

-- A request without a username is authentificated by its IP address.
abbrev pub is_by_ip : AuthRequest → Bool
is_by_ip req = elim req.username [ none ↦ true | some _ ↦ false ]

abbrev pub is_unknown : AuthResult → Bool
is_unknown (failed_auth unknown_user) = true
is_unknown _ = false

abbrev pub is_blocked : AuthResult → Bool
is_blocked (failed_auth target_blocked) = true
is_blocked _ = false

abbrev pub one_if : Bool → ℕ
one_if true = 1
one_if false = 0

-- What each counter counts.
abbrev pub each : AuthRequest → AuthResult → ℕ
each req r = 1

abbrev pub by_ip_known : AuthRequest → AuthResult → ℕ
by_ip_known req r = one_if (is_by_ip req && not (is_unknown r))

abbrev pub by_ip_unknown : AuthRequest → AuthResult → ℕ
by_ip_unknown req r = one_if (is_by_ip req && is_unknown r)

abbrev pub by_login_known : AuthRequest → AuthResult → ℕ
by_login_known req r = one_if (not (is_by_ip req) && not (is_unknown r))

abbrev pub by_login_unknown : AuthRequest → AuthResult → ℕ
by_login_unknown req r = one_if (not (is_by_ip req) && is_unknown r)

abbrev pub denied : AuthRequest → AuthResult → ℕ
denied req r = one_if (is_blocked r)

-- The counters after some requests, whose sums are given.
abbrev pub Counted : AuthStats → AuthStats → ((AuthRequest → AuthResult → ℕ) → ℕ) → Type 0
Counted before after sum =
    (after.auth_total_count ≡ before.auth_total_count + sum each)
    × (after.auth_by_ip_count ≡ before.auth_by_ip_count + sum by_ip_known)
    × (after.failed_auth_by_ip_count ≡ before.failed_auth_by_ip_count + sum by_ip_unknown)
    × (after.auth_by_login_count ≡ before.auth_by_login_count + sum by_login_known)
    × (after.failed_auth_by_login_count ≡ before.failed_auth_by_login_count + sum by_login_unknown)
    × (after.failed_authorization_denied_port
        ≡ before.failed_authorization_denied_port + sum denied)

request-Counted :
    (req : AuthRequest) (a : Authentificator)
    → let (b, reply) = on_auth_request req a in
      Counted a.auth_stats b.auth_stats (λ w. w req reply.result)
unfolding on_auth_request
request-Counted req a = ground arith

-- Over any history of requests and of updates of the rules, each counter of the agent grows by the
-- number of the requests that it is for: the total by all requests; the count by IP by the requests
-- without a username whose client is known, and the count of failures by IP by those whose client is
-- not; the two counts by login likewise by the requests with a username; and the count of denied
-- ports by the requests of either kind that get the answer that the target is blocked.
pub run-Counted :
    (es : List Event) (a : Authentificator)
    → Counted a.auth_stats (run es a).0.auth_stats (λ w. tally w es a)
unfolding run step tally on_updated_user_list on_updated_auth_params
run-Counted [] a = omega arith
run-Counted (updated_user_list d ∷ es) a = run-Counted es (on_updated_user_list d a)
run-Counted (updated_auth_params ports timeout ∷ es) a =
    run-Counted es (on_updated_auth_params ports timeout a)
run-Counted (auth_request req ∷ es) a =
    let (b, reply) = on_auth_request req a in omega (arith, request-Counted req a, run-Counted es b)
