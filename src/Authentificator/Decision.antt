-- ===== src/Authentificator/Decision.antt =====
-- What the reply to an authentification request says.
use arataga.Prelude.{
  ℕ, ◌≤◌, ◌≡◌, refl, true, false, Option, none, some, List, [], ◌∷◌, arith, All, Option-cases, inl,
  inr, ◌⊎◌,
}
use arataga.Prelude.Eq.{Bytes, nat_eq}
use arataga.Prelude.Map.{lookup}
use arataga.UserList.{
  AuthData, UserData, OneLimit, SiteLimitsData, domain_name, by_ip_eq, by_login_eq,
}
use arataga.UserList.Limits.{IsLongest, try_find_limits_for-IsLongest}
use arataga.Authentificator.{
  Authentificator, AuthRequest, AuthReply, AuthResult, failed_auth, successful_auth, unknown_user,
  target_blocked, DeniedCase, single_port, ports_range, is_denied, on_auth_request, do_auth_by_ip,
  do_auth_by_login_password, authorize, try_detect_domain_limits, count_total, count_by_ip,
  count_by_login, change_stats,
}

-- What the user list knows of the client of a request.
abbrev pub credentials : AuthData → Option Bytes → AuthRequest → Option UserData
credentials d none req =
    lookup
      (record {
        proxy_in_addr = req.proxy_in_addr;
        proxy_port = req.proxy_port;
        user_ip = req.user_ip;
      })
      d.by_ip
credentials d (some username) req =
    lookup
      (record {
        proxy_in_addr = req.proxy_in_addr;
        proxy_port = req.proxy_port;
        username = username;
        password = elim req.password [ some p ↦ p | none ↦ [] ];
      })
      d.by_login

abbrev pub Blocks : ℕ → DeniedCase → Type 0
Blocks port (single_port p) = p ≡ port
Blocks port (ports_range low high) = (low ≤ port) × (port ≤ high)

abbrev pub AllowsPort : ℕ → List DeniedCase → Type 0
AllowsPort port cases = All (λ c. ¬ Blocks port c) cases

-- The limit that goes with the target is the longest one of the user's list, if he has one.
abbrev pub HasLimit : AuthData → UserData → Bytes → Option OneLimit → Type 0
HasLimit d u host r =
    ((lookup u.site_limits_id d.site_limits ≡ none) × (r ≡ none))
    ⊎ ((ls : SiteLimitsData) × (lookup u.site_limits_id d.site_limits ≡ some ls)
        × IsLongest (domain_name host) ls r)

pub data Outcome (a : Authentificator) (req : AuthRequest) (r : AuthResult) : Type 0 where
  unknown :
      credentials a.auth_data req.username req ≡ none
      → r ≡ failed_auth unknown_user
      → Outcome a req r
  blocked :
      (u : UserData)
      → credentials a.auth_data req.username req ≡ some u
      → ¬ AllowsPort req.target_port a.denied_ports
      → r ≡ failed_auth target_blocked
      → Outcome a req r
  granted :
      (u : UserData) (limit : Option OneLimit)
      → credentials a.auth_data req.username req ≡ some u
      → AllowsPort req.target_port a.denied_ports
      → HasLimit a.auth_data u req.target_host limit
      → r
        ≡ successful_auth
            (record { user_id = u.user_id; user_bandlims = u.bandlims; domain_limits = limit })
      → Outcome a req r

is_denied-cases :
    (port : ℕ) (cases : List DeniedCase)
    → ((is_denied port cases ≡ true) × (¬ AllowsPort port cases))
      ⊎ ((is_denied port cases ≡ false) × AllowsPort port cases)
unfolding is_denied
is_denied-cases port [] = inr (refl, tt)
is_denied-cases port (single_port p ∷ cs) = ground (arith, is_denied-cases port cs)
is_denied-cases port (ports_range low high ∷ cs) = ground (arith, is_denied-cases port cs)

try_detect_domain_limits-HasLimit :
    (a : Authentificator) (u : UserData) (host : Bytes)
    → HasLimit a.auth_data u host (try_detect_domain_limits a u host)
unfolding try_detect_domain_limits
try_detect_domain_limits-HasLimit a u host =
    elim (Option-cases (lookup u.site_limits_id a.auth_data.site_limits)) [
      | inl e ↦ inl (e, rw (e, try_detect_domain_limits))
      | inr (ls, e) ↦ inr (
        ls,
        e,
        rw (e, try_detect_domain_limits) (try_find_limits_for-IsLongest (domain_name host) ls),
      )
    ]

authorize-Outcome :
    (a : Authentificator) (req : AuthRequest) (u : UserData) (f : _)
    → credentials a.auth_data req.username req ≡ some u
    → Outcome a req (authorize req u (change_stats f a)).1.result
unfolding authorize
authorize-Outcome a req u f known = elim (is_denied-cases req.target_port a.denied_ports) [
  | inl (e, denied) ↦ rw (e, authorize) (blocked u known denied refl)
  | inr (e, allowed) ↦
      rw (e, authorize)
        (granted u _ known allowed
          (try_detect_domain_limits-HasLimit (change_stats f a) u req.target_host) refl)
]

do_auth_by_ip-Outcome :
    (a : Authentificator) (req : AuthRequest)
    → req.username ≡ none
    → Outcome a req (do_auth_by_ip req (change_stats count_total a)).1.result
unfolding do_auth_by_ip
do_auth_by_ip-Outcome a req no_name = elim (Option-cases (credentials a.auth_data none req)) [
  | inl e ↦ rw (e, do_auth_by_ip) (unknown (rw no_name e) refl)
  | inr (u, e) ↦
      rw (e, do_auth_by_ip)
        (authorize-Outcome a req u (λ s. count_by_ip (count_total s)) (rw no_name e))
]

do_auth_by_login_password-Outcome :
    (a : Authentificator) (req : AuthRequest) (name : Bytes)
    → req.username ≡ some name
    → Outcome a req (do_auth_by_login_password name req (change_stats count_total a)).1.result
unfolding do_auth_by_login_password
do_auth_by_login_password-Outcome a req name named =
    elim (Option-cases (credentials a.auth_data (some name) req)) [
      | inl e ↦ rw (e, do_auth_by_login_password) (unknown (rw named e) refl)
      | inr (u, e) ↦
          rw (e, do_auth_by_login_password)
            (authorize-Outcome a req u (λ s. count_by_login (count_total s)) (rw named e))
    ]

dispatch-Outcome :
    (a : Authentificator) (req : AuthRequest) (o : Option Bytes)
    → req.username ≡ o
    → Outcome a req
        (elim o as (λ _. Authentificator × AuthReply) [
          | some name ↦ do_auth_by_login_password name req (change_stats count_total a)
          | none ↦ do_auth_by_ip req (change_stats count_total a)
        ]).1.result
dispatch-Outcome a req none e = do_auth_by_ip-Outcome a req e
dispatch-Outcome a req (some name) e = do_auth_by_login_password-Outcome a req name e

-- Every reply is one of three: the client's credentials (its name with the password or an empty
-- one, or else its address) are not in the user list and it is told `unknown_user`; they are
-- there, the target's port is denied by some rule and it is told `target_blocked`; or they are
-- there, no rule denies the port, and the reply carries the data of that very entry of the user
-- list with the longest limit for the target's domain.
pub on_auth_request-Outcome :
    (a : Authentificator) (req : AuthRequest) → Outcome a req (on_auth_request req a).1.result
unfolding on_auth_request
on_auth_request-Outcome a req = dispatch-Outcome a req req.username refl
