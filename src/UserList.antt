-- ===== src/UserList.antt =====
-- arataga/user_list_auth_data.{hpp,cpp}: domain names, personal limits of sites, and the
-- dictionaries for authentification.
--
-- A `std::string` is the list of its bytes, an IPv4 address the number that it stands for. A
-- `std::map` is an association list; its order is not modelled, since no result depends on it.
pub mod Subdomain
pub mod Limits
use arataga.Prelude.{
  ℕ, suc, ◌+◌, ◌-◌, ◌≡◌, ◌↔◌, Bool, true, false, ◌&&◌, ◌||◌, Option, none, some, List, [], ◌∷◌, map,
  length, drop, get_or, leb, ltb, ◌==◌, if◌then◌else◌, arith,
}
use arataga.Prelude.Eq.{Eq, Bytes, bytes_beq, bytes_beq_iff}
use arataga.Bandlim.{BandlimConfig}

pub record AuthByIpKey : Type 0 where
  pub proxy_in_addr : ℕ
  pub proxy_port : ℕ
  pub user_ip : ℕ

pub record AuthByLoginKey : Type 0 where
  pub proxy_in_addr : ℕ
  pub proxy_port : ℕ
  pub username : Bytes
  pub password : Bytes

abbrev pub by_ip_beq : AuthByIpKey → AuthByIpKey → Bool
by_ip_beq a b =
    (a.proxy_in_addr == b.proxy_in_addr)
    && ((a.proxy_port == b.proxy_port) && (a.user_ip == b.user_ip))

pub by_ip_beq_iff : (a b : AuthByIpKey) → (by_ip_beq a b ≡ true) ↔ (a ≡ b)
by_ip_beq_iff a b = ground arith

instance abbrev pub by_ip_eq : Eq AuthByIpKey
by_ip_eq = record { beq = by_ip_beq; beq_iff = by_ip_beq_iff }

abbrev pub by_login_beq : AuthByLoginKey → AuthByLoginKey → Bool
by_login_beq a b =
    (a.proxy_in_addr == b.proxy_in_addr)
    && ((a.proxy_port == b.proxy_port)
        && (bytes_beq a.username b.username && bytes_beq a.password b.password))

pub by_login_beq_iff : (a b : AuthByLoginKey) → (by_login_beq a b ≡ true) ↔ (a ≡ b)
by_login_beq_iff a b =
    ground (arith, bytes_beq_iff a.username b.username, bytes_beq_iff a.password b.password)

instance abbrev pub by_login_eq : Eq AuthByLoginKey
by_login_eq = record { beq = by_login_beq; beq_iff = by_login_beq_iff }

pub record UserData : Type 0 where
  pub bandlims : BandlimConfig
  pub site_limits_id : ℕ
  pub user_id : ℕ

-- `std::tolower` of the "C" locale.
unfoldable pub tolower : ℕ → ℕ
tolower ch = if leb b'A' ch && leb ch b'Z' then ch + 32 else ch

-- `m_value.find_first_not_of('.')` and the `substr` from there; a name of dots alone stays.
abbrev strip_dots : Bytes → Bytes
strip_dots [] = []
strip_dots (c ∷ cs) = if c == b'.' then strip_dots cs else c ∷ cs

abbrev is_empty : Bytes → Bool
is_empty [] = true
is_empty (c ∷ cs) = false

-- The constructor of `domain_name_t`. A domain name is its `value()`.
unfoldable pub domain_name : Bytes → Bytes
unfolding tolower
domain_name value =
    let lower = map tolower value in
    let rest = strip_dots lower in if is_empty rest then lower else rest

unfoldable pub is_subdomain_of : Bytes → Bytes → Bool
unfolding bytes_beq
is_subdomain_of fn d =
    if length fn == length d
    then bytes_beq fn d
    else if ltb (length d) (length fn)
    then (let pos = length fn - length d - 1 in
        (b'.' == get_or fn pos 0) && bytes_beq (drop (pos + 1) fn) d)
    else false

-- `site_limits_data_t::one_limit_t`.
pub record OneLimit : Type 0 where
  pub domain : Bytes
  pub bandlims : BandlimConfig

abbrev pub SiteLimitsData : Type 0
SiteLimitsData = List OneLimit

-- The step of the search for one limit of the list.
unfoldable pub better_limit : Bytes → OneLimit → Option OneLimit → Option OneLimit
unfolding is_subdomain_of
better_limit host l last_found =
    if is_subdomain_of host l.domain
    then elim last_found [
      | none ↦ some l
      | some last ↦ if is_subdomain_of l.domain last.domain then some l else some last
    ]
    else last_found

unfoldable pub find_limits_from : Bytes → Option OneLimit → SiteLimitsData → Option OneLimit
unfolding better_limit
find_limits_from host last_found [] = last_found
find_limits_from host last_found (l ∷ ls) =
    find_limits_from host (better_limit host l last_found) ls

unfoldable pub try_find_limits_for : Bytes → SiteLimitsData → Option OneLimit
unfolding find_limits_from
try_find_limits_for host limits = find_limits_from host none limits

pub record AuthData : Type 0 where
  pub by_ip : List (AuthByIpKey × UserData)
  pub by_login : List (AuthByLoginKey × UserData)
  pub site_limits : List (ℕ × SiteLimitsData)
