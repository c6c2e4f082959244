-- ===== src/DnsConductor/Expiry.antt =====
-- arataga/dns_resolver/lookup_conductor: what a clean-up of the cache removes.
use arataga.Prelude.{
  ℕ, ◌-◌, ◌/◌, ◌≡◌, refl, sym, Option, none, some, [], ◌∷◌, arith, leb, if◌then◌else◌, subst,
}
use arataga.Prelude.Eq.{Bytes, bytes_eq, bytes_beq_iff}
use arataga.Prelude.Map.{lookup}
use arataga.Prelude.Keys.{Unique, emplace-Unique}
use arataga.DnsConductor.{
  AsioIp, ResolveRequestInfo, ResolveInfo, LocalCache, Conductor, IpVersion,
  remove_outdated_records, is_outdated, on_clear_cache, on_updated_dns_params, on_resolve,
  handle_lookup_result, add_records, successful_lookup, failed_lookup, make_conductor,
  add_to_waiting_and_resolve,
}
use arataga.DnsConductor.Answers.{Reach, History, start, request, response, clear, params}
use arataga.DnsConductor.Cached.{outdated_absent}

outdated-Unique :
    {A : Type 0} (ttl now : ℕ) (m : LocalCache A)
    → Unique m
    → Unique (remove_outdated_records ttl now m)
unfolding remove_outdated_records
outdated-Unique ttl now [] u = u
outdated-Unique ttl now ((j, i) ∷ m) u =
    ground (arith, outdated_absent ttl now j m, outdated-Unique ttl now m)

-- What is left of an entry.
abbrev pub still : {A : Type 0} → ℕ → ℕ → Option (ResolveInfo A) → Option (ResolveInfo A)
still ttl now none = none
still ttl now (some i) = if is_outdated ttl now i then none else some i

lookup-outdated :
    {A : Type 0} (ttl now : ℕ) (name : Bytes) (m : LocalCache A)
    → Unique m
    → lookup name (remove_outdated_records ttl now m) ≡ still ttl now (lookup name m)
unfolding remove_outdated_records lookup
lookup-outdated ttl now name [] u = refl
lookup-outdated ttl now name ((j, i) ∷ m) u =
    ground
      (arith, bytes_beq_iff j name, outdated_absent ttl now j m, lookup-outdated ttl now name m)

on_resolve-cache :
    {A : Type 0} (asio : AsioIp A) (name : Bytes) (req : ResolveRequestInfo) (c : Conductor A)
    → ((on_resolve asio name req c).1).cache ≡ c.cache
unfolding on_resolve add_to_waiting_and_resolve
on_resolve-cache asio name req c = ground arith

Reach-Unique :
    {A : Type 0} (asio : AsioIp A) {ip : IpVersion} {period : ℕ} {h : History A}
    → Reach asio ip period h
    → Unique h.conductor.cache
unfolding make_conductor handle_lookup_result add_records on_clear_cache on_updated_dns_params
Reach-Unique asio start = tt
Reach-Unique asio (request {h = h} name req r) =
    subst Unique (sym (on_resolve-cache asio name req h.conductor)) (Reach-Unique asio r)
Reach-Unique asio (response {h = h} name (successful_lookup first others) now r) =
    emplace-Unique name
      (record { first_address = first; other_addresses = others; creation_time = now })
      h.conductor.cache (Reach-Unique asio r)
Reach-Unique asio (response name (failed_lookup description) now r) = Reach-Unique asio r
Reach-Unique asio (clear {h = h} now r) =
    outdated-Unique 30 now h.conductor.cache (Reach-Unique asio r)
Reach-Unique asio (params new_period r) = Reach-Unique asio r

-- In any history, a clean-up removes the names whose entries are 30 seconds old or older, whole
-- seconds counted, and keeps the entries of all other names.
pub on_clear_cache_lem :
    {A : Type 0} (asio : AsioIp A) (ip : IpVersion) (period now : ℕ) (name : Bytes) {h : History A}
    → Reach asio ip period h
    → lookup name ((on_clear_cache now h.conductor).1).cache
      ≡ elim (lookup name h.conductor.cache) [
        | none ↦ none
        | some i ↦ if leb 30 ((now - i.creation_time) / 1000000000) then none else some i
      ]
unfolding on_clear_cache is_outdated
on_clear_cache_lem asio ip period now name {h} r =
    lookup-outdated 30 now name h.conductor.cache (Reach-Unique asio r)
