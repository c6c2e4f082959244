-- ===== src/Tests/Names.antt =====
-- The agent that resolves names at concrete inputs.
use arataga.Prelude.{
  some, leb, if◌then◌else◌, ◌-◌, ◌/◌, ℕ, ◌+◌, ◌≡◌, refl, Bool, true, false, none, [], ◌∷◌, map,
  ◌==◌,
}
use arataga.Prelude.Eq.{Bytes, bytes_eq, bytes_beq}
use arataga.Prelude.Map.{lookup, emplace, update}
use arataga.Prelude.Keys.{keys, total, Unique}
use arataga.DnsConductor.{
  AsioIp, on_clear_cache, resolve, ip_v4, ResolveRequestInfo, successful_resolve, successful_lookup,
  on_resolve, handle_lookup_result, reply_with, make_conductor,
}
use arataga.DnsConductor.Answers.{
  History, Reach, start, request, response, after_request, after_response, requests_accounted,
}
use arataga.DnsConductor.Waiting.{count, requests_of}
use arataga.DnsConductor.Expiry.{on_clear_cache_lem}
use arataga.DnsConductor.Cached.{answered_from_cache}

-- Addresses are numbers, and no name is one.
abbrev no_direct : AsioIp ℕ
no_direct = record {
  make_address = λ name. none;
  is_v4 = λ a. true;
  is_v6 = λ a. false;
  v4_mapped = λ a. a;
}

abbrev vk : Bytes
vk = b'v' ∷ b'k' ∷ b'.' ∷ b'c' ∷ b'o' ∷ b'm' ∷ []

abbrev asks : ℕ → ResolveRequestInfo
asks id = record { req_id = id; ip_version = ip_v4; completion_token = 0; reply_to = 1 }

abbrev is_first : ResolveRequestInfo → Bool
is_first r = r.req_id == 1

abbrev opening : History ℕ
opening = record {
  conductor = make_conductor ip_v4 100;
  arrived = [];
  replies = [];
  in_flight = [];
}

abbrev waiting : History ℕ
waiting = after_request no_direct vk (asks 2) (after_request no_direct vk (asks 1) opening)

abbrev finished : History ℕ
finished = after_response no_direct vk (successful_lookup 77 (78 ∷ [])) 5 waiting

waits : Reach no_direct ip_v4 100 waiting
waits = request vk (asks 2) (request vk (asks 1) start)

ends : Reach no_direct ip_v4 100 finished
ends = response vk (successful_lookup 77 (78 ∷ [])) 5 waits

requests_accounted_example :
    let w = waiting.conductor.waiting_forward_requests in
    (count is_first waiting.arrived
      ≡ count is_first (requests_of waiting.replies) + total (count is_first) w)
    × (keys w ≡ waiting.in_flight)
    × Unique w
requests_accounted_example = requests_accounted no_direct ip_v4 100 is_first waits

answered_from_cache_example :
    let (replies, c) =
      handle_lookup_result vk (successful_lookup 77 (78 ∷ [])) 5 waiting.conductor in
    (replies ≡ map (reply_with (successful_resolve 77)) (asks 1 ∷ asks 2 ∷ []))
    × (lookup vk c.waiting_forward_requests ≡ none)
    × ((on_resolve no_direct vk (asks 3) c).0
        ≡ record { replies = reply_with (successful_resolve 77) (asks 3) ∷ []; lookups = [] })
unfolding on_resolve make_conductor lookup emplace bytes_beq update
answered_from_cache_example =
    answered_from_cache no_direct ip_v4 100 vk 77 (78 ∷ []) 5 (asks 1 ∷ asks 2 ∷ []) (asks 3) waits
      refl refl

-- The entry of `finished`, made at 5, is old at 40 seconds.
on_clear_cache_lem_example :
    lookup vk ((on_clear_cache 40000000000 finished.conductor).1).cache
    ≡ elim (lookup vk finished.conductor.cache) [
      | none ↦ none
      | some i ↦ if leb 30 ((40000000000 - i.creation_time) / 1000000000) then none else some i
    ]
on_clear_cache_lem_example = on_clear_cache_lem no_direct ip_v4 100 40000000000 vk ends

old_entry_removed : resolve vk ((on_clear_cache 40000000000 finished.conductor).1).cache ≡ none
unfolding on_clear_cache on_resolve handle_lookup_result make_conductor lookup emplace bytes_beq
    update resolve
old_entry_removed = refl
