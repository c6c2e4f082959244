-- ===== src/DnsConductor/Waiting.antt =====
-- arataga/dns_resolver/lookup_conductor: the requests that wait, and the lookups in flight.
use arataga.Prelude.{
  ℕ, ◌+◌, ◌≡◌, inl, inr, refl, sym, ap, ◌∙◌, Bool, List, [], ◌∷◌, ◌++◌, map, arith, if◌then◌else◌,
  Option-cases, append-nil,
}
use arataga.Prelude.Eq.{Bytes, bytes_eq}
use arataga.Prelude.Map.{lookup, erase}
use arataga.Prelude.Keys.{
  keys, total, Unique, without, keys-emplace, keys-update, keys-erase, emplace-Unique,
  update-Unique, erase-Unique, total-emplace, total-update, total-erase, without-keys_absent,
}
use arataga.DnsConductor.{
  ResolveRequestInfo, ResolveReply, ResolveResult, WaitingRequests, add_request, handle_result,
  reply_with,
}

-- How many requests of a list a test picks.
abbrev pub count : (ResolveRequestInfo → Bool) → List ResolveRequestInfo → ℕ
count p [] = 0
count p (r ∷ rs) = (if p r then 1 else 0) + count p rs

pub count-append :
    (p : ResolveRequestInfo → Bool) (rs ss : List ResolveRequestInfo)
    → count p (rs ++ ss) ≡ count p rs + count p ss
count-append p [] ss = omega arith
count-append p (r ∷ rs) ss = omega (arith, count-append p rs ss)

abbrev pub requests_of : {A : Type 0} → List (ResolveReply A) → List ResolveRequestInfo
requests_of {A = A} replies = map (λ (r : ResolveReply A). r.request) replies

pub requests_of-reply_with :
    {A : Type 0} (result : ResolveResult A) (rs : List ResolveRequestInfo)
    → requests_of (map (reply_with result) rs) ≡ rs
requests_of-reply_with result [] = refl
requests_of-reply_with result (r ∷ rs) =
    ap (λ (l : List ResolveRequestInfo). r ∷ l) (requests_of-reply_with result rs)

-- The new waiting requests are the old ones and the request; a lookup is needed for a new name,
-- and then only.
pub add_request_lem :
    (p : ResolveRequestInfo → Bool) (key : Bytes) (req : ResolveRequestInfo)
    (waiting : WaitingRequests)
    → Unique waiting
    → let (need, waiting') = add_request key req waiting in
      Unique waiting'
      × (total (count p) waiting' ≡ total (count p) waiting + count p (req ∷ []))
      × (keys waiting' ≡ keys waiting ++ (if need then key ∷ [] else []))
unfolding add_request
add_request_lem p key req waiting u = elim (Option-cases (lookup key waiting)) [
  | inl absent ↦
      rw (absent, add_request)
        (
          emplace-Unique key (req ∷ []) waiting u,
          total-emplace (count p) key (req ∷ []) waiting absent,
          keys-emplace key (req ∷ []) waiting absent,
        )
  | inr (rs, found) ↦
      rw (found, add_request)
        (
          update-Unique key (λ requests. requests ++ (req ∷ [])) waiting u,
          omega (
            arith,
            total-update (count p) key (λ requests. requests ++ (req ∷ [])) rs waiting found,
            count-append p rs (req ∷ []),
          ),
          keys-update key (λ requests. requests ++ (req ∷ [])) waiting
              ∙ sym (append-nil (keys waiting)),
        )
]

-- The requests answered are those removed.
pub handle_result_lem :
    {A : Type 0} (p : ResolveRequestInfo → Bool) (key : Bytes) (result : ResolveResult A)
    (waiting : WaitingRequests)
    → Unique waiting
    → let (replies, waiting') = handle_result key result waiting in
      Unique waiting'
      × (total (count p) waiting ≡ total (count p) waiting' + count p (requests_of replies))
      × (keys waiting' ≡ without key (keys waiting))
unfolding handle_result
handle_result_lem p key result waiting u = elim (Option-cases (lookup key waiting)) [
  | inl absent ↦
      rw (absent, handle_result) (u, omega arith, sym (without-keys_absent key waiting absent))
  | inr (rs, found) ↦
      rw (found, handle_result)
        (
          erase-Unique key waiting u,
          total-erase (count p) key rs waiting u found
              ∙ ap (λ l. total (count p) (erase key waiting) + count p l)
                  (sym (requests_of-reply_with result rs)),
          keys-erase key waiting,
        )
]
