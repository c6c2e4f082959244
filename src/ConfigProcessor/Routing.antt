-- ===== src/ConfigProcessor/Routing.antt =====
-- arataga/config_processor/a_processor.cpp: what the admin HTTP-entry is told, and where its debug
-- requests go.
use arataga.Prelude.{
  ℕ, zero, suc, ◌<◌, ◌≡◌, refl, sym, ap, subst, ◌⊎◌, inl, inr, true, false, none, some, List, [],
  ◌∷◌, ◌++◌, arith, ◌≢◌, ◌==◌, ◌&&◌, length, All, Bool-cases, Option, Option-cases,
}
use arataga.Prelude.Eq.{Bytes}
use arataga.Prelude.Order.{nat_order, pair_order}
use arataga.Prelude.Sorting.{count_if}
use arataga.Config.{Config}
use arataga.ConfigProcessor.{Processor, RunningAcl, IoThread, acl_count, so_direct_mbox}
use arataga.ConfigProcessor.Counts.{on_thread}
use arataga.ConfigProcessor.Threads.{IsConsistent}
use arataga.ConfigProcessor.Requests.{
  HttpReply, FileWriting, not_opened, failed_after, completed, new_config_accepted, status_ok,
  Authentificate, passed_on, replied, find_acl, at_index, on_debug_auth, no_acl_with_parameters,
}

abbrev pub accepted : ℕ → HttpReply
accepted replier = record { replier = replier; status = status_ok; body = new_config_accepted }

-- What the local file has after the writing of a text, by how the writing went.
abbrev pub IsStored : FileWriting → Bytes → Option Bytes → Option Bytes → Type 0
IsStored not_opened content old file = file ≡ old
IsStored (failed_after n) content old file =
    (written : Bytes) × (rest : Bytes) × (content ≡ written ++ rest) × (file ≡ some written)
IsStored completed content old file = file ≡ some content

find_acl-on_thread :
    (in_addr port : ℕ) (racls : List RunningAcl) (racl : RunningAcl)
    → find_acl in_addr port racls ≡ some racl
    → 0 < count_if (on_thread racl.io_thread_index) racls
unfolding find_acl
find_acl-on_thread in_addr port [] racl e = ground arith
find_acl-on_thread in_addr port (r ∷ rs) racl e =
    ground (arith, find_acl-on_thread in_addr port rs racl)

-- An ACL with another address or another port.
abbrev pub IsOther : ℕ → ℕ → RunningAcl → Type 0
IsOther in_addr port racl = (racl.config.in_addr ≢ in_addr) ⊎ (racl.config.port ≢ port)

-- The first ACL of a list that listens on the address and the port.
abbrev pub IsFirst : ℕ → ℕ → RunningAcl → List RunningAcl → Type 0
IsFirst in_addr port racl racls =
    (racl.config.in_addr ≡ in_addr)
    × (racl.config.port ≡ port)
    × (before : List RunningAcl) × (after : List RunningAcl) × (racls ≡ before ++ (racl ∷ after))
    × All (IsOther in_addr port) before

same_or_IsOther :
    (in_addr port : ℕ) (r : RunningAcl)
    → (((r.config.in_addr == in_addr) && (r.config.port == port) ≡ true)
        × (r.config.in_addr ≡ in_addr)
        × (r.config.port ≡ port))
      ⊎ (((r.config.in_addr == in_addr) && (r.config.port == port) ≡ false)
          × IsOther in_addr port r)
same_or_IsOther in_addr port r = elim (Bool-cases (r.config.in_addr == in_addr)) [
  | inr e ↦ inr (ground arith, inl (λ k. absurd (ground arith)))
  | inl e ↦ elim (Bool-cases (r.config.port == port)) [
    | inr f ↦ inr (ground arith, inr (λ k. absurd (ground arith)))
    | inl f ↦ inl (ground arith, ground arith, ground arith)
  ]
]

find_acl-IsFirst :
    (in_addr port : ℕ) (racls : List RunningAcl) (racl : RunningAcl)
    → find_acl in_addr port racls ≡ some racl
    → IsFirst in_addr port racl racls
unfolding find_acl
find_acl-IsFirst in_addr port [] racl e = absurd (ground arith)
find_acl-IsFirst in_addr port (r ∷ rs) racl e = elim (same_or_IsOther in_addr port r) [
  | inl (t, a, b) ↦
      let same : r ≡ racl = ground arith in (ground arith, ground arith, [], rs, ground arith, tt)
  | inr (t, other) ↦
      let (a, b, before, after, f, others) = find_acl-IsFirst in_addr port rs racl (ground arith) in
      (a, b, r ∷ before, after, ap (λ l. r ∷ l) f, (other, others))
]

find_acl_missing :
    (in_addr port : ℕ) (racls : List RunningAcl)
    → find_acl in_addr port racls ≡ none
    → All (IsOther in_addr port) racls
unfolding find_acl
find_acl_missing in_addr port [] e = tt
find_acl_missing in_addr port (r ∷ rs) e = elim (same_or_IsOther in_addr port r) [
  | inl (t, a, b) ↦ absurd (ground arith)
  | inr (t, other) ↦ (other, find_acl_missing in_addr port rs (ground arith))
]

at_index_split :
    (ts : List IoThread) (i : ℕ) (t : IoThread)
    → at_index ts i ≡ some t
    → (before : List IoThread) × (after : List IoThread) × (ts ≡ before ++ (t ∷ after))
      × (length before ≡ i)
unfolding at_index
at_index_split [] i t e = absurd (ground arith)
at_index_split (x ∷ ts) zero t e = ([], ts, ground arith, refl)
at_index_split (x ∷ ts) (suc i) t e =
    let (before, after, e1, e2) = at_index_split ts i t e in
    (x ∷ before, after, ground arith, ground arith)

at_index_inside :
    (ts : List IoThread) (i : ℕ) → 0 < acl_count i ts → (t : IoThread) × (at_index ts i ≡ some t)
unfolding at_index
at_index_inside [] i h = absurd (omega arith)
at_index_inside (t ∷ ts) zero h = (t, refl)
at_index_inside (t ∷ ts) (suc i) h = at_index_inside ts i h

-- In a consistent agent: if no running ACL has the address and the port of a debug request, it is
-- answered at once, with the status of a bad request and that there is no such ACL. Otherwise the
-- first ACL that has both works on an IO-thread that exists, and the request, with the fields of the
-- debug request, is sent to the authentificator of that thread and to nothing else; its reply is to
-- come to the agent, with the replier as the token. The index of the thread is never out of range.
pub on_debug_auth-routed :
    (replier : ℕ) (request : Authentificate) (p : Processor)
    → IsConsistent p
    → (All (IsOther request.proxy_in_addr request.proxy_port) p.running_acls
        × (on_debug_auth replier request p
            ≡ replied (record { replier = replier; status = 400; body = no_acl_with_parameters })))
      ⊎ ((racl : RunningAcl) × IsFirst request.proxy_in_addr request.proxy_port racl p.running_acls
          × (t : IoThread) × (before : List IoThread) × (after : List IoThread) × (p.io_threads
              ≡ before ++ (t ∷ after))
          × (length before ≡ racl.io_thread_index)
          × (on_debug_auth replier request p
              ≡ passed_on t.auth_mbox (record {
                req_id = record {
                  seed = p.own_acl_id_seed.seed;
                  ordinal = p.own_acl_id_seed.ordinal;
                  proxy_port = 0;
                  id = 0;
                };
                reply_to = so_direct_mbox;
                completion_token = some replier;
                proxy_in_addr = request.proxy_in_addr;
                proxy_port = request.proxy_port;
                user_ip = request.user_ip;
                username = request.username;
                password = request.password;
                target_host = request.target_host;
                target_port = request.target_port;
              })))
unfolding on_debug_auth
on_debug_auth-routed replier request p h =
    elim (Option-cases (find_acl request.proxy_in_addr request.proxy_port p.running_acls)) [
      | inl e ↦
          inl (
            find_acl_missing request.proxy_in_addr request.proxy_port p.running_acls e,
            ground arith,
          )
      | inr (racl, e) ↦
          let running =
            find_acl-on_thread request.proxy_in_addr request.proxy_port p.running_acls racl e in
          let (t, f) =
            at_index_inside p.io_threads racl.io_thread_index
              (subst (λ n. 0 < n) (sym (h.counted racl.io_thread_index)) running) in
          let (before, after, g, k) = at_index_split p.io_threads racl.io_thread_index t f in
          inr (
            racl,
            find_acl-IsFirst request.proxy_in_addr request.proxy_port p.running_acls racl e,
            t,
            before,
            after,
            g,
            k,
            ground arith,
          )
    ]
