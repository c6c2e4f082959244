-- ===== src/AclAgent/Acceptance.antt =====
-- arataga/acl_handler/a_handler.cpp: how many connections the agent has, and that it neither stops nor
-- doubles the acceptance of new ones.
use arataga.Prelude.{ℕ, ◌+◌, ◌≤◌, ◌≡◌, ◌⊎◌, List, arith, length}
use arataga.Config.{CommonAclParams}
use arataga.AclAgent.Signals.{is_try, is_next, is_completed, is_enable, count}
use arataga.AclAgent.Driven.{Fits, Driven}
use arataga.AclAgent.Reached.{most, history-Driven}
use arataga.AclAgent.History.{Event, run, make_acl}
use arataga.AclAgent.{
  Acl, AclState, entry_not_created, accepting, too_many_connections, shutting_down,
}

-- From a state's facts: the bound on connections.
bounded :
    (b : ℕ) (s : AclState) (a : Acl) → Driven b (record a { state = s }) → length a.connections ≤ b
unfolding Driven Fits
bounded b entry_not_created a h = ground arith
bounded b accepting a h = ground arith
bounded b too_many_connections a h = ground arith
bounded b shutting_down a h = ground arith

-- In any history of an ACL's agent the connections are never more than `b`, when the limit it starts
-- with and the limits of all configs sent to it are at most `b` and `b` is not 0: the checks after
-- each accept, the signals to resume and a lower limit on the way admit none beyond the largest limit.
pub run-connections_bounded :
    (b : ℕ) (p : CommonAclParams) (es : List Event)
    → 1 ≤ b
    → p.maxconn ≤ b
    → most es ≤ b
    → length (run es (make_acl p)).connections ≤ b
run-connections_bounded b p es o k m =
    let a = run es (make_acl p) in bounded b a.state a (history-Driven b p es o k m)

-- What drives the agent on in each of its states: one attempt to make the entry point is waiting or
-- delayed; one accept is asked for, in flight or completed; the limit is reached or a signal to
-- resume is waiting.
unfoldable pub Awaits : AclState → Acl → Type 0
Awaits entry_not_created a = count is_try a.queue + a.delayed ≡ 1
Awaits accepting a = count is_next a.queue + a.accepts + count is_completed a.queue ≡ 1
Awaits too_many_connections a =
    (count is_next a.queue + a.accepts + count is_completed a.queue ≡ 0)
    × ((a.current_common_acl_params.maxconn ≤ length a.connections) ⊎ (1 ≤ count is_enable a.queue))
Awaits shutting_down a = a.accepts ≤ 1

awaits : (b : ℕ) (s : AclState) (a : Acl) → Driven b (record a { state = s }) → Awaits s a
unfolding Driven Fits Awaits
awaits b entry_not_created a h = ground arith
awaits b accepting a h = ground arith
awaits b too_many_connections a h = ground arith
awaits b shutting_down a h = ground arith

-- In any history of an ACL's agent: before the entry point is made there is exactly one attempt to
-- make it ahead; while the agent accepts, exactly one accept is asked for, in flight or completed;
-- while it has too many connections there is none, and a signal to resume waits whenever their
-- number is under the limit in force; after the shutdown at most one accept is in flight.
pub run-Awaits :
    (p : CommonAclParams) (es : List Event)
    → Awaits (run es (make_acl p)).state (run es (make_acl p))
run-Awaits p es =
    let a = run es (make_acl p) in
    let b = most es + p.maxconn + 1 in
    awaits b a.state a (history-Driven b p es (omega arith) (omega arith) (omega arith))
