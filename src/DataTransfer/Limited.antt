-- ===== src/DataTransfer/Limited.antt =====
-- The traffic limiter of arataga/acl_handler/a_handler.cpp as the limiter of a data transfer.
use arataga.Prelude.{ℕ, ◌≤◌, ◌≡◌, inl, inr, ap, Bool, Option, none, some, arith, Option-cases}
use arataga.Prelude.Eq.{nat_eq}
use arataga.Prelude.Map.{lookup}
use arataga.Limiter.{
  Direction, ReservedCapacity, TrafficLimiter, AuthentificatedUserMap, member,
  detect_max_read_size_for, reserve_read_portion, release,
}
use arataga.Limiter.Reserve.{detect_changes, reserved_amount-le}
use arataga.DataTransfer.{TrafficLimiterOps}

-- The agent's map of users, or `none` after a use of an iterator whose element is gone.
abbrev pub Users : Type 0
Users = Option AuthentificatedUserMap

abbrev nothing_granted : ReservedCapacity
nothing_granted = record { capacity = 0; sequence_number = 0 }

abbrev reserve_from : TrafficLimiter → Direction → ℕ → Users → ReservedCapacity × Users
reserve_from l dir n none = (nothing_granted, none)
reserve_from l dir n (some users) = elim (reserve_read_portion dir n l users) [
  | none ↦ (nothing_granted, none)
  | some (rc, users') ↦ (rc, some users')
]

abbrev release_to : TrafficLimiter → Direction → Bool → ReservedCapacity → ℕ → Users → Users
release_to l dir ec rc bytes none = none
release_to l dir ec rc bytes (some users) = release dir ec rc bytes l users

reserve_read_portion-le :
    (l : TrafficLimiter) (dir : Direction) (n : ℕ) (users : AuthentificatedUserMap)
    {rc : ReservedCapacity} {users' : AuthentificatedUserMap}
    → reserve_read_portion dir n l users ≡ some (rc, users')
    → rc.capacity ≤ n
unfolding reserve_read_portion
reserve_read_portion-le l dir n users {rc} e = elim (Option-cases (lookup l.user users)) [
  | inl missing ↦ cc (rw (missing, reserve_read_portion) at e)
  | inr (u, found) ↦
      let e1 = rw (found, reserve_read_portion) at e in
      elim (Option-cases (detect_max_read_size_for dir n l.domain u.bandlims)) [
        | inl gone ↦ cc (rw gone at e1)
        | inr ((rc1, m), took) ↦
            let e2 = rw took at e1 in
            let (opt, _, g, _) = detect_changes dir n l.domain u.bandlims took in
            let amount = ap (λ (r : ReservedCapacity). r.capacity) g in
            let same : rc1 ≡ rc = cc e2 in
            let bound = reserved_amount-le (member dir u.bandlims.general_traffic) opt n in
            omega (arith, amount, ap (λ (r : ReservedCapacity). r.capacity) same, bound)
      ]
]

reserve_from-le :
    (l : TrafficLimiter) (dir : Direction) (n : ℕ) (users : Users)
    → ((reserve_from l dir n users).0).capacity ≤ n
reserve_from-le l dir n none = omega arith
reserve_from-le l dir n (some users) = elim (Option-cases (reserve_read_portion dir n l users)) [
  | inl e ↦ rw (e, reserve_from) (omega arith)
  | inr ((rc, users'), e) ↦ rw (e, reserve_from) (reserve_read_portion-le l dir n users e)
]

-- The limiter of a user's connection grants no more than the size of the buffer.
pub limiter_ops : TrafficLimiter → TrafficLimiterOps Users
limiter_ops l = record {
  reserve_read_portion = reserve_from l;
  release = release_to l;
  reserve_fits = reserve_from-le l;
}
