-- ===== src/Limiter/Turns.antt =====
-- What the numbers of the turns do to a reservation that is given back.
use arataga.Prelude.{ℕ, ◌+◌, ◌<◌, ◌≡◌, ◌≢◌, refl, none, some, arith, ap, ◌∙◌}
use arataga.Prelude.Eq.{Bytes, bytes_eq}
use arataga.Prelude.Map.{lookup, lookup-emplace_absent, lookup-map_absent}
use arataga.Words.{u64_mod, add64_lem}
use arataga.Bandlim.{
  BandlimConfig, DirectionTrafficInfo, DomainTrafficData, BandlimManager, make_domain_limits,
  new_domain,
}
use arataga.Bandlim.Turn.{Double, update_traffic_counters_for_new_turn}
use arataga.Limiter.{
  Direction, from_user, from_target, ReservedCapacity, member, change_domain, reserved_amount,
  add_reserved, detect_max_read_size_for, settle, update_counter,
}
use arataga.Limiter.Reserve.{
  reserved_amount-le, after_read, settle-add_reserved, member-change_member,
}

-- A domain that is new to a manager starts with empty counters and the manager's number of the turn.
lookup-make_domain_limits :
    (dom : Bytes) (limits : BandlimConfig) (m : BandlimManager)
    → lookup dom m.domain_traffic ≡ none
    → lookup dom (make_domain_limits dom limits m).domain_traffic
      ≡ some (new_domain m.sequence_number limits)
lookup-make_domain_limits dom limits m absent =
    unfold make_domain_limits in
    rw (absent, make_domain_limits)
      (lookup-emplace_absent dom (new_domain m.sequence_number limits) m.domain_traffic absent)

general-make_domain_limits :
    (dom : Bytes) (limits : BandlimConfig) (m : BandlimManager)
    → (make_domain_limits dom limits m).general_traffic ≡ m.general_traffic
unfolding make_domain_limits
general-make_domain_limits dom limits m = ground arith

lookup-new_turn :
    (dbl : Double) (now : ℕ) (dom : Bytes) (m : BandlimManager)
    → lookup dom m.domain_traffic ≡ none
    → lookup dom (update_traffic_counters_for_new_turn dbl now m).domain_traffic ≡ none
unfolding update_traffic_counters_for_new_turn
lookup-new_turn dbl now dom m absent = lookup-map_absent dom _ m.domain_traffic absent

-- After a turn has begun the general counters bear the number of the turn before.
new_turn_member :
    (dbl : Double) (now : ℕ) (dir : Direction) (m : BandlimManager)
    → let t = member dir (update_traffic_counters_for_new_turn dbl now m).general_traffic in
      (t.reserved ≡ 0) × (t.sequence_number ≡ m.sequence_number)
unfolding update_traffic_counters_for_new_turn member
new_turn_member dbl now from_user m = (refl, refl)
new_turn_member dbl now from_target m = (refl, refl)

new_turn_number :
    (dbl : Double) (now : ℕ) (m : BandlimManager)
    → m.sequence_number + 1 < u64_mod
    → (update_traffic_counters_for_new_turn dbl now m).sequence_number ≡ m.sequence_number + 1
unfolding update_traffic_counters_for_new_turn
new_turn_number dbl now m h = add64_lem m.sequence_number 1 h

-- The counters of a new domain.
fresh_member :
    (dir : Direction) (seq : ℕ) (limits : BandlimConfig)
    → let t = member dir (new_domain seq limits).traffic in
      (t.reserved ≡ 0) × (t.sequence_number ≡ seq)
unfolding member new_domain
fresh_member from_user seq limits = (refl, refl)
fresh_member from_target seq limits = (refl, refl)

settle_other_turn :
    (rc : ReservedCapacity) (bytes : ℕ) (t : DirectionTrafficInfo)
    → t.reserved ≡ 0
    → t.sequence_number ≢ rc.sequence_number
    → rc.capacity < u64_mod
    → (settle rc bytes (add_reserved rc.capacity t)).reserved ≡ rc.capacity
unfolding settle add_reserved
settle_other_turn rc bytes t z ne h = ground (arith, add64_lem t.reserved rc.capacity)

-- A user's counters in a turn, when a connection to a domain with limits comes.
unfoldable pub entered : Double → ℕ → Bytes → BandlimConfig → BandlimManager → BandlimManager
entered dbl now dom limits m =
    make_domain_limits dom limits (update_traffic_counters_for_new_turn dbl now m)

-- The numbers of the turns are not the same for all counters of a user: for a domain that is
-- entered after a turn has begun they are one ahead of the general ones. So what a read from such
-- a domain reserved there stays reserved after the read has ended, whatever it read, while the
-- general counters get it back. This holds for a domain that had no counters before, a number of
-- the turn and a buffer's size that fit into 64 bits, and a read that begins and ends in the turn.
pub domain_reservation_lost :
    (dbl : Double) (now : ℕ) (dom : Bytes) (limits : BandlimConfig) (dir : Direction) (n bytes : ℕ)
    (m : BandlimManager) {rc : ReservedCapacity} {reading done : BandlimManager}
    → lookup dom m.domain_traffic ≡ none
    → m.sequence_number + 1 < u64_mod
    → n < u64_mod
    → detect_max_read_size_for dir n (some dom) (entered dbl now dom limits m) ≡ some (rc, reading)
    → update_counter dir rc bytes (some dom) reading ≡ some done
    → (d : DomainTrafficData) × (lookup dom done.domain_traffic ≡ some d)
      × ((member dir d.traffic).reserved ≡ rc.capacity)
      × ((member dir done.general_traffic).reserved ≡ 0)
unfolding entered
domain_reservation_lost dbl now dom limits dir n bytes m {rc} absent small fits reserve release =
    let turned = update_traffic_counters_for_new_turn dbl now m in
    let inside = make_domain_limits dom limits turned in
    let fresh = new_domain turned.sequence_number limits in
    let found =
      lookup-make_domain_limits dom limits turned (lookup-new_turn dbl now dom m absent) in
    let r = after_read dir n bytes dom inside fresh found reserve release in
    let tgen = member dir inside.general_traffic in
    let tdom = member dir fresh.traffic in
    let at : tgen ≡ member dir turned.general_traffic =
      ap (member dir) (general-make_domain_limits dom limits turned) in
    let ahead = new_turn_number dbl now m small in
    let behind = new_turn_member dbl now dir m in
    let start = fresh_member dir turned.sequence_number limits in
    let taken : rc.sequence_number ≡ tgen.sequence_number =
      ap (λ (c : ReservedCapacity). c.sequence_number) r.taken in
    let number : rc.sequence_number ≡ m.sequence_number = cc (taken, at, behind.1) in
    let amount : rc.capacity ≡ reserved_amount tgen (some tdom) n =
      ap (λ (c : ReservedCapacity). c.capacity) r.taken in
    let bound : rc.capacity < u64_mod =
      omega (arith, amount, reserved_amount-le tgen (some tdom) n) in
    let empty : tgen.reserved ≡ 0 = cc (at, behind.0) in
    (
      change_domain dir (settle rc bytes) (change_domain dir (add_reserved rc.capacity) fresh),
      r.of_domain,
      rw (member-change_member, member-change_member)
          (settle_other_turn rc bytes tdom start.0 (omega (arith, number, ahead, start)) bound),
      ap (λ (t : DirectionTrafficInfo). t.reserved)
            (r.of_user ∙ settle-add_reserved rc bytes tgen taken (omega (arith, empty, bound)))
          ∙ empty,
    )
