-- ===== src/Limiter/Reserve.antt =====
-- How much a limiter lets a connection read, and what a finished read leaves behind.
use arataga.Prelude.{
  ℕ, ◌+◌, ◌≤◌, ◌<◌, ◌≡◌, refl, ◌⊎◌, inl, inr, Option, none, some, arith, Option-cases, ap, sym,
}
use arataga.Prelude.Eq.{Bytes, bytes_eq}
use arataga.Prelude.Map.{lookup, update-update, update_congr, lookup-update_self}
use arataga.Words.{u64_mod, add64, add64_lem}
use arataga.Bandlim.{DirectionTrafficInfo, ChannelLimitsData, DomainTrafficData, BandlimManager}
use arataga.Limiter.{
  Direction, from_user, from_target, ReservedCapacity, member, change_member, change_domain,
  change_traffic, free_space_or_zero, domain_member, reserved_amount, add_reserved,
  detect_max_read_size_for, settle, update_counter,
}

-- The bytes counted and reserved on this turn, without wrap-around.
abbrev pub spent : DirectionTrafficInfo → ℕ
spent t = t.reserved + t.actual

abbrev pub SpentFits : Option DirectionTrafficInfo → Type 0
SpentFits none = Unit {0}
SpentFits (some t) = spent t < u64_mod

abbrev pub WithinQuote : ℕ → Option DirectionTrafficInfo → Type 0
WithinQuote amount none = Unit {0}
WithinQuote amount (some t) = spent t + amount ≤ t.m_quote

abbrev pub FillsQuote : ℕ → Option DirectionTrafficInfo → Type 0
FillsQuote amount none = ⊥
FillsQuote amount (some t) = t.m_quote ≤ spent t + amount

-- Where the sums of the counters do not wrap: the amount is at most the buffer's size. It is 0, or
-- it keeps both the general and the domain's counters within their quotes. And it cannot be
-- larger: it is the buffer's size, or it uses up one of the quotes.
pub reserved_amount_lem :
    (total : DirectionTrafficInfo) (domain : Option DirectionTrafficInfo) (buffer_size : ℕ)
    → spent total < u64_mod
    → SpentFits domain
    → let amount = reserved_amount total domain buffer_size in
      (amount ≤ buffer_size)
      × ((amount ≡ 0) ⊎ (WithinQuote amount (some total) × WithinQuote amount domain))
      × ((amount ≡ buffer_size) ⊎ FillsQuote amount (some total) ⊎ FillsQuote amount domain)
unfolding reserved_amount free_space_or_zero add64
reserved_amount_lem total none buffer_size h k = ground arith
reserved_amount_lem total (some d) buffer_size h k = ground arith

abbrev pub add_actual : ℕ → DirectionTrafficInfo → DirectionTrafficInfo
add_actual bytes t = record t { actual = add64 t.actual bytes }

-- A finished read gives back its reservation, if the turn is still the same by its number.
pub settle-add_reserved :
    (rc : ReservedCapacity) (bytes : ℕ) (t : DirectionTrafficInfo)
    → rc.sequence_number ≡ t.sequence_number
    → t.reserved + rc.capacity < u64_mod
    → settle rc bytes (add_reserved rc.capacity t) ≡ add_actual bytes t
unfolding settle add_reserved
settle-add_reserved rc bytes t e h = ground (arith, add64_lem t.reserved rc.capacity h)

pub member-change_member :
    (dir : Direction) (f : DirectionTrafficInfo → DirectionTrafficInfo) (c : ChannelLimitsData)
    → member dir (change_member dir f c) ≡ f (member dir c)
unfolding member change_member
member-change_member from_user f c = refl
member-change_member from_target f c = refl

change_member-change_member :
    (dir : Direction) (f g h : DirectionTrafficInfo → DirectionTrafficInfo) (c : ChannelLimitsData)
    → f (g (member dir c)) ≡ h (member dir c)
    → change_member dir f (change_member dir g c) ≡ change_member dir h c
unfolding member change_member
change_member-change_member from_user f g h c e = ground arith
change_member-change_member from_target f g h c e = ground arith

-- Both sets of counters can take the reservation without wrap-around, and the numbers of their
-- turns agree.
abbrev pub SameTurn : ℕ → DirectionTrafficInfo → Option DirectionTrafficInfo → Type 0
SameTurn buffer_size total none = total.reserved + buffer_size < u64_mod
SameTurn buffer_size total (some d) =
    (total.reserved + buffer_size < u64_mod)
    × (d.reserved + buffer_size < u64_mod)
    × (d.sequence_number ≡ total.sequence_number)

change_domain_twice :
    (dir : Direction) (f g h : DirectionTrafficInfo → DirectionTrafficInfo) (d : DomainTrafficData)
    → f (g (member dir d.traffic)) ≡ h (member dir d.traffic)
    → change_domain dir f (change_domain dir g d) ≡ change_domain dir h d
change_domain_twice dir f g h d e =
    ap (λ (c : ChannelLimitsData). record d { traffic = c })
      (change_member-change_member dir f g h d.traffic e)

module _ (dir : Direction) (f g h : DirectionTrafficInfo → DirectionTrafficInfo)
    (m : BandlimManager) where
  change_traffic_general :
      f (g (member dir m.general_traffic)) ≡ h (member dir m.general_traffic)
      → change_traffic dir f none (change_traffic dir g none m) ≡ change_traffic dir h none m
  unfolding change_traffic
  change_traffic_general e =
      ap (λ (c : ChannelLimitsData). record m { general_traffic = c })
        (change_member-change_member dir f g h m.general_traffic e)

  change_traffic_domain :
      (domain : Bytes) (d : DomainTrafficData)
      → lookup domain m.domain_traffic ≡ some d
      → f (g (member dir m.general_traffic)) ≡ h (member dir m.general_traffic)
      → f (g (member dir d.traffic)) ≡ h (member dir d.traffic)
      → change_traffic dir f (some domain) (change_traffic dir g (some domain) m)
        ≡ change_traffic dir h (some domain) m
  unfolding change_traffic
  change_traffic_domain domain d found e k = cc (
    change_member-change_member dir f g h m.general_traffic e,
    update-update domain (change_domain dir f) (change_domain dir g) m.domain_traffic,
    update_congr domain (λ d'. change_domain dir f (change_domain dir g d')) (change_domain dir h) d
        m.domain_traffic found (change_domain_twice dir f g h d k),
  )

abbrev pub IsSameTurn : Direction → ℕ → Option Bytes → BandlimManager → Type 0
IsSameTurn dir buffer_size domain m = elim (domain_member dir domain m) [
  | none ↦ ⊥
  | some opt ↦ SameTurn buffer_size (member dir m.general_traffic) opt
]

pub reserved_amount-le :
    (total : DirectionTrafficInfo) (domain : Option DirectionTrafficInfo) (n : ℕ)
    → reserved_amount total domain n ≤ n
unfolding reserved_amount
reserved_amount-le total none n = omega arith
reserved_amount-le total (some d) n = omega arith

abbrev pub granted : Direction → ℕ → BandlimManager → Option DirectionTrafficInfo → ReservedCapacity
granted dir n m opt = record {
  capacity = reserved_amount (member dir m.general_traffic) opt n;
  sequence_number = (member dir m.general_traffic).sequence_number;
}

-- The two methods for a limiter whose domain, if any, is in the map.
module _ (dir : Direction) (n : ℕ) (m : BandlimManager) where
  pub detect_general :
      detect_max_read_size_for dir n none m
      ≡ some (
        granted dir n m none,
        change_traffic dir (add_reserved (granted dir n m none).capacity) none m,
      )
  unfolding detect_max_read_size_for
  detect_general = refl

  pub detect_domain :
      (dom : Bytes) (d : DomainTrafficData)
      → lookup dom m.domain_traffic ≡ some d
      → let rc = granted dir n m (some (member dir d.traffic)) in
        detect_max_read_size_for dir n (some dom) m
        ≡ some (rc, change_traffic dir (add_reserved rc.capacity) (some dom) m)
  unfolding detect_max_read_size_for
  detect_domain dom d found = rw (found, domain_member, detect_max_read_size_for)

pub lookup-change_traffic :
    (dir : Direction) (g : DirectionTrafficInfo → DirectionTrafficInfo) (dom : Bytes)
    (d : DomainTrafficData) (m : BandlimManager)
    → lookup dom m.domain_traffic ≡ some d
    → lookup dom (change_traffic dir g (some dom) m).domain_traffic ≡ some (change_domain dir g d)
unfolding change_traffic
lookup-change_traffic dir g dom d m found =
    lookup-update_self dom (change_domain dir g) m.domain_traffic found

pub update_counter_general :
    (dir : Direction) (rc : ReservedCapacity) (bytes : ℕ) (m : BandlimManager)
    → update_counter dir rc bytes none m ≡ some (change_traffic dir (settle rc bytes) none m)
unfolding update_counter
update_counter_general dir rc bytes m = refl

pub update_counter_domain :
    (dir : Direction) (rc : ReservedCapacity) (bytes : ℕ) (dom : Bytes) (d : DomainTrafficData)
    (m : BandlimManager)
    → lookup dom m.domain_traffic ≡ some d
    → update_counter dir rc bytes (some dom) m
      ≡ some (change_traffic dir (settle rc bytes) (some dom) m)
unfolding update_counter
update_counter_domain dir rc bytes dom d m found = rw (found, domain_member, update_counter)

IsSameTurn-general :
    (dir : Direction) (n : ℕ) (m : BandlimManager)
    → IsSameTurn dir n none m
    → SameTurn n (member dir m.general_traffic) none
unfolding domain_member
IsSameTurn-general dir n m st = st

IsSameTurn-found :
    (dir : Direction) (n : ℕ) (dom : Bytes) (d : DomainTrafficData) (m : BandlimManager)
    → lookup dom m.domain_traffic ≡ some d
    → IsSameTurn dir n (some dom) m
    → SameTurn n (member dir m.general_traffic) (some (member dir d.traffic))
unfolding domain_member
IsSameTurn-found dir n dom d m found st = rw (found, domain_member, IsSameTurn) at st

-- A reservation followed by the end of its read, where the numbers of the turn agree and no sum
-- wraps, leaves no trace in `reserved`: together they only count the bytes read, for the user and
-- for the limiter's domain, if it has one.
pub update_counter-detect_max_read_size_for :
    (dir : Direction) (buffer_size bytes : ℕ) (domain : Option Bytes) (m : BandlimManager)
    {rc : ReservedCapacity} {m' : BandlimManager}
    → IsSameTurn dir buffer_size domain m
    → detect_max_read_size_for dir buffer_size domain m ≡ some (rc, m')
    → update_counter dir rc bytes domain m' ≡ some (change_traffic dir (add_actual bytes) domain m)
unfolding domain_member
update_counter-detect_max_read_size_for dir n bytes none m st e =
    let rc = granted dir n m none in
    let same = IsSameTurn-general dir n m st in
    cc (
      e,
      detect_general dir n m,
      update_counter_general dir rc bytes (change_traffic dir (add_reserved rc.capacity) none m),
      change_traffic_general dir (settle rc bytes) (add_reserved rc.capacity) (add_actual bytes) m (
          settle-add_reserved rc bytes (member dir m.general_traffic) refl
            (omega (arith, same, reserved_amount-le (member dir m.general_traffic) none n))),
    )
update_counter-detect_max_read_size_for dir n bytes (some dom) m st e =
    elim (Option-cases (lookup dom m.domain_traffic)) [
      | inl missing ↦ absurd (rw (missing, domain_member, IsSameTurn) at st)
      | inr (d, found) ↦
          let opt = some (member dir d.traffic) in
          let rc = granted dir n m opt in
          let same = IsSameTurn-found dir n dom d m found st in
          let small = reserved_amount-le (member dir m.general_traffic) opt n in
          cc (
            e,
            detect_domain dir n m dom d found,
            update_counter_domain dir rc bytes dom _
                (change_traffic dir (add_reserved rc.capacity) (some dom) m)
                (lookup-change_traffic dir (add_reserved rc.capacity) dom d m found),
            change_traffic_domain dir (settle rc bytes) (add_reserved rc.capacity)
                (add_actual bytes) m dom d found
                (settle-add_reserved rc bytes (member dir m.general_traffic) refl
                  (omega (arith, same, small)))
                (settle-add_reserved rc bytes (member dir d.traffic) (sym same.2)
                  (omega (arith, same, small))),
          )
    ]

general-change_traffic :
    (dir : Direction) (g : DirectionTrafficInfo → DirectionTrafficInfo) (dom : Bytes)
    (m : BandlimManager)
    → member dir (change_traffic dir g (some dom) m).general_traffic
      ≡ g (member dir m.general_traffic)
unfolding change_traffic
general-change_traffic dir g dom m = member-change_member dir g m.general_traffic

-- The counters after a read from a domain in the map, whatever the numbers of the turns.
pub record AfterRead (dir : Direction) (n bytes : ℕ) (dom : Bytes) (m : BandlimManager)
    (d : DomainTrafficData) (rc : ReservedCapacity) (done : BandlimManager) : Type 0 where
  pub taken : rc ≡ granted dir n m (some (member dir d.traffic))
  pub of_domain :
      lookup dom done.domain_traffic
      ≡ some (change_domain dir (settle rc bytes) (change_domain dir (add_reserved rc.capacity) d))
  pub of_user :
      member dir done.general_traffic
      ≡ settle rc bytes (add_reserved rc.capacity (member dir m.general_traffic))

pub after_read :
    (dir : Direction) (n bytes : ℕ) (dom : Bytes) (m : BandlimManager) (d : DomainTrafficData)
    {rc : ReservedCapacity} {reading done : BandlimManager}
    → lookup dom m.domain_traffic ≡ some d
    → detect_max_read_size_for dir n (some dom) m ≡ some (rc, reading)
    → update_counter dir rc bytes (some dom) reading ≡ some done
    → AfterRead dir n bytes dom m d rc done
after_read dir n bytes dom m d {rc} {reading} {done} found e f =
    let rc0 = granted dir n m (some (member dir d.traffic)) in
    let add = add_reserved rc.capacity in
    let same : rc ≡ rc0 = cc (e, detect_domain dir n m dom d found) in
    let first : reading ≡ change_traffic dir add (some dom) m =
      cc (e, same, detect_domain dir n m dom d found) in
    let held : lookup dom reading.domain_traffic ≡ some (change_domain dir add d) =
      cc (first, lookup-change_traffic dir add dom d m found) in
    let second : done ≡ change_traffic dir (settle rc bytes) (some dom) reading =
      cc (f, update_counter_domain dir rc bytes dom (change_domain dir add d) reading held) in
    record {
      taken = same;
      of_domain = cc (
        second,
        lookup-change_traffic dir (settle rc bytes) dom (change_domain dir add d) reading held,
      );
      of_user = cc (
        second,
        first,
        general-change_traffic dir (settle rc bytes) dom reading,
        general-change_traffic dir add dom m,
      );
    }

-- What the methods change when they succeed.
pub detect_changes :
    (dir : Direction) (n : ℕ) (domain : Option Bytes) (m : BandlimManager) {rc : ReservedCapacity}
    {m' : BandlimManager}
    → detect_max_read_size_for dir n domain m ≡ some (rc, m')
    → (opt : Option DirectionTrafficInfo) × (domain_member dir domain m ≡ some opt)
      × (rc ≡ granted dir n m opt)
      × (m' ≡ change_traffic dir (add_reserved rc.capacity) domain m)
unfolding detect_max_read_size_for
detect_changes dir n domain m e = elim (Option-cases (domain_member dir domain m)) [
  | inl missing ↦ cc (rw (missing, detect_max_read_size_for) at e)
  | inr (opt, found) ↦
      let e' = rw (found, detect_max_read_size_for) at e in (opt, found, cc e', cc e')
]

pub update_counter_changes :
    (dir : Direction) (rc : ReservedCapacity) (bytes : ℕ) (domain : Option Bytes)
    (m : BandlimManager) {m' : BandlimManager}
    → update_counter dir rc bytes domain m ≡ some m'
    → m' ≡ change_traffic dir (settle rc bytes) domain m
unfolding update_counter
update_counter_changes dir rc bytes domain m e = elim (Option-cases (domain_member dir domain m)) [
  | inl missing ↦ cc (rw (missing, update_counter) at e)
  | inr (opt, found) ↦ cc (rw (found, update_counter) at e)
]
