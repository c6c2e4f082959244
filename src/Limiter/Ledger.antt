-- ===== src/Limiter/Ledger.antt =====
-- arataga/acl_handler/{a_handler.cpp,bandlim_manager.cpp}: whatever the agent does with the manager of
-- a user, with the bytes that are allowed, read and granted in one direction.
use arataga.Prelude.{
  ℕ, ◌+◌, ◌-◌, ◌≤◌, ◌<◌, ◌≡◌, ◌≢◌, Bool, true, false, Option, some, if◌then◌else◌,
}
use arataga.Prelude.Eq.{Bytes, bytes_eq}
use arataga.Words.{u64_mod}
use arataga.Bandlim.{
  BandlimConfig, DirectionTrafficInfo, BandlimManager, make_domain_limits, update_personal_limits,
  update_default_limits, connection_removed,
}
use arataga.Bandlim.Turn.{
  Double, update_traffic_counters_for_new_turn, quote_calculator, turn_multiplier,
}
use arataga.Limiter.{
  Direction, from_user, from_target, ReservedCapacity, member, detect_max_read_size_for,
  update_counter,
}

-- A manager with three accounts of its history, for one direction: the bytes that the quotes of the
-- finished turns allowed, the bytes read, and the bytes granted in the current turn to reads that
-- have not finished.
pub record Ledger : Type 0 where
  pub manager : BandlimManager
  pub allowed : ℕ
  pub consumed : ℕ
  pub outstanding : ℕ

abbrev pub is_same : Direction → Direction → Bool
is_same from_user from_user = true
is_same from_target from_target = true
is_same _ _ = false

-- The direction's general counters.
abbrev pub counters : Direction → BandlimManager → DirectionTrafficInfo
counters dir m = member dir m.general_traffic

-- A number that counts if the directions are the same.
abbrev pub if_same : Direction → Direction → ℕ → ℕ
if_same d dir n = if is_same d dir then n else 0

module _ (dbl : Double) (dir : Direction) where
  -- What the turn that ends at `now` allowed.
  abbrev pub turn_allows : ℕ → BandlimManager → ℕ
  turn_allows now m =
      quote_calculator dbl (turn_multiplier dbl m.last_update_at now) (counters dir m).m_quote

  -- Whatever the agent does with a user's manager.
  pub data Move : Ledger → Ledger → Type 0 where
    new_turn :
        (s : Ledger) (now : ℕ)
        → Move s (record s {
          manager = update_traffic_counters_for_new_turn dbl now s.manager;
          allowed = s.allowed + turn_allows now s.manager;
          outstanding = 0;
        })
    reserve :
        (s : Ledger) (d : Direction) (n : ℕ) (domain : Option Bytes) (rc : ReservedCapacity)
        (m : BandlimManager)
        → detect_max_read_size_for d n domain s.manager ≡ some (rc, m)
        → (counters d s.manager).reserved + rc.capacity < u64_mod
        → Move s (record s { manager = m; outstanding = s.outstanding + if_same d dir rc.capacity })
    -- A read granted in the current turn has finished.
    release :
        (s : Ledger) (d : Direction) (rc : ReservedCapacity) (bytes : ℕ) (domain : Option Bytes)
        (m : BandlimManager)
        → update_counter d rc bytes domain s.manager ≡ some m
        → (counters d s.manager).actual + bytes < u64_mod
        → rc.sequence_number ≡ (counters d s.manager).sequence_number
        → if_same d dir rc.capacity ≤ s.outstanding
        → Move s (record s {
          manager = m;
          consumed = s.consumed + if_same d dir bytes;
          outstanding = s.outstanding - if_same d dir rc.capacity;
        })
    -- A read granted in an earlier turn has finished.
    late_release :
        (s : Ledger) (d : Direction) (rc : ReservedCapacity) (bytes : ℕ) (domain : Option Bytes)
        (m : BandlimManager)
        → update_counter d rc bytes domain s.manager ≡ some m
        → (counters d s.manager).actual + bytes < u64_mod
        → rc.sequence_number ≢ (counters d s.manager).sequence_number
        → Move s (record s { manager = m; consumed = s.consumed + if_same d dir bytes })
    personal :
        (s : Ledger) (p d : BandlimConfig)
        → Move s (record s { manager = update_personal_limits p d s.manager })
    defaults :
        (s : Ledger) (d : BandlimConfig)
        → Move s (record s { manager = update_default_limits d s.manager })
    enters :
        (s : Ledger) (domain : Bytes) (limits : BandlimConfig)
        → Move s (record s { manager = make_domain_limits domain limits s.manager })
    leaves :
        (s : Ledger) (domain : Bytes) (m : BandlimManager)
        → connection_removed domain s.manager ≡ some m
        → Move s (record s { manager = m })

  pub data Reach (s : Ledger) : Ledger → Type 0 where
    here : Reach s s
    next : {t u : Ledger} → Reach s t → Move t u → Reach s u
