-- ===== src/Limiter/Rate.antt =====
-- The long-run bound that the counters enforce on one direction of a user's traffic.
use arataga.Prelude.{ℕ, ◌+◌, ◌≤◌, ◌<◌}
use arataga.Prelude.Eq.{bytes_eq}
use arataga.Words.{u64_mod}
use arataga.Bandlim.{BandlimConfig, make_bandlim_manager}
use arataga.Limiter.{Direction}
use arataga.Limiter.Ledger.{Ledger, counters}

abbrev IsAccounted : Direction → Ledger → Type 0
IsAccounted dir s =
    (s.consumed ≤ s.allowed + (counters dir s.manager).actual)
    × ((counters dir s.manager).actual < u64_mod)
    × (s.outstanding ≤ (counters dir s.manager).reserved)

-- The account of a new manager.
abbrev pub opening : BandlimConfig → BandlimConfig → ℕ → Ledger
opening p d now = record {
  manager = make_bandlim_manager p d now;
  allowed = 0;
  consumed = 0;
  outstanding = 0;
}
