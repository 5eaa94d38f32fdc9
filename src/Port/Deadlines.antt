-- ===== src/Port/Deadlines.antt =====
-- The clock of src/master_port.c: deadlines, cycle pacing and the next tick time over the 32-bit
-- tick counter.
use native.Mathlib.Nat.{div-le_of_le-mul, div-lt_iff_lt-mul}
use iolinki_master.Base.{ℕ, ◌+◌, ◌*◌, ◌/◌, ◌^◌, ◌%◌, ◌≤◌, ◌<◌, ◌≡◌, true, false, arith, leb, u32}
use iolinki_master.Iolinki.{Iolinki}
use iolinki_master.Types.State.{operate, Port, is_inactive_or_error}
use iolinki_master.Port.Timing.{
  response_timeout_100us, response_due_at, cycle_due_at, get_next_tick_time, pacing_active,
}
use iolinki_master.Port.Tick.{account_cycle}
use iolinki_master.Port.Status.{link_quality}

module _ {W : Type 0} (L : Iolinki) where
  -- If the deadline passes the end of the 32-bit counter, and the timeout is at most the current
  -- time, then the response counts as overdue at the moment the cycle starts.
  pub response_due_at_wrapped :
      (p : Port W) (now : ℕ)
      → now < 2 ^ 32
      → 2 ^ 32 ≤ now + response_timeout_100us L p
      → response_timeout_100us L p ≤ now
      → response_due_at (account_cycle L p now) now ≡ true
  unfolding response_due_at account_cycle
  response_due_at_wrapped p now hn h ht = ground arith

  -- A cycle that starts at `now` in OPERATE with a cycle time makes the next one due exactly when
  -- that time has elapsed, wherever the 32-bit counter wraps.
  pub cycle_due_at-account_cycle :
      (p : Port W) (now d : ℕ)
      → p.state ≡ operate
      → 0 < p.config.min_cycle_time
      → now < 2 ^ 32
      → d < 2 ^ 32
      → cycle_due_at (account_cycle L p now) (u32 (now + d)) ≡ leb p.config.min_cycle_time d
  unfolding cycle_due_at account_cycle pacing_active
  cycle_due_at-account_cycle p now d s hc hn hd = ground arith

module _ {W : Type 0} where
  -- While a response is awaited in a state that communicates, the next tick time is the first
  -- time from now on at which the response is due.
  pub response_due_at-get_next_tick_time :
      (p : Port W) (now t : ℕ)
      → is_inactive_or_error p.state ≡ false
      → p.awaiting_response ≡ true
      → now ≤ t
      → response_due_at p t ≡ leb (get_next_tick_time p now) t
  unfolding get_next_tick_time response_due_at
  response_due_at-get_next_tick_time p now t a r h = ground arith

  -- While the port paces its cycles and awaits nothing, the next tick time is the first time from
  -- now on at which the cycle is due, if the cycle does not pass the end of the 32-bit counter.
  pub cycle_due_at-get_next_tick_time :
      (p : Port W) (now t : ℕ)
      → pacing_active p ≡ true
      → p.awaiting_response ≡ false
      → p.last_cycle_start_100us + p.config.min_cycle_time < 2 ^ 32
      → p.last_cycle_start_100us ≤ now
      → now ≤ t
      → t < 2 ^ 32
      → cycle_due_at p t ≡ leb (get_next_tick_time p now) t
  unfolding get_next_tick_time cycle_due_at pacing_active
  cycle_due_at-get_next_tick_time p now t a r h hl hn ht = ground arith

  -- If the due time of the next cycle passes the end of the 32-bit counter, then the next tick
  -- time is the current time, although the cycle is not due yet.
  pub get_next_tick_time_wrapped :
      (p : Port W) (now : ℕ)
      → pacing_active p ≡ true
      → p.awaiting_response ≡ false
      → p.config.min_cycle_time < 2 ^ 32
      → p.last_cycle_start_100us ≤ now
      → now < 2 ^ 32
      → 2 ^ 32 ≤ p.last_cycle_start_100us + p.config.min_cycle_time
      → (get_next_tick_time p now ≡ now) × (cycle_due_at p now ≡ false)
  unfolding get_next_tick_time cycle_due_at pacing_active
  get_next_tick_time_wrapped p now a r hc hl hn h = ground arith

-- A quotient of at most 100 is unchanged by the conversion to 8 bits.
quotient_le : (cycles total : ℕ) → 0 < total → cycles ≤ total → cycles * 100 / total ≤ 100
quotient_le cycles total ht h = div-le_of_le-mul total (omega arith)

-- The link quality is the rounded-down percentage of the cycles among the cycles and the errors,
-- hence at most 100, as long as neither the sum nor a hundred times the cycles overflows 32 bits.
pub link_quality_eq :
    (cycles errors : ℕ)
    → cycles + errors < 2 ^ 32
    → cycles * 100 < 2 ^ 32
    → 0 < cycles + errors
    → (link_quality cycles errors ≡ cycles * 100 / (cycles + errors))
      × (link_quality cycles errors ≤ 100)
unfolding link_quality
link_quality_eq cycles errors hs hc hp =
    let le = quotient_le cycles (cycles + errors) hp (omega arith) in
    rw (total, product) (ground (arith, le))
  where
    total : (cycles + errors) % 4294967296 ≡ cycles + errors
    total = omega arith

    product : cycles * 100 % 4294967296 ≡ cycles * 100
    product = omega arith

-- Without an error, the link quality is below 100 as soon as a hundred times the cycles
-- overflows 32 bits.
pub link_quality_overflow :
    (cycles : ℕ) → 2 ^ 32 ≤ cycles * 100 → cycles < 2 ^ 32 → link_quality cycles 0 < 100
unfolding link_quality
link_quality_overflow cycles h hc =
    let lt =
      (div-lt_iff_lt-mul {k = cycles} {x = cycles * 100 % 4294967296} {y = 100} (omega arith)).1
        (omega arith) in
    rw (total) (ground (arith, lt))
  where
    total : (cycles + 0) % 4294967296 ≡ cycles
    total = omega arith
