-- ===== src/Tests/Port.antt =====
-- The state machine and the clock of src/master_port.c at a concrete port.
use iolinki_master.Base.{
  ℕ, zero, suc, ℤ, pos, is_pos, some, length-replicate, take, length, ◌++◌, ◌+◌, ◌-◌, ◌^◌, ◌≤◌, ◌<◌,
  ◌≡◌, ◌⊎◌, refl, true, false, arith, [], ◌∷◌,
}
use iolinki_master.Types.Codes.{status_ok, status_pending, err_retry_limit}
use iolinki_master.Types.State.{
  operate, startup, wake, step_inactive, Port, Sys, is_inactive_or_error,
}
use iolinki_master.Types.Zero.{zero_port, zero_startup, zero_diagnostics}
use iolinki_master.Port.Timing.{
  wake_retry_limit, tbit_to_100us, t_bit_ns, startup_baudrate, baudrate_scan,
  response_timeout_100us, response_due_at, cycle_due_at, get_next_tick_time, pacing_active,
}
use iolinki_master.Port.Tick.{account_cycle}
use iolinki_master.Port.Status.{link_quality}
use iolinki_master.Port.Establish.{establish_attempt_failed, on_timeout_at}
use iolinki_master.Port.Receive.{on_rx, notify, poll_rx}
use iolinki_master.Port.Line.{phy_recv_byte, checked_call, optional_call, flush_rx}
use iolinki_master.Port.Reliable.{IsReliable}
use iolinki_master.Port.Poll.{IsBuffered, Drains, poll_rx_returns}
use iolinki_master.Types.Limits.{rx_retry_limit, frame_buf_size}
use iolinki_master.Port.Retries.{retries, retries-on_rx, retries-on_timeout_at}
use iolinki_master.Port.Attempts.{
  attempts_left, IsCounting, attempts_left-establish_attempt_failed, failed_in_a_row,
  failed_in_a_row_ends, establish_attempt_failed_unlimited,
}
use iolinki_master.Port.Deadlines.{
  response_due_at_wrapped, get_next_tick_time_wrapped, link_quality_overflow,
}
use iolinki_master.Params.Capability.{ckt_type_bits}
use iolinki_master.Port.Frames.{build_multi_frame}
use iolinki_master.Port.Layout.{message, build_multi_frame-message}
use iolinki_master.Tests.Instance.{wire, setup, phy, port, system}

abbrev starting : Sys ℕ
unfolding system
starting = system startup

starting-state : starting.port.state ≡ startup
unfolding system
starting-state = refl

counting : IsCounting starting.port
unfolding wake_retry_limit system zero_port zero_startup port
counting = record { limit = omega arith; attempts = omega arith; index = omega arith }

-- Its PHY has no call that could fail.
reliable : IsReliable starting.port
unfolding checked_call system zero_port port
reliable = record { mode = λ value w. refl; baudrate = λ value w. refl }

attempts_left-establish_attempt_failed_example :
    ((establish_attempt_failed wire starting 50 true).1.port.state ≡ starting.port.state)
    × ((((establish_attempt_failed wire starting 50 true).0 ≡ status_pending)
          × (attempts_left (establish_attempt_failed wire starting 50 true).1.port + 1
              ≡ attempts_left starting.port)
          × IsCounting (establish_attempt_failed wire starting 50 true).1.port)
        ⊎ (((establish_attempt_failed wire starting 50 true).0 ≡ err_retry_limit)
            × (attempts_left starting.port ≡ 1)
            × ((establish_attempt_failed wire starting 50 true).1.port.startup.step ≡ step_inactive)
            × ((establish_attempt_failed wire starting 50 true).1.port.startup.wake_attempts ≡ 0)))
attempts_left-establish_attempt_failed_example =
    attempts_left-establish_attempt_failed wire starting 50 true reliable counting

nine_left : attempts_left starting.port ≤ 9
unfolding attempts_left wake_retry_limit starting system zero_port zero_startup port
nine_left = omega arith

failed_in_a_row_ends_example :
    ((failed_in_a_row wire 9 starting 50 true).0 ≡ err_retry_limit)
    × ((failed_in_a_row wire 9 starting 50 true).1.port.state ≡ starting.port.state)
    × ((failed_in_a_row wire 9 starting 50 true).1.port.startup.step ≡ step_inactive)
    × ((failed_in_a_row wire 9 starting 50 true).1.port.startup.wake_attempts ≡ 0)
failed_in_a_row_ends_example =
    failed_in_a_row_ends wire 9 starting 50 true reliable counting nine_left

abbrev persistent : Sys ℕ
unfolding system
persistent = record (system startup) {
  port = record ((system startup).port) { config = record setup { wake_retry_limit = 255 } };
}

persists : persistent.port.config.wake_retry_limit ≡ 255
unfolding persistent
persists = refl

persistent-IsReliable : IsReliable persistent.port
unfolding checked_call system zero_port port
persistent-IsReliable = record { mode = λ value w. refl; baudrate = λ value w. refl }

establish_attempt_failed_unlimited_example :
    ((establish_attempt_failed wire persistent 50 true).0 ≡ status_pending)
    × ((establish_attempt_failed wire persistent 50 true).1.port.state ≡ persistent.port.state)
establish_attempt_failed_unlimited_example =
    establish_attempt_failed_unlimited wire persistent 50 true persistent-IsReliable persists

-- A port in OPERATE whose last cycle started at time `start`.
unfoldable pacing : ℕ → Port ℕ
unfolding system
pacing start = record ((system operate).port) {
  last_cycle_start_100us = start;
  cycle_timer_valid = true;
  awaiting_response = false;
}

-- The same port while it awaits a response until time `deadline`.
unfoldable awaiting : ℕ → Port ℕ
unfolding pacing
awaiting deadline = record (pacing 0) {
  awaiting_response = true;
  response_deadline_100us = deadline;
}

timeout : (start : ℕ) → response_timeout_100us wire (pacing start) ≡ 100
unfolding response_timeout_100us tbit_to_100us t_bit_ns startup_baudrate baudrate_scan pacing system
    port zero_port zero_startup
timeout start = refl

response_due_at_wrapped_example :
    response_due_at (account_cycle wire (pacing 0) (2 ^ 32 - 50)) (2 ^ 32 - 50) ≡ true
response_due_at_wrapped_example =
    response_due_at_wrapped wire (pacing 0) (2 ^ 32 - 50) (omega arith) (omega (arith, timeout 0))
      (omega (arith, timeout 0))

pacing-state : (pacing 0).state ≡ operate
unfolding pacing system
pacing-state = refl

cycle_time : (pacing 0).config.min_cycle_time ≡ 10
unfolding pacing system port zero_port
cycle_time = refl

active : is_inactive_or_error (awaiting 100).state ≡ false
unfolding awaiting pacing system
active = refl

awaits : (awaiting 100).awaiting_response ≡ true
unfolding awaiting
awaits = refl

paces : (start : ℕ) → pacing_active (pacing start) ≡ true
unfolding pacing_active pacing system port zero_port
paces start = refl

free : (start : ℕ) → (pacing start).awaiting_response ≡ false
unfolding pacing
free start = refl

started : (start : ℕ) → (pacing start).last_cycle_start_100us ≡ start
unfolding pacing
started start = refl

period : (start : ℕ) → (pacing start).config.min_cycle_time ≡ 10
unfolding pacing system port zero_port
period start = refl

get_next_tick_time_wrapped_example :
    (get_next_tick_time (pacing (2 ^ 32 - 5)) (2 ^ 32 - 3) ≡ 2 ^ 32 - 3)
    × (cycle_due_at (pacing (2 ^ 32 - 5)) (2 ^ 32 - 3) ≡ false)
get_next_tick_time_wrapped_example =
    get_next_tick_time_wrapped (pacing (2 ^ 32 - 5)) (2 ^ 32 - 3) (paces (2 ^ 32 - 5))
      (free (2 ^ 32 - 5)) (omega (arith, period (2 ^ 32 - 5))) (omega (arith, started (2 ^ 32 - 5)))
      (omega arith) (omega (arith, started (2 ^ 32 - 5), period (2 ^ 32 - 5)))

link_quality_overflow_example : link_quality 42949673 0 < 100
link_quality_overflow_example = link_quality_overflow 42949673 (omega arith) (omega arith)

no_retries : retries (system operate) ≡ 0
unfolding system port zero_port zero_diagnostics
no_retries = refl

running : (system operate).port.state ≡ operate
unfolding system
running = refl

retries-on_rx_example : retries (on_rx wire (system operate) (0 ∷ 0 ∷ []) 2).1 ≤ rx_retry_limit
retries-on_rx_example =
    retries-on_rx wire (system operate) (0 ∷ 0 ∷ []) 2 (omega (arith, no_retries))

running-IsReliable : IsReliable (system operate).port
unfolding checked_call system zero_port port
running-IsReliable = record { mode = λ value w. refl; baudrate = λ value w. refl }

flushed : (flush_rx (system operate)).0 ≡ status_ok
unfolding flush_rx optional_call system zero_port port
flushed = refl

retries-on_timeout_at_example :
    ((on_timeout_at wire (system operate) 50 true).0 ≡ status_pending)
    × (((retries (system operate) < rx_retry_limit)
          × (retries (on_timeout_at wire (system operate) 50 true).1 ≡ retries (system operate) + 1)
          × ((on_timeout_at wire (system operate) 50 true).1.port.state ≡ operate))
        ⊎ ((retries (system operate) ≡ rx_retry_limit)
            × (retries (on_timeout_at wire (system operate) 50 true).1 ≡ 0)
            × ((on_timeout_at wire (system operate) 50 true).1.port.state ≡ startup)
            × ((on_timeout_at wire (system operate) 50 true).1.port.startup.step ≡ wake)
            × ((on_timeout_at wire (system operate) 50 true).1.port.startup.wake_attempts ≡ 0)))
retries-on_timeout_at_example =
    retries-on_timeout_at wire (system operate) 50 true running flushed running-IsReliable
      (omega (arith, no_retries))

-- A line on which some octets wait, the last one of which is 1.
deliver : ℕ → ℤ × ℕ × ℕ
deliver zero = (pos 0, 0, 0)
deliver (suc w) = (pos 1, suc w, w)

-- A port of an operating device of 2 octets, and five octets on its line.
receiving : Sys ℕ
unfolding zero_port
receiving = record {
  port = record (zero_port wire (record setup { pd_in_len = 2 })) {
    phy = some (record phy { recv_byte = some deliver });
    state = operate;
  };
  world = 5;
}

delivers : phy_recv_byte receiving.port.phy ≡ some deliver
unfolding receiving
delivers = refl

drained : Drains wire deliver receiving.port.config.event_pending_handler (λ w. w)
unfolding receiving deliver notify zero_port
drained = record { taken = less; added = λ w. omega arith }
  where
    less : (w : ℕ) → is_pos (deliver w).0 ≡ true → (deliver w).2 < w
    less zero h = absurd (cc)
    less (suc w) h = omega arith

buffered : IsBuffered receiving.port
unfolding receiving zero_port
buffered = record { size = length-replicate {A = ℕ} frame_buf_size 0; len = omega arith }

waits : receiving.world < 6
unfolding receiving
waits = omega arith

poll_rx_returns_example :
    (ret : ℤ) × (t : Sys ℕ) × (poll_rx wire 6 receiving ≡ some (ret, t)) × IsBuffered t.port
poll_rx_returns_example =
    poll_rx_returns wire deliver (λ w. w) 6 receiving delivers drained waits buffered

-- A port with outputs of two octets, and one octet of on-request data.
driving : Port ℕ
unfolding zero_port
driving = record (zero_port wire (record setup { m_seq_type = 5; pd_out_len = 2 })) {
  pd_out = 0x12 ∷ 0x34 ∷ 0 ∷ 0 ∷ [];
  pd_out_len = 2;
}

driving_outputs : driving.pd_out_len ≤ length driving.pd_out
unfolding driving
driving_outputs = omega arith

driving_room : 2 + (driving.pd_out_len + length {A = ℕ} (0x93 ∷ [])) ≤ length driving.tx_buf
unfolding driving zero_port
driving_room = omega (arith, length-replicate {A = ℕ} frame_buf_size 0)

build_multi_frame-message_example :
    (take
        (build_multi_frame wire driving 0x70 (0x93 ∷ [])).1
        (build_multi_frame wire driving 0x70 (0x93 ∷ [])).0
      ≡ message wire 0x70
          (ckt_type_bits driving.config.m_seq_type)
          (take driving.pd_out_len driving.pd_out ++ 0x93 ∷ []))
    × (length (build_multi_frame wire driving 0x70 (0x93 ∷ [])).0 ≡ length driving.tx_buf)
build_multi_frame-message_example =
    build_multi_frame-message wire driving 0x70 (0x93 ∷ []) refl driving_outputs driving_room
      (λ xs n. refl)
