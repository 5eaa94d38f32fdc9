-- ===== src/Port/Retries.antt =====
-- The retry counter of src/master_port.c over replies and timeouts.
use iolinki_master.Base.{u32, ℕ, ◌+◌, ◌≤◌, ◌<◌, ◌≡◌, Bool, false, ◌⊎◌, arith, List}
use iolinki_master.Iolinki.{Iolinki, OperateResponse}
use iolinki_master.Event.Transport.{event_channel_access}
use iolinki_master.Types.Codes.{status_ok, status_pending}
use iolinki_master.Types.Limits.{rx_retry_limit}
use iolinki_master.Types.State.{startup, operate, wake, Port, Sys}
use iolinki_master.Port.Reliable.{IsReliable, IsRestarted, restart_establish-IsRestarted}
use iolinki_master.Port.Line.{set_baudrate, flush_rx}
use iolinki_master.Port.Establish.{
  reset_rate_scan, restart_establish, operate_timeout, on_timeout_at, arm_send_gate,
}
use iolinki_master.Port.Receive.{
  checksum_failed, on_rx_startup, on_rx_ack, on_rx_type0, on_rx_pd, accept_response, on_rx,
  count_checksum_error, count_retry, decode_reply, route_od, route_access, route_event,
  reply_received,
}

abbrev pub retries : {W : Type 0} → Sys W → ℕ
retries s = s.port.diagnostics.rx_retry_count

module _ {W : Type 0} (L : Iolinki) where
  reset-retries : (s : Sys W) → retries (reset_rate_scan L s).1 ≡ retries s
  unfolding reset_rate_scan set_baudrate
  reset-retries s = ground arith

  -- A restart of the communication clears the counter.
  restart-retries :
      (s : Sys W) (now : ℕ) (timed : Bool) → retries (restart_establish L s now timed).1 ≡ 0
  unfolding restart_establish reset_rate_scan set_baudrate arm_send_gate
  restart-retries s now timed = ground arith

  checksum-retries :
      (s : Sys W) → retries s ≤ rx_retry_limit → retries (checksum_failed L s).1 ≤ rx_retry_limit
  unfolding checksum_failed count_checksum_error count_retry
  checksum-retries s h = ground (arith, restart-retries (count_checksum_error L s) 0 false)

  route-retries :
      (p : Port W) (od : List ℕ) (od_len : ℕ)
      → (route_od L p od od_len).diagnostics.rx_retry_count ≡ p.diagnostics.rx_retry_count
  unfolding route_od route_access route_event event_channel_access
  route-retries p od od_len = ground arith

  accept-retries : (s : Sys W) (resp : OperateResponse) → retries (accept_response L s resp) ≡ 0
  unfolding accept_response reply_received
  accept-retries s resp = rw route-retries (ground arith)

  type0-retries :
      (s : Sys W) (frame : List ℕ) (len : ℕ)
      → retries s ≤ rx_retry_limit
      → retries (on_rx_type0 L s frame len).1 ≤ rx_retry_limit
  unfolding on_rx_type0 reply_received
  type0-retries s frame len h =
      ground (arith, checksum-retries s h, route-retries (reply_received L s.port) frame 1)

  pd-retries :
      (s : Sys W) (frame : List ℕ) (len : ℕ)
      → retries s ≤ rx_retry_limit
      → retries (on_rx_pd L s frame len).1 ≤ rx_retry_limit
  unfolding on_rx_pd
  pd-retries s frame len h =
      ground (arith, checksum-retries s h, accept-retries s (decode_reply L s frame len).1)

  -- A counter of retries that is at most its limit of 2 is so after any reply.
  pub retries-on_rx :
      (s : Sys W) (frame : List ℕ) (len : ℕ)
      → retries s ≤ rx_retry_limit
      → retries (on_rx L s frame len).1 ≤ rx_retry_limit
  unfolding on_rx on_rx_startup on_rx_ack reply_received count_checksum_error
  retries-on_rx s frame len h =
      ground (arith, checksum-retries s h, type0-retries s frame len h, pd-retries s frame len h)

  -- A response timeout in OPERATE, with the counter of retries in range, on a PHY that flushes and
  -- sets the rate without an error, is pending, and one of two: below the limit of 2 another retry
  -- is counted and the port stays in OPERATE; at the limit communication starts again, in STARTUP
  -- before the first wake-up attempt, with the counter at 0.
  pub retries-on_timeout_at :
      (s : Sys W) (now : ℕ) (timed : Bool)
      → s.port.state ≡ operate
      → (flush_rx s).0 ≡ status_ok
      → IsReliable s.port
      → retries s ≤ rx_retry_limit
      → ((on_timeout_at L s now timed).0 ≡ status_pending)
        × (((retries s < rx_retry_limit)
              × (retries (on_timeout_at L s now timed).1 ≡ retries s + 1)
              × ((on_timeout_at L s now timed).1.port.state ≡ operate))
            ⊎ ((retries s ≡ rx_retry_limit)
                × (retries (on_timeout_at L s now timed).1 ≡ 0)
                × ((on_timeout_at L s now timed).1.port.state ≡ startup)
                × ((on_timeout_at L s now timed).1.port.startup.step ≡ wake)
                × ((on_timeout_at L s now timed).1.port.startup.wake_attempts ≡ 0)))
  unfolding on_timeout_at flush_rx operate_timeout
  retries-on_timeout_at s now timed p f r h =
      let counted : Sys W = record ((flush_rx s).1) {
        port = record ((flush_rx s).1.port) {
          diagnostics = record ((flush_rx s).1.port.diagnostics) {
            response_timeouts = u32 ((flush_rx s).1.port.diagnostics.response_timeouts + 1);
          };
        };
      } in
      let restarted : IsRestarted L (restart_establish L counted now timed) =
        restart_establish-IsRestarted L counted now timed
          (record { mode = r.mode; baudrate = r.baudrate }) in
      ground (
        arith, restarted.result, restarted.state, restarted.step, restarted.attempts,
        restarted.retries,
      )
