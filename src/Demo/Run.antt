-- ===== src/Demo/Run.antt =====
-- The runs of examples/master_loopback_demo.c and samples/iolink_master/src/main.c.
use iolinki_master.Base.{
  ℕ, ◌≤◌, ◌<◌, ◌≡◌, refl, true, ◌==◌, Option, some, List, [], ◌∷◌, ℤ, pos, arith,
}
use iolinki_master.Iolinki.{Iolinki}
use iolinki_master.Types.Codes.{status_ok}
use iolinki_master.Types.State.{State, Port, Sys}
use iolinki_master.Port.Init.{init}
use iolinki_master.Port.Process.{process}
use iolinki_master.Port.Receive.{poll_rx}
use iolinki_master.Port.Status.{get_state, get_pd_in, set_pd_out}
use iolinki_master.Port.BringUp.{poll_rx-process}
use iolinki_master.Port.Inputs.{get_pd_in-poll_rx}
use iolinki_master.Demo.Loopback.{
  Line, demo_phy_recv_byte, demo_phy_send, demo_phy, demo_config, loopback_main, run_preoperate,
  run_operate, poll_one, check_exchange,
}
use iolinki_master.Demo.Sample.{
  sample_phy_send, sample_phy, sample_main, sample_preoperate, sample_operate, poll_then,
  sample_exchanged,
}
use iolinki_master.Demo.Device.{IsDocumented, waiting}
use iolinki_master.Demo.Replies.{
  IsDevice, demo_phy_send-IsDevice, sample_phy_send-IsDevice, device-Responds,
}
use iolinki_master.Demo.Ready.{
  begun, ready, ready-IsLinked, init_lem, set_lem, IsReady, ready-IsReady, ready-IsCyclic,
  kept-IsReady, ready_pd_in, ready-Exchanges,
}

module _ (L : Iolinki) (d : IsDocumented L) (send : List ℕ → ℕ → Line → ℤ × Line)
    (device : IsDevice L send) where
  -- The steps of both programs.
  pub run_lem :
      (fuel : ℕ) (s : Sys Line)
      → 3 ≤ fuel
      → (t : Sys Line) × (u : Sys Line) × (v : Sys Line) × (poll_rx L fuel
            (process L (process L (ready L send s)))
          ≡ some (pos 1, t))
        × (t.port.state ≡ State.preoperate)
        × (poll_rx L fuel (process L t) ≡ some (pos 1, u))
        × (u.port.state ≡ State.operate)
        × (poll_rx L fuel (process L u) ≡ some (pos 1, v))
        × (get_pd_in v.port 1 ≡ (status_ok, 0x5a ∷ [], 1))
  run_lem fuel s enough =
      let responds = device-Responds L d send device in
      let (t, u, first, in_preoperate, second, l, kept) =
        poll_rx-process L send demo_phy_recv_byte waiting d.framing responds fuel (ready L send s)
          enough (ready-IsLinked L send s) in
      let r : IsReady L u.port = kept-IsReady L (ready L send s) u (ready-IsReady L send s) kept in
      let (v, third, l', read, config_kept, out_kept) =
        get_pd_in-poll_rx L send demo_phy_recv_byte waiting d.framing responds d.header d.local fuel
          1 u l (ready-IsCyclic L u.port r) (ready-Exchanges L d send device u.port r)
          (ready_pd_in L u.port r) (omega (arith, enough)) (omega arith) in
      (t, u, v, first, in_preoperate, second, l.state, third, read)

-- The steps of one program over the results of the calls.
module _ (L : Iolinki) (fuel : ℕ) where
  polled :
      (s t : Sys Line) (code : ℕ) (next : Sys Line → Option ℕ)
      → poll_rx L fuel s ≡ some (pos 1, t)
      → poll_one L fuel s code next ≡ next t
  unfolding poll_one
  polled s t code next e = rw (poll_one, e) refl

  sample_polled :
      (s t : Sys Line) (next : Sys Line → Option ℤ)
      → poll_rx L fuel s ≡ some (pos 1, t)
      → poll_then L fuel s next ≡ next t
  unfolding poll_then
  sample_polled s t next e = rw (poll_then, e) refl

  exchange_checked :
      (v : Sys Line) → get_pd_in v.port 1 ≡ (status_ok, 0x5a ∷ [], 1) → check_exchange L v ≡ some 0
  unfolding check_exchange
  exchange_checked v read = rw (read) refl

  operate_run :
      (u v : Sys Line)
      → u.port.state ≡ State.operate
      → poll_rx L fuel (process L u) ≡ some (pos 1, v)
      → check_exchange L v ≡ some 0
      → run_operate L fuel u ≡ some 0
  unfolding run_operate get_state
  operate_run u v st e next = rw (polled (process L u) v 7 (check_exchange L) e, st) next

  preoperate_run :
      (t u : Sys Line)
      → t.port.state ≡ State.preoperate
      → poll_rx L fuel (process L t) ≡ some (pos 1, u)
      → run_operate L fuel u ≡ some 0
      → run_preoperate L fuel t ≡ some 0
  unfolding run_preoperate get_state
  preoperate_run t u st e next = rw (polled (process L t) u 6 (run_operate L fuel) e, st) next

  main_run :
      (s s1 t : Sys Line) (p : Port Line)
      → init L s (demo_phy L) (demo_config L) ≡ (status_ok, s1)
      → s1.world.mode ≡ L.phy_mode_sdci
      → s1.world.baudrate ≡ L.baudrate_com3
      → set_pd_out L s1.port (some (0x11 ∷ [])) 1 ≡ (status_ok, p)
      → poll_rx L fuel (process L (process L (record s1 { port = p }))) ≡ some (pos 1, t)
      → run_preoperate L fuel t ≡ some 0
      → loopback_main L fuel s ≡ some 0
  unfolding loopback_main
  main_run s s1 t p begin mode rate set e next =
      let same : (n : ℕ) → (n == n) ≡ true = λ n. ground arith in
      let go =
        polled (process L (process L (record s1 { port = p }))) t 4 (run_preoperate L fuel) e in
      rw (begin, set, go, mode, rate, same L.phy_mode_sdci, same L.baudrate_com3) next

  sample_exchange_checked :
      (v : Sys Line)
      → get_pd_in v.port 1 ≡ (status_ok, 0x5a ∷ [], 1)
      → sample_exchanged L v ≡ some (pos 0)
  unfolding sample_exchanged
  sample_exchange_checked v read = rw (read) refl

  sample_operate_run :
      (u v : Sys Line)
      → u.port.state ≡ State.operate
      → poll_rx L fuel (process L u) ≡ some (pos 1, v)
      → sample_exchanged L v ≡ some (pos 0)
      → sample_operate L fuel u ≡ some (pos 0)
  unfolding sample_operate get_state
  sample_operate_run u v st e next =
      rw (sample_polled (process L u) v (sample_exchanged L) e, st) next

  sample_preoperate_run :
      (t u : Sys Line)
      → t.port.state ≡ State.preoperate
      → poll_rx L fuel (process L t) ≡ some (pos 1, u)
      → sample_operate L fuel u ≡ some (pos 0)
      → sample_preoperate L fuel t ≡ some (pos 0)
  unfolding sample_preoperate get_state
  sample_preoperate_run t u st e next =
      rw (sample_polled (process L t) u (sample_operate L fuel) e, st) next

  sample_main_run :
      (s s1 t : Sys Line) (p : Port Line)
      → init L s (sample_phy L) (demo_config L) ≡ (status_ok, s1)
      → s1.world.mode ≡ L.phy_mode_sdci
      → s1.world.baudrate ≡ L.baudrate_com3
      → set_pd_out L s1.port (some (0x11 ∷ [])) 1 ≡ (status_ok, p)
      → poll_rx L fuel (process L (process L (record s1 { port = p }))) ≡ some (pos 1, t)
      → sample_preoperate L fuel t ≡ some (pos 0)
      → sample_main L fuel s ≡ some (pos 0)
  unfolding sample_main
  sample_main_run s s1 t p begin mode rate set e next =
      let same : (n : ℕ) → (n == n) ≡ true = λ n. ground arith in
      let go =
        sample_polled (process L (process L (record s1 { port = p }))) t (sample_preoperate L fuel)
          e in
      rw (begin, set, go, mode, rate, same L.phy_mode_sdci, same L.baudrate_com3) next

module _ (L : Iolinki) (d : IsDocumented L) (pd_in : 0 < L.pd_in_max_size)
    (pd_out : 0 < L.pd_out_max_size) where
  -- The program of examples/master_loopback_demo.c exits with 0, for every library as documented
  -- whose limits admit process data of one octet, whatever the port and the variables held before;
  -- the receptions have fuel for more than two octets.
  pub loopback_main_lem : (fuel : ℕ) (s : Sys Line) → 3 ≤ fuel → loopback_main L fuel s ≡ some 0
  unfolding demo_phy
  loopback_main_lem fuel s enough =
      let device = demo_phy_send-IsDevice L d in
      let (t, u, v, e1, st1, e2, st2, e3, read) =
        run_lem L d (demo_phy_send L) device fuel s enough in
      main_run L fuel s (begun L (demo_phy_send L) s) t (ready L (demo_phy_send L) s).port
        (init_lem L (demo_phy_send L) pd_in pd_out s) refl refl
        (set_lem L (demo_phy_send L) pd_in pd_out s) e1
        (preoperate_run L fuel t u st1 e2
          (operate_run L fuel u v st2 e3 (exchange_checked L fuel v read)))

  -- The program of samples/iolink_master/src/main.c returns 0 under the same conditions: for every
  -- library as documented whose limits admit process data of one octet, whatever the port and the
  -- variables held before, with fuel for more than two octets.
  pub sample_main_lem : (fuel : ℕ) (s : Sys Line) → 3 ≤ fuel → sample_main L fuel s ≡ some (pos 0)
  unfolding sample_phy demo_phy
  sample_main_lem fuel s enough =
      let device = sample_phy_send-IsDevice L d in
      let (t, u, v, e1, st1, e2, st2, e3, read) =
        run_lem L d (sample_phy_send L) device fuel s enough in
      sample_main_run L fuel s (begun L (sample_phy_send L) s) t
        (ready L (sample_phy_send L) s).port (init_lem L (sample_phy_send L) pd_in pd_out s) refl
        refl (set_lem L (sample_phy_send L) pd_in pd_out s) e1
        (sample_preoperate_run L fuel t u st1 e2
          (sample_operate_run L fuel u v st2 e3 (sample_exchange_checked L fuel v read)))
