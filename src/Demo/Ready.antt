-- ===== src/Demo/Ready.antt =====
-- The port of examples/master_loopback_demo.c and samples/iolink_master/src/main.c before its first
-- message.
use mathlib.Core.Path.{subst}
use iolinki_master.Base.{
  ℕ, ◌<◌, ◌≡◌, refl, ap, ◌∙◌, sym, false, ◌==◌, ltb, some, List, [], ◌∷◌, take, drop, replicate,
  length, length-replicate, ℤ, arith,
}
use iolinki_master.Iolinki.{Iolinki}
use iolinki_master.Types.Codes.{status_ok, m_seq_type_0}
use iolinki_master.Types.Limits.{frame_buf_size}
use iolinki_master.Types.Config.{Phy}
use iolinki_master.Types.State.{State, wake, Port, Sys}
use iolinki_master.Types.Zero.{zero_config, zero_port, zero_startup, zero_isdu, zero_event}
use iolinki_master.Isdu.Service.{copy_at}
use iolinki_master.Port.Line.{set_mode, set_baudrate, flush_rx, optional_call, checked_call}
use iolinki_master.Port.Timing.{startup_baudrate}
use iolinki_master.Params.Capability.{od_len_for_type, ckt_type_bits}
use iolinki_master.Port.Init.{init, init_line, init_iolink, or_error, config_refused, fresh_port}
use iolinki_master.Port.Status.{set_pd_out}
use iolinki_master.Port.Device.{IsLinked}
use iolinki_master.Port.BringUp.{IsKept}
use iolinki_master.Port.Exchange.{IsCyclic, Exchanges}
use iolinki_master.Demo.Loopback.{
  Line, demo_phy_init, demo_phy_set_mode, demo_phy_set_baudrate, demo_phy_recv_byte, demo_phy,
  demo_config,
}
use iolinki_master.Demo.Device.{IsDocumented, waiting, left}
use iolinki_master.Demo.Replies.{IsDevice, device-Exchanges}

module _ (L : Iolinki) (send : List ℕ → ℕ → Line → ℤ × Line) where
  abbrev pub phy : Phy Line
  phy = record (demo_phy L) { send = some send }

  -- The port and the line after `init`.
  abbrev pub begun : Sys Line → Sys Line
  begun s = record {
    port = fresh_port L phy (demo_config L);
    world = record (s.world) {
      rx_len = 0;
      rx_pos = 0;
      baudrate = L.baudrate_com3;
      mode = L.phy_mode_sdci;
    };
  }

  -- The port and the line after the outputs were set.
  abbrev pub ready : Sys Line → Sys Line
  ready s =
      let p = (begun s).port in
      record (begun s) {
        port = record p { pd_out = copy_at p.pd_out 0 (0x11 ∷ []); pd_out_len = 1 };
      }

  pub ready-IsLinked :
      (s : Sys Line) → IsLinked send demo_phy_recv_byte waiting State.startup wake [] (ready s)
  unfolding fresh_port zero_port zero_config zero_startup zero_isdu zero_event demo_config demo_phy
      waiting left
  ready-IsLinked s = record {
    phy = phy;
    linked = refl;
    sends = refl;
    receives = refl;
    plain = record {
      wake_up = refl;
      prepare_tx = refl;
      prepare_rx = refl;
      unchecked = refl;
      uninspected = refl;
    };
    state = refl;
    step = refl;
    waits = refl;
    rx_len = refl;
    rx_size = length-replicate {A = ℕ} frame_buf_size 0;
    tx_size = length-replicate {A = ℕ} frame_buf_size 0;
    no_event = refl;
    no_isdu = refl;
    no_abort = refl;
    no_idle = refl;
  }

module _ (L : Iolinki) (send : List ℕ → ℕ → Line → ℤ × Line) (pd_in : 0 < L.pd_in_max_size)
    (pd_out : 0 < L.pd_out_max_size) where
  pub init_lem :
      (s : Sys Line) → init L s (phy L send) (demo_config L) ≡ (status_ok, begun L send s)
  unfolding init init_line init_iolink or_error config_refused set_mode set_baudrate flush_rx
      optional_call checked_call startup_baudrate fresh_port zero_port zero_config demo_config
      demo_phy demo_phy_init demo_phy_set_mode demo_phy_set_baudrate
  init_lem s =
      let a : ltb L.pd_in_max_size 1 ≡ false = ground (arith, pd_in) in
      let b : ltb L.pd_out_max_size 1 ≡ false = ground (arith, pd_out) in
      let c : ltb L.baudrate_com3 L.baudrate_com3 ≡ false = ground arith in rw (a, b, c) refl

  pub set_lem :
      (s : Sys Line)
      → set_pd_out L (begun L send s).port (some (0x11 ∷ [])) 1 ≡ (status_ok, (ready L send s).port)
  unfolding set_pd_out fresh_port demo_config zero_port
  set_lem s = let b : ltb L.pd_out_max_size 1 ≡ false = ground (arith, pd_out) in rw (b) refl

module _ (L : Iolinki) where
  -- What the exchange needs of a port that was kept since then.
  pub IsReady : Port Line → Type 0
  IsReady p =
      (p.config ≡ demo_config L)
      × (p.od_len ≡ 1)
      × (p.pd_out_len ≡ 1)
      × ((rest : List ℕ) × (p.pd_out ≡ 0x11 ∷ rest))

  pub ready-IsReady :
      (send : List ℕ → ℕ → Line → ℤ × Line) (s : Sys Line) → IsReady (ready L send s).port
  unfolding IsReady fresh_port zero_port demo_config od_len_for_type copy_at
  ready-IsReady send s = (refl, refl, refl, (drop 1 (replicate L.pd_out_max_size 0), refl))

  pub ready-IsCyclic : (p : Port Line) → IsReady p → IsCyclic p
  unfolding IsReady demo_config
  ready-IsCyclic p (config, od_len, out_len, (rest, out)) = record {
    multi = ap (λ c. c.m_seq_type == m_seq_type_0) config;
    outputs = omega (arith, out_len, ap length out);
    room = omega (arith, out_len, od_len);
    inputs = omega (arith, ap (λ c. c.pd_in_len) config);
  }

  pub kept-IsReady : (s t : Sys Line) → IsReady s.port → IsKept s t → IsReady t.port
  unfolding IsReady
  kept-IsReady s t (config, od_len, out_len, (rest, out)) k =
      (k.config ∙ config, k.od_len ∙ od_len, k.pd_out_len ∙ out_len, (rest, k.pd_out ∙ out))

  pub ready_pd_in : (p : Port Line) → IsReady p → p.config.pd_in_len ≡ 1
  unfolding IsReady demo_config
  ready_pd_in p (config, od_len, out_len, (rest, out)) = ap (λ c. c.pd_in_len) config

module _ (L : Iolinki) (d : IsDocumented L) (send : List ℕ → ℕ → Line → ℤ × Line)
    (device : IsDevice L send) where
  pub ready-Exchanges :
      (p : Port Line)
      → IsReady L p
      → Exchanges L send waiting
          (ckt_type_bits p.config.m_seq_type)
          p.od_len
          (take p.pd_out_len p.pd_out)
          (0x5a ∷ [])
  unfolding IsReady
  ready-Exchanges p (config, od_len, out_len, (rest, out)) =
      subst
        (λ n.
          Exchanges L send waiting (ckt_type_bits p.config.m_seq_type) n
            (take p.pd_out_len p.pd_out) (0x5a ∷ []))
        (sym od_len)
        (device-Exchanges L d send device (ckt_type_bits p.config.m_seq_type)
          (take p.pd_out_len p.pd_out)
          (ap (λ n. length (take n p.pd_out)) out_len ∙ ap (λ xs. length (take 1 xs)) out))
