-- ===== src/Demo/Loopback.antt =====
-- examples/master_loopback_demo.c: one port and a simulated device on its line.
use iolinki_master.Base.{
  ℕ, ◌+◌, false, not, ◌&&◌, ◌||◌, if◌then◌else◌, ◌==◌, leb, bit_and, u8, Option, none, some, List,
  [], ◌∷◌, get_or, set, take, replicate, ℤ, pos, negsuc, eq_ℤ,
}
use iolinki_master.Iolinki.{Iolinki}
use iolinki_master.Types.Codes.{m_seq_type_2_1, port_mode_iolink}
use iolinki_master.Types.Config.{Phy, Config}
use iolinki_master.Types.Zero.{zero_config}
use iolinki_master.Types.State.{is_preoperate, is_operate, Sys}
use iolinki_master.Isdu.Service.{copy_at}
use iolinki_master.Port.Init.{init}
use iolinki_master.Port.Process.{process}
use iolinki_master.Port.Receive.{poll_rx}
use iolinki_master.Port.Status.{get_state, get_pd_in, set_pd_out}

-- The variables of the program: the octets that the simulated device has sent, and what the master
-- has set on the line.
pub record Line : Type 0 where
  pub rx_queue : List ℕ
  pub rx_len : ℕ
  pub rx_pos : ℕ
  pub baudrate : ℕ
  pub mode : ℕ

unfoldable pub queue_bytes : List ℕ → ℕ → Line → Line
queue_bytes octets len l = record l {
  rx_queue = copy_at l.rx_queue 0 (take len octets);
  rx_len = len;
  rx_pos = 0;
}

unfoldable pub demo_phy_set_mode : ℕ → Line → Line
demo_phy_set_mode mode l = record l { mode = mode }

unfoldable pub demo_phy_set_baudrate : ℕ → Line → Line
demo_phy_set_baudrate baudrate l = record l { baudrate = baudrate }

-- The result, `*byte` and the line. The pointer is never NULL here.
unfoldable pub demo_phy_recv_byte : Line → ℤ × ℕ × Line
demo_phy_recv_byte l =
    if leb l.rx_len l.rx_pos
    then (pos 0, 0, l)
    else (pos 1, get_or l.rx_queue l.rx_pos 0, record l { rx_pos = u8 (l.rx_pos + 1) })

module _ (L : Iolinki) where
  unfoldable pub demo_phy_init : Line → ℤ × Line
  demo_phy_init l = (
    pos 0,
    record l { rx_len = 0; rx_pos = 0; baudrate = L.baudrate_com3; mode = L.phy_mode_inactive },
  )

  -- The first octets of `response[8]`, and their checksum behind them.
  unfoldable pub answer : List ℕ → ℕ → List ℕ
  answer response n = set response n (u8 (L.checksum6 response (n + 1)))

  -- The simulated device: the wake-up, the test message, the DeviceOperate write, and a cyclic
  -- message of four octets.
  unfoldable pub demo_phy_send : List ℕ → ℕ → Line → ℤ × Line
  demo_phy_send octets len l =
      let first = get_or octets 0 0 in
      let response = replicate 8 0 in
      if len == 0
      then (negsuc 0, l)
      else if (len == 1) && (first == 0x55)
      then (pos len, l)
      else if (len == L.m_seq_type0_len)
          && not (bit_and first L.mc_rw_mask == 0)
          && (bit_and first L.mc_comm_channel_mask == 0x20)
      then (pos len, queue_bytes (answer (set response 0 0x00) 1) 2 l)
      else if (len == L.m_seq_min_len)
          && (first == 0x20)
          && (get_or octets L.m_seq_header_len 0 == L.cmd_device_operate)
      then (pos len, queue_bytes (set response 0 0x2d) 1 l)
      else if len == 4
      then (pos len, queue_bytes (answer (set response 0 0x5a) 1) 2 l)
      else (negsuc 0, l)

  unfoldable pub demo_phy : Phy Line
  demo_phy = record {
    init = some demo_phy_init;
    set_mode = some demo_phy_set_mode;
    set_baudrate = some demo_phy_set_baudrate;
    send = some demo_phy_send;
    recv_byte = some demo_phy_recv_byte;
    set_cq_line = none;
    get_voltage_mv = none;
    is_short_circuit = none;
  }

  unfoldable pub demo_config : Config Line
  demo_config = record zero_config {
    port_mode = port_mode_iolink;
    m_seq_type = m_seq_type_2_1;
    baudrate = L.baudrate_com3;
    min_cycle_time = 20;
    pd_in_len = 1;
    pd_out_len = 1;
    auto_baudrate = false;
  }

  -- A reception of the program: it goes on if one frame came in, and exits with the code otherwise.
  -- An empty option is a reception that ran out of fuel.
  unfoldable pub poll_one : ℕ → Sys Line → ℕ → (Sys Line → Option ℕ) → Option ℕ
  poll_one fuel s code next = elim (poll_rx L fuel s) [
    | none ↦ none
    | some (frames, t) ↦ if not (eq_ℤ frames (pos 1)) then some code else next t
  ]

  -- The end of `main`: what the cyclic exchange has left. The call of `get_od_status`, whose error is
  -- that of a NULL argument, succeeds.
  unfoldable pub check_exchange : Sys Line → Option ℕ
  check_exchange s =
      let (ret, pd_in, pd_in_len) = get_pd_in s.port 1 in
      if not (eq_ℤ ret (pos 0))
      then some 8
      else if not (pd_in_len == 1) || not (get_or pd_in 0 0 == 0x5a)
      then some 9
      else some 0

  unfoldable pub run_operate : ℕ → Sys Line → Option ℕ
  run_operate fuel s =
      if not (is_operate (get_state s.port))
      then some 6
      else poll_one fuel (process L s) 7 check_exchange

  unfoldable pub run_preoperate : ℕ → Sys Line → Option ℕ
  run_preoperate fuel s =
      if not (is_preoperate (get_state s.port))
      then some 5
      else poll_one fuel (process L s) 6 (run_operate fuel)

  -- `main` of the program over the port and the line `s`: its exit code.
  unfoldable pub loopback_main : ℕ → Sys Line → Option ℕ
  loopback_main fuel s =
      let (ret, s1) = init L s demo_phy demo_config in
      let (set_ret, p) = set_pd_out L s1.port (some (0x11 ∷ [])) 1 in
      let s2 = record s1 { port = p } in
      if not (eq_ℤ ret (pos 0))
      then some 1
      else if not (s1.world.mode == L.phy_mode_sdci) || not (s1.world.baudrate == L.baudrate_com3)
      then some 2
      else if not (eq_ℤ set_ret (pos 0))
      then some 3
      else poll_one fuel (process L (process L s2)) 4 (run_preoperate fuel)
