-- ===== src/Tests/Demo.antt =====
-- The programs of examples/ and samples/, and a port with a device that answers, over a library
-- instance that encodes and decodes.
use iolinki_master.Base.{
  ℕ, suc, ◌+◌, ◌≡◌, refl, ap, ◌∙◌, sym, not, ◌==◌, bit_and, List, [], ◌∷◌, ◌++◌, get_or, take, drop,
  some, pos, length, arith, length-drop, take_all,
}
use iolinki_master.Iolinki.{Iolinki, OperateResponse}
use iolinki_master.Types.Codes.{status_ok}
use iolinki_master.Types.State.{State, await_operate_ack, wake, Sys}
use iolinki_master.Types.Zero.{zero_port, zero_config}
use iolinki_master.Port.Process.{process}
use iolinki_master.Port.Receive.{poll_rx}
use iolinki_master.Port.Status.{get_pd_in}
use iolinki_master.Port.Device.{IsFraming, IsLinked}
use iolinki_master.Port.BringUp.{IsKept, poll_rx-process}
use iolinki_master.Port.Inputs.{get_pd_in-poll_rx}
use iolinki_master.Controller.{Controller}
use iolinki_master.Demo.Loopback.{Line, demo_phy_send, demo_phy_recv_byte, loopback_main}
use iolinki_master.Demo.Sample.{sample_main}
use iolinki_master.Demo.Ports.{Lines, zero_lines, ports_main}
use iolinki_master.Demo.Device.{IsDocumented, waiting}
use iolinki_master.Demo.Replies.{demo_phy_send-IsDevice, device-Responds}
use iolinki_master.Demo.Ready.{
  ready, IsReady, ready-IsLinked, ready-IsReady, kept-IsReady, ready-IsCyclic, ready-Exchanges,
  ready_pd_in,
}
use iolinki_master.Demo.Run.{loopback_main_lem, sample_main_lem}
use iolinki_master.Demo.Four.{ports_main_lem}
use iolinki_master.Tests.Instance.{wire}

-- What a reply says.
abbrev reply_of : List ℕ → ℕ → ℕ → OperateResponse
reply_of octets pd_len check = record {
  checksum_ok = 0x2d == bit_and check 0x3f;
  status = 0;
  event_pending = not (bit_and check 0x80 == 0);
  pd_valid = bit_and check 0x40 == 0;
  pd = octets;
  pd_len = pd_len;
  od = [];
  od_len = 0;
}

-- A checksum that every message has, and frames laid out as the library's.
abbrev framing : Iolinki
framing = record wire {
  checksum6 = λ octets len. 0x2d;
  frame_encode_type0 = λ mc buf size. (pos 2, mc ∷ 0x2d ∷ drop 2 buf);
  frame_encode_type0_write = λ mc od buf size. (pos 3, mc ∷ 0x2d ∷ od ∷ drop 3 buf);
  frame_decode_operate_response = λ frame len pd_len od_len.
      (pos 0, reply_of (take pd_len frame) pd_len (get_or frame pd_len 0));
}

taken_split :
    (frame pd : List ℕ) (check : ℕ)
    → take (suc (length pd)) frame ≡ pd ++ check ∷ []
    → (take (length pd) frame ≡ pd) × (get_or frame (length pd) 0 ≡ check)
taken_split [] [] check h = absurd (omega (arith, ap length h))
taken_split [] (y ∷ pd) check h = absurd (omega (arith, ap length h))
taken_split (x ∷ frame) [] check h = (refl, ap (λ xs. get_or xs 0 0) h)
taken_split (x ∷ frame) (y ∷ pd) check h =
    let (front, last) = taken_split frame pd check (ap (drop 1) h) in
    let first : x ≡ y = ap (λ xs. get_or xs 0 0) h in
    (ap (λ z. z ∷ take (length pd) frame) first ∙ ap (λ xs. y ∷ xs) front, last)

framing-IsFraming : IsFraming framing
framing-IsFraming = record {
  mc = record { rw = refl; channel = refl; address = refl };
  type0 = refl;
  read_len = λ mc buf size. refl;
  read_mc = λ mc buf size h. refl;
  read_size = λ mc buf size h. omega (arith, h, length-drop 2 buf);
  write_len = λ mc od buf size. refl;
  write_mc = λ mc od buf size h. refl;
  write_od = λ mc od buf size h. refl;
  write_size = λ mc od buf size h. omega (arith, h, length-drop 3 buf);
}

framing-IsDocumented : IsDocumented framing
framing-IsDocumented = record {
  framing = framing-IsFraming;
  header = refl;
  min_len = refl;
  local = λ xs n. refl;
  six_bits = λ xs n. omega arith;
  of_zero = refl;
  decoded = λ pd check. reply_of pd (length pd) check;
  decodes = λ frame pd check h.
      let one_more : length pd + 1 ≡ suc (length pd) = omega arith in
      let (front, last) = taken_split frame pd check (ap (λ n. take n frame) (sym one_more) ∙ h) in
      rw (front, last) refl;
  checked = λ pd check. refl;
  event_bit = λ pd check. refl;
  valid_bit = λ pd check. refl;
  pd_len = λ pd check. refl;
  pd = λ pd check. take_all pd (length pd) (omega arith);
}

abbrev line : Sys Line
unfolding zero_port zero_config
line = record {
  port = zero_port framing zero_config;
  world = record { rx_queue = []; rx_len = 0; rx_pos = 0; baudrate = 0; mode = 0 };
}

loopback_main_lem_example : loopback_main framing 5 line ≡ some 0
loopback_main_lem_example =
    loopback_main_lem framing framing-IsDocumented (omega arith) (omega arith) 5 line (omega arith)

sample_main_lem_example : sample_main framing 5 line ≡ some (pos 0)
sample_main_lem_example =
    sample_main_lem framing framing-IsDocumented (omega arith) (omega arith) 5 line (omega arith)

-- The port of the program before its first message, and in OPERATE.
abbrev started : Sys Line
started = ready framing (demo_phy_send framing) line

abbrev operating : Sys Line
operating = record started {
  port = record (started.port) {
    state = State.operate;
    startup = record (started.port.startup) { step = await_operate_ack };
  };
}

started-IsLinked :
    IsLinked (demo_phy_send framing) demo_phy_recv_byte waiting State.startup wake [] started
started-IsLinked = ready-IsLinked framing (demo_phy_send framing) line

operating-IsLinked :
    IsLinked
      (demo_phy_send framing)
      demo_phy_recv_byte
      waiting
      State.operate
      await_operate_ack
      []
      operating
operating-IsLinked =
    let l = started-IsLinked in
    record {
      phy = l.phy;
      linked = l.linked;
      sends = l.sends;
      receives = l.receives;
      plain = l.plain;
      state = refl;
      step = refl;
      waits = l.waits;
      rx_len = l.rx_len;
      rx_size = l.rx_size;
      tx_size = l.tx_size;
      no_event = l.no_event;
      no_isdu = l.no_isdu;
      no_abort = l.no_abort;
      no_idle = l.no_idle;
    }

poll_rx-process_example :
    (t : Sys Line) × (u : Sys Line) × (poll_rx framing 3 (process framing (process framing started))
      ≡ some (pos 1, t))
    × (t.port.state ≡ State.preoperate)
    × (poll_rx framing 3 (process framing t) ≡ some (pos 1, u))
    × IsLinked
        (demo_phy_send framing)
        demo_phy_recv_byte
        waiting
        State.operate
        await_operate_ack
        []
        u
    × IsKept started u
poll_rx-process_example =
    poll_rx-process framing (demo_phy_send framing) demo_phy_recv_byte waiting framing-IsFraming
      (device-Responds framing framing-IsDocumented (demo_phy_send framing)
        (demo_phy_send-IsDevice framing framing-IsDocumented))
      3 started (omega arith) started-IsLinked

operating-IsReady : IsReady framing operating.port
operating-IsReady =
    kept-IsReady framing started operating (ready-IsReady framing (demo_phy_send framing) line)
      (record { config = refl; od_len = refl; pd_out = refl; pd_out_len = refl; pd_in = refl })

get_pd_in-poll_rx_example :
    (t : Sys Line) × (poll_rx framing 3 (process framing operating) ≡ some (pos 1, t))
    × IsLinked
        (demo_phy_send framing)
        demo_phy_recv_byte
        waiting
        State.operate
        await_operate_ack
        []
        t
    × (get_pd_in t.port 4 ≡ (status_ok, 0x5a ∷ [], 1))
    × (t.port.config ≡ operating.port.config)
    × (t.port.pd_out ≡ operating.port.pd_out)
get_pd_in-poll_rx_example =
    get_pd_in-poll_rx framing (demo_phy_send framing) demo_phy_recv_byte waiting framing-IsFraming
      (device-Responds framing framing-IsDocumented (demo_phy_send framing)
        (demo_phy_send-IsDevice framing framing-IsDocumented))
      refl (λ xs n. refl) 3 4 operating operating-IsLinked
      (ready-IsCyclic framing operating.port operating-IsReady)
      (ready-Exchanges framing framing-IsDocumented (demo_phy_send framing)
        (demo_phy_send-IsDevice framing framing-IsDocumented) operating.port operating-IsReady)
      (ready_pd_in framing operating.port operating-IsReady) (omega arith) (omega arith)

abbrev no_ports : Controller Lines
no_ports = record { ports = []; port_count = 0; world = zero_lines }

ports_main_lem_example : ports_main framing 1 no_ports ≡ some 0
ports_main_lem_example = ports_main_lem framing 1 no_ports
