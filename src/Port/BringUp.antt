-- ===== src/Port/BringUp.antt =====
-- src/master_port.c brings a port up to OPERATE with a device that answers.
use iolinki_master.Base.{
  ℕ, zero, suc, ◌≤◌, ◌<◌, ◌≡◌, refl, ap, ◌∙◌, true, ◌==◌, bit_and, u8, Option, some, List, [], ◌∷◌,
  get_or, set, length, length-set, ℤ, pos, arith,
}
use iolinki_master.Iolinki.{Iolinki}
use iolinki_master.Types.State.{State, StartupStep, wake, await_response, await_operate_ack, Sys}
use iolinki_master.Port.Process.{process}
use iolinki_master.Port.Receive.{poll_rx, type0_reply_ok, ack_ok, expected_len}
use iolinki_master.Port.Device.{IsFraming, Responds, IsLinked}
use iolinki_master.Port.Layout.{two_set}
use iolinki_master.Port.Wake.{woken, woken-IsLinked, tested, tested-IsLinked}
use iolinki_master.Port.Operate.{operated, operated-IsLinked}
use iolinki_master.Port.Answers.{
  with_rx, answered, acknowledged, on_rx-answered, on_rx-acknowledged, poll_loop_took,
  poll_loop_empty, poll_rx_lem, receive_byte_more, receive_byte_frame,
}

-- What establishing communication does not change.
pub record IsKept {W : Type 0} (s t : Sys W) : Type 0 where
  pub config : t.port.config ≡ s.port.config
  pub od_len : t.port.od_len ≡ s.port.od_len
  pub pd_out : t.port.pd_out ≡ s.port.pd_out
  pub pd_out_len : t.port.pd_out_len ≡ s.port.pd_out_len
  pub pd_in : t.port.pd_in ≡ s.port.pd_in

module _ {W : Type 0} (L : Iolinki) (send : List ℕ → ℕ → W → ℤ × W) (recv : W → ℤ × ℕ × W)
    (waiting : W → Option (List ℕ)) (framing : IsFraming L)
    (responds : Responds L send recv waiting) where
  -- A reception that takes in one frame and leads to a state where nothing waits.
  abbrev pub IsPolled : ℕ → Sys W → State → StartupStep → Type 0
  IsPolled fuel s st at =
      (t : Sys W) × (poll_rx L fuel s ≡ some (pos 1, t))
      × IsLinked send recv waiting st at [] t
      × IsKept s t

  test-expected :
      (s : Sys W) {octets : List ℕ}
      → IsLinked send recv waiting State.startup await_response octets s
      → expected_len L s.port ≡ some 2
  unfolding expected_len
  test-expected s l = rw (l.state, l.step) (ap some framing.type0)

  ack-expected :
      (s : Sys W) {octets : List ℕ}
      → IsLinked send recv waiting State.preoperate await_operate_ack octets s
      → expected_len L s.port ≡ some 1
  unfolding expected_len
  ack-expected s l = rw (l.state, l.step) refl

  test-reply :
      (buf : List ℕ) (x y a b : ℕ)
      → 2 ≤ length buf
      → a ≡ x
      → b ≡ y
      → L.checksum6 (x ∷ u8 (bit_and y 0xc0) ∷ []) 2 ≡ u8 (bit_and y 0x3f)
      → type0_reply_ok L (set (set buf 0 a) 1 b) ≡ true
  unfolding type0_reply_ok
  test-reply buf x y a b h ea eb sealed =
      let same : (n : ℕ) → (n == n) ≡ true = λ n. ground arith in
      rw (two_set buf a b h, ea, eb, sealed) (same (u8 (bit_and y 0x3f)))

  ack-reply :
      (buf : List ℕ) (y b : ℕ)
      → 0 < length buf
      → b ≡ y
      → L.checksum6 (u8 (bit_and y 0xc0) ∷ []) 1 ≡ u8 (bit_and y 0x3f)
      → ack_ok L (set buf 0 b) ≡ true
  unfolding ack_ok
  ack-reply [] y b h eb sealed = absurd (omega arith)
  ack-reply (x ∷ buf) y b h eb sealed =
      let same : (n : ℕ) → (n == n) ≡ true = λ n. ground arith in
      rw (eb, sealed) (same (u8 (bit_and y 0x3f)))

  pub test-IsPolled :
      (fuel : ℕ) (s : Sys W) (x y : ℕ)
      → IsLinked send recv waiting State.startup await_response (x ∷ y ∷ []) s
      → L.checksum6 (x ∷ u8 (bit_and y 0xc0) ∷ []) 2 ≡ u8 (bit_and y 0x3f)
      → IsPolled (suc (suc (suc fuel))) s State.preoperate await_response
  test-IsPolled fuel s x y l sealed =
      let buf : List ℕ = s.port.rx.buf in
      let (one, ea, w1) = responds.takes s.world x (y ∷ []) l.waits in
      let a : ℕ = (recv s.world).1 in
      let t1 : Sys W = with_rx (record s { world = (recv s.world).2 }) (set buf 0 a) 1 in
      let (two, eb, w2) = responds.takes t1.world y [] w1 in
      let b : ℕ = (recv t1.world).1 in
      let frame : List ℕ = set (set buf 0 a) 1 b in
      let full : Sys W = with_rx (record t1 { world = (recv t1.world).2 }) frame 2 in
      let t2 : Sys W = with_rx (answered L full (get_or frame 0 0)) frame 0 in
      let (three, w3) = responds.rests t2.world w2 in
      let size : 2 ≤ length buf = omega (arith, l.rx_size) in
      let ok =
        on_rx-answered L full frame l.state l.step framing.type0
          (test-reply buf x y a b size ea eb sealed) in
      (
        record t2 { world = (recv t2.world).2 },
        poll_rx_lem L recv (suc (suc (suc fuel))) s l.phy 2 l.linked l.receives (test-expected s l)
            ∙ poll_loop_took L recv (suc (suc fuel)) s t1 2 0 0 one (
                receive_byte_more L (record s { world = (recv s.world).2 }) 2 0 a 0 l.rx_len
                  (omega arith) (omega arith))
            ∙ poll_loop_took L recv (suc fuel) t1 t2 2 0 1 two (
                receive_byte_frame L (record t1 { world = (recv t1.world).2 })
                  (answered L full (get_or frame 0 0)) 2 0 b 1 refl (omega arith) (omega arith) ok)
            ∙ poll_loop_empty L recv fuel t2 2 1 three,
        record {
          phy = l.phy;
          linked = l.linked;
          sends = l.sends;
          receives = l.receives;
          plain = l.plain;
          state = refl;
          step = l.step;
          waits = w3;
          rx_len = refl;
          rx_size = length-set (set buf 0 a) 1 b ∙ length-set buf 0 a ∙ l.rx_size;
          tx_size = l.tx_size;
          no_event = l.no_event;
          no_isdu = l.no_isdu;
          no_abort = l.no_abort;
          no_idle = l.no_idle;
        },
        record { config = refl; od_len = refl; pd_out = refl; pd_out_len = refl; pd_in = refl },
      )

  pub ack-IsPolled :
      (fuel : ℕ) (s : Sys W) (y : ℕ)
      → IsLinked send recv waiting State.preoperate await_operate_ack (y ∷ []) s
      → L.checksum6 (u8 (bit_and y 0xc0) ∷ []) 1 ≡ u8 (bit_and y 0x3f)
      → IsPolled (suc (suc fuel)) s State.operate await_operate_ack
  ack-IsPolled fuel s y l sealed =
      let buf : List ℕ = s.port.rx.buf in
      let (one, eb, w1) = responds.takes s.world y [] l.waits in
      let b : ℕ = (recv s.world).1 in
      let frame : List ℕ = set buf 0 b in
      let full : Sys W = with_rx (record s { world = (recv s.world).2 }) frame 1 in
      let t1 : Sys W = with_rx (acknowledged L full (get_or frame 0 0)) frame 0 in
      let (two, w2) = responds.rests t1.world w1 in
      let size : 0 < length buf = omega (arith, l.rx_size) in
      let ok = on_rx-acknowledged L full frame l.state l.step (ack-reply buf y b size eb sealed) in
      (
        record t1 { world = (recv t1.world).2 },
        poll_rx_lem L recv (suc (suc fuel)) s l.phy 1 l.linked l.receives (ack-expected s l)
            ∙ poll_loop_took L recv (suc fuel) s t1 1 0 1 one (
                receive_byte_frame L (record s { world = (recv s.world).2 })
                  (acknowledged L full (get_or frame 0 0)) 1 0 b 0 l.rx_len (omega arith)
                  (omega arith) ok)
            ∙ poll_loop_empty L recv fuel t1 1 1 two,
        record {
          phy = l.phy;
          linked = l.linked;
          sends = l.sends;
          receives = l.receives;
          plain = l.plain;
          state = refl;
          step = l.step;
          waits = w2;
          rx_len = refl;
          rx_size = length-set buf 0 b ∙ l.rx_size;
          tx_size = l.tx_size;
          no_event = l.no_event;
          no_isdu = l.no_isdu;
          no_abort = l.no_abort;
          no_idle = l.no_idle;
        },
        record { config = refl; od_len = refl; pd_out = refl; pd_out_len = refl; pd_in = refl },
      )

  -- A device that answers is brought up to OPERATE, where the library lays out its TYPE_0 frames
  -- as documented. A port that was just initialised, without an active service, on a line on which
  -- nothing waits, without callbacks around the line and without a validation of the device, sends
  -- the wake-up and the test message in two calls of `process`; the reception then takes in one
  -- frame and leads to PREOPERATE. One more call sends the DeviceOperate write, and the next
  -- reception takes in one frame and leads to OPERATE, with the configuration and the process data
  -- as they were. The receptions have fuel for more than two octets.
  pub poll_rx-process :
      (fuel : ℕ) (s : Sys W)
      → 3 ≤ fuel
      → IsLinked send recv waiting State.startup wake [] s
      → (t : Sys W) × (u : Sys W) × (poll_rx L fuel (process L (process L s)) ≡ some (pos 1, t))
        × (t.port.state ≡ State.preoperate)
        × (poll_rx L fuel (process L t) ≡ some (pos 1, u))
        × IsLinked send recv waiting State.operate await_operate_ack [] u
        × IsKept s u
  poll_rx-process zero s h l = absurd (omega arith)
  poll_rx-process (suc zero) s h l = absurd (omega arith)
  poll_rx-process (suc (suc zero)) s h l = absurd (omega arith)
  poll_rx-process (suc (suc (suc fuel))) s h l =
      let n : ℕ = suc (suc (suc fuel)) in
      let (e1, l1) = woken-IsLinked L framing responds s l in
      let s1 : Sys W = woken L send s in
      let (e2, octet, check, l2, sealed) = tested-IsLinked L framing responds s1 l1 in
      let s2 : Sys W = tested L send s1 in
      let (t, e3, l3, k3) = test-IsPolled fuel s2 octet check l2 sealed in
      let (e4, check', l4, sealed') = operated-IsLinked L framing responds t l3 in
      let s4 : Sys W = operated L send t in
      let (u, e5, l5, k5) = ack-IsPolled (suc fuel) s4 check' l4 sealed' in
      (
        t,
        u,
        ap (λ x. poll_rx L n (process L x)) e1 ∙ ap (λ x. poll_rx L n x) e2 ∙ e3,
        l3.state,
        ap (λ x. poll_rx L n x) e4 ∙ e5,
        l5,
        record {
          config = k5.config ∙ k3.config;
          od_len = k5.od_len ∙ k3.od_len;
          pd_out = k5.pd_out ∙ k3.pd_out;
          pd_out_len = k5.pd_out_len ∙ k3.pd_out_len;
          pd_in = k5.pd_in ∙ k3.pd_in;
        },
      )
