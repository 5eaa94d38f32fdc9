-- ===== src/Demo/Sample.antt =====
-- samples/iolink_master/src/main.c: the same port and line as in examples/master_loopback_demo.c,
-- whose functions with the same text are used here; the device also answers cyclic reads.
use iolinki_master.Base.{
  ℕ, not, ◌&&◌, ◌||◌, if◌then◌else◌, ◌==◌, bit_and, Option, none, some, List, [], ◌∷◌, get_or, set,
  replicate, ℤ, pos, negsuc, eq_ℤ,
}
use iolinki_master.Iolinki.{Iolinki}
use iolinki_master.Types.Config.{Phy}
use iolinki_master.Types.State.{is_preoperate, is_operate, Sys}
use iolinki_master.Port.Init.{init}
use iolinki_master.Port.Process.{process}
use iolinki_master.Port.Receive.{poll_rx}
use iolinki_master.Port.Status.{get_state, get_pd_in, set_pd_out}
use iolinki_master.Demo.Loopback.{Line, queue_bytes, answer, demo_phy, demo_config}

module _ (L : Iolinki) where
  -- The simulated device.
  unfoldable pub sample_phy_send : List ℕ → ℕ → Line → ℤ × Line
  sample_phy_send octets len l =
      let first = get_or octets 0 0 in
      let response = replicate 8 0 in
      if len == 0
      then (negsuc 0, l)
      else if (len == 1) && (first == 0x55)
      then (pos len, l)
      else if (len == L.m_seq_type0_len)
          && not (bit_and first L.mc_rw_mask == 0)
          && (bit_and first L.mc_comm_channel_mask == 0x20)
      then (pos len, queue_bytes (answer L (set response 0 0x00) 1) 2 l)
      else if (len == L.m_seq_min_len)
          && (first == 0x20)
          && (get_or octets L.m_seq_header_len 0 == L.cmd_device_operate)
      then (pos len, queue_bytes (set response 0 0x2d) 1 l)
      else if len == 4
      then (
        pos len,
        if not (bit_and first L.mc_rw_mask == 0)
            then queue_bytes (answer L (set (set response 0 0x00) 1 0x5a) 2) 3 l
            else queue_bytes (answer L (set response 0 0x5a) 1) 2 l,
      )
      else (negsuc 0, l)

  unfoldable pub sample_phy : Phy Line
  sample_phy = record (demo_phy L) { send = some sample_phy_send }

  -- A reception of the program, which does not look at its result; an empty option is a reception
  -- that ran out of fuel.
  unfoldable pub poll_then : ℕ → Sys Line → (Sys Line → Option ℤ) → Option ℤ
  poll_then fuel s next = elim (poll_rx L fuel s) [ none ↦ none | some (frames, t) ↦ next t ]

  unfoldable pub sample_exchanged : Sys Line → Option ℤ
  sample_exchanged s =
      let (ret, pd_in, pd_in_len) = get_pd_in s.port 1 in
      if not (eq_ℤ ret (pos 0)) then some (negsuc 0) else some (pos 0)

  unfoldable pub sample_operate : ℕ → Sys Line → Option ℤ
  sample_operate fuel s =
      if not (is_operate (get_state s.port))
      then some (negsuc 0)
      else poll_then fuel (process L s) sample_exchanged

  unfoldable pub sample_preoperate : ℕ → Sys Line → Option ℤ
  sample_preoperate fuel s =
      if not (is_preoperate (get_state s.port))
      then some (negsuc 0)
      else poll_then fuel (process L s) (sample_operate fuel)

  -- `main` of the sample over the port and the line `s`: its result.
  unfoldable pub sample_main : ℕ → Sys Line → Option ℤ
  sample_main fuel s =
      let (ret, s1) = init L s sample_phy (demo_config L) in
      let (set_ret, p) = set_pd_out L s1.port (some (0x11 ∷ [])) 1 in
      let s2 = record s1 { port = p } in
      if not (eq_ℤ ret (pos 0))
      then some (negsuc 0)
      else if not (s1.world.mode == L.phy_mode_sdci) || not (s1.world.baudrate == L.baudrate_com3)
      then some (negsuc 0)
      else if not (eq_ℤ set_ret (pos 0))
      then some (negsuc 0)
      else poll_then fuel (process L (process L s2)) (sample_preoperate fuel)
