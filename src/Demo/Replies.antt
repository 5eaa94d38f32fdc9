-- ===== src/Demo/Replies.antt =====
-- The answers of the simulated devices of examples/master_loopback_demo.c and
-- samples/iolink_master/src/main.c, and what the master relies on of them.
use iolinki_master.Base.{
  ℕ, ◌+◌, ◌<◌, ◌≡◌, refl, ap, ◌∙◌, sym, true, not, ◌==◌, bit_and, bit_or, u8, some, List, [], ◌∷◌,
  ◌++◌, get_or, set, replicate, length, ℤ, pos, arith,
}
use iolinki_master.Iolinki.{Iolinki}
use iolinki_master.Port.Device.{Responds}
use iolinki_master.Port.Layout.{message}
use iolinki_master.Port.Exchange.{Exchanges}
use iolinki_master.Port.Cycle.{first_of}
use iolinki_master.Demo.Loopback.{Line, queue_bytes, demo_phy_recv_byte, answer, demo_phy_send}
use iolinki_master.Demo.Sample.{sample_phy_send}
use iolinki_master.Demo.Device.{
  IsDocumented, six_bits_lem, waiting, recv_takes, recv_rests, queue_one, queue_two,
}

abbrev zeros : List ℕ
zeros = replicate 8 0

-- What both devices do with the messages of the programs.
pub record IsDevice (L : Iolinki) (send : List ℕ → ℕ → Line → ℤ × Line) : Type 0 where
  pub wakes : (tx : List ℕ) (l : Line) → get_or tx 0 0 ≡ 0x55 → send tx 1 l ≡ (pos 1, l)
  pub tests :
      (tx : List ℕ) (l : Line)
      → get_or tx 0 0 ≡ 0xa2
      → send tx 2 l ≡ (pos 2, queue_bytes (answer L (set zeros 0 0x00) 1) 2 l)
  pub operates :
      (tx : List ℕ) (l : Line)
      → get_or tx 0 0 ≡ 0x20
      → get_or tx 2 0 ≡ L.cmd_device_operate
      → send tx 3 l ≡ (pos 3, queue_bytes (set zeros 0 0x2d) 1 l)
  pub cycles :
      (tx : List ℕ) (l : Line)
      → get_or tx 0 0 ≡ 0x00
      → send tx 4 l ≡ (pos 4, queue_bytes (answer L (set zeros 0 0x5a) 1) 2 l)

module _ (L : Iolinki) (d : IsDocumented L) where
  same : (n : ℕ) → (n == n) ≡ true
  same n = ground arith

  pub demo_phy_send-IsDevice : IsDevice L (demo_phy_send L)
  unfolding demo_phy_send
  demo_phy_send-IsDevice = record {
    wakes = λ tx l h. rw (h) refl;
    tests = λ tx l h. rw (h, d.framing.type0, d.framing.mc.rw, d.framing.mc.channel) refl;
    operates =
        λ tx l h c. rw (d.framing.type0, d.min_len, d.header, h, c, same L.cmd_device_operate) refl;
    cycles = λ tx l h. rw (d.framing.type0, d.min_len) refl;
  }

  pub sample_phy_send-IsDevice : IsDevice L (sample_phy_send L)
  unfolding sample_phy_send
  sample_phy_send-IsDevice = record {
    wakes = λ tx l h. rw (h) refl;
    tests = λ tx l h. rw (h, d.framing.type0, d.framing.mc.rw, d.framing.mc.channel) refl;
    operates =
        λ tx l h c. rw (d.framing.type0, d.min_len, d.header, h, c, same L.cmd_device_operate) refl;
    cycles = λ tx l h. rw (h, d.framing.type0, d.min_len, d.framing.mc.rw) refl;
  }

  -- The check octet that a device sends with an octet is the one that the master computes.
  check_of : ℕ → ℕ
  check_of x = u8 (L.checksum6 (set zeros 0 x) 2)

  check_sealed : (x : ℕ) → (check_of x < 64) × (L.checksum6 (x ∷ 0 ∷ []) 2 ≡ check_of x)
  unfolding check_of
  check_sealed x =
      let six = d.six_bits (set zeros 0 x) 2 in
      let kept : u8 (L.checksum6 (set zeros 0 x) 2) ≡ L.checksum6 (set zeros 0 x) 2 =
        omega (arith, six) in
      (
        omega (arith, six, kept),
        d.local (x ∷ 0 ∷ []) 2 ∙ sym (d.local (set zeros 0 x) 2) ∙ sym kept,
      )

  sealed_lem :
      (c : ℕ) (xs : List ℕ) (n : ℕ)
      → c < 64
      → L.checksum6 (xs ++ 0 ∷ []) n ≡ c
      → L.checksum6 (xs ++ u8 (bit_and c 0xc0) ∷ []) n ≡ u8 (bit_and c 0x3f)
  sealed_lem c xs n small e =
      let (no_flag, all_six, no_event, no_invalid) = six_bits_lem c small in
      let kept : u8 c ≡ c = omega (arith, small) in rw (no_flag, all_six, e) (sym kept)

  answered_lem :
      (x : ℕ) (l : Line)
      → waiting (queue_bytes (answer L (set zeros 0 x) 1) 2 l) ≡ some (x ∷ check_of x ∷ [])
  unfolding answer check_of
  answered_lem x l = queue_two x (u8 (L.checksum6 (set zeros 0 x) 2)) (replicate 6 0) l

  module _ (send : List ℕ → ℕ → Line → ℤ × Line) (device : IsDevice L send) where
    pub device-Responds : Responds L send demo_phy_recv_byte waiting
    device-Responds = record {
      takes = recv_takes;
      rests = recv_rests;
      wakes = λ tx w h quiet.
          let e = device.wakes tx w h in (ap (λ r. r.0) e, ap (λ r. waiting r.1) e ∙ quiet);
      tests = λ tx w h quiet.
          let e = device.tests tx w h in
          let (small, sealed) = check_sealed 0 in
          (
            ap (λ r. r.0) e,
            0,
            check_of 0,
            ap (λ r. waiting r.1) e ∙ answered_lem 0 w,
            sealed_lem (check_of 0) (0 ∷ []) 2 small sealed,
          );
      operates = λ tx w h c quiet.
          let e = device.operates tx w h c in
          (
            ap (λ r. r.0) e,
            0x2d,
            ap (λ r. waiting r.1) e ∙ queue_one 0x2d (replicate 7 0) w,
            d.of_zero,
          );
    }

    four :
        (tx : List ℕ) (n : ℕ) (l : Line)
        → n ≡ 4
        → get_or tx 0 0 ≡ 0
        → send tx n l ≡ (pos n, queue_bytes (answer L (set zeros 0 0x5a) 1) 2 l)
    four tx n l e h =
        ap (λ k. send tx k l) e
        ∙ device.cycles tx l h
        ∙ ap (λ k. (pos k, queue_bytes (answer L (set zeros 0 0x5a) 1) 2 l)) (sym e)

    pub device-Exchanges :
        (type : ℕ) (outputs : List ℕ)
        → length outputs ≡ 1
        → Exchanges L send waiting type 1 outputs (0x5a ∷ [])
    unfolding message
    device-Exchanges type outputs one =
        let (small, sealed) = check_sealed 0x5a in
        let check : ℕ = check_of 0x5a in
        let (no_flag, all_six, no_event, no_invalid) = six_bits_lem check small in
        let is_zero : (n : ℕ) → n ≡ 0 → (n == 0) ≡ true = λ n h. ground (arith, h) in
        record {
          check = check;
          response = d.decoded (0x5a ∷ []) check;
          answers = λ tx n w count out quiet.
              let first : get_or tx 0 0 ≡ 0 =
                first_of tx
                  (u8 (
                      bit_or type (
                        L.checksum6 (0 ∷ type ∷ (outputs ++ 0 ∷ []))
                          (2 + length (outputs ++ 0 ∷ []))))
                    ∷ (outputs ++ 0 ∷ []))
                  n 3 0 (omega (arith, count, one)) out in
              let e = four tx n w (omega (arith, count, one)) first in
              (ap (λ r. r.0) e, ap (λ r. waiting r.1) e ∙ answered_lem 0x5a w);
          decodes = λ frame whole. d.decodes frame (0x5a ∷ []) check whole;
          sealed = d.checked (0x5a ∷ []) check ∙ rw (no_flag, all_six, sealed) (same check);
          valid = d.valid_bit (0x5a ∷ []) check ∙ is_zero (bit_and check 0x40) no_invalid;
          pd_len = d.pd_len (0x5a ∷ []) check;
          pd = d.pd (0x5a ∷ []) check;
          calm = d.event_bit (0x5a ∷ []) check ∙ ap not (is_zero (bit_and check 0x80) no_event);
        }
