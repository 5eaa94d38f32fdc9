-- ===== src/Isdu/Bounds.antt =====
-- The response side of the segmented transport of src/master_isdu.c stays inside its buffer.
use iolinki_master.Base.{
  ℕ, ◌+◌, ◌%◌, ◌≤◌, ◌<◌, ◌≡◌, Bool, true, false, ◌⊎◌, inl, inr, arith, bit_and, u8, u16, List, [],
  ◌∷◌, get_or, set, take, length-set,
}
use iolinki_master.Iolinki.{Iolinki}
use iolinki_master.Bytes.{Octets-take, get_or-set, and_nibble, Octets}
use iolinki_master.Types.State.{phase_none, request, wait, response, Isdu}
use iolinki_master.Isdu.Transport.{
  isdu_decode_response, decode_negative, decode_positive, segmentation_failed, response_begins,
  response_complete, response_length, store_octet, on_od_octet, on_od_loop, isdu_on_od,
}
use iolinki_master.Isdu.Inside.{IsBounded, first, IsPartial, complete-IsBounded, short-IsBounded}

module _ (L : Iolinki) (size : L.isdu_buffer_size < 65536) where
  -- What a round leaves: bounded, and either a partial response and the loop goes on, or the
  -- transfer is over and the loop ends.
  abbrev IsRound : Bool × Isdu → Type 0
  IsRound (more, s) =
      IsBounded L s × (((more ≡ true) × IsPartial s) ⊎ ((more ≡ false) × (s.phase ≡ phase_none)))

  decode-phase : (s : Isdu) → (isdu_decode_response L s).phase ≡ phase_none
  unfolding isdu_decode_response decode_negative decode_positive
  decode-phase s = ground arith

  complete-IsRound :
      (s : Isdu)
      → IsBounded L s
      → s.phase ≡ response
      → (2 ≤ first s) × (first s < 256)
      → 1 ≤ s.response_len
      → 2 ≤ s.expected_len
      → ((first s % 16 ≡ 1) → 3 ≤ s.expected_len)
      → IsRound (response_complete L s)
  unfolding response_complete
  complete-IsRound s b p f l e e' =
      ground (arith, b.size, b.len, decode-phase s, complete-IsBounded L size s b f)

  first-IsRound :
      (s : Isdu)
      → IsBounded L s
      → s.phase ≡ response
      → (2 ≤ first s) × (first s < 256)
      → s.expected_len ≡ 0
      → s.response_len ≡ 1
      → IsRound (response_length L s)
  unfolding response_length segmentation_failed
  first-IsRound s b p f e l =
      let k : Isdu = record s { expected_len = u8 (bit_and (first s) 0x0f) } in
      ground (
        arith,
        b.size,
        b.len,
        and_nibble (first s) f.1,
        (λ (h : IsBounded L k) (h' : 2 ≤ k.expected_len)
              (h'' : (first s % 16 ≡ 1) → 3 ≤ k.expected_len).
            complete-IsRound k h p f (omega (arith, l)) h' h''),
      )

  second-IsRound :
      (s : Isdu)
      → IsBounded L s
      → s.phase ≡ response
      → (2 ≤ first s) × (first s < 256)
      → first s % 16 ≡ 1
      → s.expected_len ≡ 0
      → s.response_len ≡ 2
      → get_or s.response 1 0 < 256
      → IsRound (response_length L s)
  unfolding response_length response_complete
  second-IsRound s b p f n e l o =
      let k : Isdu = record s { expected_len = get_or s.response 1 0 } in
      ground
        (arith, b.size, b.len, and_nibble (first s) f.1, decode-phase k, short-IsBounded L size k)

  -- The octet stored, before the length is looked at.
  abbrev stored : Isdu → ℕ → Isdu
  stored s byte = record s {
    response = set s.response s.response_len byte;
    response_len = u16 (s.response_len + 1);
  }

  store-IsRound :
      (s : Isdu) (byte : ℕ)
      → IsBounded L s
      → IsPartial s
      → byte < 256
      → IsRound (store_octet L s byte)
  unfolding store_octet segmentation_failed
  store-IsRound s byte b i o =
      let k : Isdu = stored s byte in
      ground (
        arith,
        b.size,
        b.len,
        i.phase,
        i.octet,
        i.some_octets,
        i.length_known,
        length-set s.response s.response_len byte,
        get_or-set s.response s.response_len 0 byte 0,
        get_or-set s.response s.response_len 1 byte 0,
        second-IsRound k,
        complete-IsRound k,
      )

  begin-IsRound :
      (s : Isdu) (byte : ℕ)
      → IsBounded L s
      → 2 ≤ byte
      → byte < 256
      → IsRound (store_octet L (response_begins L s) byte)
  unfolding store_octet segmentation_failed response_begins
  begin-IsRound s byte b h o =
      let k : Isdu = stored (response_begins L s) byte in
      ground (
        arith,
        b.size,
        b.len,
        length-set s.response 0 byte,
        get_or-set s.response 0 0 byte 0,
        first-IsRound k,
      )

  -- Waiting, or inside a response.
  abbrev IsOpen : Isdu → Type 0
  IsOpen s = (s.phase ≡ wait) ⊎ IsPartial s

  octet-IsRound :
      (s : Isdu) (byte : ℕ)
      → IsBounded L s
      → IsOpen s
      → byte < 256
      → IsBounded L (on_od_octet L s byte).1
        × ((((on_od_octet L s byte).0 ≡ true) × IsOpen (on_od_octet L s byte).1)
            ⊎ (((on_od_octet L s byte).0 ≡ false) × ((on_od_octet L s byte).1.phase ≡ phase_none)))
  unfolding on_od_octet
  octet-IsRound s byte b (inl w) o = ground (arith, begin-IsRound s byte b)
  octet-IsRound s byte b (inr i) o = ground (arith, i.phase, store-IsRound s byte b i o)

  loop-IsBounded :
      (od : List ℕ) (s : Isdu)
      → Octets od
      → IsBounded L s
      → IsOpen s
      → IsBounded L (on_od_loop L s od)
        × (IsOpen (on_od_loop L s od) ⊎ ((on_od_loop L s od).phase ≡ phase_none))
  unfolding on_od_loop
  loop-IsBounded [] s os b i = (b, inl i)
  loop-IsBounded (x ∷ od) s os b i =
      let k : Isdu = (on_od_octet L s x).1 in
      ground (arith, octet-IsRound s x b i os.0, loop-IsBounded od k os.1)

  -- The invariant of the receiving side: the response is inside its buffer, and while it comes in
  -- it is a partial one.
  abbrev pub IsSound : Isdu → Type 0
  IsSound s = IsBounded L s × (IsOpen s ⊎ (s.phase ≡ phase_none) ⊎ (s.phase ≡ request))

  -- Whatever octets a device sends, on a buffer of less than 2 ^ 16 octets: a response that is
  -- inside its buffer, and partial if it is coming in, stays so, also after the move that takes off
  -- its header and its check octet.
  pub isdu_on_od-IsSound :
      (s : Isdu) (od : List ℕ) (od_len : ℕ)
      → Octets od
      → IsSound s
      → IsSound (isdu_on_od L s od od_len)
  unfolding isdu_on_od
  isdu_on_od-IsSound s od od_len o (b, inl i) =
      ground (arith, b, loop-IsBounded (take od_len od) s (Octets-take od_len od o) b i)
  isdu_on_od-IsSound s od od_len o (b, inr i) = ground (arith, b, i)
