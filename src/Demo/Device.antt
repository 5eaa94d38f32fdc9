-- ===== src/Demo/Device.antt =====
-- The simulated devices of examples/master_loopback_demo.c and samples/iolink_master/src/main.c as
-- devices that answer, over a library whose checksums are those of its documentation.
use mathlib.Core.Option.{some-injective, none-ne-some}
use iolinki_master.Base.{
  ℕ, zero, suc, ◌+◌, ◌-◌, ◌≤◌, ◌<◌, ◌≡◌, refl, ap, ◌∙◌, Bool, true, false, not, ◌&&◌, ◌==◌, leb,
  bit_and, u8, Option, none, some, List, [], ◌∷◌, ◌++◌, get_or, take, drop, length, pos, arith,
  if◌then◌else◌,
}
use iolinki_master.Bytes.{all_below, all_below_sound}
use iolinki_master.Iolinki.{Iolinki, OperateResponse}
use iolinki_master.Isdu.Service.{copy_at}
use iolinki_master.Port.Device.{IsFraming}
use iolinki_master.Demo.Loopback.{Line, queue_bytes, demo_phy_recv_byte}

-- The library as it is documented: its frames, a checksum of six bits that reads only the octets it
-- is given, and the decoding of a reply of process data and CKS.
pub record IsDocumented (L : Iolinki) : Type 0 where
  pub framing : IsFraming L
  pub header : L.m_seq_header_len ≡ 2
  pub min_len : L.m_seq_min_len ≡ 3
  pub local : (xs : List ℕ) (n : ℕ) → L.checksum6 xs n ≡ L.checksum6 (take n xs) n
  pub six_bits : (xs : List ℕ) (n : ℕ) → L.checksum6 xs n < 64
  pub of_zero : L.checksum6 (0 ∷ []) 1 ≡ 0x2d
  pub decoded : List ℕ → ℕ → OperateResponse
  pub decodes :
      (frame pd : List ℕ) (check : ℕ)
      → take (length pd + 1) frame ≡ pd ++ check ∷ []
      → L.frame_decode_operate_response frame (length pd + 1) (length pd) 0
        ≡ (pos 0, decoded pd check)
  pub checked :
      (pd : List ℕ) (check : ℕ)
      → (decoded pd check).checksum_ok
        ≡ (L.checksum6 (pd ++ bit_and check 0xc0 ∷ []) (length pd + 1) == bit_and check 0x3f)
  pub event_bit :
      (pd : List ℕ) (check : ℕ) → (decoded pd check).event_pending ≡ not (bit_and check 0x80 == 0)
  pub valid_bit :
      (pd : List ℕ) (check : ℕ) → (decoded pd check).pd_valid ≡ (bit_and check 0x40 == 0)
  pub pd_len : (pd : List ℕ) (check : ℕ) → (decoded pd check).pd_len ≡ length pd
  pub pd : (pd : List ℕ) (check : ℕ) → take (length pd) (decoded pd check).pd ≡ pd

-- A value of six bits has neither flag of CKS.
no_flags : ℕ → Bool
no_flags c =
    (bit_and c 0xc0 == 0) && (bit_and c 0x3f == c) && (bit_and c 0x80 == 0) && (bit_and c 0x40 == 0)

six_bits_table : all_below 64 no_flags ≡ true
unfolding no_flags
six_bits_table = refl

pub six_bits_lem :
    (c : ℕ)
    → c < 64
    → (bit_and c 0xc0 ≡ 0) × (bit_and c 0x3f ≡ c) × (bit_and c 0x80 ≡ 0) × (bit_and c 0x40 ≡ 0)
six_bits_lem c h = unfold no_flags in ground (arith, all_below_sound 64 no_flags c six_bits_table h)

-- The octets that are left in a queue.
unfoldable pub left : List ℕ → ℕ → ℕ → List ℕ
left queue at zero = []
left queue at (suc n) = get_or queue at 0 ∷ left queue (at + 1) n

-- The octets that wait on the line, where the length is one of eight bits.
unfoldable pub waiting : Line → Option (List ℕ)
waiting l = if leb l.rx_len 255 then some (left l.rx_queue l.rx_pos (l.rx_len - l.rx_pos)) else none

guarded :
    {A : Type 0} (b : Bool) (x y : A) → (if b then some x else none) ≡ some y → (b ≡ true) × (x ≡ y)
guarded true x y h = (refl, some-injective x y h)
guarded false x y h = absurd (none-ne-some y h)

-- Where octets wait.
waiting_in :
    (l : Line) (xs : List ℕ)
    → waiting l ≡ some xs
    → (l.rx_len ≤ 255) × (left l.rx_queue l.rx_pos (l.rx_len - l.rx_pos) ≡ xs)
unfolding waiting
waiting_in l xs h =
    let (short, e) =
      guarded (leb l.rx_len 255) (left l.rx_queue l.rx_pos (l.rx_len - l.rx_pos)) xs h in
    (ground (arith, short), e)

waiting_at :
    (l : Line) (n : ℕ)
    → l.rx_len ≤ 255
    → l.rx_len - l.rx_pos ≡ n
    → waiting l ≡ some (left l.rx_queue l.rx_pos n)
unfolding waiting
waiting_at l n h e =
    let short : leb l.rx_len 255 ≡ true = ground (arith, h) in
    rw (short) (ap (λ k. some (left l.rx_queue l.rx_pos k)) e)

left_cons :
    (queue : List ℕ) (at n x : ℕ) (xs : List ℕ)
    → left queue at n ≡ x ∷ xs
    → (k : ℕ) × (n ≡ suc k) × (get_or queue at 0 ≡ x) × (left queue (at + 1) k ≡ xs)
unfolding left
left_cons queue at zero x xs h = absurd (omega (arith, ap length h))
left_cons queue at (suc n) x xs h = (n, refl, ap (λ l. get_or l 0 0) h, ap (drop 1) h)

left_nil : (queue : List ℕ) (at n : ℕ) → left queue at n ≡ [] → n ≡ 0
unfolding left
left_nil queue at zero h = refl
left_nil queue at (suc n) h = absurd (omega (arith, ap length h))

pub recv_takes :
    (l : Line) (x : ℕ) (xs : List ℕ)
    → waiting l ≡ some (x ∷ xs)
    → ((demo_phy_recv_byte l).0 ≡ pos 1)
      × ((demo_phy_recv_byte l).1 ≡ x)
      × (waiting (demo_phy_recv_byte l).2 ≡ some xs)
unfolding demo_phy_recv_byte
recv_takes l x xs h =
    let (short, e) = waiting_in l (x ∷ xs) h in
    let (k, n, here, more) = left_cons l.rx_queue l.rx_pos (l.rx_len - l.rx_pos) x xs e in
    let some_left : leb l.rx_len l.rx_pos ≡ false = ground (arith, n) in
    let next : u8 (l.rx_pos + 1) ≡ l.rx_pos + 1 = omega (arith, n, short) in
    rw (some_left, next)
      (
        refl,
        here,
        waiting_at (record l { rx_pos = l.rx_pos + 1 }) k short (omega (arith, n)) ∙ ap some more,
      )

pub recv_rests :
    (l : Line)
    → waiting l ≡ some []
    → ((demo_phy_recv_byte l).0 ≡ pos 0) × (waiting (demo_phy_recv_byte l).2 ≡ some [])
unfolding demo_phy_recv_byte
recv_rests l h =
    let (short, e) = waiting_in l [] h in
    let z = left_nil l.rx_queue l.rx_pos (l.rx_len - l.rx_pos) e in
    let none_left : leb l.rx_len l.rx_pos ≡ true = ground (arith, z) in rw (none_left) (refl, h)

-- A queue of one or two octets.
pub queue_one :
    (x : ℕ) (xs : List ℕ) (l : Line) → waiting (queue_bytes (x ∷ xs) 1 l) ≡ some (x ∷ [])
unfolding queue_bytes waiting left copy_at
queue_one x xs l = refl

pub queue_two :
    (x y : ℕ) (xs : List ℕ) (l : Line) → waiting (queue_bytes (x ∷ y ∷ xs) 2 l) ≡ some (x ∷ y ∷ [])
unfolding queue_bytes waiting left copy_at
queue_two x y xs l = refl
