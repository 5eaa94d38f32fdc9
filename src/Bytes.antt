-- ===== src/Bytes.antt =====
-- Facts about the bit operations on octets, each checked at every value.
use iolinki_master.Base.{
  ℕ, zero, suc, ◌+◌, ◌*◌, ◌/◌, ◌%◌, ◌<◌, ◌≡◌, refl, Bool, true, ◌&&◌, List, [], ◌∷◌, ◌++◌, take,
  get_or, arith, ◌==◌, if◌then◌else◌, ==_iff, bit_and, bit_or, bit_xor, length, set,
}

-- A test that holds at every number below `n`.
abbrev pub all_below : ℕ → (ℕ → Bool) → Bool
all_below zero p = true
all_below (suc n) p = p n && all_below n p

pub all_below_sound : (n : ℕ) (p : ℕ → Bool) (x : ℕ) → all_below n p ≡ true → x < n → p x ≡ true
all_below_sound zero p x h lt = absurd (omega arith)
all_below_sound (suc n) p x h lt = ground (arith, all_below_sound n p x)

-- An equation of octet functions, from its table.
pub by_table :
    (f g : ℕ → ℕ) → all_below 256 (λ x. f x == g x) ≡ true → (x : ℕ) → x < 256 → f x ≡ g x
by_table f g table x h = (==_iff _ _).0 (all_below_sound 256 (λ y. f y == g y) x table h)

-- The same over two octets.
pub by_table2 :
    (f g : ℕ → ℕ → ℕ)
    → all_below 256 (λ x. all_below 256 (λ y. f x y == g x y)) ≡ true
    → (x y : ℕ) → x < 256
    → y < 256
    → f x y ≡ g x y
by_table2 f g table x y hx hy =
    by_table (f x) (g x) (all_below_sound 256 (λ z. all_below 256 (λ y. f z y == g z y)) x table hx)
      y hy

pub xor_self : (x : ℕ) → x < 256 → bit_xor x x ≡ 0
xor_self = by_table (λ x. bit_xor x x) (λ x. 0) refl

pub zero-xor : (x : ℕ) → x < 256 → bit_xor 0 x ≡ x
zero-xor = by_table (λ x. bit_xor 0 x) (λ x. x) refl

xor-mod : (x y : ℕ) → x < 256 → y < 256 → bit_xor x y ≡ bit_xor x y % 256
xor-mod = by_table2 (λ x y. bit_xor x y) (λ x y. bit_xor x y % 256) refl

pub xor-lt : (x y : ℕ) → x < 256 → y < 256 → bit_xor x y < 256
xor-lt x y hx hy = omega (arith, xor-mod x y hx hy)

-- The only octet that cancels `x` is `x`.
abbrev flag : Bool → ℕ
flag b = if b then 1 else 0

xor_zero_table : (x y : ℕ) → x < 256 → y < 256 → flag (bit_xor x y == 0) ≡ flag (x == y)
xor_zero_table = by_table2 (λ x y. flag (bit_xor x y == 0)) (λ x y. flag (x == y)) refl

pub xor-eq-zero : (x y : ℕ) → x < 256 → y < 256 → bit_xor x y ≡ 0 → x ≡ y
xor-eq-zero x y hx hy h = ground (arith, xor_zero_table x y hx hy)

-- Masks of low bits.
pub and_nibble : (x : ℕ) → x < 256 → bit_and x 0x0f ≡ x % 16
and_nibble = by_table (λ x. bit_and x 0x0f) (λ x. x % 16) refl

pub and_0x01 : (x : ℕ) → x < 256 → bit_and x 0x01 ≡ x % 2
and_0x01 = by_table (λ x. bit_and x 0x01) (λ x. x % 2) refl

pub and_0x03 : (x : ℕ) → x < 256 → bit_and x 0x03 ≡ x % 4
and_0x03 = by_table (λ x. bit_and x 0x03) (λ x. x % 4) refl

pub and_0x07 : (x : ℕ) → x < 256 → bit_and x 0x07 ≡ x % 8
and_0x07 = by_table (λ x. bit_and x 0x07) (λ x. x % 8) refl

pub and_0x1f : (x : ℕ) → x < 256 → bit_and x 0x1f ≡ x % 32
and_0x1f = by_table (λ x. bit_and x 0x1f) (λ x. x % 32) refl

pub and_0x3f : (x : ℕ) → x < 256 → bit_and x 0x3f ≡ x % 64
and_0x3f = by_table (λ x. bit_and x 0x3f) (λ x. x % 64) refl

pub and_0x80 : (x : ℕ) → x < 256 → bit_and x 0x80 ≡ x / 128 * 128
and_0x80 = by_table (λ x. bit_and x 0x80) (λ x. x / 128 * 128) refl

-- A high octet and a low octet do not overlap.
pub or_octets : (x y : ℕ) → x < 256 → y < 256 → bit_or (x * 256) y ≡ x * 256 + y
or_octets = by_table2 (λ x y. bit_or (x * 256) y) (λ x y. x * 256 + y) refl

-- A high nibble and a low nibble do not overlap.
pub or_nibbles_table :
    (x y : ℕ) → x < 256 → y < 256 → bit_or (x % 16 * 16) (y % 16) ≡ x % 16 * 16 + y % 16
or_nibbles_table =
    by_table2 (λ x y. bit_or (x % 16 * 16) (y % 16)) (λ x y. x % 16 * 16 + y % 16) refl

-- Every element is an octet.
abbrev pub Octets : List ℕ → Type 0
Octets [] = Unit {0}
Octets (x ∷ xs) = (x < 256) × Octets xs

pub Octets-append : (xs ys : List ℕ) → Octets xs → Octets ys → Octets (xs ++ ys)
Octets-append [] ys h k = k
Octets-append (x ∷ xs) ys h k = (h.0, Octets-append xs ys h.1 k)

pub Octets-take : (n : ℕ) (xs : List ℕ) → Octets xs → Octets (take n xs)
Octets-take zero xs h = tt
Octets-take (suc n) [] h = tt
Octets-take (suc n) (x ∷ xs) h = (h.0, Octets-take n xs h.1)

pub get_or-lt : (xs : List ℕ) (i : ℕ) → Octets xs → get_or xs i 0 < 256
get_or-lt [] i h = omega arith
get_or-lt (x ∷ xs) zero h = h.0
get_or-lt (x ∷ xs) (suc i) h = get_or-lt xs i h.1

-- Reading an array of octets that was written at a place inside.
pub get_or-set :
    (xs : List ℕ) (i j v d : ℕ)
    → i < length xs
    → get_or (set xs i v) j d ≡ (if i == j then v else get_or xs j d)
get_or-set [] i j v d h = absurd (omega arith)
get_or-set (x ∷ xs) zero zero v d h = refl
get_or-set (x ∷ xs) zero (suc j) v d h = ground arith
get_or-set (x ∷ xs) (suc i) zero v d h = ground arith
get_or-set (x ∷ xs) (suc i) (suc j) v d h = ground (arith, get_or-set xs i j v d (omega arith))
