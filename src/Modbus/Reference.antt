-- ===== src/Modbus/Reference.antt =====
-- The CRC that the Modbus standard asks for, without a table: CRC-16/MODBUS as shifts of one bit
-- with the polynomial 0xA001, which src/modbus_rtu.cpp names as its own.
use native.Mathlib.Nat.{pow-suc}
use bisso_e350_controller.Base.{
  ℕ, zero, suc, ◌+◌, ◌*◌, ◌/◌, ◌%◌, ◌^◌, ◌<◌, ◌≡◌, refl, sym, ap, ◌∙◌, ◌⊎◌, inl, inr, List, [], ◌∷◌,
  arith, ◌==◌, if◌then◌else◌,
}
use bisso_e350_controller.Base.Bits.{
  bit_xor, bit_xor_step, bit_xor-div_two, bit_xor-mod_two, bit_xor_comm, bit_xor_assoc,
  bit_xor_cancel, bit_xor-zero,
}

abbrev polynomial : ℕ
polynomial = 0xa001

unfoldable pub shift_bit : ℕ → ℕ
shift_bit x = if x % 2 == 1 then bit_xor (x / 2) polynomial else x / 2

unfoldable pub shift_bits : ℕ → ℕ → ℕ
shift_bits zero x = x
shift_bits (suc k) x = shift_bits k (shift_bit x)

unfoldable pub crc16_reference : ℕ → List ℕ → ℕ
unfolding shift_bits shift_bit
crc16_reference crc [] = crc
crc16_reference crc (b ∷ bytes) = crc16_reference (shift_bits 8 (bit_xor crc b)) bytes

-- Exclusive or in another order.
swap_middle : (a b p : ℕ) → bit_xor (bit_xor a b) p ≡ bit_xor (bit_xor a p) b
swap_middle a b p =
    bit_xor_assoc a b p ∙ ap (bit_xor a) (bit_xor_comm b p) ∙ sym (bit_xor_assoc a p b)

both_odd : (a b p : ℕ) → bit_xor (bit_xor a p) (bit_xor b p) ≡ bit_xor a b
both_odd a b p =
    sym (bit_xor_assoc (bit_xor a p) b p)
    ∙ ap (λ t. bit_xor t p) (sym (swap_middle a b p))
    ∙ bit_xor_cancel (bit_xor a b) p

-- The parity of each of two numbers.
parity : (x : ℕ) → (x % 2 ≡ 0) ⊎ (x % 2 ≡ 1)
parity x = omega arith

shift_bit_even : (x : ℕ) → x % 2 ≡ 0 → shift_bit x ≡ x / 2
unfolding shift_bit
shift_bit_even x h = ground arith

shift_bit_odd : (x : ℕ) → x % 2 ≡ 1 → shift_bit x ≡ bit_xor (x / 2) polynomial
unfolding shift_bit
shift_bit_odd x h = ground arith

-- A shift distributes over exclusive or.
pub shift_bit-bit_xor : (x y : ℕ) → shift_bit (bit_xor x y) ≡ bit_xor (shift_bit x) (shift_bit y)
shift_bit-bit_xor x y = elim (parity x) [
  | inl p ↦ elim (parity y) [
    | inl q ↦ rw (
      shift_bit_even x p,
      shift_bit_even y q,
      shift_bit_even (bit_xor x y) (omega (arith, bit_xor-mod_two x y)),
      bit_xor-div_two x y,
    )
    | inr q ↦
        rw
          (
            shift_bit_even x p,
            shift_bit_odd y q,
            shift_bit_odd (bit_xor x y) (omega (arith, bit_xor-mod_two x y)),
            bit_xor-div_two x y,
          )
          (bit_xor_assoc (x / 2) (y / 2) polynomial)
  ]
  | inr p ↦ elim (parity y) [
    | inl q ↦
        rw
          (
            shift_bit_odd x p,
            shift_bit_even y q,
            shift_bit_odd (bit_xor x y) (omega (arith, bit_xor-mod_two x y)),
            bit_xor-div_two x y,
          )
          (swap_middle (x / 2) (y / 2) polynomial)
    | inr q ↦
        rw
          (
            shift_bit_odd x p,
            shift_bit_odd y q,
            shift_bit_even (bit_xor x y) (omega (arith, bit_xor-mod_two x y)),
            bit_xor-div_two x y,
          )
          (sym (both_odd (x / 2) (y / 2) polynomial))
  ]
]

pub shift_bits-bit_xor :
    (k x y : ℕ) → shift_bits k (bit_xor x y) ≡ bit_xor (shift_bits k x) (shift_bits k y)
unfolding shift_bits
shift_bits-bit_xor zero x y = refl
shift_bits-bit_xor (suc k) x y =
    ap (shift_bits k) (shift_bit-bit_xor x y) ∙ shift_bits-bit_xor k (shift_bit x) (shift_bit y)

-- Low zeros are shifted out.
shift_bits-mul_pow : (k h : ℕ) → shift_bits k (h * 2 ^ k) ≡ h
unfolding shift_bits
shift_bits-mul_pow zero h = omega arith
shift_bits-mul_pow (suc k) h =
    ap (shift_bits k)
      (shift_bit_even (h * 2 ^ suc k) (omega (arith, double)) ∙ omega (arith, double))
    ∙ shift_bits-mul_pow k h
  where
    double : h * 2 ^ suc k ≡ 2 * (h * 2 ^ k)
    double = omega (arith, ap (λ (t : ℕ). h * t) (pow-suc 2 k))

-- `(h << k) ^ l` is a sum when `l` fits `k` bits.
pub bit_xor_fields : (k h l : ℕ) → l < 2 ^ k → bit_xor (h * 2 ^ k) l ≡ h * 2 ^ k + l
bit_xor_fields zero h zero fits = omega (arith, bit_xor-zero (h * 2 ^ 0))
bit_xor_fields zero h (suc l) fits = absurd (omega arith)
bit_xor_fields (suc k) h l fits = omega (
  arith,
  bit_xor_step (h * 2 ^ suc k) l,
  ap (λ (t : ℕ). bit_xor t (l / 2)) half,
  bit_xor_fields k h (l / 2) (omega (arith, pow-suc 2 k)),
  double,
)
  where
    double : h * 2 ^ suc k ≡ 2 * (h * 2 ^ k)
    double = omega (arith, ap (λ (t : ℕ). h * t) (pow-suc 2 k))

    half : (h * 2 ^ suc k) / 2 ≡ h * 2 ^ k
    half = omega (arith, double)

-- Eight shifts of a word are those of its low byte, on the high byte.
pub shift_eight : (x : ℕ) → shift_bits 8 x ≡ bit_xor (x / 256) (shift_bits 8 (x % 256))
shift_eight x =
    ap (shift_bits 8) split
    ∙ shift_bits-bit_xor 8 (x / 256 * 2 ^ 8) (x % 256)
    ∙ ap (λ t. bit_xor t (shift_bits 8 (x % 256))) (shift_bits-mul_pow 8 (x / 256))
  where
    split : x ≡ bit_xor (x / 256 * 2 ^ 8) (x % 256)
    split = omega (arith, bit_xor_fields 8 (x / 256) (x % 256) (omega arith))
