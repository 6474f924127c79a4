-- ===== src/Base/Bits.antt =====
-- Laws of `bit_xor` and `bit_and` at variables, from the recursion on binary digits that the
-- native operations stand for.
use Prim.Native.Nat.{digits, bitwise, differ, bit_xor-bitwise, bit_and-bitwise}
use native.Mathlib.Nat.{pow-suc}
use bisso_e350_controller.Base.{
  ℕ, zero, suc, ◌+◌, ◌-◌, ◌*◌, ◌/◌, ◌%◌, ◌^◌, ◌≤◌, ◌<◌, min, ◌≡◌, refl, ap, ◌∙◌, arith,
}
pub use Prim.Native.Nat.{bit_xor, bit_and}

-- The digits of two numbers combined, on as much fuel as the first number needs and `k` more.
module _ (rest : ℕ → ℕ) (op : ℕ → ℕ → ℕ) where
  digits_spare : (k m x y : ℕ) → x ≤ m → digits rest op (m + k) x y ≡ digits rest op m x y
  digits_spare zero m x y h = let e : m + 0 ≡ m = omega arith in rw e refl
  digits_spare (suc k) zero zero y h = let e : 0 + suc k ≡ suc k = omega arith in rw e refl
  digits_spare (suc k) zero (suc x) y h = absurd (omega arith)
  digits_spare (suc k) (suc m) zero y h =
      let e : suc m + suc k ≡ suc (m + suc k) = omega arith in rw e refl
  digits_spare (suc k) (suc m) (suc x) y h =
      let e : suc m + suc k ≡ suc (m + suc k) = omega arith in
      rw e (
        ap (λ t. t * 2 + op (suc x % 2) (y % 2))
          (digits_spare (suc k) m (suc x / 2) (y / 2) (omega arith)))

  pub bitwise_next :
      (x y : ℕ)
      → bitwise rest op (suc x) y ≡ bitwise rest op (suc x / 2) (y / 2) * 2 + op (suc x % 2) (y % 2)
  bitwise_next x y =
      let half = suc x / 2 in
      let fuel : x ≡ half + (x - half) = omega arith in
      ap (λ t. t * 2 + op (suc x % 2) (y % 2))
        (ap (λ m. digits rest op m half (y / 2)) fuel
          ∙ digits_spare (x - half) half half (y / 2) (omega arith))

differ_two : (x y : ℕ) → x < 2 → y < 2 → differ x y ≡ (x + y) % 2
differ_two zero y p q = omega arith
differ_two (suc zero) zero p q = omega arith
differ_two (suc zero) (suc zero) p q = omega arith
differ_two (suc zero) (suc (suc y)) p q = absurd (omega arith)
differ_two (suc (suc x)) y p q = absurd (omega arith)

pub bit_xor_step : (a b : ℕ) → bit_xor a b ≡ bit_xor (a / 2) (b / 2) * 2 + (a + b) % 2
bit_xor_step zero b = simp bit_xor-bitwise (omega arith)
bit_xor_step (suc a) b = simp bit_xor-bitwise (
    omega (
      arith,
      bitwise_next (λ y. y) differ a b,
      differ_two (suc a % 2) (b % 2) (omega arith) (omega arith),
    ))

bit_and_step : (x y : ℕ) → bit_and x y ≡ bit_and (x / 2) (y / 2) * 2 + min (x % 2) (y % 2)
bit_and_step zero y = simp bit_and-bitwise (omega arith)
bit_and_step (suc x) y = simp bit_and-bitwise (bitwise_next (λ t. 0) min x y)

pub zero-bit_xor : (b : ℕ) → bit_xor 0 b ≡ b
zero-bit_xor b = simp bit_xor-bitwise refl

pub bit_xor-div_two : (a b : ℕ) → bit_xor a b / 2 ≡ bit_xor (a / 2) (b / 2)
bit_xor-div_two a b = omega (arith, bit_xor_step a b)

pub bit_xor-mod_two : (a b : ℕ) → bit_xor a b % 2 ≡ (a + b) % 2
bit_xor-mod_two a b = omega (arith, bit_xor_step a b)

comm_fuel : (n a b : ℕ) → a ≤ n → b ≤ n → bit_xor a b ≡ bit_xor b a
comm_fuel zero zero zero p q = refl
comm_fuel zero zero (suc b) p q = absurd (omega arith)
comm_fuel zero (suc a) b p q = absurd (omega arith)
comm_fuel (suc n) a b p q = omega (
  arith,
  bit_xor_step a b,
  bit_xor_step b a,
  comm_fuel n (a / 2) (b / 2) (omega arith) (omega arith),
)

pub bit_xor_comm : (a b : ℕ) → bit_xor a b ≡ bit_xor b a
bit_xor_comm a b = comm_fuel (a + b) a b (omega arith) (omega arith)

pub bit_xor-zero : (a : ℕ) → bit_xor a 0 ≡ a
bit_xor-zero a = bit_xor_comm a 0 ∙ zero-bit_xor a

assoc_step :
    (a b c : ℕ)
    → bit_xor (bit_xor (a / 2) (b / 2)) (c / 2) ≡ bit_xor (a / 2) (bit_xor (b / 2) (c / 2))
    → bit_xor (bit_xor a b) c ≡ bit_xor a (bit_xor b c)
assoc_step a b c h = omega (
  arith,
  bit_xor_step (bit_xor a b) c,
  bit_xor_step a (bit_xor b c),
  heads,
  bit_xor-mod_two a b,
  bit_xor-mod_two b c,
)
  where
    heads : bit_xor (bit_xor a b / 2) (c / 2) ≡ bit_xor (a / 2) (bit_xor b c / 2)
    heads = rw (bit_xor-div_two a b, bit_xor-div_two b c) h

assoc_fuel :
    (n a b c : ℕ) → a ≤ n → b ≤ n → c ≤ n → bit_xor (bit_xor a b) c ≡ bit_xor a (bit_xor b c)
assoc_fuel zero zero zero zero p q r = refl
assoc_fuel zero zero zero (suc c) p q r = absurd (omega arith)
assoc_fuel zero zero (suc b) c p q r = absurd (omega arith)
assoc_fuel zero (suc a) b c p q r = absurd (omega arith)
assoc_fuel (suc n) a b c p q r =
    assoc_step a b c
      (assoc_fuel n (a / 2) (b / 2) (c / 2) (omega arith) (omega arith) (omega arith))

pub bit_xor_assoc : (a b c : ℕ) → bit_xor (bit_xor a b) c ≡ bit_xor a (bit_xor b c)
bit_xor_assoc a b c = assoc_fuel (a + b + c) a b c (omega arith) (omega arith) (omega arith)

self_fuel : (n a : ℕ) → a ≤ n → bit_xor a a ≡ 0
self_fuel zero zero p = refl
self_fuel zero (suc a) p = absurd (omega arith)
self_fuel (suc n) a p = omega (arith, bit_xor_step a a, self_fuel n (a / 2) (omega arith))

pub bit_xor_self : (a : ℕ) → bit_xor a a ≡ 0
bit_xor_self a = self_fuel a a (omega arith)

-- `x ^ y ^ y` is `x`.
pub bit_xor_cancel : (a b : ℕ) → bit_xor (bit_xor a b) b ≡ a
bit_xor_cancel a b = bit_xor_assoc a b b ∙ ap (bit_xor a) (bit_xor_self b) ∙ bit_xor-zero a

pub bit_xor-lt : (k a b : ℕ) → a < 2 ^ k → b < 2 ^ k → bit_xor a b < 2 ^ k
bit_xor-lt zero a b p q = lt_one a b (omega arith) (omega arith)
  where
    lt_one : (a b : ℕ) → a < 1 → b < 1 → bit_xor a b < 1
    lt_one zero zero p q = omega arith
    lt_one zero (suc b) p q = absurd (omega arith)
    lt_one (suc a) b p q = absurd (omega arith)
bit_xor-lt (suc k) a b p q = omega (
  arith,
  bit_xor_step a b,
  pow-suc 2 k,
  bit_xor-lt k (a / 2) (b / 2) (omega (arith, pow-suc 2 k)) (omega (arith, pow-suc 2 k)),
)

bit_and_none : (m x : ℕ) → x ≤ m → bit_and x 0 ≡ 0
bit_and_none m zero h = refl
bit_and_none zero (suc x) h = absurd (omega arith)
bit_and_none (suc m) (suc x) h =
    let half : bit_and (suc x / 2) 0 ≡ 0 = bit_and_none m (suc x / 2) (omega arith) in
    omega (arith, bit_and_step (suc x) 0, half)

bit_and_odd : (x : ℕ) → bit_and x 1 ≡ x % 2
bit_and_odd x = omega (arith, bit_and_none (x / 2) (x / 2) (omega arith), bit_and_step x 1)

bit_and_15 : (a : ℕ) → bit_and a 15 ≡ a % 16
bit_and_15 a = omega (
  arith,
  bit_and_step a 15,
  bit_and_step (a / 2) 7,
  bit_and_step (a / 2 / 2) 3,
  bit_and_odd (a / 2 / 2 / 2),
)

-- `x & 0xFF` is the remainder by 256.
pub bit_and_255 : (a : ℕ) → bit_and a 255 ≡ a % 256
bit_and_255 a = omega (
  arith,
  bit_and_step a 255,
  bit_and_step (a / 2) 127,
  bit_and_step (a / 2 / 2) 63,
  bit_and_step (a / 2 / 2 / 2) 31,
  bit_and_15 (a / 2 / 2 / 2 / 2),
)

bit_xor-div_16 : (a b : ℕ) → bit_xor a b / 16 ≡ bit_xor (a / 16) (b / 16)
bit_xor-div_16 a b =
    rw (fourth a, fourth b)
      (omega (
        arith,
        bit_xor-div_two a b,
        bit_xor-div_two (a / 2) (b / 2),
        bit_xor-div_two (a / 2 / 2) (b / 2 / 2),
        bit_xor-div_two (a / 2 / 2 / 2) (b / 2 / 2 / 2),
      ))
  where
    fourth : (a : ℕ) → a / 16 ≡ a / 2 / 2 / 2 / 2
    fourth a = omega arith

-- `x >> 8` of an exclusive or.
pub bit_xor-div_256 : (a b : ℕ) → bit_xor a b / 256 ≡ bit_xor (a / 256) (b / 256)
bit_xor-div_256 a b =
    rw (twice a, twice b) (omega (arith, bit_xor-div_16 a b, bit_xor-div_16 (a / 16) (b / 16)))
  where
    twice : (a : ℕ) → a / 256 ≡ a / 16 / 16
    twice a = omega arith
