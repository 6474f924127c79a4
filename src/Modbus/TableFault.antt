-- ===== src/Modbus/TableFault.antt =====
-- The lookup table of src/modbus_rtu.cpp against the CRC that it stands for.
use bisso_e350_controller.Base.{
  ℕ, zero, suc, ◌+◌, ◌*◌, ◌/◌, ◌%◌, ◌^◌, ◌<◌, ◌≡◌, ◌≢◌, ◌↔◌, refl, sym, ap, ◌∙◌, Bool, true, false,
  not, List, [], ◌∷◌, ◌++◌, arith, ◌==◌, if◌then◌else◌, get_or, length,
}
use bisso_e350_controller.Base.Bits.{
  bit_xor, bit_xor_comm, bit_xor_assoc, bit_xor_cancel, bit_xor_self, bit_xor-zero, zero-bit_xor,
  bit_xor-lt, bit_and_255, bit_xor-div_256,
}
use bisso_e350_controller.Modbus.Table.{crc16_table}
use bisso_e350_controller.Modbus.Crc.{IsByte, crc16_byte, crc16_from, modbus_crc16}
use bisso_e350_controller.Modbus.Request.{
  low_byte, high_byte, modbus_read_registers_request, with_crc,
}
use bisso_e350_controller.Modbus.Reference.{
  shift_bit, shift_bits, shift_eight, bit_xor_fields, crc16_reference,
}

scan : (ℕ → Bool) → ℕ → Bool
scan test zero = true
scan test (suc top) = if test top then scan test top else false

scan_holds : (test : ℕ → Bool) (top v : ℕ) → v < top → scan test top ≡ true → test v ≡ true
unfolding scan
scan_holds test zero v below done = absurd (omega arith)
scan_holds test (suc top) v below done = ground (arith, scan_holds test top v)

abbrev agrees : ℕ → Bool
agrees l =
    if l == 0
    then get_or crc16_table l 0 == shift_bits 8 l
    else not (get_or crc16_table l 0 == shift_bits 8 l)

table_checked : scan agrees 256 ≡ true
unfolding scan shift_bits shift_bit
table_checked = refl

read_test : (a b l : ℕ) → (if l == 0 then a == b else not (a == b)) ≡ true → (a ≡ b) ↔ (l ≡ 0)
read_test a b l h = (λ e. ground arith, λ e. ground arith)

-- The entry of a byte is the eight shifts of that byte exactly at the byte 0.
pub crc16_table_wrong : (l : ℕ) → l < 256 → (get_or crc16_table l 0 ≡ shift_bits 8 l) ↔ (l ≡ 0)
crc16_table_wrong l h = read_test _ _ l (scan_holds agrees 256 l h table_checked)

-- Exclusive or with one value on the left can be undone.
bit_xor_cancel_left : (a b c : ℕ) → bit_xor a b ≡ bit_xor a c → b ≡ c
bit_xor_cancel_left a b c e =
    sym (bit_xor_cancel b a) ∙ ap (λ t. bit_xor t a) flipped ∙ bit_xor_cancel c a
  where
    flipped : bit_xor b a ≡ bit_xor c a
    flipped = bit_xor_comm b a ∙ e ∙ bit_xor_comm a c

crc16_byte_lem :
    (crc b : ℕ)
    → IsByte b
    → crc16_byte crc b ≡ bit_xor (crc / 256) (get_or crc16_table (bit_xor crc b % 256) 0)
unfolding crc16_byte
crc16_byte_lem crc b h = rw bit_and_255

shifts :
    (crc b : ℕ)
    → IsByte b
    → shift_bits 8 (bit_xor crc b) ≡ bit_xor (crc / 256) (shift_bits 8 (bit_xor crc b % 256))
shifts crc b h = shift_eight (bit_xor crc b) ∙ ap (λ t. bit_xor t low) high
  where
    low : ℕ
    low = shift_bits 8 (bit_xor crc b % 256)

    none_above : b / 256 ≡ 0
    none_above = omega arith

    high : bit_xor crc b / 256 ≡ crc / 256
    high = bit_xor-div_256 crc b ∙ ap (bit_xor (crc / 256)) none_above ∙ bit_xor-zero (crc / 256)

-- One step of `modbusCrc16` on a byte gives the register that CRC-16/MODBUS gives exactly when the
-- byte is the low byte of the register: at every other byte the code departs from the standard.
pub crc16_byte_wrong :
    (crc b : ℕ)
    → IsByte b
    → (crc16_byte crc b ≡ shift_bits 8 (bit_xor crc b)) ↔ (bit_xor crc b % 256 ≡ 0)
crc16_byte_wrong crc b h = (there, back)
  where
    index : ℕ
    index = bit_xor crc b % 256

    wrong : (get_or crc16_table index 0 ≡ shift_bits 8 index) ↔ (index ≡ 0)
    wrong = crc16_table_wrong index (omega arith)

    there : crc16_byte crc b ≡ shift_bits 8 (bit_xor crc b) → bit_xor crc b % 256 ≡ 0
    there e =
        wrong.0
          (bit_xor_cancel_left (crc / 256) _ _ (sym (crc16_byte_lem crc b h) ∙ e ∙ shifts crc b h))

    back : bit_xor crc b % 256 ≡ 0 → crc16_byte crc b ≡ shift_bits 8 (bit_xor crc b)
    back e = crc16_byte_lem crc b h ∙ ap (bit_xor (crc / 256)) (wrong.1 e) ∙ sym (shifts crc b h)

-- The two bytes that the register `crc` confuses: the table has one entry at 223 and at 225.
abbrev first_twin : ℕ → ℕ
first_twin crc = bit_xor (crc % 256) 223

abbrev second_twin : ℕ → ℕ
second_twin crc = bit_xor (crc % 256) 225

bit_xor_low : (x m : ℕ) → m < 256 → bit_xor x m % 256 ≡ bit_xor (x % 256) m
bit_xor_low x m h = omega (arith, whole, bit_xor-lt 8 (x % 256) m (omega arith) (omega arith))
  where
    whole : bit_xor x m ≡ x / 256 * 2 ^ 8 + bit_xor (x % 256) m
    whole =
        ap (λ t. bit_xor t m) (omega (arith, bit_xor_fields 8 (x / 256) (x % 256) (omega arith)))
        ∙ bit_xor_assoc (x / 256 * 2 ^ 8) (x % 256) m
        ∙ bit_xor_fields 8 (x / 256) (bit_xor (x % 256) m)
            (bit_xor-lt 8 (x % 256) m (omega arith) (omega arith))

twin_IsByte : (crc k : ℕ) → k < 256 → IsByte (bit_xor (crc % 256) k)
twin_IsByte crc k h = omega (arith, bit_xor-lt 8 (crc % 256) k (omega arith) (omega arith))

twin_index : (crc k : ℕ) → k < 256 → bit_xor crc (bit_xor (crc % 256) k) % 256 ≡ k
twin_index crc k h =
    bit_xor_low crc (bit_xor (crc % 256) k) (twin_IsByte crc k h)
    ∙ sym (bit_xor_assoc (crc % 256) (crc % 256) k)
    ∙ ap (λ t. bit_xor t k) (bit_xor_self (crc % 256))
    ∙ zero-bit_xor k

crc16_byte-twin :
    (crc k : ℕ)
    → k < 256
    → crc16_byte crc (bit_xor (crc % 256) k) ≡ bit_xor (crc / 256) (get_or crc16_table k 0)
crc16_byte-twin crc k h =
    crc16_byte_lem crc _ (twin_IsByte crc k h)
    ∙ ap (λ t. bit_xor (crc / 256) (get_or crc16_table t 0)) (twin_index crc k h)

crc16_byte-twins : (crc : ℕ) → crc16_byte crc (first_twin crc) ≡ crc16_byte crc (second_twin crc)
crc16_byte-twins crc =
    crc16_byte-twin crc 223 (omega arith) ∙ sym (crc16_byte-twin crc 225 (omega arith))

crc16_from-append :
    (crc : ℕ) (xs ys : List ℕ) (n : ℕ)
    → crc16_from crc (xs ++ ys) (length xs + n) ≡ crc16_from (crc16_from crc xs (length xs)) ys n
unfolding crc16_from
crc16_from-append crc [] ys n = let e : 0 + n ≡ n = omega arith in rw e
crc16_from-append crc (x ∷ xs) ys n =
    let e : suc (length xs) + n ≡ suc (length xs + n) = omega arith in
    rw e (crc16_from-append (crc16_byte crc x) xs ys n)

-- After any prefix there are two different bytes with one CRC: replacing one by the other, in a
-- frame with any suffix, is a corruption of a single byte that `modbusCrc16` does not show.
pub crc16_undetected :
    (prefix : List ℕ)
    → (x y : ℕ) × IsByte x
      × IsByte y
      × (x ≢ y)
      × ((suffix : List ℕ) (n : ℕ)
          → modbus_crc16 (prefix ++ (x ∷ suffix)) (length prefix + suc n)
            ≡ modbus_crc16 (prefix ++ (y ∷ suffix)) (length prefix + suc n))
unfolding modbus_crc16 crc16_from
crc16_undetected prefix = (
  first_twin crc,
  second_twin crc,
  twin_IsByte crc 223 (omega arith),
  twin_IsByte crc 225 (omega arith),
  λ e. differ (bit_xor_cancel_left (crc % 256) 223 225 e),
  λ suffix n.
      step (first_twin crc) suffix n
      ∙ ap (λ c. crc16_from c suffix n) (crc16_byte-twins crc)
      ∙ sym (step (second_twin crc) suffix n),
)
  where
    crc : ℕ
    crc = crc16_from 0xffff prefix (length prefix)

    differ : ◌≢◌ {A = ℕ} 223 225
    differ = omega arith

    step :
        (b : ℕ) (suffix : List ℕ) (n : ℕ)
        → crc16_from 0xffff (prefix ++ (b ∷ suffix)) (length prefix + suc n)
          ≡ crc16_from (crc16_byte crc b) suffix n
    step b suffix n = crc16_from-append 0xffff prefix (b ∷ suffix) (suc n)

-- The frame that polls the current sensor, without its CRC: register 0x000E, one register.
abbrev pub jxk10_poll : ℕ → List ℕ
jxk10_poll slave = slave ∷ 3 ∷ 0 ∷ 0x0e ∷ 0 ∷ 1 ∷ []

abbrev poll_wrong : ℕ → Bool
poll_wrong slave =
    not (modbus_crc16 (jxk10_poll slave) 6 == crc16_reference 0xffff (jxk10_poll slave))

poll_checked : scan poll_wrong 255 ≡ true
unfolding scan modbus_crc16 crc16_from crc16_byte crc16_reference
poll_checked = refl

read_ne : (a b : ℕ) → not (a == b) ≡ true → a ≢ b
read_ne a b h = ground arith

-- For every address that the sensor can have, the poll that the code builds ends in a CRC that is
-- not the CRC-16/MODBUS of its bytes.
pub jxk10_poll_wrong :
    (slave : ℕ)
    → slave < 255
    → (modbus_read_registers_request slave 0x000e 1
        ≡ jxk10_poll slave
          ++ (low_byte (modbus_crc16 (jxk10_poll slave) 6)
              ∷ high_byte (modbus_crc16 (jxk10_poll slave) 6)
              ∷ []))
      × (modbus_crc16 (jxk10_poll slave) 6 ≢ crc16_reference 0xffff (jxk10_poll slave))
unfolding modbus_read_registers_request with_crc
jxk10_poll_wrong slave h = (refl, read_ne _ _ (scan_holds poll_wrong 255 slave h poll_checked))
