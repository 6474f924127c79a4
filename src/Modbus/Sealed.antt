-- ===== src/Modbus/Sealed.antt =====
-- Frames closed by `with_crc`: their layout, and that `modbusVerifyCrc` of src/modbus_rtu.cpp
-- accepts them.
use bisso_e350_controller.Base.{
  ℕ, zero, suc, ◌+◌, ◌-◌, ◌/◌, ◌^◌, ◌<◌, ◌≡◌, refl, Bool, true, ◌&&◌, List, [], ◌∷◌, ◌++◌, arith,
  get_or, length, length-append, ltb,
}
use mathlib.Core.List.{append_assoc}
use bisso_e350_controller.Base.Bits.{bit_xor, bit_xor-lt, bit_and}
use bisso_e350_controller.Modbus.Table.{crc16_table}
use bisso_e350_controller.Modbus.Crc.{
  crc16_byte, crc16_from, modbus_crc16, modbus_verify_crc, word_le,
}
use bisso_e350_controller.Modbus.Request.{low_byte, high_byte, with_crc}

abbrev pub IsWord : ℕ → Type 0
IsWord w = w < 65536

all_words : List ℕ → Bool
all_words [] = true
all_words (x ∷ xs) = ltb x 65536 && all_words xs

get_or-all_words : (xs : List ℕ) (i : ℕ) → all_words xs ≡ true → get_or xs i 0 < 65536
unfolding all_words
get_or-all_words [] i h = omega arith
get_or-all_words (x ∷ xs) zero h = ground arith
get_or-all_words (x ∷ xs) (suc i) h = get_or-all_words xs i (ground arith)

table_words : all_words crc16_table ≡ true
unfolding all_words
table_words = refl

-- The register of the CRC stays a 16-bit word.
crc16_byte-IsWord : (crc b : ℕ) → IsWord crc → IsWord (crc16_byte crc b)
unfolding crc16_byte
crc16_byte-IsWord crc b h = bit_xor-lt 16 (crc / 256) _ (omega arith) entry
  where
    entry : get_or crc16_table (bit_and (bit_xor crc b) 255) 0 < 2 ^ 16
    entry = get_or-all_words crc16_table (bit_and (bit_xor crc b) 255) table_words

crc16_from-IsWord :
    (crc : ℕ) (bytes : List ℕ) (n : ℕ) → IsWord crc → IsWord (crc16_from crc bytes n)
unfolding crc16_from
crc16_from-IsWord crc bytes zero h = h
crc16_from-IsWord crc [] (suc n) h = h
crc16_from-IsWord crc (b ∷ bytes) (suc n) h =
    crc16_from-IsWord (crc16_byte crc b) bytes n (crc16_byte-IsWord crc b h)

-- The CRC of a prefix does not depend on what follows it.
crc16_from-prefix :
    (crc : ℕ) (bytes rest : List ℕ)
    → crc16_from crc (bytes ++ rest) (length bytes) ≡ crc16_from crc bytes (length bytes)
unfolding crc16_from
crc16_from-prefix crc [] rest = refl
crc16_from-prefix crc (b ∷ bytes) rest = crc16_from-prefix (crc16_byte crc b) bytes rest

get_or-append : (xs ys : List ℕ) (i d : ℕ) → get_or (xs ++ ys) (length xs + i) d ≡ get_or ys i d
get_or-append [] ys i d = let e : 0 + i ≡ i = omega arith in rw e
get_or-append (x ∷ xs) ys i d =
    let e : suc (length xs) + i ≡ suc (length xs + i) = omega arith in
    rw e (get_or-append xs ys i d)

pub word_of_bytes : (w : ℕ) → IsWord w → word_le (low_byte w) (high_byte w) ≡ w
word_of_bytes w h = omega arith

pub with_crc_split :
    (frame rest : List ℕ)
    → with_crc frame ++ rest
      ≡ frame
        ++ (low_byte (modbus_crc16 frame (length frame))
            ∷ high_byte (modbus_crc16 frame (length frame))
            ∷ rest)
unfolding with_crc
with_crc_split frame rest = append_assoc frame _ rest

pub length-with_crc : (frame : List ℕ) → length (with_crc frame) ≡ length frame + 2
unfolding with_crc
length-with_crc frame = length-append frame _

verify_of_fields :
    (bytes : List ℕ) (n crc : ℕ)
    → 0 < n
    → get_or bytes (n + 0) 0 ≡ low_byte crc
    → get_or bytes (n + 1) 0 ≡ high_byte crc
    → modbus_crc16 bytes n ≡ crc
    → IsWord crc
    → modbus_verify_crc bytes (n + 2) ≡ true
unfolding modbus_verify_crc
verify_of_fields bytes n crc h lo hi c w =
    let at_lo : n + 2 - 2 ≡ n + 0 = omega arith in
    let at_hi : n + 2 - 1 ≡ n + 1 = omega arith in
    let at_end : n + 0 ≡ n = omega arith in rw (at_lo, at_hi, lo, hi, at_end, c) (ground arith)

-- What `with_crc` closes is accepted by `modbusVerifyCrc`, whatever the buffer holds behind it.
pub modbus_verify_crc-with_crc :
    (frame rest : List ℕ)
    → 0 < length frame
    → modbus_verify_crc (with_crc frame ++ rest) (length frame + 2) ≡ true
unfolding modbus_crc16
modbus_verify_crc-with_crc frame rest h = rw (with_crc_split frame rest) (
    verify_of_fields _ (length frame) (modbus_crc16 frame (length frame)) h
      (get_or-append frame _ 0 0) (get_or-append frame _ 1 0) (crc16_from-prefix 0xffff frame _)
      (crc16_from-IsWord 0xffff frame (length frame) (omega arith)))
