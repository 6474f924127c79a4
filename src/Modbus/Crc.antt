-- ===== src/Modbus/Crc.antt =====
-- `modbusCrc16` and `modbusVerifyCrc` of src/modbus_rtu.cpp.
use bisso_e350_controller.Base.{
  ℕ, zero, suc, ◌+◌, ◌-◌, ◌*◌, ◌/◌, ◌<◌, Bool, false, List, [], ◌∷◌, ltb, ◌==◌, if◌then◌else◌,
  get_or,
}
use bisso_e350_controller.Base.Bits.{bit_xor, bit_and}
use bisso_e350_controller.Modbus.Table.{crc16_table}

abbrev pub IsByte : ℕ → Type 0
IsByte b = b < 256

-- `(crc >> 8) ^ crc16_table[(crc ^ data[i]) & 0xFF]`
unfoldable pub crc16_byte : ℕ → ℕ → ℕ
crc16_byte crc b = bit_xor (crc / 256) (get_or crc16_table (bit_and (bit_xor crc b) 255) 0)

-- The loop over `data[0 .. length)`. The code reads `length` bytes whatever the buffer holds; here
-- the loop ends with the buffer, and the theorems have `length` bytes in it.
unfoldable pub crc16_from : ℕ → List ℕ → ℕ → ℕ
crc16_from crc bytes zero = crc
crc16_from crc [] (suc n) = crc
crc16_from crc (b ∷ rest) (suc n) = crc16_from (crc16_byte crc b) rest n

unfoldable pub modbus_crc16 : List ℕ → ℕ → ℕ
modbus_crc16 bytes len = crc16_from 0xffff bytes len

-- `lo | (hi << 8)` of two bytes: the fields are disjoint.
abbrev pub word_le : ℕ → ℕ → ℕ
word_le lo hi = lo + hi * 256

unfoldable pub modbus_verify_crc : List ℕ → ℕ → Bool
modbus_verify_crc bytes len =
    if ltb len 3
    then false
    else (word_le (get_or bytes (len - 2) 0) (get_or bytes (len - 1) 0)
        == modbus_crc16 bytes (len - 2))
