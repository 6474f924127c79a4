-- ===== src/Modbus/Tests.antt =====
-- The Modbus theorems at frames of the current sensor (slave 1) and of a drive (slave 2).
use bisso_e350_controller.Base.{◌%◌, ◌≡◌, ◌↔◌, refl, [], ◌∷◌, arith}
use bisso_e350_controller.Base.Bits.{bit_xor}
use bisso_e350_controller.Modbus.Crc.{crc16_byte, crc16_from, modbus_crc16}
use bisso_e350_controller.Modbus.Reference.{shift_bits, crc16_reference}
use bisso_e350_controller.Modbus.TableFault.{crc16_byte_wrong}

-- The textbook frame 01 03 00 00 00 0A has the CRC 0xCDC5; the code computes 0x9C08.
reference_known : crc16_reference 0xffff (1 ∷ 3 ∷ 0 ∷ 0 ∷ 0 ∷ 10 ∷ []) ≡ 0xcdc5
unfolding crc16_reference
reference_known = refl

code_known : modbus_crc16 (1 ∷ 3 ∷ 0 ∷ 0 ∷ 0 ∷ 10 ∷ []) 6 ≡ 0x9c08
unfolding modbus_crc16 crc16_from crc16_byte
code_known = refl

crc16_byte_wrong_example :
    (crc16_byte 0xffff 1 ≡ shift_bits 8 (bit_xor 0xffff 1)) ↔ (bit_xor 0xffff 1 % 256 ≡ 0)
crc16_byte_wrong_example = crc16_byte_wrong 0xffff 1 (omega arith)
