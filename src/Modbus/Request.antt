-- ===== src/Modbus/Request.antt =====
-- The request builders of src/modbus_rtu.cpp. A builder gives the bytes that it writes to the
-- front of `buffer`; the length that it returns is the number of these bytes.
use bisso_e350_controller.Base.{ℕ, ◌*◌, ◌/◌, ◌%◌, List, [], ◌∷◌, ◌++◌, length, u8}
use bisso_e350_controller.Modbus.Crc.{modbus_crc16}

abbrev pub fc_read_holding_registers : ℕ
fc_read_holding_registers = 0x03

abbrev pub fc_read_input_registers : ℕ
fc_read_input_registers = 0x04

abbrev pub fc_write_single_register : ℕ
fc_write_single_register = 0x06

abbrev pub fc_write_multiple_registers : ℕ
fc_write_multiple_registers = 0x10

-- `(w >> 8) & 0xFF` and `w & 0xFF`
abbrev pub high_byte : ℕ → ℕ
high_byte w = (w / 256) % 256

abbrev pub low_byte : ℕ → ℕ
low_byte w = w % 256

-- The CRC of the first bytes is written behind them, low byte first.
unfoldable pub with_crc : List ℕ → List ℕ
with_crc frame =
    let crc = modbus_crc16 frame (length frame) in frame ++ (low_byte crc ∷ high_byte crc ∷ [])

unfoldable pub modbus_read_registers_request : ℕ → ℕ → ℕ → List ℕ
modbus_read_registers_request slave_addr start_addr num_regs = with_crc (
    slave_addr
    ∷ fc_read_holding_registers
    ∷ high_byte start_addr
    ∷ low_byte start_addr
    ∷ high_byte num_regs
    ∷ low_byte num_regs
    ∷ [])

unfoldable pub modbus_write_single_register_request : ℕ → ℕ → ℕ → List ℕ
modbus_write_single_register_request slave_addr reg_addr value = with_crc (
    slave_addr
    ∷ fc_write_single_register
    ∷ high_byte reg_addr
    ∷ low_byte reg_addr
    ∷ high_byte value
    ∷ low_byte value
    ∷ [])

-- `buffer[7 + i * 2]` and `buffer[8 + i * 2]` for each value, most significant byte first.
unfoldable pub register_bytes : List ℕ → List ℕ
register_bytes [] = []
register_bytes (v ∷ values) = high_byte v ∷ low_byte v ∷ register_bytes values

-- `values` holds `num_regs` items, so `num_regs` is its length. The byte count is a `uint8_t`.
unfoldable pub modbus_write_multiple_registers_request : ℕ → ℕ → List ℕ → List ℕ
unfolding register_bytes
modbus_write_multiple_registers_request slave_addr start_addr values =
    let num_regs = length values in
    with_crc (
      slave_addr
      ∷ fc_write_multiple_registers
      ∷ high_byte start_addr
      ∷ low_byte start_addr
      ∷ high_byte num_regs
      ∷ low_byte num_regs
      ∷ u8 (num_regs * 2)
      ∷ register_bytes values)
