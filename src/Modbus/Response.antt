-- ===== src/Modbus/Response.antt =====
-- The response parsers of src/modbus_rtu.cpp.
use bisso_e350_controller.Base.{
  ℕ, zero, suc, ◌+◌, ◌*◌, List, [], ◌∷◌, not, ◌&&◌, ◌||◌, ltb, ◌==◌, if◌then◌else◌, get_or, u16,
}
use bisso_e350_controller.Base.Bits.{bit_and}
use bisso_e350_controller.Modbus.Crc.{word_le, modbus_verify_crc}
use bisso_e350_controller.Modbus.Request.{
  fc_read_holding_registers, fc_read_input_registers, fc_write_single_register,
}

abbrev pub err_none : ℕ
err_none = 0x00

abbrev pub err_illegal_data_value : ℕ
err_illegal_data_value = 0x03

abbrev pub err_crc_mismatch : ℕ
err_crc_mismatch = 0x80

abbrev pub err_frame_error : ℕ
err_frame_error = 0x82

-- The exception code, or 0.
unfoldable pub modbus_check_exception : List ℕ → ℕ → ℕ
modbus_check_exception buffer len =
    if ltb len 5 then 0 else if bit_and (get_or buffer 1 0) 0x80 == 0 then 0 else get_or buffer 2 0

-- `(buffer[3 + i * 2] << 8) | buffer[4 + i * 2]` for `n` values from index `at` on. The loop has
-- no test against the length of the frame.
unfoldable pub read_values : List ℕ → ℕ → ℕ → List ℕ
read_values buffer at zero = []
read_values buffer at (suc n) =
    word_le (get_or buffer (at + 1) 0) (get_or buffer at 0) ∷ read_values buffer (at + 2) n

-- The status, and what is written to `out_values`.
unfoldable pub modbus_parse_read_response : List ℕ → ℕ → ℕ → ℕ × List ℕ
unfolding read_values
modbus_parse_read_response buffer len expected_regs =
    let exception = modbus_check_exception buffer len in
    let fc = get_or buffer 1 0 in
    if ltb len 5
    then (err_frame_error, [])
    else if not (exception == 0)
    then (exception, [])
    else if not (modbus_verify_crc buffer len)
    then (err_crc_mismatch, [])
    else if not (fc == fc_read_holding_registers) && not (fc == fc_read_input_registers)
    then (err_frame_error, [])
    else if not (get_or buffer 2 0 == expected_regs * 2)
    then (err_frame_error, [])
    else (err_none, read_values buffer 3 expected_regs)

unfoldable pub modbus_parse_write_response : List ℕ → ℕ → ℕ → ℕ → ℕ
modbus_parse_write_response buffer len expected_addr expected_value =
    let exception = modbus_check_exception buffer len in
    let echoed_addr = word_le (get_or buffer 3 0) (get_or buffer 2 0) in
    let echoed_value = word_le (get_or buffer 5 0) (get_or buffer 4 0) in
    if ltb len 8
    then err_frame_error
    else if not (exception == 0)
    then exception
    else if not (modbus_verify_crc buffer len)
    then err_crc_mismatch
    else if not (get_or buffer 1 0 == fc_write_single_register)
    then err_frame_error
    else if not (echoed_addr == expected_addr) || not (echoed_value == expected_value)
    then err_illegal_data_value
    else err_none

unfoldable pub modbus_get_expected_read_response_length : ℕ → ℕ
modbus_get_expected_read_response_length num_regs = u16 (3 + num_regs * 2 + 2)
