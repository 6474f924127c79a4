-- ===== src/Modbus/RoundTrip.antt =====
-- A frame that the code builds is accepted by its own checks, and register values come through.
use bisso_e350_controller.Base.{
  ℕ, ◌+◌, ◌*◌, ◌≡◌, refl, ◌∙◌, true, ◌&&◌, List, [], ◌∷◌, ◌++◌, arith, ◌==◌, if◌then◌else◌, length,
  u8,
}
use mathlib.Core.Path.{subst}
use bisso_e350_controller.Modbus.Crc.{modbus_crc16, modbus_verify_crc, word_le}
use bisso_e350_controller.Modbus.Request.{
  low_byte, high_byte, with_crc, register_bytes, modbus_read_registers_request,
  modbus_write_single_register_request, modbus_write_multiple_registers_request,
}
use bisso_e350_controller.Modbus.Response.{
  err_none, err_illegal_data_value, modbus_check_exception, modbus_parse_read_response,
  modbus_parse_write_response,
}
use bisso_e350_controller.Modbus.Sealed.{
  IsWord, word_of_bytes, with_crc_split, length-with_crc, modbus_verify_crc-with_crc,
}

length-register_bytes : (values : List ℕ) → length (register_bytes values) ≡ length values * 2
unfolding register_bytes
length-register_bytes [] = refl
length-register_bytes (v ∷ values) = omega (arith, length-register_bytes values)

-- The reply of a device to a read request, as the protocol lays it out: address, function code 3,
-- the byte count, the registers, the CRC.
abbrev read_reply_frame : ℕ → List ℕ → List ℕ
read_reply_frame slave values = slave ∷ 0x03 ∷ length values * 2 ∷ register_bytes values

abbrev pub read_reply : ℕ → List ℕ → List ℕ
read_reply slave values = with_crc (read_reply_frame slave values)

parse_write_of_verified :
    (slave reg value addr' value' : ℕ) (rest : List ℕ)
    → IsWord reg
    → IsWord value
    → let buffer =
        slave ∷ 0x06 ∷ high_byte reg ∷ low_byte reg ∷ high_byte value ∷ low_byte value ∷ rest in
      modbus_verify_crc buffer 8 ≡ true
      → modbus_parse_write_response buffer 8 addr' value'
        ≡ (if (reg == addr') && (value == value') then err_none else err_illegal_data_value)
unfolding modbus_parse_write_response modbus_check_exception
parse_write_of_verified slave reg value addr' value' rest hr hv v =
    rw (v, word_of_bytes reg hr, word_of_bytes value hv) (ground arith)

abbrev write_frame : ℕ → ℕ → ℕ → List ℕ
write_frame slave reg value =
    slave ∷ 0x06 ∷ high_byte reg ∷ low_byte reg ∷ high_byte value ∷ low_byte value ∷ []

-- A device that echoes a write of one register, as the protocol asks, is taken for a success when
-- the echo is of the address and the value that were expected, and refused with the code of an
-- illegal value otherwise.
pub parse_write-request :
    (slave reg value addr' value' : ℕ) (rest : List ℕ)
    → IsWord reg
    → IsWord value
    → modbus_parse_write_response
        (modbus_write_single_register_request slave reg value ++ rest)
        8
        addr'
        value'
      ≡ (if (reg == addr') && (value == value') then err_none else err_illegal_data_value)
unfolding modbus_write_single_register_request
parse_write-request slave reg value addr' value' rest hr hv =
    rw (with_crc_split (write_frame slave reg value) rest) (
      parse_write_of_verified slave reg value addr' value' _ hr hv (
        rw (← with_crc_split (write_frame slave reg value) rest)
          (modbus_verify_crc-with_crc (write_frame slave reg value) rest (omega arith))))

-- Each of the three builders closes its frame with a CRC that `modbusVerifyCrc` accepts, over a
-- frame of 8 bytes, or of 9 bytes and two for each register.
pub request_verified :
    (slave addr value : ℕ) (values rest : List ℕ)
    → (modbus_verify_crc (modbus_read_registers_request slave addr value ++ rest) 8 ≡ true)
      × (modbus_verify_crc (modbus_write_single_register_request slave addr value ++ rest) 8 ≡ true)
      × (modbus_verify_crc
            (modbus_write_multiple_registers_request slave addr values ++ rest)
            (9 + length values * 2)
          ≡ true)
      × (length (modbus_write_multiple_registers_request slave addr values) ≡ 9 + length values * 2)
unfolding modbus_read_registers_request modbus_write_single_register_request
    modbus_write_multiple_registers_request
request_verified slave addr value values rest = (
  modbus_verify_crc-with_crc _ rest (omega arith),
  modbus_verify_crc-with_crc _ rest (omega arith),
  subst (λ n. modbus_verify_crc (with_crc frame ++ rest) n ≡ true) total
      (modbus_verify_crc-with_crc frame rest (omega arith)),
  length-with_crc frame ∙ total,
)
  where
    frame : List ℕ
    frame =
        slave
        ∷ 0x10
        ∷ high_byte addr
        ∷ low_byte addr
        ∷ high_byte (length values)
        ∷ low_byte (length values)
        ∷ u8 (length values * 2)
        ∷ register_bytes values

    total : length frame + 2 ≡ 9 + length values * 2
    total = omega (arith, length-register_bytes values)

beyond_of_verified :
    (slave c c' hi lo : ℕ) (rest : List ℕ)
    → let buffer = slave ∷ 0x03 ∷ 4 ∷ c ∷ c' ∷ hi ∷ lo ∷ rest in
      modbus_verify_crc buffer 5 ≡ true
      → modbus_parse_read_response buffer 5 2 ≡ (err_none, word_le c' c ∷ word_le lo hi ∷ [])
unfolding modbus_parse_read_response modbus_check_exception
beyond_of_verified slave c c' hi lo rest v = rw v refl

-- The parser has no test that the frame holds the registers that its byte count announces: a
-- frame of 5 bytes with the byte count 4 and a CRC that verifies is accepted as two registers, of
-- which the first is read from the CRC and the second from behind the frame.
pub parse_read_beyond_frame :
    (slave hi lo : ℕ) (rest : List ℕ)
    → let frame = slave ∷ 0x03 ∷ 4 ∷ [] in
      let crc = modbus_crc16 frame 3 in
      modbus_parse_read_response (with_crc frame ++ (hi ∷ lo ∷ rest)) 5 2
      ≡ (err_none, word_le (high_byte crc) (low_byte crc) ∷ word_le lo hi ∷ [])
parse_read_beyond_frame slave hi lo rest =
    rw (with_crc_split (slave ∷ 0x03 ∷ 4 ∷ []) (hi ∷ lo ∷ rest)) (
      beyond_of_verified slave _ _ hi lo rest (
        rw (← with_crc_split (slave ∷ 0x03 ∷ 4 ∷ []) (hi ∷ lo ∷ rest))
          (modbus_verify_crc-with_crc (slave ∷ 0x03 ∷ 4 ∷ []) (hi ∷ lo ∷ rest) (omega arith))))
