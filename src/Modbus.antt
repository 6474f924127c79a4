-- ===== src/Modbus.antt =====
-- The Modbus RTU framing of src/modbus_rtu.cpp: the CRC, the request builders and the response
-- parsers. A C buffer is the list of its bytes; a pair of buffer and length is passed as it is.
pub mod Table
pub mod Crc
pub mod Request
pub mod Response
pub mod Reference
pub mod Sealed
pub mod TableFault
pub mod RoundTrip
mod Tests
