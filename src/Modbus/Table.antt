-- ===== src/Modbus/Table.antt =====
-- The CRC-16 lookup table of src/modbus_rtu.cpp.
use bisso_e350_controller.Base.{ℕ, List, [], ◌∷◌}

abbrev pub crc16_table : List ℕ
crc16_table =
    0x0000 ∷ 0xcc01 ∷ 0xd801 ∷ 0x1400 ∷ 0xf001 ∷ 0x3c00 ∷ 0x2800 ∷ 0xe401 ∷ 0xa001 ∷ 0x6c00 ∷ 0x7800
    ∷ 0xb401 ∷ 0x5000 ∷ 0x9c01 ∷ 0x8801 ∷ 0x4400 ∷ 0x0400 ∷ 0xc801 ∷ 0xdc01 ∷ 0x1000 ∷ 0xf401
    ∷ 0x3800 ∷ 0x2c00 ∷ 0xe001 ∷ 0xa401 ∷ 0x6800 ∷ 0x7c00 ∷ 0xb001 ∷ 0x5400 ∷ 0x9801 ∷ 0x8c01
    ∷ 0x4000 ∷ 0x8c00 ∷ 0x4001 ∷ 0x5401 ∷ 0x9800 ∷ 0x7c01 ∷ 0xb000 ∷ 0xa400 ∷ 0x6801 ∷ 0x2c01
    ∷ 0xe000 ∷ 0xf400 ∷ 0x3801 ∷ 0xdc00 ∷ 0x1001 ∷ 0x0401 ∷ 0xc800 ∷ 0x8800 ∷ 0x4401 ∷ 0x5001
    ∷ 0x9c00 ∷ 0x7801 ∷ 0xb400 ∷ 0xa000 ∷ 0x6c01 ∷ 0x2801 ∷ 0xe400 ∷ 0xf000 ∷ 0x3c01 ∷ 0xd800
    ∷ 0x1401 ∷ 0x0001 ∷ 0xcc00 ∷ 0x0c01 ∷ 0xc000 ∷ 0xd400 ∷ 0x1801 ∷ 0xfc00 ∷ 0x3001 ∷ 0x2401
    ∷ 0xe800 ∷ 0xac00 ∷ 0x6001 ∷ 0x7401 ∷ 0xb800 ∷ 0x5c01 ∷ 0x9000 ∷ 0x8400 ∷ 0x4801 ∷ 0x0801
    ∷ 0xc400 ∷ 0xd000 ∷ 0x1c01 ∷ 0xf800 ∷ 0x3401 ∷ 0x2001 ∷ 0xec00 ∷ 0xa800 ∷ 0x6401 ∷ 0x7001
    ∷ 0xbc00 ∷ 0x5801 ∷ 0x9400 ∷ 0x8001 ∷ 0x4c00 ∷ 0x8401 ∷ 0x4800 ∷ 0x5c00 ∷ 0x9001 ∷ 0x7400
    ∷ 0xb801 ∷ 0xac00 ∷ 0x6000 ∷ 0x2400 ∷ 0xe801 ∷ 0xfc01 ∷ 0x3000 ∷ 0xd401 ∷ 0x1800 ∷ 0x0c00
    ∷ 0xc001 ∷ 0x8001 ∷ 0x4c00 ∷ 0x5800 ∷ 0x9401 ∷ 0x7000 ∷ 0xbc01 ∷ 0xa801 ∷ 0x6400 ∷ 0x2000
    ∷ 0xec01 ∷ 0xf801 ∷ 0x3400 ∷ 0xd001 ∷ 0x1c00 ∷ 0x0800 ∷ 0xc401 ∷ 0xc401 ∷ 0x0800 ∷ 0x1c00
    ∷ 0xd001 ∷ 0x3400 ∷ 0xf801 ∷ 0xec01 ∷ 0x2000 ∷ 0x6400 ∷ 0xa801 ∷ 0xbc01 ∷ 0x7000 ∷ 0x9401
    ∷ 0x5800 ∷ 0x4c00 ∷ 0x8001 ∷ 0xc001 ∷ 0x0c00 ∷ 0x1800 ∷ 0xd401 ∷ 0x3000 ∷ 0xfc01 ∷ 0xe801
    ∷ 0x2400 ∷ 0x6000 ∷ 0xac00 ∷ 0xb801 ∷ 0x7400 ∷ 0x9001 ∷ 0x5c00 ∷ 0x4800 ∷ 0x8401 ∷ 0x4c00
    ∷ 0x8001 ∷ 0x9401 ∷ 0x5800 ∷ 0xbc01 ∷ 0x7000 ∷ 0x6400 ∷ 0xa801 ∷ 0xec01 ∷ 0x2000 ∷ 0x3400
    ∷ 0xf801 ∷ 0x1c00 ∷ 0xd001 ∷ 0xc401 ∷ 0x0800 ∷ 0x4800 ∷ 0x8401 ∷ 0x9001 ∷ 0x5c00 ∷ 0xb801
    ∷ 0x7400 ∷ 0x6000 ∷ 0xac00 ∷ 0xe801 ∷ 0x2400 ∷ 0x3000 ∷ 0xfc01 ∷ 0x1800 ∷ 0xd401 ∷ 0xc001
    ∷ 0x0c00 ∷ 0xcc00 ∷ 0x0001 ∷ 0x1401 ∷ 0xd800 ∷ 0x3c01 ∷ 0xf000 ∷ 0xe400 ∷ 0x2801 ∷ 0x6c01
    ∷ 0xa000 ∷ 0xb400 ∷ 0x7801 ∷ 0x9c00 ∷ 0x5001 ∷ 0x4401 ∷ 0x8800 ∷ 0xc800 ∷ 0x0401 ∷ 0x1001
    ∷ 0xdc00 ∷ 0x3801 ∷ 0xf400 ∷ 0xe000 ∷ 0x2c01 ∷ 0x6801 ∷ 0xa400 ∷ 0xb000 ∷ 0x7c01 ∷ 0x9800
    ∷ 0x5401 ∷ 0x4001 ∷ 0x8c00 ∷ 0x4001 ∷ 0x8c00 ∷ 0x9800 ∷ 0x5401 ∷ 0xb000 ∷ 0x7c01 ∷ 0x6801
    ∷ 0xa400 ∷ 0xe000 ∷ 0x2c01 ∷ 0x3801 ∷ 0xf400 ∷ 0x1001 ∷ 0xdc00 ∷ 0xc800 ∷ 0x0401 ∷ 0x4401
    ∷ 0x8800 ∷ 0x9c00 ∷ 0x5001 ∷ 0xb400 ∷ 0x7801 ∷ 0x6c01 ∷ 0xa000 ∷ 0xe400 ∷ 0x2801 ∷ 0x3c01
    ∷ 0xf000 ∷ 0x1401 ∷ 0xd800 ∷ 0xcc00 ∷ 0x0001 ∷ []
