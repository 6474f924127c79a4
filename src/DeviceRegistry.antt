-- ===== src/DeviceRegistry.antt =====
-- The scheduler of the RS-485 bus (src/rs485_device_registry.cpp).
pub mod Devices
pub mod Bus
pub mod Order
pub mod Selection
pub mod Pending
pub mod Membership
pub mod Transactions
pub mod Wedge
mod Tests
