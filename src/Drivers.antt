-- ===== src/Drivers.antt =====
-- drivers: the serial port.
pub mod Uart
